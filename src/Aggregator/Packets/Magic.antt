-- ===== src/Aggregator/Packets/Magic.antt =====
-- aggregator.py, _extract_magic_tags: the tags that are left.
use text.Mathlib.Text.{◌==◌ as str_eq}
use text.Mathlib.TextEquality.{eq_iff}
use sts_agent.Prelude.{
  true, false, not, some, List, [], ◌∷◌, String, All, All-select, select, ◌≡◌, refl, ap, ◌∙◌, inl,
  inr, Bool-cases, arith,
}
use sts_agent.Aggregator.State.{or_else}
use sts_agent.Aggregator.Packets.{
  is_magic, remove_tag, remove_tags, or_none, left_of, extract_magic_tags,
}

differs : (s t : String) → is_magic s ≡ true → is_magic t ≡ false → str_eq t s ≡ false
differs s t h k = elim (Bool-cases (str_eq t s)) [
  | inl e ↦ absurd (ground (arith, ap is_magic ((eq_iff t s).0 e)))
  | inr e ↦ e
]

-- A tag that is not magic is not removed.
remove_tags-cons :
    (to_remove : List String) (t : String) (ts : List String)
    → All (λ s. is_magic s ≡ true) to_remove
    → is_magic t ≡ false
    → remove_tags to_remove (t ∷ ts) ≡ t ∷ remove_tags to_remove ts
unfolding remove_tags remove_tag
remove_tags-cons [] t ts h k = refl
remove_tags-cons (s ∷ ss) t ts h k =
    rw (differs s t h.0 k) (remove_tags-cons ss t (remove_tag s ts) h.1 k)

remove_tag_head : (t : String) (ts : List String) → remove_tag t (t ∷ ts) ≡ ts
unfolding remove_tag
remove_tag_head t ts = rw ((eq_iff t t).1 refl) refl

remove_tags-select :
    (tags : List String)
    → remove_tags (select is_magic tags) tags ≡ select (λ t. not (is_magic t)) tags
unfolding remove_tags remove_tag
remove_tags-select [] = refl
remove_tags-select (t ∷ ts) = elim (Bool-cases (is_magic t)) [
  | inl e ↦
      rw e (ap (remove_tags (select is_magic ts)) (remove_tag_head t ts) ∙ remove_tags-select ts)
  | inr e ↦ rw e (
      remove_tags-cons (select is_magic ts) t ts (All-select is_magic ts) e
      ∙ ap (λ l. t ∷ l) (remove_tags-select ts))
]

or_none_else : (tags : List String) → or_else (or_none tags) [] ≡ tags
or_none_else [] = refl
or_none_else (t ∷ ts) = refl

left_of_else :
    (to_remove tags : List String)
    → or_else (left_of to_remove tags) [] ≡ remove_tags to_remove tags
unfolding remove_tags
left_of_else [] tags = refl
left_of_else (t ∷ ts) tags = or_none_else (remove_tags (t ∷ ts) tags)

-- Exactly the tags that are not magic are left, in their order and each as often, whether or not
-- there are magic ones.
pub extract_magic_tags_left :
    (tags : List String)
    → or_else (extract_magic_tags (some tags)).1 [] ≡ select (λ t. not (is_magic t)) tags
unfolding extract_magic_tags
extract_magic_tags_left tags = left_of_else (select is_magic tags) tags ∙ remove_tags-select tags
