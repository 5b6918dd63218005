-- ===== src/Ucmdb/Dump/Changes.antt =====
-- utils/ucmdb/ucmdb_file_dump.py: has_changes compares the two dictionaries of dates.
use text.Mathlib.Text.{◌==◌ as str_eq}
use text.Mathlib.TextEquality.{eq_iff}
use mathlib.Core.Option.{some-injective, some-ne-none, none-ne-some}
use sts_agent.Prelude.{
  ℕ, Bool, true, false, none, some, String, List, [], ◌∷◌, select, ◌==◌, ==_iff, not, ltb, length,
  All, All-map, ◌≡◌, ◌↔◌, refl, sym, ap, ◌∙◌, subst, arith, Bool-cases, Option-cases, inl, inr,
}
use sts_agent.Prelude.Tests.{if_true, if_false}
use sts_agent.Prelude.Dicts.{lookup, IsDict, AllEntries, AllEntries-lookup, IsDict-AllEntries}
use sts_agent.Ucmdb.Dump.{Dates, DumpStructure, has_item, added_items, has_changes}

-- Each entry of the first one is an entry of the second one.
abbrev Within : Dates → Dates → Type 0
Within a b = AllEntries (λ path date. has_item path date b ≡ true) a

module _ {A : Type 0} (p : A → Bool) where
  select_none : (xs : List A) → ltb 0 (length (select p xs)) ≡ false → All (λ x. p x ≡ false) xs
  select_none [] h = tt
  select_none (x ∷ xs) h = ground (arith, select_none xs)

  none_select : (xs : List A) → All (λ x. p x ≡ false) xs → ltb 0 (length (select p xs)) ≡ false
  none_select [] h = refl
  none_select (x ∷ xs) (h, hs) = ground (arith, none_select xs hs)

not-false : (b : Bool) → not b ≡ false → b ≡ true
not-false b h = ground arith

has_item-lookup :
    (path : String) (date : ℕ) (b : Dates)
    → IsDict str_eq b
    → has_item path date b ≡ true
    → lookup str_eq path b ≡ some date
unfolding lookup
has_item-lookup path date [] d h = absurd (ground arith)
has_item-lookup path date ((p, x) ∷ b) (new, d) h = elim (Bool-cases (str_eq p path)) [
  | inl e ↦ elim (Bool-cases (x == date)) [
    | inl f ↦ rw e (ap some ((==_iff x date).0 f))
    | inr f ↦
        let later : has_item path date b ≡ true = ground arith in
        let there = has_item-lookup path date b d later in
        absurd (
          some-ne-none date
            (sym there ∙ subst (λ q. lookup str_eq q b ≡ none) ((eq_iff p path).0 e) new))
  ]
  | inr e ↦ rw e (has_item-lookup path date b d (ground arith))
]

lookup-has_item :
    (path : String) (date : ℕ) (b : Dates)
    → lookup str_eq path b ≡ some date
    → has_item path date b ≡ true
unfolding lookup
lookup-has_item path date [] h = absurd (none-ne-some date h)
lookup-has_item path date ((p, x) ∷ b) h = elim (Bool-cases (str_eq p path)) [
  | inl e ↦
      let same =
        some-injective x date
          (if_true (str_eq p path) (some x) (lookup str_eq path b) (some date) e h) in
      ground (arith, ==_iff x date)
  | inr e ↦
      let later =
        lookup-has_item path date b
          (if_false (str_eq p path) (some x) (lookup str_eq path b) (some date) e h) in
      ground arith
]

-- Each date of the first one is that of the second one.
abbrev Follows : Dates → Dates → Type 0
Follows a b =
    (path : String) (date : ℕ) → lookup str_eq path a ≡ some date → lookup str_eq path b ≡ some date

abbrev is_new : Dates → String × ℕ → Bool
is_new b item = not (has_item item.0 item.1 b)

added_items-Follows :
    (a b : Dates) → IsDict str_eq b → ltb 0 (length (added_items a b)) ≡ false → Follows a b
added_items-Follows a b distinct h path date there = has_item-lookup path date b distinct (
    not-false (has_item path date b) (
      AllEntries-lookup str_eq eq_iff (λ p d. is_new b (p, d) ≡ false) path date a
        (select_none (is_new b) a h) there))

Follows-added_items :
    (a b : Dates) → IsDict str_eq a → Follows a b → ltb 0 (length (added_items a b)) ≡ false
Follows-added_items a b distinct h = none_select (is_new b) a (
    All-map (λ x. lookup str_eq x.0 a ≡ some x.1) (λ x. is_new b x ≡ false)
      (λ x e. let there = lookup-has_item x.0 x.1 b (h x.0 x.1 e) in ground arith) a
      (IsDict-AllEntries str_eq eq_iff a distinct))

Follows-both :
    (a b : Dates)
    → Follows a b
    → Follows b a
    → (path : String) → lookup str_eq path a ≡ lookup str_eq path b
Follows-both a b h k path = elim (Option-cases (lookup str_eq path a)) [
  | inl none_a ↦ elim (Option-cases (lookup str_eq path b)) [
    | inl none_b ↦ none_a ∙ sym none_b
    | inr (date, e) ↦ k path date e ∙ sym e
  ]
  | inr (date, e) ↦ e ∙ sym (h path date e)
]

abbrev pub AreDicts : DumpStructure → Type 0
AreDicts s = IsDict str_eq s.snapshot_dates × IsDict str_eq s.increment_dates

-- The two have the same files, with the same dates.
abbrev pub SameDates : Dates → Dates → Type 0
SameDates a b = (path : String) → lookup str_eq path a ≡ lookup str_eq path b

SameDates-of :
    (a b : Dates)
    → IsDict str_eq a
    → IsDict str_eq b
    → ltb 0 (length (added_items a b)) ≡ false
    → ltb 0 (length (added_items b a)) ≡ false
    → SameDates a b
SameDates-of a b da db h k =
    Follows-both a b (added_items-Follows a b db h) (added_items-Follows b a da k)

added_items_of :
    (a b : Dates) → IsDict str_eq a → SameDates a b → ltb 0 (length (added_items a b)) ≡ false
added_items_of a b da same = Follows-added_items a b da (λ path date e. sym (same path) ∙ e)

-- Of two dumps, each with dictionaries of dates, has_changes is false exactly if the two have the
-- same snapshots and the same increments, each file with the same date.
pub has_changes_iff :
    (s previous : DumpStructure)
    → AreDicts s
    → AreDicts previous
    → (has_changes s previous ≡ false) ↔ (
        SameDates s.snapshot_dates previous.snapshot_dates
        × SameDates s.increment_dates previous.increment_dates)
unfolding has_changes
has_changes_iff s previous (ds, di) (ps, pi) = (
  (λ h. (
    SameDates-of s.snapshot_dates previous.snapshot_dates ds ps (ground arith) (ground arith),
    SameDates-of s.increment_dates previous.increment_dates di pi (ground arith) (ground arith),
  )),
  λ (snapshots, increments).
      let a = added_items_of s.snapshot_dates previous.snapshot_dates ds snapshots in
      let b = added_items_of previous.snapshot_dates s.snapshot_dates ps (λ p. sym (snapshots p)) in
      let c = added_items_of s.increment_dates previous.increment_dates di increments in
      let d =
        added_items_of previous.increment_dates s.increment_dates pi (λ p. sym (increments p)) in
      ground arith,
)
