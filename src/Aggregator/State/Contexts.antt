-- ===== src/Aggregator/State/Contexts.antt =====
-- aggregator.py: equality of contexts, the tuples that are the keys of the dictionaries.
use text.Mathlib.Text.{◌==◌ as str_eq}
use text.Mathlib.TextEquality.{eq_iff}
use sts_agent.Prelude.{
  Bool, true, ◌&&◌, Option, none, some, List, [], ◌∷◌, String, ◌≡◌, ◌↔◌, refl, ap, subst, arith,
}
use sts_agent.Aggregator.State.{Context, same, same_strings, same_device}

pub and_true : (a b : Bool) → (a && b ≡ true) ↔ ((a ≡ true) × (b ≡ true))
and_true a b = ground arith

pub same_strings→eq : (ss ts : List String) → same_strings ss ts ≡ true → ss ≡ ts
unfolding same_strings
same_strings→eq [] [] h = refl
same_strings→eq [] (t ∷ ts) h = absurd (ground arith)
same_strings→eq (s ∷ ss) [] h = absurd (ground arith)
same_strings→eq (s ∷ ss) (t ∷ ts) h =
    let (first, rest) = (and_true (str_eq s t) (same_strings ss ts)).0 h in
    cc ((eq_iff s t).0 first, same_strings→eq ss ts rest)

pub same_strings_refl : (ss : List String) → same_strings ss ss ≡ true
unfolding same_strings
same_strings_refl [] = refl
same_strings_refl (s ∷ ss) = rw ((eq_iff s s).1 refl) (same_strings_refl ss)

pub same_device→eq : (d e : Option String) → same_device d e ≡ true → d ≡ e
unfolding same_device
same_device→eq none none h = refl
same_device→eq none (some t) h = absurd (ground arith)
same_device→eq (some s) none h = absurd (ground arith)
same_device→eq (some s) (some t) h = ap (λ x. some x) ((eq_iff s t).0 h)

pub same_device_refl : (d : Option String) → same_device d d ≡ true
unfolding same_device
same_device_refl none = refl
same_device_refl (some s) = (eq_iff s s).1 refl

same→eq : (a b : Context) → same a b ≡ true → a ≡ b
unfolding same
same→eq a b h =
    let names = str_eq a.name b.name in
    let tags = same_strings a.tags b.tags in
    let hosts = str_eq a.hostname b.hostname in
    let (t1, h4) =
      (and_true (names && tags && hosts) (same_device a.device_name b.device_name)).0 h in
    let (t2, h3) = (and_true (names && tags) hosts).0 t1 in
    let (h1, h2) = (and_true names tags).0 t2 in
    cc (
      (eq_iff a.name b.name).0 h1,
      same_strings→eq a.tags b.tags h2,
      (eq_iff a.hostname b.hostname).0 h3,
      same_device→eq a.device_name b.device_name h4,
    )

same_refl : (a : Context) → same a a ≡ true
unfolding same
same_refl a =
    rw
      (
        (eq_iff a.name a.name).1 refl,
        same_strings_refl a.tags,
        (eq_iff a.hostname a.hostname).1 refl,
        same_device_refl a.device_name,
      )
      refl

-- The test finds exactly the equal contexts.
pub same_iff : (a b : Context) → (same a b ≡ true) ↔ (a ≡ b)
same_iff a b = (same→eq a b, λ e. subst (λ c. same a c ≡ true) e (same_refl a))
