-- ===== src/Ucmdb/Dump/Order.antt =====
-- utils/ucmdb/ucmdb_file_dump.py: the order of the files.
use text.Mathlib.Text.{◌==◌ as str_eq}
use text.Mathlib.TextEquality.{eq_iff}
use mathlib.Core.Option.{some-ne-none}
use sts_agent.Prelude.{
  ℕ, ◌≤◌, Bool, true, false, Option, none, some, String, [], ◌∷◌, map, All, All-map, if◌then◌else◌,
  leb, ◌≡◌, refl, ap, ◌∙◌, subst, arith, Bool-cases, inl, inr, leb→le,
}
use sts_agent.Prelude.Tests.{if_true, if_false}
use sts_agent.Prelude.Dicts.{lookup, IsDict}
use sts_agent.Prelude.Dicts.Gather.{not_sym}
use sts_agent.Ucmdb.Dump.{
  Dates, DumpStructure, insert_dated, sorted_dates, path_of, get_snapshots, get_increments,
}

-- No file is older than one before it.
abbrev pub IsAscending : Dates → Type 0
IsAscending [] = Unit
IsAscending (e ∷ dates) = All (λ f. e.1 ≤ f.1) dates × IsAscending dates

All-insert_dated :
    (P : String × ℕ → Type 0) (e : String × ℕ) (dates : Dates)
    → P e
    → All P dates
    → All P (insert_dated e dates)
unfolding insert_dated
All-insert_dated P e [] p h = (p, tt)
All-insert_dated P e (f ∷ dates) p h = elim (Bool-cases (leb e.1 f.1)) [
  | inl le ↦ rw le (p, h)
  | inr gt ↦ rw gt (h.0, All-insert_dated P e dates p h.1)
]

insert_dated-IsAscending :
    (e : String × ℕ) (dates : Dates) → IsAscending dates → IsAscending (insert_dated e dates)
unfolding insert_dated
insert_dated-IsAscending e [] h = (tt, tt)
insert_dated-IsAscending e (f ∷ dates) h = elim (Bool-cases (leb e.1 f.1)) [
  | inl le ↦ rw le (
    (
      leb→le e.1 f.1 le,
      All-map (λ g. f.1 ≤ g.1) (λ g. e.1 ≤ g.1) (λ g later. omega (arith, later, leb→le e.1 f.1 le))
          dates h.0,
    ),
    h,
  )
  | inr gt ↦ rw gt (
    All-insert_dated (λ g. f.1 ≤ g.1) e dates (ground arith) h.0,
    insert_dated-IsAscending e dates h.1,
  )
]

if_else : (b : Bool) (u v : Option ℕ) → b ≡ false → (if b then u else v) ≡ v
if_else b u v h = rw h refl

swap :
    (a b : Bool) (u v r : Option ℕ)
    → (a ≡ true → b ≡ false)
    → (if a then u else if b then v else r) ≡ (if b then v else if a then u else r)
swap true b u v r h = rw (h refl) refl
swap false b u v r h = refl

insert_dated-lookup :
    (k p : String) (x : ℕ) (dates : Dates)
    → lookup str_eq p dates ≡ none
    → lookup str_eq k (insert_dated (p, x) dates) ≡ lookup str_eq k ((p, x) ∷ dates)
unfolding insert_dated lookup
insert_dated-lookup k p x [] new = refl
insert_dated-lookup k p x ((q, y) ∷ dates) new = elim (Bool-cases (leb x y)) [
  | inl le ↦ rw le refl
  | inr gt ↦ elim (Bool-cases (str_eq q p)) [
    | inl e ↦
        absurd (some-ne-none y (if_true (str_eq q p) (some y) (lookup str_eq p dates) none e new))
    | inr e ↦
        let later = lookup str_eq k dates in
        let distinct : str_eq q k ≡ true → str_eq p k ≡ false = λ same.
          subst (λ j. str_eq p j ≡ false) ((eq_iff q k).0 same) (not_sym str_eq eq_iff q p e) in
        rw gt (
          ap (λ o. if str_eq q k then some y else o)
            (insert_dated-lookup k p x dates
              (if_false (str_eq q p) (some y) (lookup str_eq p dates) none e new))
          ∙ swap (str_eq q k) (str_eq p k) (some y) (some x) later distinct)
  ]
]

insert_dated-IsDict :
    (p : String) (x : ℕ) (dates : Dates)
    → lookup str_eq p dates ≡ none
    → IsDict str_eq dates
    → IsDict str_eq (insert_dated (p, x) dates)
unfolding insert_dated lookup
insert_dated-IsDict p x [] new h = (refl, tt)
insert_dated-IsDict p x ((q, y) ∷ dates) new h = elim (Bool-cases (leb x y)) [
  | inl le ↦ rw le (new, h)
  | inr gt ↦ elim (Bool-cases (str_eq q p)) [
    | inl e ↦
        absurd (some-ne-none y (if_true (str_eq q p) (some y) (lookup str_eq p dates) none e new))
    | inr e ↦
        let later = if_false (str_eq q p) (some y) (lookup str_eq p dates) none e new in
        rw gt (
          insert_dated-lookup q p x dates later
              ∙ if_else (str_eq p q) (some x) (lookup str_eq q dates) (not_sym str_eq eq_iff q p e)
              ∙ h.0,
          insert_dated-IsDict p x dates later h.1,
        )
  ]
]

lookup-cons :
    (k p : String) (x : ℕ) (d d' : Dates)
    → lookup str_eq k d ≡ lookup str_eq k d'
    → lookup str_eq k ((p, x) ∷ d) ≡ lookup str_eq k ((p, x) ∷ d')
unfolding lookup
lookup-cons k p x d d' h = ap (λ o. if str_eq p k then some x else o) h

-- The dictionary in the order of the dates.
abbrev pub IsOrdered : Dates → Dates → Type 0
IsOrdered sorted dates =
    IsAscending sorted
    × IsDict str_eq sorted
    × ((path : String) → lookup str_eq path sorted ≡ lookup str_eq path dates)

sorted_dates-IsOrdered :
    (dates : Dates) → IsDict str_eq dates → IsOrdered (sorted_dates dates) dates
unfolding sorted_dates
sorted_dates-IsOrdered [] h = (tt, tt, λ path. refl)
sorted_dates-IsOrdered ((p, x) ∷ dates) (new, h) =
    let (ascending, distinct, same) = sorted_dates-IsOrdered dates h in
    (
      insert_dated-IsAscending (p, x) (sorted_dates dates) ascending,
      insert_dated-IsDict p x (sorted_dates dates) (same p ∙ new) distinct,
      λ path.
          insert_dated-lookup path p x (sorted_dates dates) (same p ∙ new)
          ∙ lookup-cons path p x (sorted_dates dates) dates (same path),
    )

-- If the dates of a structure are dictionaries, get_snapshots has the path of each snapshot once,
-- from the oldest to the newest, and get_increments that of each increment.
pub get_snapshots-IsOrdered :
    (s : DumpStructure)
    → IsDict str_eq s.snapshot_dates
    → IsDict str_eq s.increment_dates
    → ((dates : Dates) × (get_snapshots s ≡ map path_of dates) × IsOrdered dates s.snapshot_dates)
      × ((dates : Dates) × (get_increments s ≡ map path_of dates)
          × IsOrdered dates s.increment_dates)
unfolding get_snapshots get_increments
get_snapshots-IsOrdered s h k = (
  (sorted_dates s.snapshot_dates, refl, sorted_dates-IsOrdered s.snapshot_dates h),
  (sorted_dates s.increment_dates, refl, sorted_dates-IsOrdered s.increment_dates k),
)
