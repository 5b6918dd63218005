-- ===== src/Prelude/Sorting.antt =====
-- Python's stable `sorted`, over references compared by a key.
use Prim.Native.Nat.{ℕ, suc}
use mathlib.Core.Path.{◌≡◌, refl}
use mathlib.Core.Logic.{◌⊎◌, inl, inr}
use mathlib.Core.Bool.{Bool, true, false}
use mathlib.Core.List.{List, [], ◌∷◌, ◌++◌}
use native.Mathlib.Omega.{arith}
use sts_agent.Prelude.Tests.{if◌then◌else◌, Bool-cases}
use sts_agent.Prelude.Lists.{length, All, All-map, All-append_right, split_last, All-split_last}
use sts_agent.Prelude.Bag.{
  contains, contains-count, count-contains, count, count-cons, Same, All-Same,
}

module _ (le : ℕ → ℕ → Bool) where
  insert_sorted : ℕ → List ℕ → List ℕ
  insert_sorted x [] = x ∷ []
  insert_sorted x (y ∷ ys) =
      let rest = insert_sorted x ys in if le x y then x ∷ y ∷ ys else y ∷ rest

  -- Equal keys keep their order, as in Python.
  unfoldable pub sorted : List ℕ → List ℕ
  unfolding insert_sorted
  sorted [] = []
  sorted (x ∷ xs) = insert_sorted x (sorted xs)

  -- Every element is at most each of those that follow it.
  abbrev pub IsSorted : List ℕ → Type 0
  IsSorted [] = Unit
  IsSorted (x ∷ xs) = All (λ y. le x y ≡ true) xs × IsSorted xs

  count-insert_sorted : (a x : ℕ) (xs : List ℕ) → count a (insert_sorted x xs) ≡ count a (x ∷ xs)
  unfolding insert_sorted
  count-insert_sorted a x [] = refl
  count-insert_sorted a x (y ∷ ys) = ground (
    arith,
    count-insert_sorted a x ys,
    count-cons a x ys,
    count-cons a x (y ∷ ys),
    count-cons a y ys,
    count-cons a y (insert_sorted x ys),
  )

  pub sorted-Same : (xs : List ℕ) → Same (sorted xs) xs
  unfolding sorted
  sorted-Same [] a = refl
  sorted-Same (x ∷ xs) a = omega (
    arith,
    count-insert_sorted a x (sorted xs),
    sorted-Same xs a,
    count-cons a x xs,
    count-cons a x (sorted xs),
  )

  pub contains-sorted : (a : ℕ) (xs : List ℕ) → contains a (sorted xs) ≡ contains a xs
  contains-sorted a xs = ground (
    arith,
    sorted-Same xs a,
    contains-count a xs,
    contains-count a (sorted xs),
    count-contains a xs,
    count-contains a (sorted xs),
  )

  length-insert_sorted : (x : ℕ) (xs : List ℕ) → length (insert_sorted x xs) ≡ suc (length xs)
  unfolding insert_sorted
  length-insert_sorted x [] = refl
  length-insert_sorted x (y ∷ ys) = ground (arith, length-insert_sorted x ys)

  pub length-sorted : (xs : List ℕ) → length (sorted xs) ≡ length xs
  unfolding sorted
  length-sorted [] = refl
  length-sorted (x ∷ xs) = omega (arith, length-insert_sorted x (sorted xs), length-sorted xs)

module _ (le : ℕ → ℕ → Bool) (total : (a b : ℕ) → (le a b ≡ true) ⊎ (le b a ≡ true))
    (trans : (a b c : ℕ) → le a b ≡ true → le b c ≡ true → le a c ≡ true) where
  ge_of_not_le : (a b : ℕ) → le a b ≡ false → le b a ≡ true
  ge_of_not_le a b h = ground (arith, total a b)

  All-insert_sorted :
      (z x : ℕ) (xs : List ℕ)
      → le z x ≡ true
      → All (λ y. le z y ≡ true) xs
      → All (λ y. le z y ≡ true) (insert_sorted le x xs)
  All-insert_sorted z x xs h hs =
      All-Same (λ y. le z y ≡ true) (x ∷ xs) (insert_sorted le x xs)
        (λ a. count-insert_sorted le a x xs) (h, hs)

  insert_sorted-IsSorted :
      (x : ℕ) (xs : List ℕ) → IsSorted le xs → IsSorted le (insert_sorted le x xs)
  unfolding insert_sorted
  insert_sorted-IsSorted x [] h = (tt, tt)
  insert_sorted-IsSorted x (y ∷ ys) h = elim (Bool-cases (le x y)) [
    | inl e ↦
        rw e ((e, All-map (λ z. le y z ≡ true) (λ z. le x z ≡ true) (λ z. trans x y z e) ys h.0), h)
    | inr e ↦
        rw e (All-insert_sorted y x ys (ge_of_not_le x y e) h.0, insert_sorted-IsSorted x ys h.1)
  ]

  pub sorted-IsSorted : (xs : List ℕ) → IsSorted le (sorted le xs)
  unfolding sorted
  sorted-IsSorted [] = tt
  sorted-IsSorted (x ∷ xs) = insert_sorted-IsSorted x (sorted le xs) (sorted-IsSorted xs)

-- The last element of a sorted list is the greatest.
pub split_last-IsSorted :
    (le : ℕ → ℕ → Bool) (x : ℕ) (xs : List ℕ)
    → IsSorted le (x ∷ xs)
    → All (λ y. le y (split_last x xs).1 ≡ true) (split_last x xs).0
      × IsSorted le (split_last x xs).0
split_last-IsSorted le x [] h = (tt, tt)
split_last-IsSorted le x (y ∷ ys) h =
    let (below, sorted_ys) = split_last-IsSorted le y ys h.1 in
    let (front, last) = All-split_last (λ z. le x z ≡ true) y ys h.0.0 h.0.1 in
    ((last, below), (front, sorted_ys))

-- In a sorted list the elements of a front part are at most those of the rest.
pub IsSorted-append :
    (le : ℕ → ℕ → Bool) (xs ys : List ℕ)
    → IsSorted le (xs ++ ys)
    → All (λ x. All (λ y. le x y ≡ true) ys) xs
IsSorted-append le [] ys h = tt
IsSorted-append le (x ∷ xs) ys h =
    (All-append_right (λ y. le x y ≡ true) xs ys h.0, IsSorted-append le xs ys h.1)
