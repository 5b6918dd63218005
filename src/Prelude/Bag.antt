-- ===== src/Prelude/Bag.antt =====
-- Lists of object references counted as multisets, and removal of the first occurrence.
use Prim.Native.Nat.{ℕ, suc, ◌+◌, ◌≤◌}
use mathlib.Core.Path.{◌≡◌, refl, ap, subst}
use mathlib.Core.Logic.{inl, inr}
use mathlib.Core.Bool.{Bool, true, false, ◌||◌}
use mathlib.Core.List.{List, [], ◌∷◌, ◌++◌}
use native.Mathlib.Omega.{arith}
use sts_agent.Prelude.Tests.{◌==◌, ==_iff, Bool-cases, if◌then◌else◌}
use sts_agent.Prelude.Lists.{length, sum_by, All, select}

pub count : ℕ → List ℕ → ℕ
count a [] = 0
count a (x ∷ xs) = (if x == a then 1 else 0) + count a xs

-- `a in xs`
unfoldable pub contains : ℕ → List ℕ → Bool
contains a [] = false
contains a (x ∷ xs) = x == a || contains a xs

-- `xs.remove(a)` where `a` is in the list.
unfoldable pub remove_first : ℕ → List ℕ → List ℕ
remove_first a [] = []
remove_first a (x ∷ xs) = let rest = remove_first a xs in if x == a then xs else x ∷ rest

pub count-append : (a : ℕ) (xs ys : List ℕ) → count a (xs ++ ys) ≡ count a xs + count a ys
unfolding count
count-append a [] ys = omega arith
count-append a (x ∷ xs) ys = omega (arith, count-append a xs ys)

pub count-nil : (a : ℕ) → count a [] ≡ 0
unfolding count
count-nil a = refl

pub count-cons : (a x : ℕ) (xs : List ℕ) → count a (x ∷ xs) ≡ (if x == a then 1 else 0) + count a xs
unfolding count
count-cons a x xs = refl

pub contains-count : (a : ℕ) (xs : List ℕ) → contains a xs ≡ true → 1 ≤ count a xs
unfolding contains count
contains-count a [] h = ground arith
contains-count a (x ∷ xs) h = ground (arith, contains-count a xs)

pub count-contains : (a : ℕ) (xs : List ℕ) → contains a xs ≡ false → count a xs ≡ 0
unfolding contains count
count-contains a [] h = refl
count-contains a (x ∷ xs) h = ground (arith, count-contains a xs)

pub count-remove_first :
    (a b : ℕ) (xs : List ℕ)
    → contains a xs ≡ true
    → count b xs ≡ (if a == b then 1 else 0) + count b (remove_first a xs)
unfolding contains count remove_first
count-remove_first a b [] h = ground arith
count-remove_first a b (x ∷ xs) h = ground (arith, count-remove_first a b xs)

pub length-remove_first :
    (a : ℕ) (xs : List ℕ) → contains a xs ≡ true → length xs ≡ suc (length (remove_first a xs))
unfolding contains remove_first
length-remove_first a [] h = ground arith
length-remove_first a (x ∷ xs) h = ground (arith, length-remove_first a xs)

pub sum_by-remove_first :
    (f : ℕ → ℕ) (a : ℕ) (xs : List ℕ)
    → contains a xs ≡ true
    → sum_by f xs ≡ f a + sum_by f (remove_first a xs)
unfolding contains remove_first
sum_by-remove_first f a [] h = ground arith
sum_by-remove_first f a (x ∷ xs) h = ground (arith, sum_by-remove_first f a xs)

if_All {ℓ κ} :
    {A : Type ℓ} (P : A → Type κ) (b : Bool) (xs ys : List A)
    → All P xs
    → All P ys
    → All P (if b then xs else ys)
if_All P true xs ys hx hy = hx
if_All P false xs ys hx hy = hy

pub All-remove_first {κ} :
    (P : ℕ → Type κ) (a : ℕ) (xs : List ℕ) → All P xs → All P (remove_first a xs)
unfolding remove_first
All-remove_first P a [] h = tt
All-remove_first P a (x ∷ xs) h =
    if_All P (x == a) xs (x ∷ remove_first a xs) h.1 (h.0, All-remove_first P a xs h.1)

-- The two lists hold the same references, each as often.
abbrev pub Same : List ℕ → List ℕ → Type 0
Same xs ys = (a : ℕ) → count a xs ≡ count a ys

pub All-count {κ} : (P : ℕ → Type κ) (a : ℕ) (xs : List ℕ) → All P xs → 1 ≤ count a xs → P a
unfolding count
All-count P a [] h m = absurd (omega arith)
All-count P a (x ∷ xs) h m = elim (Bool-cases (x == a)) [
  | inl e ↦ subst P ((==_iff x a).0 e) h.0
  | inr e ↦ All-count P a xs h.1 (ground arith)
]

pub count-All {κ} : (P : ℕ → Type κ) (xs : List ℕ) → ((a : ℕ) → 1 ≤ count a xs → P a) → All P xs
unfolding count
count-All P [] h = tt
count-All P (x ∷ xs) h = (h x (ground arith), count-All P xs (λ a m. h a (omega arith)))

-- What holds of each element of a list holds of each element of a rearrangement of it.
pub All-Same {κ} : (P : ℕ → Type κ) (xs ys : List ℕ) → Same ys xs → All P xs → All P ys
All-Same P xs ys same h = count-All P ys (λ a m. All-count P a xs h (omega (arith, same a)))

-- What a filter keeps, each as often as it stood in the list.
pub count-select :
    (p : ℕ → Bool) (a : ℕ) (xs : List ℕ) → count a (select p xs) ≡ (if p a then count a xs else 0)
unfolding count
count-select p a [] = ground arith
count-select p a (x ∷ xs) = elim (Bool-cases (x == a)) [
  | inl e ↦ ground (arith, count-select p a xs, ap p ((==_iff x a).0 e))
  | inr e ↦ ground (arith, count-select p a xs)
]
