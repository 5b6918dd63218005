-- ===== src/Prelude/Dicts.antt =====
-- Python's dictionaries as association lists in the order of insertion.
pub mod Gather
use Prim.Native.Nat.{suc}
use mathlib.Core.Path.{◌≡◌, refl, ap, sym, subst, ◌∙◌}
use mathlib.Core.Logic.{◌↔◌, inl, inr}
use mathlib.Core.Bool.{Bool, true, false, true≢false}
use mathlib.Core.Option.{Option, none, some, some-injective, none-ne-some, some-ne-none}
use mathlib.Core.List.{List, [], ◌∷◌, ◌++◌, append-nil, append_assoc}
use sts_agent.Prelude.Lists.{All, All-map, length}
use sts_agent.Prelude.Tests.{if◌then◌else◌, Bool-cases, if_true, if_false}

module _ {ℓ} {K W : Type ℓ} (eq : K → K → Bool) where
  -- `d.get(k)`
  unfoldable pub lookup : K → List (K × W) → Option W
  lookup k [] = none
  lookup k ((k', w) ∷ d) = let rest = lookup k d in if eq k' k then some w else rest

  -- `d[k] = w`
  unfoldable pub insert : K → W → List (K × W) → List (K × W)
  insert k w [] = (k, w) ∷ []
  insert k w ((k', w') ∷ d) =
      let rest = insert k w d in if eq k' k then (k', w) ∷ d else (k', w') ∷ rest

  -- `d.pop(k, None)`
  unfoldable pub pop : K → List (K × W) → List (K × W)
  pop k [] = []
  pop k ((k', w) ∷ d) = let rest = pop k d in if eq k' k then rest else (k', w) ∷ rest

-- A predicate on the values of a dictionary.
abbrev pub AllValues {ℓ κ} : {K W : Type ℓ} → (W → Type κ) → List (K × W) → Type κ
AllValues Q d = All (λ e. Q e.1) d

-- A predicate on the entries of a dictionary.
abbrev pub AllEntries {ℓ κ} : {K W : Type ℓ} → (K → W → Type κ) → List (K × W) → Type κ
AllEntries Q d = All (λ e. Q e.0 e.1) d

-- No key stands twice.
abbrev pub IsDict {ℓ} : {K W : Type ℓ} → (K → K → Bool) → List (K × W) → Type ℓ
IsDict eq [] = Unit
IsDict eq ((k, w) ∷ d) = (lookup eq k d ≡ none) × IsDict eq d

module _ {ℓ} {K W : Type ℓ} (eq : K → K → Bool) where
  pub AllValues-insert {κ} :
      (Q : W → Type κ) (k : K) (w : W) (d : List (K × W))
      → Q w
      → AllValues Q d
      → AllValues Q (insert eq k w d)
  unfolding insert
  AllValues-insert Q k w [] q h = (q, tt)
  AllValues-insert Q k w ((k', w') ∷ d) q h = elim (Bool-cases (eq k' k)) [
    | inl e ↦ rw e (q, h.1)
    | inr e ↦ rw e (h.0, AllValues-insert Q k w d q h.1)
  ]

module _ {ℓ} {K : Type ℓ} (eq : K → K → Bool) (eq_iff : (a b : K) → (eq a b ≡ true) ↔ (a ≡ b)) where
  pub eq_refl : (k : K) → eq k k ≡ true
  eq_refl k = (eq_iff k k).1 refl

module _ {ℓ} {K W : Type ℓ} (eq : K → K → Bool)
    (eq_iff : (a b : K) → (eq a b ≡ true) ↔ (a ≡ b)) where
  pub lookup-insert : (k : K) (w : W) (d : List (K × W)) → lookup eq k (insert eq k w d) ≡ some w
  unfolding lookup insert
  lookup-insert k w [] = rw (eq_refl eq eq_iff k) refl
  lookup-insert k w ((k', w') ∷ d) = elim (Bool-cases (eq k' k)) [
    | inl e ↦ rw (e, e) refl
    | inr e ↦ rw (e, e) (lookup-insert k w d)
  ]

  -- The later value of a key stays.
  pub insert-insert_later :
      (k : K) (v w : W) (d : List (K × W)) → insert eq k w (insert eq k v d) ≡ insert eq k w d
  unfolding insert
  insert-insert_later k v w [] = rw (eq_refl eq eq_iff k) refl
  insert-insert_later k v w ((k', w') ∷ d) = elim (Bool-cases (eq k' k)) [
    | inl e ↦ rw (e, e) refl
    | inr e ↦ rw (e, e) (ap (λ r. (k', w') ∷ r) (insert-insert_later k v w d))
  ]

  pub insert-insert :
      (k : K) (w : W) (d : List (K × W)) → insert eq k w (insert eq k w d) ≡ insert eq k w d
  insert-insert k w d = insert-insert_later k w w d

  -- A value replaced is no new entry.
  pub length-insert :
      (k : K) (v w : W) (d : List (K × W))
      → lookup eq k d ≡ some v
      → length (insert eq k w d) ≡ length d
  unfolding lookup insert
  length-insert k v w [] h = absurd (none-ne-some v h)
  length-insert k v w ((k', w') ∷ d) h = elim (Bool-cases (eq k' k)) [
    | inl e ↦ rw e refl
    | inr e ↦
        rw e (
          ap suc
            (length-insert k v w d (if_false (eq k' k) (some w') (lookup eq k d) (some v) e h)))
  ]

  pub lookup-insert_other :
      (j k : K) (w : W) (d : List (K × W))
      → eq k j ≡ false
      → lookup eq j (insert eq k w d) ≡ lookup eq j d
  unfolding lookup insert
  lookup-insert_other j k w [] h = rw h refl
  lookup-insert_other j k w ((k', w') ∷ d) h = elim (Bool-cases (eq k' k)) [
    | inl e ↦
        let other : eq k' j ≡ false = ap (λ x. eq x j) ((eq_iff k' k).0 e) ∙ h in
        rw e (rw other refl)
    | inr e ↦ rw e (ap (λ o. if eq k' j then some w' else o) (lookup-insert_other j k w d h))
  ]

  pub lookup-pop : (k : K) (d : List (K × W)) → lookup eq k (pop eq k d) ≡ none
  unfolding lookup pop
  lookup-pop k [] = refl
  lookup-pop k ((k', w) ∷ d) = elim (Bool-cases (eq k' k)) [
    | inl e ↦ rw e (lookup-pop k d)
    | inr e ↦ rw (e, e) (lookup-pop k d)
  ]

  pub lookup-pop_other :
      (j k : K) (d : List (K × W)) → eq k j ≡ false → lookup eq j (pop eq k d) ≡ lookup eq j d
  unfolding lookup pop
  lookup-pop_other j k [] h = refl
  lookup-pop_other j k ((k', w) ∷ d) h = elim (Bool-cases (eq k' k)) [
    | inl e ↦
        let other : eq k' j ≡ false = ap (λ x. eq x j) ((eq_iff k' k).0 e) ∙ h in
        rw (e, other) (lookup-pop_other j k d h)
    | inr e ↦ rw e (ap (λ o. if eq k' j then some w else o) (lookup-pop_other j k d h))
  ]

  pub lookup-insert_if :
      (j k : K) (w : W) (d : List (K × W))
      → lookup eq j (insert eq k w d) ≡ (if eq k j then some w else lookup eq j d)
  lookup-insert_if j k w d = elim (Bool-cases (eq k j)) [
    | inl e ↦ rw e (
        subst (λ i. lookup eq i (insert eq k w d) ≡ some w) ((eq_iff k j).0 e)
          (lookup-insert k w d))
    | inr e ↦ rw e (lookup-insert_other j k w d e)
  ]

  pub lookup-pop_if :
      (j k : K) (d : List (K × W))
      → lookup eq j (pop eq k d) ≡ (if eq k j then none else lookup eq j d)
  lookup-pop_if j k d = elim (Bool-cases (eq k j)) [
    | inl e ↦
        rw e (subst (λ i. lookup eq i (pop eq k d) ≡ none) ((eq_iff k j).0 e) (lookup-pop k d))
    | inr e ↦ rw e (lookup-pop_other j k d e)
  ]

  pub AllEntries-insert {κ} :
      (Q : K → W → Type κ) (k : K) (w : W) (d : List (K × W))
      → Q k w
      → AllEntries Q d
      → AllEntries Q (insert eq k w d)
  unfolding insert
  AllEntries-insert Q k w [] q h = (q, tt)
  AllEntries-insert Q k w ((k', w') ∷ d) q h = elim (Bool-cases (eq k' k)) [
    | inl e ↦ rw e (subst (λ j. Q j w) (sym ((eq_iff k' k).0 e)) q, h.1)
    | inr e ↦ rw e (h.0, AllEntries-insert Q k w d q h.1)
  ]

  pub AllEntries-pop {κ} :
      (Q : K → W → Type κ) (k : K) (d : List (K × W)) → AllEntries Q d → AllEntries Q (pop eq k d)
  unfolding pop
  AllEntries-pop Q k [] h = tt
  AllEntries-pop Q k ((k', w) ∷ d) h = elim (Bool-cases (eq k' k)) [
    | inl e ↦ rw e (AllEntries-pop Q k d h.1)
    | inr e ↦ rw e (h.0, AllEntries-pop Q k d h.1)
  ]

  -- The entry that a lookup finds.
  pub AllEntries-lookup {κ} :
      (Q : K → W → Type κ) (k : K) (w : W) (d : List (K × W))
      → AllEntries Q d
      → lookup eq k d ≡ some w
      → Q k w
  unfolding lookup
  AllEntries-lookup Q k w [] h e = absurd (none-ne-some w e)
  AllEntries-lookup Q k w ((k', w') ∷ d) h e = elim (Bool-cases (eq k' k)) [
    | inl same ↦
        let is_w : some w' ≡ some w = if_true (eq k' k) (some w') (lookup eq k d) (some w) same e in
        subst (λ j. Q j w) ((eq_iff k' k).0 same) (subst (Q k') (some-injective w' w is_w) h.0)
    | inr other ↦
        AllEntries-lookup Q k w d h.1
          (if_false (eq k' k) (some w') (lookup eq k d) (some w) other e)
  ]

  pub insert_new :
      (k : K) (w : W) (d : List (K × W)) → lookup eq k d ≡ none → insert eq k w d ≡ d ++ (k, w) ∷ []
  unfolding lookup insert
  insert_new k w [] h = refl
  insert_new k w ((k', w') ∷ d) h = elim (Bool-cases (eq k' k)) [
    | inl e ↦ absurd (some-ne-none w' (if_true (eq k' k) (some w') (lookup eq k d) none e h))
    | inr e ↦ rw e (
        ap (λ r. (k', w') ∷ r)
          (insert_new k w d (if_false (eq k' k) (some w') (lookup eq k d) none e h)))
  ]

  lookup-older :
      (j k : K) (v w : W) (d : List (K × W))
      → lookup eq k d ≡ none
      → lookup eq j d ≡ some v
      → lookup eq j ((k, w) ∷ d) ≡ some v
  unfolding lookup
  lookup-older j k v w d new h = elim (Bool-cases (eq k j)) [
    | inl e ↦
        absurd (some-ne-none v (sym h ∙ subst (λ i. lookup eq i d ≡ none) ((eq_iff k j).0 e) new))
    | inr e ↦ rw e h
  ]

  -- A lookup finds each entry.
  pub IsDict-AllEntries :
      (d : List (K × W)) → IsDict eq d → AllEntries (λ k w. lookup eq k d ≡ some w) d
  unfolding lookup
  IsDict-AllEntries [] h = tt
  IsDict-AllEntries ((k, w) ∷ d) (new, h) = (
    rw (eq_refl eq eq_iff k) refl,
    All-map (λ e. lookup eq e.0 d ≡ some e.1) (λ e. lookup eq e.0 ((k, w) ∷ d) ≡ some e.1)
        (λ e. lookup-older e.0 k e.1 w d new) d (IsDict-AllEntries d h),
  )
