-- ===== src/Prelude/Dicts/Gather.antt =====
-- A dictionary that a loop fills with the entries of another one.
use mathlib.Core.Path.{◌≡◌, refl, ap, sym, subst, ◌∙◌}
use mathlib.Core.Logic.{◌↔◌, inl, inr}
use mathlib.Core.Bool.{Bool, true, false, true≢false}
use mathlib.Core.Option.{none, some, some-ne-none, some-injective}
use mathlib.Core.List.{List, [], ◌∷◌, ◌++◌, append-nil, append_assoc}
use sts_agent.Prelude.Tests.{Bool-cases, if_true, if_false}
use sts_agent.Prelude.Dicts.{
  lookup, insert, IsDict, AllEntries, insert_new, lookup-insert_if, lookup-insert_other,
}

module _ {ℓ} {K : Type ℓ} (eq : K → K → Bool) (eq_iff : (a b : K) → (eq a b ≡ true) ↔ (a ≡ b)) where
  pub not_sym : (a b : K) → eq a b ≡ false → eq b a ≡ false
  not_sym a b h = elim (Bool-cases (eq b a)) [
    | inl e ↦ absurd (true≢false (sym ((eq_iff a b).1 (sym ((eq_iff b a).0 e))) ∙ h))
    | inr e ↦ e
  ]

module _ {ℓ} {K W : Type ℓ} (eq : K → K → Bool)
    (eq_iff : (a b : K) → (eq a b ≡ true) ↔ (a ≡ b)) where
  -- What a lookup finds after an insertion is what was inserted, or it was found before.
  pub insert-lookup {κ} :
      (P : K → W → Type κ) (k : K) (w : W) (d : List (K × W))
      → P k w
      → ((j : K) (v : W) → eq k j ≡ false → lookup eq j d ≡ some v → P j v)
      → (j : K) (v : W) → lookup eq j (insert eq k w d) ≡ some v
      → P j v
  insert-lookup P k w d new old j v h =
      let found = sym (lookup-insert_if eq eq_iff j k w d) ∙ h in
      elim (Bool-cases (eq k j)) [
        | inl e ↦
            let is_v =
              some-injective w v (if_true (eq k j) (some w) (lookup eq j d) (some v) e found) in
            subst (λ i. P i v) ((eq_iff k j).0 e) (subst (P k) is_v new)
        | inr e ↦ old j v e (if_false (eq k j) (some w) (lookup eq j d) (some v) e found)
      ]

  pub insert-IsDict : (k : K) (w : W) (d : List (K × W)) → IsDict eq d → IsDict eq (insert eq k w d)
  unfolding lookup insert
  insert-IsDict k w [] h = (refl, tt)
  insert-IsDict k w ((k', w') ∷ d) (new, h) = elim (Bool-cases (eq k' k)) [
    | inl e ↦ rw e (new, h)
    | inr e ↦ rw e (
      lookup-insert_other eq eq_iff k' k w d (not_sym eq eq_iff k' k e) ∙ new,
      insert-IsDict k w d h,
    )
  ]

  lookup-append_new :
      (j k : K) (w : W) (d : List (K × W))
      → lookup eq j d ≡ none
      → eq k j ≡ false
      → lookup eq j (d ++ (k, w) ∷ []) ≡ none
  unfolding lookup
  lookup-append_new j k w [] h e = rw e refl
  lookup-append_new j k w ((k', w') ∷ d) h e = elim (Bool-cases (eq k' j)) [
    | inl f ↦ absurd (some-ne-none w' (if_true (eq k' j) (some w') (lookup eq j d) none f h))
    | inr f ↦
        rw f (lookup-append_new j k w d (if_false (eq k' j) (some w') (lookup eq j d) none f h) e)
  ]

  -- The key of an entry that a lookup passes over.
  lookup_passes :
      (j k : K) (w : W) (d : List (K × W)) → lookup eq j ((k, w) ∷ d) ≡ none → eq k j ≡ false
  unfolding lookup
  lookup_passes j k w d h = elim (Bool-cases (eq k j)) [
    | inl e ↦ absurd (some-ne-none w (if_true (eq k j) (some w) (lookup eq j d) none e h))
    | inr e ↦ e
  ]

  lookup_later :
      (j k : K) (w : W) (d : List (K × W)) → lookup eq j ((k, w) ∷ d) ≡ none → lookup eq j d ≡ none
  unfolding lookup
  lookup_later j k w d h =
      if_false (eq k j) (some w) (lookup eq j d) none (lookup_passes j k w d h) h

  -- What holds of the entries of other keys holds of all where a lookup finds none.
  pub AllEntries-others {κ} :
      (P Q : K → W → Type κ) (j : K) (d : List (K × W))
      → lookup eq j d ≡ none
      → ((k : K) (w : W) → eq j k ≡ false → P k w → Q k w)
      → AllEntries P d
      → AllEntries Q d
  AllEntries-others P Q j [] h f ps = tt
  AllEntries-others P Q j ((k, w) ∷ d) h f (p, ps) = (
    f k w (not_sym eq eq_iff k j (lookup_passes j k w d h)) p,
    AllEntries-others P Q j d (lookup_later j k w d h) f ps,
  )

  abbrev AreNew : List (K × W) → List (K × W) → Type ℓ
  AreNew d new = AllEntries (λ k w. lookup eq k d ≡ none) new

  AreNew-append :
      (k : K) (w : W) (d new : List (K × W))
      → AreNew d new
      → lookup eq k new ≡ none
      → AreNew (d ++ (k, w) ∷ []) new
  AreNew-append k w d [] h e = tt
  AreNew-append k w d ((k', w') ∷ new) h e = (
    lookup-append_new k' k w d h.0 (not_sym eq eq_iff k' k (lookup_passes k k' w' new e)),
    AreNew-append k w d new h.1 (lookup_later k k' w' new e),
  )

  -- `for k, w in new: d[k] = w`
  abbrev pub gather : List (K × W) → List (K × W) → List (K × W)
  gather d [] = d
  gather d ((k, w) ∷ new) = gather (insert eq k w d) new

  gather-append : (d new : List (K × W)) → AreNew d new → IsDict eq new → gather d new ≡ d ++ new
  gather-append d [] h distinct = sym (append-nil d)
  gather-append d ((k, w) ∷ new) h (fresh, distinct) =
      ap (λ x. gather x new) (insert_new eq eq_iff k w d h.0)
      ∙ gather-append (d ++ (k, w) ∷ []) new (AreNew-append k w d new h.1 fresh) distinct
      ∙ append_assoc d ((k, w) ∷ []) new

  AreNew-nil : (new : List (K × W)) → AreNew [] new
  unfolding lookup
  AreNew-nil [] = tt
  AreNew-nil (e ∷ new) = (refl, AreNew-nil new)

  pub gather-IsDict : (d : List (K × W)) → IsDict eq d → gather [] d ≡ d
  gather-IsDict d h = gather-append [] d (AreNew-nil d) h
