-- ===== src/Forwarder/Manager/Order.antt =====
-- Which transactions a flush sends, and in which order.
use mathlib.Core.Path.{subst}
use sts_agent.Prelude.{
  ℕ, ◌≤◌, ◌≡◌, refl, ◌∙◌, ap, true, ◌⊎◌, inl, inr, Option, none, some, List, [], ◌∷◌, arith,
  if◌then◌else◌, All, All-append, split_last, split_last-append,
}
use sts_agent.Prelude.Bag.{count, count-select, contains, contains-count, All-count}
use sts_agent.Prelude.Sorting.{sorted-Same, sorted-IsSorted, IsSorted, split_last-IsSorted}
use sts_agent.Forwarder.Transaction.{Transaction, time_to_flush}
use sts_agent.Forwarder.Manager.State.{Config, World, Manager}
use sts_agent.Forwarder.Manager.Flush.{id_le, errors_first, due}

id_le_total : (a b : Option ℕ) → (id_le a b ≡ true) ⊎ (id_le b a ≡ true)
id_le_total none b = inl refl
id_le_total (some a) none = inr refl
id_le_total (some a) (some b) = ground arith

id_le_refl : (a : Option ℕ) → id_le a a ≡ true
id_le_refl none = refl
id_le_refl (some a) = ground arith

id_le_trans : (a b c : Option ℕ) → id_le a b ≡ true → id_le b c ≡ true → id_le a c ≡ true
id_le_trans none b c h k = refl
id_le_trans (some a) none c h k = cc
id_le_trans (some a) (some b) none h k = cc
id_le_trans (some a) (some b) (some c) h k = ground arith

module _ (o : ℕ → Transaction) where
  errors_first_total : (a b : ℕ) → (errors_first o a b ≡ true) ⊎ (errors_first o b a ≡ true)
  errors_first_total a b = ground (arith, id_le_total (o a).id (o b).id)

  errors_first_trans :
      (a b c : ℕ)
      → errors_first o a b ≡ true
      → errors_first o b c ≡ true
      → errors_first o a c ≡ true
  errors_first_trans a b c h k = ground (arith, id_le_trans (o a).id (o b).id (o c).id)

  errors_first_refl : (a : ℕ) → errors_first o a a ≡ true
  errors_first_refl a = ground (arith, id_le_refl (o a).id)

  -- What the order says of two transactions.
  errors_first_lem :
      (a b : ℕ)
      → errors_first o a b ≡ true
      → ((o b).error_count ≤ (o a).error_count)
        × ((o b).error_count ≡ (o a).error_count → id_le (o a).id (o b).id ≡ true)
  errors_first_lem a b h = (ground arith, λ e. ground arith)

module _ (cfg : Config) (world : World) (now : ℕ) (m : Manager) where
  -- A flush takes each queued transaction whose next flush is not after the time `now`, as often as
  -- it is queued, and nothing else.
  pub count-due :
      (r : ℕ)
      → count r (due cfg world now m)
        ≡ (if time_to_flush now (m.objects r) then count r m.transactions else 0)
  unfolding due
  count-due r =
      sorted-Same (errors_first m.objects) _ r
      ∙ count-select (λ x. time_to_flush now (m.objects x)) r m.transactions

  due-IsSorted : IsSorted (errors_first m.objects) (due cfg world now m)
  unfolding due
  due-IsSorted =
      sorted-IsSorted (errors_first m.objects) (errors_first_total m.objects)
        (errors_first_trans m.objects) _

  last_least :
      (t : ℕ) (ts : List ℕ)
      → IsSorted (errors_first m.objects) (t ∷ ts)
      → All (λ x. errors_first m.objects x (split_last t ts).1 ≡ true) (t ∷ ts)
  last_least t ts h =
      let last : ℕ = (split_last t ts).1 in
      let P : ℕ → Type 0 = λ x. errors_first m.objects x last ≡ true in
      subst (All P) (split_last-append t ts) (
        All-append P (split_last t ts).0 (last ∷ [])
          (split_last-IsSorted (errors_first m.objects) t ts h).0
          (errors_first_refl m.objects last, tt))

  -- The transaction that a flush pops first has the fewest errors of all that are due, and among
  -- those with as few errors the highest number.
  pub due_next :
      (t : ℕ) (ts : List ℕ) (r : ℕ)
      → due cfg world now m ≡ t ∷ ts
      → contains r m.transactions ≡ true
      → time_to_flush now (m.objects r) ≡ true
      → let last = (split_last t ts).1 in
        ((m.objects last).error_count ≤ (m.objects r).error_count)
        × ((m.objects last).error_count ≡ (m.objects r).error_count
            → id_le (m.objects r).id (m.objects last).id ≡ true)
  due_next t ts r e here ripe =
      errors_first_lem m.objects r (split_last t ts).1
        (All-count _ r (t ∷ ts) (last_least t ts (rw e at due-IsSorted)) listed)
    where
      listed : 1 ≤ count r (t ∷ ts)
      listed =
          omega
            (arith, ap (count r) e, rw ripe at (count-due r), contains-count r m.transactions here)
