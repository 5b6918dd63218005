-- ===== src/Forwarder/Manager/Queue/Accounting.antt =====
-- The manager's running totals, `_total_count` and `_total_size`, against the queue that they sum up.
use mathlib.Core.Path.{fun_ext, subst}
use sts_agent.Prelude.{
  ℕ, sym, ◌+◌, ◌≡◌, refl, ◌∙◌, ap, inl, inr, none, some, List, [], ◌∷◌, ◌++◌, arith, ltb, ◌==◌,
  ==_iff, if◌then◌else◌, Bool-cases, length, sum_by, length-append, sum_by-append,
}
use sts_agent.Prelude.Bag.{contains, length-remove_first, sum_by-remove_first}
use sts_agent.Prelude.Sorting.{sorted}
use sts_agent.Forwarder.Transaction.{Transaction}
use sts_agent.Forwarder.Manager.State.{Config, World, Manager, done, update}
use sts_agent.Forwarder.Manager.Queue.Steps.{numbered, append-eq-done}
use sts_agent.Forwarder.Manager.Queue.{
  size_of, get_size, remove, later_first, evict, enqueue, append,
}

module _ (world : World) where
  -- The number and the total size of the queued transactions.
  pub record IsCounted (m : Manager) : Type 0 where
    pub counted : m.total_count ≡ length m.transactions
    pub sized : m.total_size ≡ sum_by (size_of world m.objects) m.transactions

  -- An assignment that keeps the size of its object keeps every size.
  pub size_of-update :
      (objects : ℕ → Transaction) (r : ℕ) (tr : Transaction)
      → elim tr.size [ none ↦ world.getsizeof r | some n ↦ n ] ≡ size_of world objects r
      → size_of world (update objects r tr) ≡ size_of world objects
  size_of-update objects r tr h = fun_ext λ x. elim (Bool-cases (x == r)) [
    | inl e ↦
        rw (e, size_of)
          (subst
            (λ y. elim tr.size [ none ↦ world.getsizeof y | some n ↦ n ] ≡ size_of world objects y)
            (sym ((==_iff x r).0 e)) h)
    | inr e ↦ rw (e, size_of)
  ]

  pub size_of-get_size :
      (r : ℕ) (m : Manager) → size_of world (get_size world r m).1.objects ≡ size_of world m.objects
  unfolding get_size
  size_of-get_size r m = size_of-update m.objects r _ refl

  pub size_of-numbered :
      (r : ℕ) (m : Manager) → size_of world (numbered r m).objects ≡ size_of world m.objects
  size_of-numbered r m =
      size_of-update m.objects r (record (m.objects r) { id = some (m.counter + 1) }) refl

  pub numbered-IsCounted : (r : ℕ) (m : Manager) → IsCounted m → IsCounted (numbered r m)
  numbered-IsCounted r m h = record {
    counted = h.counted;
    sized = rw (size_of-numbered r m) h.sized;
  }

  pub get_size-IsCounted : (r : ℕ) (m : Manager) → IsCounted m → IsCounted (get_size world r m).1
  unfolding get_size
  get_size-IsCounted r m h = record {
    counted = h.counted;
    sized = rw (size_of-get_size r m) h.sized;
  }

  pub size_of-remove :
      (r : ℕ) (m : Manager) → size_of world (remove world r m).objects ≡ size_of world m.objects
  unfolding remove
  size_of-remove r m = elim (Bool-cases (contains r m.transactions)) [
    | inl e ↦ rw e (size_of-get_size r m)
    | inr e ↦ rw e
  ]

  pub remove-IsCounted : (r : ℕ) (m : Manager) → IsCounted m → IsCounted (remove world r m)
  unfolding remove
  remove-IsCounted r m h = elim (Bool-cases (contains r m.transactions)) [
    | inl e ↦ rw e (record {
      counted = omega (arith, length-remove_first r m.transactions e, h.counted);
      sized = rw (size_of-get_size r m) (
          omega (arith, sum_by-remove_first (size_of world m.objects) r m.transactions e, h.sized));
    })
    | inr e ↦ rw e h
  ]

module _ (cfg : Config) (world : World) where
  evict-IsCounted :
      (n : ℕ) (trs : List ℕ) (m : Manager)
      → IsCounted world m
      → IsCounted world (evict cfg world n trs m)
  unfolding evict
  evict-IsCounted n [] m h = h
  evict-IsCounted n (r ∷ rs) m h = elim (Bool-cases (ltb cfg.max_queue_size (m.total_size + n))) [
    | inl e ↦ rw e (evict-IsCounted n rs (remove world r m) (remove-IsCounted world r m h))
    | inr e ↦ rw e (evict-IsCounted n rs m h)
  ]

  -- Eviction changes no size.
  pub size_of-evict :
      (n : ℕ) (trs : List ℕ) (m : Manager)
      → size_of world (evict cfg world n trs m).objects ≡ size_of world m.objects
  unfolding evict
  size_of-evict n [] m = refl
  size_of-evict n (r ∷ rs) m = elim (Bool-cases (ltb cfg.max_queue_size (m.total_size + n))) [
    | inl e ↦ rw (e, evict) (size_of-evict n rs (remove world r m) ∙ size_of-remove world r m)
    | inr e ↦ rw (e, evict) (size_of-evict n rs m)
  ]

  abbrev after_eviction : ℕ → Manager → Manager
  after_eviction n m =
      if ltb cfg.max_queue_size (m.total_size + n)
      then evict cfg world n (sorted (later_first m.objects) m.transactions) m
      else m

  after_eviction-IsCounted :
      (n : ℕ) (m : Manager) → IsCounted world m → IsCounted world (after_eviction n m)
  after_eviction-IsCounted n m h = elim (Bool-cases (ltb cfg.max_queue_size (m.total_size + n))) [
    | inl e ↦ rw e (evict-IsCounted n _ m h)
    | inr e ↦ rw e h
  ]

  size_of-after_eviction :
      (n : ℕ) (m : Manager) → size_of world (after_eviction n m).objects ≡ size_of world m.objects
  size_of-after_eviction n m = elim (Bool-cases (ltb cfg.max_queue_size (m.total_size + n))) [
    | inl e ↦ rw e (size_of-evict n _ m)
    | inr e ↦ rw e
  ]

  -- Putting a transaction of size `n` at the end of the queue.
  added-IsCounted :
      (r n : ℕ) (m : Manager)
      → size_of world m.objects r ≡ n
      → IsCounted world m
      → IsCounted world (record m {
        transactions = m.transactions ++ r ∷ [];
        total_count = m.total_count + 1;
        transactions_received = m.transactions_received + 1;
        total_size = m.total_size + n;
      })
  added-IsCounted r n m e h = record {
    counted = omega (arith, length-append m.transactions (r ∷ []), h.counted);
    sized =
        omega (arith, sum_by-append (size_of world m.objects) m.transactions (r ∷ []), h.sized, e);
  }

  enqueue-IsCounted :
      (r : ℕ) (m : Manager) → IsCounted world m → IsCounted world (enqueue cfg world r m)
  unfolding enqueue get_size
  enqueue-IsCounted r m h =
      let n : ℕ = size_of world m.objects r in
      let m1 : Manager = (get_size world r m).1 in
      let same : size_of world m1.objects ≡ size_of world m.objects = size_of-get_size world r m in
      added-IsCounted r n (after_eviction n m1)
        (ap (λ (f : ℕ → ℕ). f r) (size_of-after_eviction n m1 ∙ same))
        (after_eviction-IsCounted n m1 (get_size-IsCounted world r m h))

  -- If `append` takes a transaction, the totals of the manager still are the length of its queue
  -- and the sum of the sizes in it, whatever was evicted.
  pub append-IsCounted :
      (r : ℕ) (m m' : Manager)
      → IsCounted world m
      → append cfg world r m ≡ done m'
      → IsCounted world m'
  append-IsCounted r m m' h e =
      let (_, after) = append-eq-done cfg world r m m' e in
      rw after (enqueue-IsCounted r (numbered r m) (numbered-IsCounted world r m h))
