-- ===== src/Forwarder/Manager/Queue.antt =====
-- The queue: `append` with its eviction of old transactions, and `_remove`.
pub mod Steps
pub mod Eviction
pub mod Room
pub mod Accounting
use sts_agent.Prelude.{ℕ, ◌+◌, ◌-◌, Bool, none, some, List, [], ◌∷◌, ◌++◌, ltb, leb, if◌then◌else◌}
use sts_agent.Prelude.Bag.{contains, remove_first}
use sts_agent.Prelude.Sorting.{sorted}
use sts_agent.Forwarder.Transaction.{Transaction}
use sts_agent.Forwarder.Manager.State.{
  Config, World, Manager, Run, done, fault, assertion_error, update, ◌>>=◌,
}

module _ (world : World) where
  -- The value of `get_size`: computed once for each object.
  abbrev pub size_of : (ℕ → Transaction) → ℕ → ℕ
  size_of objects r = elim (objects r).size [ none ↦ world.getsizeof r | some n ↦ n ]

  -- `tr.get_size()` stores the size in the object.
  unfoldable pub get_size : ℕ → Manager → ℕ × Manager
  get_size r m =
      let n : ℕ = size_of m.objects r in
      (n, record m { objects = update m.objects r (record (m.objects r) { size = some n }) })

  -- `_remove`; a transaction that is not in the list is left alone.
  unfoldable pub remove : ℕ → Manager → Manager
  unfolding get_size contains remove_first
  remove r m =
      if contains r m.transactions
      then (let (n, m') = get_size r m in
          record m' {
            transactions = remove_first r m.transactions;
            total_count = m.total_count - 1;
            total_size = m.total_size - n;
          })
      else m

-- `sorted(self._transactions, key=attrgetter('_next_flush'), reverse=True)`
abbrev pub later_first : (ℕ → Transaction) → ℕ → ℕ → Bool
later_first objects a b = leb (objects b).next_flush (objects a).next_flush

module _ (cfg : Config) (world : World) where
  -- The loop over the sorted transactions, while a payload of size `tr_size` does not fit.
  unfoldable pub evict : ℕ → List ℕ → Manager → Manager
  unfolding remove
  evict tr_size [] m = m
  evict tr_size (tr2 ∷ new_trs) m =
      evict tr_size new_trs
        (if ltb cfg.max_queue_size (m.total_size + tr_size) then remove world tr2 m else m)

  -- `append` without `set_id`: the queue makes room, and takes the object.
  unfoldable pub enqueue : ℕ → Manager → Manager
  unfolding evict sorted get_size
  enqueue r m =
      let (tr_size, m1) = get_size world r m in
      let m2 : Manager =
        if ltb cfg.max_queue_size (m1.total_size + tr_size)
        then evict tr_size (sorted (later_first m1.objects) m1.transactions) m1
        else m1 in
      record m2 {
        transactions = m2.transactions ++ r ∷ [];
        total_count = m2.total_count + 1;
        transactions_received = m2.transactions_received + 1;
        total_size = m2.total_size + tr_size;
      }

  -- `set_id` asserts that the object has no number yet.
  unfoldable pub set_id : ℕ → ℕ → Manager → Run
  set_id new_id r m = elim (m.objects r).id [
    | none ↦
        done (record m { objects = update m.objects r (record (m.objects r) { id = some new_id }) })
    | some n ↦ fault assertion_error m
  ]

  unfoldable pub append : ℕ → Manager → Run
  append r m =
      let id : ℕ = m.counter + 1 in
      set_id id r (record m { counter = id }) >>= λ m'. done (enqueue r m')
