-- ===== src/Forwarder/Manager/Queue/Room.antt =====
-- `append` as its caller sees it: which transactions give way to a new one.
use sts_agent.Prelude.{
  ℕ, sym, ◌+◌, ◌≤◌, ◌<◌, ◌≡◌, refl, ◌∙◌, ap, true, ◌⊎◌, inl, inr, List, [], ◌∷◌, ◌++◌, arith, ltb,
  leb→le, ◌==◌, ==_iff, if◌then◌else◌, Bool-cases, All, All-map,
}
use sts_agent.Prelude.Bag.{count, count-append, Same}
use sts_agent.Prelude.Sorting.{sorted, sorted-Same, sorted-IsSorted, IsSorted-append}
use sts_agent.Forwarder.Transaction.{Transaction}
use sts_agent.Forwarder.Manager.State.{Config, World, Manager, done, update}
use sts_agent.Forwarder.Manager.Queue.Steps.{numbered, append-eq-done}
use sts_agent.Forwarder.Manager.Queue.Accounting.{
  IsCounted, size_of-get_size, get_size-IsCounted, numbered-IsCounted, size_of-numbered,
}
use sts_agent.Forwarder.Manager.Queue.Eviction.{IsEvicted, keep_all, evict-IsEvicted}
use sts_agent.Forwarder.Manager.Queue.{size_of, get_size, later_first, evict, enqueue, append}

later_first_total :
    (o : ℕ → Transaction) (a b : ℕ) → (later_first o a b ≡ true) ⊎ (later_first o b a ≡ true)
later_first_total o a b = ground arith

later_first_trans :
    (o : ℕ → Transaction) (a b c : ℕ)
    → later_first o a b ≡ true
    → later_first o b c ≡ true
    → later_first o a c ≡ true
later_first_trans o a b c h k = ground arith

-- Assignments that leave `_next_flush` alone do not change the order of eviction.
next_flush-update :
    (o : ℕ → Transaction) (r : ℕ) (t : Transaction)
    → t.next_flush ≡ (o r).next_flush
    → (x : ℕ) → (update o r t x).next_flush ≡ (o x).next_flush
next_flush-update o r t h x = elim (Bool-cases (x == r)) [
  | inl e ↦ rw e (h ∙ ap (λ y. (o y).next_flush) (sym ((==_iff x r).0 e)))
  | inr e ↦ rw e
]

-- What the new transaction `r` displaces: the queue before is `dropped` and `kept` in some order.
pub record IsAppended (cfg : Config) (world : World) (r : ℕ) (m m' : Manager) : Type 0 where
  pub dropped : List ℕ
  pub kept : List ℕ
  pub before : Same (dropped ++ kept) m.transactions
  pub after : Same m'.transactions (kept ++ r ∷ [])
  pub latest :
      All (λ d. All (λ k. (m.objects k).next_flush ≤ (m.objects d).next_flush) kept) dropped
  pub fits : (m'.total_size ≤ cfg.max_queue_size) ⊎ (kept ≡ [])
  pub needed :
      (front : List ℕ) (d : ℕ)
      → dropped ≡ front ++ d ∷ []
      → cfg.max_queue_size < m'.total_size + size_of world m.objects d

module _ (cfg : Config) (world : World) (r : ℕ) (m : Manager) (h : IsCounted world m) where
  abbrev sized : Manager
  sized = (get_size world r (numbered r m)).1

  abbrev size : ℕ
  size = (get_size world r (numbered r m)).0

  abbrev order : List ℕ
  order = sorted (later_first sized.objects) sized.transactions

  abbrev roomy : Manager
  roomy =
      if ltb cfg.max_queue_size (sized.total_size + size)
      then evict cfg world size order sized
      else sized

  sized-IsCounted : IsCounted world sized
  sized-IsCounted = get_size-IsCounted world r (numbered r m) (numbered-IsCounted world r m h)

  roomy-IsEvicted : IsEvicted cfg world size order sized roomy
  roomy-IsEvicted = elim (Bool-cases (ltb cfg.max_queue_size (sized.total_size + size))) [
    | inl e ↦ rw e (evict-IsEvicted cfg world size order sized sized-IsCounted (sorted-Same _ _))
    | inr e ↦ rw e (keep_all cfg world size order sized (sorted-Same _ _) (inl (ground arith)))
  ]

  next_flush-sized : (x : ℕ) → (sized.objects x).next_flush ≡ (m.objects x).next_flush
  unfolding get_size
  next_flush-sized x =
      next_flush-update (numbered r m).objects r _ refl x ∙ next_flush-update m.objects r _ refl x

  transactions-sized : sized.transactions ≡ m.transactions
  unfolding get_size
  transactions-sized = refl

  size_of-sized : size_of world sized.objects ≡ size_of world m.objects
  size_of-sized = size_of-get_size world r (numbered r m) ∙ size_of-numbered world r m

  -- The order of eviction, read off the objects as they were before the call.
  latest_first :
      (dropped kept : List ℕ)
      → order ≡ dropped ++ kept
      → All (λ d. All (λ k. (m.objects k).next_flush ≤ (m.objects d).next_flush) kept) dropped
  latest_first dropped kept split =
      All-map _ _
        (λ d hd.
          All-map _ _
            (λ k hk. omega (
              arith,
              leb→le (sized.objects k).next_flush (sized.objects d).next_flush hk,
              next_flush-sized k,
              next_flush-sized d,
            ))
            kept hd)
        dropped
        (IsSorted-append (later_first sized.objects) dropped kept (
          rw split at (
            sorted-IsSorted (later_first sized.objects) (later_first_total sized.objects)
              (later_first_trans sized.objects) sized.transactions)))

  enqueued-IsAppended : IsAppended cfg world r m (enqueue cfg world r (numbered r m))
  unfolding enqueue
  enqueued-IsAppended =
      let v = roomy-IsEvicted in
      record {
        dropped = v.dropped;
        kept = v.kept;
        before = λ a.
            ap (count a) (sym v.split)
            ∙ sorted-Same (later_first sized.objects) sized.transactions a
            ∙ ap (count a) transactions-sized;
        after = λ a. omega (
          arith,
          count-append a roomy.transactions (r ∷ []),
          count-append a v.kept (r ∷ []),
          v.queued a,
        );
        latest = latest_first v.dropped v.kept v.split;
        fits = v.fits;
        needed = λ front d e. rw (← size_of-sized) (omega (arith, v.needed front d e));
      }

-- If `append` takes `r`, the transactions that it drops have the latest next flushes of the queue,
-- the others and `r` are what is queued after it; the queue then fits its maximal size, or all
-- older transactions were dropped; and with the last one dropped put back it would not fit.
pub append-IsAppended :
    (cfg : Config) (world : World) (r : ℕ) (m m' : Manager)
    → IsCounted world m
    → append cfg world r m ≡ done m'
    → IsAppended cfg world r m m'
append-IsAppended cfg world r m m' h e =
    let (_, after) = append-eq-done cfg world r m m' e in
    rw after (enqueued-IsAppended cfg world r m h)
