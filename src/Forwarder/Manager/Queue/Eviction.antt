-- ===== src/Forwarder/Manager/Queue/Eviction.antt =====
-- What `append` evicts to make room, and what it leaves in the queue.
use sts_agent.Prelude.{
  ℕ, sym, ◌+◌, ◌≤◌, ◌<◌, ◌≡◌, ◌≢◌, refl, ap, true, false, ◌⊎◌, inl, inr, List, [], ◌∷◌, ◌++◌, arith,
  ltb, ltb→lt, Bool-cases, sum_by,
}
use sts_agent.Prelude.Bag.{
  count-cons, count-contains, Same, contains, remove_first, count-remove_first, sum_by-remove_first,
}
use sts_agent.Forwarder.Manager.State.{Config, World, Manager}
use sts_agent.Forwarder.Manager.Queue.Accounting.{IsCounted, size_of-remove, remove-IsCounted}
use sts_agent.Forwarder.Manager.Queue.{size_of, remove, evict}

module _ (cfg : Config) (world : World) where
  -- A pass over `trs`, the queue of `m` in some order, ends at `m'`: a front part of `trs` is gone,
  -- the rest is queued; what is left fits beside `n` bytes or is nothing, and the last transaction
  -- that went had to go.
  pub record IsEvicted (n : ℕ) (trs : List ℕ) (m m' : Manager) : Type 0 where
    pub dropped : List ℕ
    pub kept : List ℕ
    pub split : trs ≡ dropped ++ kept
    pub queued : Same m'.transactions kept
    pub freed : m.total_size ≡ m'.total_size + sum_by (size_of world m.objects) dropped
    pub fits : (m'.total_size + n ≤ cfg.max_queue_size) ⊎ (kept ≡ [])
    pub needed :
        (front : List ℕ) (d : ℕ)
        → dropped ≡ front ++ d ∷ []
        → cfg.max_queue_size < m'.total_size + size_of world m.objects d + n

  evict_fits :
      (n : ℕ) (trs : List ℕ) (m : Manager)
      → ltb cfg.max_queue_size (m.total_size + n) ≡ false
      → evict cfg world n trs m ≡ m
  unfolding evict
  evict_fits n [] m e = refl
  evict_fits n (r ∷ rs) m e = rw (e, evict) (evict_fits n rs m e)

  evict_step :
      (n r : ℕ) (rs : List ℕ) (m : Manager)
      → ltb cfg.max_queue_size (m.total_size + n) ≡ true
      → evict cfg world n (r ∷ rs) m ≡ evict cfg world n rs (remove world r m)
  unfolding evict
  evict_step n r rs m e = rw (e, evict) refl

module _ (world : World) (r : ℕ) (m : Manager) (here : contains r m.transactions ≡ true) where
  transactions-remove : (remove world r m).transactions ≡ remove_first r m.transactions
  unfolding remove
  transactions-remove = rw here

  total_size-remove :
      IsCounted world m → m.total_size ≡ (remove world r m).total_size + size_of world m.objects r
  unfolding remove
  total_size-remove h =
      rw here (
        omega (arith, h.sized, sum_by-remove_first (size_of world m.objects) r m.transactions here))

head_queued : (r : ℕ) (rs xs : List ℕ) → Same (r ∷ rs) xs → contains r xs ≡ true
head_queued r rs xs same = elim (Bool-cases (contains r xs)) [
  | inl e ↦ e
  | inr e ↦ absurd (ground (arith, count-contains r xs e, same r, count-cons r r rs))
]

Same-tail :
    (r : ℕ) (rs xs : List ℕ) → Same (r ∷ rs) xs → contains r xs ≡ true → Same rs (remove_first r xs)
Same-tail r rs xs same here a =
    omega (arith, same a, count-cons a r rs, count-remove_first r a xs here)

nil-ne-snoc : (front : List ℕ) (d : ℕ) → [] ≢ front ++ d ∷ []
nil-ne-snoc [] d e = cc
nil-ne-snoc (x ∷ front) d e = cc

module _ (cfg : Config) (world : World) (n : ℕ) where
  pub keep_all :
      (trs : List ℕ) (m : Manager)
      → Same trs m.transactions
      → (m.total_size + n ≤ cfg.max_queue_size) ⊎ (trs ≡ [])
      → IsEvicted cfg world n trs m m
  keep_all trs m same fits = record {
    dropped = [];
    kept = trs;
    split = refl;
    queued = λ a. sym (same a);
    freed = omega arith;
    fits = fits;
    needed = λ front d e. absurd (nil-ne-snoc front d e);
  }

  module _ (r : ℕ) (m : Manager) (here : contains r m.transactions ≡ true) (h : IsCounted world m)
      (big : cfg.max_queue_size < m.total_size + n) where
    last_needed :
        (dropped : List ℕ) (m' : Manager)
        → (remove world r m).total_size
          ≡ m'.total_size + sum_by (size_of world (remove world r m).objects) dropped
        → ((front : List ℕ) (d : ℕ)
            → dropped ≡ front ++ d ∷ []
            → cfg.max_queue_size < m'.total_size + size_of world (remove world r m).objects d + n)
        → (front : List ℕ) (d : ℕ) → r ∷ dropped ≡ front ++ d ∷ []
        → cfg.max_queue_size < m'.total_size + size_of world m.objects d + n
    last_needed [] m' freed needed [] d e =
        let same : r ≡ d = cc in
        rw (← same) (omega (arith, big, freed, total_size-remove world r m here h))
    last_needed (x ∷ dropped) m' freed needed [] d e = absurd (cc)
    last_needed dropped m' freed needed (f ∷ front) d e =
        let rest : dropped ≡ front ++ d ∷ [] = cc in
        rw (← size_of-remove world r m) (needed front d rest)

    drop_one :
        (rs : List ℕ) (m' : Manager)
        → IsEvicted cfg world n rs (remove world r m) m'
        → IsEvicted cfg world n (r ∷ rs) m m'
    drop_one rs m' v = record {
      dropped = r ∷ v.dropped;
      kept = v.kept;
      split = ap (λ l. r ∷ l) v.split;
      queued = v.queued;
      freed = omega (
        arith,
        total_size-remove world r m here h,
        v.freed,
        ap (λ (f : ℕ → ℕ). sum_by f v.dropped) (size_of-remove world r m),
      );
      fits = v.fits;
      needed = last_needed v.dropped m' v.freed v.needed;
    }

module _ (cfg : Config) (world : World) where
  evict-nil : (n : ℕ) (m : Manager) → evict cfg world n [] m ≡ m
  unfolding evict
  evict-nil n m = refl

  pub evict-IsEvicted :
      (n : ℕ) (trs : List ℕ) (m : Manager)
      → IsCounted world m
      → Same trs m.transactions
      → IsEvicted cfg world n trs m (evict cfg world n trs m)
  evict-IsEvicted n [] m h same = rw (evict-nil n m) (keep_all cfg world n [] m same (inr refl))
  evict-IsEvicted n (r ∷ rs) m h same =
      elim (Bool-cases (ltb cfg.max_queue_size (m.total_size + n))) [
        | inr e ↦
            rw (evict_fits cfg world n (r ∷ rs) m e)
              (keep_all cfg world n (r ∷ rs) m same (inl (ground arith)))
        | inl e ↦
            let here = head_queued r rs m.transactions same in
            rw (evict_step cfg world n r rs m e) (
              drop_one cfg world n r m here h (ltb→lt _ _ e) rs _ (
                evict-IsEvicted n rs (remove world r m) (remove-IsCounted world r m h) (
                  rw (transactions-remove world r m here)
                    (Same-tail r rs m.transactions same here))))
      ]
