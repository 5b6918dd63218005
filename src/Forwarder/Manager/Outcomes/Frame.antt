-- ===== src/Forwarder/Manager/Outcomes/Frame.antt =====
-- The invariant of the manager between two calls, and the parts of its state that `_remove` and
-- `compute_next_flush` leave alone.
use sts_agent.Prelude.{
  ℕ, suc, ◌≤◌, ◌≡◌, refl, Bool, true, false, none, some, List, [], ◌∷◌, arith, if◌then◌else◌,
  length,
}
use sts_agent.Forwarder.Transaction.{compute_next_flush}
use sts_agent.Forwarder.Manager.State.{Config, World, Manager, Run, done, fault, delay, delay_all}
use sts_agent.Forwarder.Manager.Queue.{remove}
use sts_agent.Forwarder.Manager.Queue.Accounting.{IsCounted, size_of-update}

-- The totals are right; the transactions that run are those in flight, at most as many as may run
-- in parallel; and while one runs the flush is in progress.
pub record IsConsistent (cfg : Config) (world : World) (m : Manager) : Type 0 where
  pub counted : IsCounted world m
  pub running : m.running_flushes ≡ length m.loop.in_flight
  pub parallel : m.running_flushes ≤ cfg.max_parallelism
  pub active : m.trs_to_flush ≡ none → m.running_flushes ≡ 0

-- The same in the middle of an outcome: one transaction has left the event loop, and still counts
-- as running.
pub record IsSettling (cfg : Config) (world : World) (trs : List ℕ) (m : Manager) : Type 0 where
  pub counted : IsCounted world m
  pub running : m.running_flushes ≡ suc (length m.loop.in_flight)
  pub parallel : m.running_flushes ≤ cfg.max_parallelism
  pub flushing : m.trs_to_flush ≡ some trs

-- After an outcome within a flush of the transactions `trs`: some of them may have left it.
pub record IsSettled (cfg : Config) (world : World) (trs : List ℕ) (m : Manager) : Type 0 where
  pub consistent : IsConsistent cfg world m
  pub left : List ℕ
  pub flushing : m.trs_to_flush ≡ some left
  pub shorter : length left ≤ length trs

-- The call returns, in a state of which `P` holds.
abbrev pub Returns : (Manager → Type 0) → Run → Type 0
Returns P (done m) = P m
Returns P (fault e m) = ⊥

pub Returns-if :
    (P : Manager → Type 0) (b : Bool) (x y : Run)
    → Returns P x
    → Returns P y
    → Returns P (if b then x else y)
Returns-if P true x y hx hy = hx
Returns-if P false x y hx hy = hy

-- The same, where each branch knows the test.
pub Returns-by :
    (P : Manager → Type 0) (b : Bool) (x y : Run)
    → (b ≡ true → Returns P x)
    → (b ≡ false → Returns P y)
    → Returns P (if b then x else y)
Returns-by P true x y hx hy = hx refl
Returns-by P false x y hx hy = hy refl

-- `m'` differs from `m` in the queue, the objects and the clock at most.
pub record IsFramed (m m' : Manager) : Type 0 where
  pub running : m'.running_flushes ≡ m.running_flushes
  pub in_flight : m'.loop.in_flight ≡ m.loop.in_flight
  pub flushing : m'.trs_to_flush ≡ m.trs_to_flush

pub same : (m : Manager) → IsFramed m m
same m = record { running = refl; in_flight = refl; flushing = refl }

pub remove-IsFramed : (world : World) (r : ℕ) (m : Manager) → IsFramed m (remove world r m)
unfolding remove
remove-IsFramed world r m = ground arith

module _ (cfg : Config) (world : World) where
  pub delay-IsFramed : (r : ℕ) (m : Manager) → IsFramed m (delay cfg world r m)
  unfolding delay
  delay-IsFramed r m = record { running = refl; in_flight = refl; flushing = refl }

  pub delay-IsCounted :
      (r : ℕ) (m : Manager) → IsCounted world m → IsCounted world (delay cfg world r m)
  unfolding delay compute_next_flush
  delay-IsCounted r m h =
      let tr =
        compute_next_flush cfg.max_wait_for_replay (world.utcnow m.loop.reads) (m.objects r) in
      record { counted = h.counted; sized = rw (size_of-update world m.objects r tr refl) h.sized }

  pub delay_all-IsFramed : (rs : List ℕ) (m : Manager) → IsFramed m (delay_all cfg world rs m)
  unfolding delay_all
  delay_all-IsFramed [] m = record { running = refl; in_flight = refl; flushing = refl }
  delay_all-IsFramed (r ∷ rs) m =
      let f = delay_all-IsFramed rs (delay cfg world r m) in
      record { running = f.running; in_flight = f.in_flight; flushing = f.flushing }

  pub delay_all-IsCounted :
      (rs : List ℕ) (m : Manager) → IsCounted world m → IsCounted world (delay_all cfg world rs m)
  unfolding delay_all
  delay_all-IsCounted [] m h = h
  delay_all-IsCounted (r ∷ rs) m h =
      delay_all-IsCounted rs (delay cfg world r m) (delay-IsCounted r m h)
