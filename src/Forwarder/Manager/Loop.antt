-- ===== src/Forwarder/Manager/Loop.antt =====
-- The manager in its event loop: what may happen next, in any order, and what holds whatever does.
use sts_agent.Prelude.{
  ℕ, suc, ◌+◌, ◌<◌, ◌≡◌, refl, sym, ap, ◌∙◌, true, false, ◌⊎◌, inl, inr, none, List, [], ◌∷◌, ◌-◌,
  arith, ltb, Bool-cases, length,
}
use sts_agent.Prelude.Bag.{contains}
use sts_agent.Prelude.Sorting.{sorted}
use sts_agent.Forwarder.Transaction.{Transaction}
use sts_agent.Forwarder.Manager.State.{Config, World, Manager, Run, done, fault, start}
use sts_agent.Forwarder.Manager.Queue.{get_size, remove, later_first, evict, enqueue, append}
use sts_agent.Forwarder.Manager.Queue.Steps.{numbered, append-new, append-eq-done}
use sts_agent.Forwarder.Manager.Queue.Accounting.{append-IsCounted}
use sts_agent.Forwarder.Manager.Outcomes.Frame.{IsConsistent, IsFramed, Returns, remove-IsFramed}
use sts_agent.Forwarder.Manager.Flush.{Response, flush_next, flush, on_response}
use sts_agent.Forwarder.Manager.Flush.Invariant.{pending, flush_next-Returns}
use sts_agent.Forwarder.Manager.Flush.Callbacks.{flush-Returns, on_response-Returns}

-- Fuel for any one call: `flush_next` makes at most one pass for each transaction of the flush.
abbrev pub enough : Manager → ℕ
enough m = suc (length m.transactions + pending m.trs_to_flush)

-- A timeout that `flush_next` added has fired.
abbrev pub fired : Manager → Manager
fired m = record m { loop = record m.loop { timers = m.loop.timers - 1 } }

module _ (cfg : Config) (world : World) where
  -- A payload arrives, the periodic flush is due, the response to a transaction arrives, or a
  -- timeout fires.
  pub data Step (m m' : Manager) : Type 0 where
    appended : (r : ℕ) → append cfg world r m ≡ done m' → Step m m'
    flushed : flush cfg world (enough m) m ≡ done m' → Step m m'
    responded :
        (r : ℕ) (response : Response)
        → contains r m.loop.in_flight ≡ true
        → on_response cfg world (enough m) r response m ≡ done m'
        → Step m m'
    timed : 0 < m.loop.timers → flush_next cfg world (enough m) (fired m) ≡ done m' → Step m m'

  pub data Reach (m : Manager) : Manager → Type 0 where
    here : Reach m m
    next : {m1 m2 : Manager} → Reach m m1 → Step m1 m2 → Reach m m2

  evict-IsFramed : (n : ℕ) (trs : List ℕ) (m : Manager) → IsFramed m (evict cfg world n trs m)
  unfolding evict
  evict-IsFramed n [] m = record { running = refl; in_flight = refl; flushing = refl }
  evict-IsFramed n (r ∷ rs) m = elim (Bool-cases (ltb cfg.max_queue_size (m.total_size + n))) [
    | inl e ↦
        let f = evict-IsFramed n rs (remove world r m) in
        let g = remove-IsFramed world r m in
        rw (e, evict)
          (record {
            running = f.running ∙ g.running;
            in_flight = f.in_flight ∙ g.in_flight;
            flushing = f.flushing ∙ g.flushing;
          })
    | inr e ↦ rw (e, evict) (evict-IsFramed n rs m)
  ]

  enqueue-IsFramed : (r : ℕ) (m : Manager) → IsFramed m (enqueue cfg world r m)
  unfolding enqueue get_size
  enqueue-IsFramed r m =
      let m1 : Manager = (get_size world r m).1 in
      let n : ℕ = (get_size world r m).0 in
      let f = evict-IsFramed n (sorted (later_first m1.objects) m1.transactions) m1 in
      elim (Bool-cases (ltb cfg.max_queue_size (m.total_size + n))) [
        | inl e ↦
            rw e (record { running = f.running; in_flight = f.in_flight; flushing = f.flushing })
        | inr e ↦ rw e (record { running = refl; in_flight = refl; flushing = refl })
      ]

  append-IsConsistent :
      (r : ℕ) (m m' : Manager)
      → IsConsistent cfg world m
      → append cfg world r m ≡ done m'
      → IsConsistent cfg world m'
  append-IsConsistent r m m' c e =
      let f : IsFramed m m' =
        let (_, after) = append-eq-done cfg world r m m' e in
        let g = enqueue-IsFramed r (numbered r m) in
        rw after (record { running = g.running; in_flight = g.in_flight; flushing = g.flushing }) in
      record {
        counted = append-IsCounted cfg world r m m' c.counted e;
        running = f.running ∙ c.running ∙ ap length (sym f.in_flight);
        parallel = omega (arith, f.running, c.parallel);
        active = λ idle. f.running ∙ c.active (sym f.flushing ∙ idle);
      }

  start-IsConsistent : (objects : ℕ → Transaction) → IsConsistent cfg world (start world objects)
  start-IsConsistent objects = record {
    counted = record { counted = refl; sized = refl };
    running = refl;
    parallel = omega arith;
    active = λ _. refl;
  }

  Returns-eq : (P : Manager → Type 0) (run : Run) (m : Manager) → Returns P run → run ≡ done m → P m
  Returns-eq P run m h e = rw e at h

  weaken : (run : Run) → Returns (IsConsistent cfg world) run → Returns (λ _. Unit {0}) run
  weaken (done m) h = tt
  weaken (fault e m) h = h

  fired-IsConsistent : (m : Manager) → IsConsistent cfg world m → IsConsistent cfg world (fired m)
  fired-IsConsistent m c = record {
    counted = record { counted = c.counted.counted; sized = c.counted.sized };
    running = c.running;
    parallel = c.parallel;
    active = c.active;
  }

  module _ (awake : (world.ioloop_running ≡ true) ⊎ (cfg.flush_without_ioloop ≡ false)) where
    Step-IsConsistent :
        (m m' : Manager) → IsConsistent cfg world m → Step m m' → IsConsistent cfg world m'
    Step-IsConsistent m m' c (appended r e) = append-IsConsistent r m m' c e
    Step-IsConsistent m m' c (flushed e) =
        Returns-eq (IsConsistent cfg world) _ m'
          (flush-Returns cfg world awake (enough m) m c (omega arith)) e
    Step-IsConsistent m m' c (responded r response waiting e) =
        Returns-eq (IsConsistent cfg world) _ m'
          (on_response-Returns cfg world awake (enough m) r response m c waiting (omega arith)) e
    Step-IsConsistent m m' c (timed left e) =
        Returns-eq (IsConsistent cfg world) _ m'
          (flush_next-Returns cfg world awake (enough m) (fired m) (fired-IsConsistent m c)
            (omega arith))
          e

    from_start :
        (objects : ℕ → Transaction) {m : Manager}
        → Reach (start world objects) m
        → IsConsistent cfg world m
    from_start objects here = start-IsConsistent objects
    from_start objects (next {m1} {m2} r s) = Step-IsConsistent m1 m2 (from_start objects r) s

-- What may be called next returns, with no exception and within the fuel.
pub record IsLive (cfg : Config) (world : World) (m : Manager) : Type 0 where
  pub flush : Returns (λ _. Unit {0}) (flush cfg world (enough m) m)
  pub response :
      (r : ℕ) (response : Response)
      → contains r m.loop.in_flight ≡ true
      → Returns (λ _. Unit {0}) (on_response cfg world (enough m) r response m)
  pub timeout : Returns (λ _. Unit {0}) (flush_next cfg world (enough m) (fired m))
  pub payload : (r : ℕ) → (m.objects r).id ≡ none → Returns (λ _. Unit {0}) (append cfg world r m)

module _ (cfg : Config) (world : World)
    (awake : (world.ioloop_running ≡ true) ⊎ (cfg.flush_without_ioloop ≡ false))
    (objects : ℕ → Transaction) {m : Manager} (r : Reach cfg world (start world objects) m) where
  -- With tornado's loop running or the flag of the unit tests off: in every state that the event
  -- loop reaches, the totals are those of the queue, the running flushes are the transactions in
  -- flight and at most `max_parallelism`, and while one runs a flush is in progress.
  pub Reach-IsConsistent : IsConsistent cfg world m
  Reach-IsConsistent = from_start cfg world awake objects r

  -- Under the same condition: in every state that the event loop reaches, a periodic flush, the
  -- response to a transaction in flight, a timeout and a new payload are handled without an
  -- exception, and `flush_next` stops after one call for each transaction of the flush and one more.
  pub Reach-IsLive : IsLive cfg world m
  Reach-IsLive =
      let c = Reach-IsConsistent in
      record {
        flush = weaken cfg world _ (flush-Returns cfg world awake (enough m) m c (omega arith));
        response = λ a response waiting.
            weaken cfg world _
              (on_response-Returns cfg world awake (enough m) a response m c waiting (omega arith));
        timeout = weaken cfg world _ (
            flush_next-Returns cfg world awake (enough m) (fired m)
              (fired-IsConsistent cfg world m c) (omega arith));
        payload = λ a new. rw (append-new cfg world a m new) tt;
      }
