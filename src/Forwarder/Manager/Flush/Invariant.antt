-- ===== src/Forwarder/Manager/Flush/Invariant.antt =====
-- `flush_next`, `flush` and `on_response` keep the manager's invariant, and return.
use sts_agent.Prelude.{
  ℕ, zero, suc, ◌+◌, ◌<◌, ◌≡◌, refl, ap, Bool, true, false, ◌&&◌, ◌⊎◌, Option, none, some, List, [],
  ◌∷◌, ◌++◌, arith, ltb, leb, ◌==◌, ==_iff, if◌then◌else◌, length, length-append, split_last,
  length-split_last,
}
use sts_agent.Forwarder.Manager.State.{
  Config, World, Manager, Run, done, fault, tick, max_flush_duration, delay_all,
}
use sts_agent.Forwarder.Manager.Outcomes.{tr_error}
use sts_agent.Forwarder.Manager.Outcomes.Frame.{
  IsConsistent, IsSettling, IsSettled, Returns, delay_all-IsFramed, delay_all-IsCounted,
}
use sts_agent.Forwarder.Manager.Outcomes.Invariant.{tr_error-IsSettled}
use sts_agent.Forwarder.Manager.Flush.{
  Pass, stop, again, failed, after_error, resume, launch, pop_and_launch, throttled, pass_with,
  wait, pass_without, pass_at, flush_next,
}

-- How many transactions the current flush has left.
abbrev pub pending : Option (List ℕ) → ℕ
pending none = 0
pending (some trs) = length trs

module _ (cfg : Config) (world : World) where
  -- One pass keeps the invariant; if it goes round again, fewer than `n` transactions are left.
  abbrev Passes : ℕ → Pass → Type 0
  Passes n (stop m) = IsConsistent cfg world m
  Passes n (again m) = IsConsistent cfg world m × (pending m.trs_to_flush < n)
  Passes n (failed e m) = ⊥

  Passes-if :
      (n : ℕ) (b : Bool) (x y : Pass)
      → (b ≡ true → Passes n x)
      → (b ≡ false → Passes n y)
      → Passes n (if b then x else y)
  Passes-if n true x y hx hy = hx refl
  Passes-if n false x y hx hy = hy refl

  after_error-Passes :
      (r : ℕ) (trs : List ℕ) (m : Manager) (run : Run)
      → Returns (IsSettled cfg world trs) run
      → Passes (suc (length trs)) (after_error run)
  unfolding after_error
  after_error-Passes r trs m (done m') h = (h.consistent, rw h.flushing (omega (arith, h.shorter)))
  after_error-Passes r trs m (fault e m') h = elim h [ ]

  in_flight-IsConsistent :
      (r : ℕ) (trs : List ℕ) (m : Manager)
      → IsSettling cfg world trs m
      → IsConsistent cfg world (record m {
        loop = record m.loop {
          attempts = m.loop.attempts + 1;
          in_flight = m.loop.in_flight ++ r ∷ [];
        };
      })
  in_flight-IsConsistent r trs m s = record {
    counted = record { counted = s.counted.counted; sized = s.counted.sized };
    running = omega (arith, s.running, length-append m.loop.in_flight (r ∷ []));
    parallel = s.parallel;
    active = λ idle. absurd (cc (s.flushing));
  }

  -- A flush that took too long is stopped.
  stopped-IsConsistent :
      (trs : List ℕ) (m : Manager)
      → IsConsistent cfg world m
      → IsConsistent cfg world (record (delay_all cfg world trs m) { trs_to_flush = some [] })
  stopped-IsConsistent trs m c =
      let f = delay_all-IsFramed cfg world trs m in
      let k = delay_all-IsCounted cfg world trs m c.counted in
      record {
        counted = record { counted = k.counted; sized = k.sized };
        running = omega (arith, f.running, c.running, ap length f.in_flight);
        parallel = omega (arith, f.running, c.parallel);
        active = λ idle. absurd (cc);
      }

  launch-Passes :
      (r : ℕ) (trs : List ℕ) (m : Manager)
      → IsSettling cfg world trs m
      → Passes (suc (length trs)) (launch cfg world r m)
  unfolding launch
  launch-Passes r trs m s =
      let m1 : Manager = record m { loop = record m.loop { attempts = m.loop.attempts + 1 } } in
      let s1 : IsSettling cfg world trs m1 = record {
        counted = record { counted = s.counted.counted; sized = s.counted.sized };
        running = s.running;
        parallel = s.parallel;
        flushing = s.flushing;
      } in
      Passes-if (suc (length trs)) (world.flush_raises r m.loop.attempts) _ _
        (λ _.
          after_error-Passes r trs m1 (tr_error cfg world r m1)
            (tr_error-IsSettled cfg world r trs m1 s1))
        (λ _. (in_flight-IsConsistent r trs m s, rw s.flushing (omega arith)))

  pop_and_launch-Passes :
      (t : ℕ) (ts : List ℕ) (m : Manager)
      → IsConsistent cfg world m
      → m.running_flushes < cfg.max_parallelism
      → Passes (length (t ∷ ts)) (pop_and_launch cfg world t ts m)
  unfolding pop_and_launch
  pop_and_launch-Passes t ts m c free =
      let popped : Manager = record (tick m) {
        trs_to_flush = some (split_last t ts).0;
        running_flushes = m.running_flushes + 1;
        last_flush = world.utcnow m.loop.reads;
      } in
      rw (← length-split_last t ts) (
        launch-Passes (split_last t ts).1 (split_last t ts).0 popped (record {
          counted = record { counted = c.counted.counted; sized = c.counted.sized };
          running = omega (arith, c.running);
          parallel = omega arith;
          flushing = refl;
        }))

  -- Nothing but the clock and the timers of the event loop has changed.
  unchanged :
      (m : Manager) (reads timers : ℕ)
      → IsConsistent cfg world m
      → IsConsistent cfg world
          (record m { loop = record m.loop { reads = reads; timers = timers } })
  unchanged m reads timers c = record {
    counted = record { counted = c.counted.counted; sized = c.counted.sized };
    running = c.running;
    parallel = c.parallel;
    active = c.active;
  }

  over :
      (m : Manager)
      → IsConsistent cfg world m
      → m.running_flushes ≡ 0
      → IsConsistent cfg world (record (tick m) { trs_to_flush = none })
  over m c idle = record {
    counted = record { counted = c.counted.counted; sized = c.counted.sized };
    running = c.running;
    parallel = c.parallel;
    active = λ _. idle;
  }

  pass_without-Passes :
      (n : ℕ) (m : Manager) → IsConsistent cfg world m → Passes n (pass_without cfg world m)
  unfolding pass_without
  pass_without-Passes n m c =
      Passes-if n (m.running_flushes == 0) _ _
        (λ idle. over m c ((==_iff m.running_flushes 0).0 idle)) (λ _. c)

  module _ (awake : (world.ioloop_running ≡ true) ⊎ (cfg.flush_without_ioloop ≡ false)) where
    wait-Passes : (n : ℕ) (m : Manager) → IsConsistent cfg world m → Passes n (wait cfg world m)
    unfolding wait
    wait-Passes n m c =
        Passes-if n world.ioloop_running _ _ (λ _. unchanged m m.loop.reads (m.loop.timers + 1) c)
          λ off. Passes-if n cfg.flush_without_ioloop _ _ (λ on. absurd (ground arith)) (λ _. c)

    throttled-Passes :
        (t : ℕ) (ts : List ℕ) (m : Manager)
        → IsConsistent cfg world m
        → Passes (length (t ∷ ts)) (throttled cfg world t ts m)
    unfolding throttled
    throttled-Passes t ts m c =
        let c1 = unchanged m (m.loop.reads + 1) m.loop.timers c in
        Passes-if (length (t ∷ ts))
          (leb (m.last_flush + cfg.throttling_delay) (world.utcnow m.loop.reads)
            && ltb m.running_flushes cfg.max_parallelism)
          (pop_and_launch cfg world t ts (tick m)) _
          (λ e. pop_and_launch-Passes t ts (tick m) c1 (ground arith))
          λ _.
            Passes-if (length (t ∷ ts)) (ltb m.running_flushes cfg.max_parallelism)
              (wait cfg world (tick m)) (stop (tick m))
              (λ _. wait-Passes (length (t ∷ ts)) (tick m) c1) (λ _. c1)

    pass_with-Passes :
        (t : ℕ) (ts : List ℕ) (m : Manager)
        → IsConsistent cfg world m
        → m.trs_to_flush ≡ some (t ∷ ts)
        → Passes (length (t ∷ ts)) (pass_with cfg world t ts m)
    unfolding pass_with
    pass_with-Passes t ts m c e =
        let c1 = unchanged m (m.loop.reads + 1) m.loop.timers c in
        Passes-if (length (t ∷ ts))
          (leb (m.flush_time + max_flush_duration) (world.utcnow m.loop.reads)) _
          (throttled cfg world t ts (tick m))
          (λ _. (stopped-IsConsistent (t ∷ ts) (tick m) c1, omega arith))
          (λ _. throttled-Passes t ts (tick m) c1)

    pass_at-Passes :
        (o : Option (List ℕ)) (m : Manager)
        → IsConsistent cfg world m
        → m.trs_to_flush ≡ o
        → Passes (pending o) (pass_at cfg world o m)
    unfolding pass_at
    pass_at-Passes none m c e = pass_without-Passes 0 m c
    pass_at-Passes (some []) m c e = pass_without-Passes 0 m c
    pass_at-Passes (some (t ∷ ts)) m c e = pass_with-Passes t ts m c e

    resume-Returns :
        (n : ℕ) (p : Pass) (rest : Manager → Run)
        → Passes n p
        → ((m : Manager)
            → IsConsistent cfg world m
            → pending m.trs_to_flush < n
            → Returns (IsConsistent cfg world) (rest m))
        → Returns (IsConsistent cfg world) (resume rest p)
    unfolding resume
    resume-Returns n (stop m) rest h k = h
    resume-Returns n (again m) rest h k = k m h.0 h.1
    resume-Returns n (failed e m) rest h k = h

    -- From a consistent state, with more fuel than the flush has transactions left, `flush_next`
    -- returns in a consistent state.
    pub flush_next-Returns :
        (fuel : ℕ) (m : Manager)
        → IsConsistent cfg world m
        → pending m.trs_to_flush < fuel
        → Returns (IsConsistent cfg world) (flush_next cfg world fuel m)
    unfolding flush_next
    flush_next-Returns zero m c enough = absurd (omega arith)
    flush_next-Returns (suc fuel) m c enough =
        resume-Returns (pending m.trs_to_flush) (pass_at cfg world m.trs_to_flush m) _
          (pass_at-Passes m.trs_to_flush m c refl)
          λ m' c' fewer. flush_next-Returns fuel m' c' (omega arith)
