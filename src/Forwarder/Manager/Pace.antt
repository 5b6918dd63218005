-- ===== src/Forwarder/Manager/Pace.antt =====
-- Throttling: how many transactions are sent in a given time.
mod Sends
use mathlib.Core.Path.{subst}
use text.Mathlib.Text.{◌==◌ as str_eq}
use sts_agent.Prelude.{
  ℕ, zero, suc, ◌+◌, ◌*◌, ◌≤◌, ◌<◌, ◌≡◌, refl, ◌∙◌, ap, sym, Bool, true, false, ◌&&◌, not, inl, inr,
  Option, none, some, String, List, [], ◌∷◌, ◌++◌, arith, ltb, leb, ◌==◌, if◌then◌else◌, Bool-cases,
  split_last,
}
use sts_agent.Prelude.Bag.{contains, remove_first}
use sts_agent.Prelude.Sorting.{sorted}
use sts_agent.Forwarder.Transaction.{Transaction}
use sts_agent.Forwarder.Manager.State.{
  Config, World, Manager, Run, done, fault, start, tick, delay, delay_all, max_flush_duration,
  ◌>>=◌,
}
use sts_agent.Forwarder.Manager.Queue.{get_size, remove, later_first, evict, enqueue, append}
use sts_agent.Forwarder.Manager.Queue.Steps.{numbered, append-eq-done}
use sts_agent.Forwarder.Manager.Outcomes.{
  finished, errored, booked, tr_success, reject, tr_error_reject_request, skip_endpoint,
  break_circuit, replay, tr_error,
}
use sts_agent.Forwarder.Manager.Flush.{
  Response, Pass, stop, again, failed, after_error, resume, launch, pop_and_launch, wait, throttled,
  pass_with, pass_without, pass_at, flush_next, due, begin_with, flush_at, flush, to_reject,
  arrived, settle, on_response,
}
use sts_agent.Forwarder.Manager.Loop.{
  Step, Reach, here, next, appended, flushed, responded, timed, enough, fired,
}
use sts_agent.Forwarder.Manager.Pace.Sends.{
  pace, pace-remove, pace-delay_all, pace-skip_endpoint, pace-evict, Sends0, Sends0-if,
  break_circuit-Sends0, replay-Sends0, tr_error-Sends0,
}

module _ (cfg : Config) (world : World) where
  -- Between the start of the manager and the last attempt there is a throttling delay for each
  -- attempt.
  abbrev pub IsPaced : Manager → Type 0
  IsPaced m = world.utcnow 0 + m.loop.attempts * cfg.throttling_delay ≤ m.last_flush

  IsPaced-pace : (m m' : Manager) → pace m' ≡ pace m → IsPaced m → IsPaced m'
  IsPaced-pace m m' e h =
      subst (λ (p : ℕ × ℕ). world.utcnow 0 + p.0 * cfg.throttling_delay ≤ p.1) (sym e) h

  abbrev RunPaced : Run → Type 0
  RunPaced (done m) = IsPaced m
  RunPaced (fault e m) = Unit

  abbrev PassPaced : Pass → Type 0
  PassPaced (stop m) = IsPaced m
  PassPaced (again m) = IsPaced m
  PassPaced (failed e m) = Unit

  PassPaced-if :
      (b : Bool) (x y : Pass)
      → (b ≡ true → PassPaced x)
      → (b ≡ false → PassPaced y)
      → PassPaced (if b then x else y)
  PassPaced-if true x y hx hy = hx refl
  PassPaced-if false x y hx hy = hy refl

  after_error-PassPaced :
      (m : Manager) (run : Run) → IsPaced m → Sends0 cfg world m run → PassPaced (after_error run)
  unfolding after_error
  after_error-PassPaced m (done m') h e = IsPaced-pace m m' e h
  after_error-PassPaced m (fault e m') h k = tt

  resumed :
      (rest : Manager → Run)
      → ((m : Manager) → IsPaced m → RunPaced (rest m))
      → (p : Pass) → PassPaced p
      → RunPaced (resume rest p)
  unfolding resume
  resumed rest k (stop m) h = h
  resumed rest k (again m) h = k m h
  resumed rest k (failed e m) h = tt

  -- A launch: one attempt more.
  launch-PassPaced :
      (r : ℕ) (m : Manager)
      → world.utcnow 0 + (m.loop.attempts + 1) * cfg.throttling_delay ≤ m.last_flush
      → PassPaced (launch cfg world r m)
  unfolding launch
  launch-PassPaced r m h =
      let m1 : Manager = record m { loop = record m.loop { attempts = m.loop.attempts + 1 } } in
      PassPaced-if (world.flush_raises r m.loop.attempts) (after_error (tr_error cfg world r m1)) _
        (λ _. after_error-PassPaced m1 (tr_error cfg world r m1) h (tr_error-Sends0 cfg world r m1))
        (λ _. h)

  wait-PassPaced : (m : Manager) → IsPaced m → PassPaced (wait cfg world m)
  unfolding wait
  wait-PassPaced m h =
      PassPaced-if world.ioloop_running _ _ (λ _. h)
        λ _. PassPaced-if cfg.flush_without_ioloop _ _ (λ _. h) (λ _. h)

  module _ (forward : (n : ℕ) → world.utcnow n ≤ world.utcnow (n + 1)) where
    throttled-PassPaced :
        (t : ℕ) (ts : List ℕ) (m : Manager) → IsPaced m → PassPaced (throttled cfg world t ts m)
    unfolding throttled pop_and_launch
    throttled-PassPaced t ts m h =
        PassPaced-if
          (leb (m.last_flush + cfg.throttling_delay) (world.utcnow m.loop.reads)
            && ltb m.running_flushes cfg.max_parallelism)
          (pop_and_launch cfg world t ts (tick m)) _
          (λ e. launch-PassPaced (split_last t ts).1 _ (ground (arith, forward m.loop.reads, h)))
          λ _.
            PassPaced-if (ltb m.running_flushes cfg.max_parallelism) (wait cfg world (tick m))
              (stop (tick m)) (λ _. wait-PassPaced (tick m) h) (λ _. h)

    pass_at-PassPaced :
        (o : Option (List ℕ)) (m : Manager) → IsPaced m → PassPaced (pass_at cfg world o m)
    unfolding pass_at pass_with pass_without
    pass_at-PassPaced none m h = PassPaced-if (m.running_flushes == 0) _ _ (λ _. h) (λ _. h)
    pass_at-PassPaced (some []) m h = PassPaced-if (m.running_flushes == 0) _ _ (λ _. h) (λ _. h)
    pass_at-PassPaced (some (t ∷ ts)) m h =
        PassPaced-if (leb (m.flush_time + max_flush_duration) (world.utcnow m.loop.reads)) _
          (throttled cfg world t ts (tick m))
          (λ _.
            IsPaced-pace (tick m) (delay_all cfg world (t ∷ ts) (tick m))
              (pace-delay_all cfg world (t ∷ ts) (tick m)) h)
          (λ _. throttled-PassPaced t ts (tick m) h)

    flush_next-RunPaced :
        (fuel : ℕ) (m : Manager) → IsPaced m → RunPaced (flush_next cfg world fuel m)
    unfolding flush_next
    flush_next-RunPaced zero m h = tt
    flush_next-RunPaced (suc fuel) m h =
        resumed (flush_next cfg world fuel) (flush_next-RunPaced fuel)
          (pass_at cfg world m.trs_to_flush m) (pass_at-PassPaced m.trs_to_flush m h)

    bound :
        (run : Run) (f : Manager → Run)
        → RunPaced run
        → ((m : Manager) → IsPaced m → RunPaced (f m))
        → RunPaced (run >>= f)
    bound (done m) f h k = k m h
    bound (fault e m) f h k = tt

    begin_with-RunPaced :
        (fuel : ℕ) (trs : List ℕ) (m : Manager)
        → IsPaced m
        → RunPaced (begin_with cfg world fuel trs m)
    unfolding begin_with
    begin_with-RunPaced fuel [] m h = h
    begin_with-RunPaced fuel (r ∷ rs) m h = flush_next-RunPaced fuel _ h

    flush_at-RunPaced :
        (fuel : ℕ) (o : Option (List ℕ)) (m : Manager)
        → IsPaced m
        → RunPaced (flush_at cfg world fuel o m)
    unfolding flush_at
    flush_at-RunPaced fuel (some trs) m h = h
    flush_at-RunPaced fuel none m h =
        bound _ _
          (begin_with-RunPaced fuel (due cfg world (world.utcnow m.loop.reads) m) (tick m) h)
          (λ m' h'. h')

    of_Sends0 : (m : Manager) (run : Run) → IsPaced m → Sends0 cfg world m run → RunPaced run
    of_Sends0 m (done m') h e = IsPaced-pace m m' e h
    of_Sends0 m (fault e m') h k = tt

    settle-Sends0 :
        (r : ℕ) (response : Response) (m : Manager)
        → Sends0 cfg world m (settle cfg world r response m)
    unfolding settle tr_success tr_error_reject_request reject
    settle-Sends0 r response m =
        Sends0-if cfg world m response.error _ (done (tr_success cfg world r m))
          (Sends0-if cfg world m (to_reject response.code)
            (done (tr_error_reject_request cfg world r m)) (tr_error cfg world r m)
            (pace-remove cfg world r (errored r (finished m))) (tr_error-Sends0 cfg world r m))
          (pace-remove cfg world r (finished m))

    pace-enqueue : (r : ℕ) (m : Manager) → pace (enqueue cfg world r m) ≡ pace m
    unfolding enqueue get_size
    pace-enqueue r m =
        let m1 : Manager = (get_size world r m).1 in
        let n : ℕ = (get_size world r m).0 in
        elim (Bool-cases (ltb cfg.max_queue_size (m.total_size + n))) [
          | inl e ↦
              rw e (pace-evict cfg world n (sorted (later_first m1.objects) m1.transactions) m1)
          | inr e ↦ rw e
        ]

    RunPaced-eq : (run : Run) (m : Manager) → RunPaced run → run ≡ done m → IsPaced m
    RunPaced-eq run m h e = rw e at h

    Step-IsPaced : (m m' : Manager) → IsPaced m → Step cfg world m m' → IsPaced m'
    unfolding flush on_response
    Step-IsPaced m m' h (appended r e) =
        let (_, after) = append-eq-done cfg world r m m' e in
        IsPaced-pace m m' (ap pace after ∙ pace-enqueue r (numbered r m)) h
    Step-IsPaced m m' h (flushed e) =
        RunPaced-eq _ m' (flush_at-RunPaced (enough m) m.trs_to_flush m h) e
    Step-IsPaced m m' h (responded r response waiting e) =
        RunPaced-eq _ m'
          (bound _ _ (of_Sends0 (arrived r m) _ h (settle-Sends0 r response (arrived r m)))
            (flush_next-RunPaced (enough m)))
          e
    Step-IsPaced m m' h (timed left e) =
        RunPaced-eq _ m' (flush_next-RunPaced (enough m) (fired m) h) e

    -- On a clock that does not go back: in every state that the event loop reaches, the time from
    -- the start of the manager to the last attempt is at least the throttling delay times the
    -- number of attempts made.
    pub Reach-IsPaced :
        (objects : ℕ → Transaction) {m : Manager}
        → Reach cfg world (start world objects) m
        → IsPaced m
    Reach-IsPaced objects here = omega arith
    Reach-IsPaced objects (next {m1} {m2} r s) = Step-IsPaced m1 m2 (Reach-IsPaced objects r) s
