-- ===== src/Forwarder/Manager/Flush/Callbacks.antt =====
-- `flush` and `on_response`, the calls that the event loop and the payload handlers make.
use sts_agent.Prelude.{
  ℕ, ◌≤◌, ◌<◌, ◌≡◌, ap, true, false, ◌⊎◌, inl, inr, Option, none, some, List, [], ◌∷◌, arith,
  Option-cases, length, length-select-le, select,
}
use sts_agent.Prelude.Bag.{contains, length-remove_first}
use sts_agent.Prelude.Sorting.{length-sorted}
use sts_agent.Forwarder.Transaction.{time_to_flush}
use sts_agent.Forwarder.Manager.State.{Config, World, Manager, Run, done, fault, tick, ◌>>=◌}
use sts_agent.Forwarder.Manager.Outcomes.{tr_error, tr_success, tr_error_reject_request}
use sts_agent.Forwarder.Manager.Outcomes.Frame.{
  IsConsistent, IsSettling, IsSettled, Returns, Returns-if,
}
use sts_agent.Forwarder.Manager.Outcomes.Invariant.{
  tr_error-IsSettled, tr_success-IsSettled, tr_error_reject_request-IsSettled,
}
use sts_agent.Forwarder.Manager.Flush.Invariant.{pending, flush_next-Returns}
use sts_agent.Forwarder.Manager.Flush.{
  Response, errors_first, due, begin_with, flush_at, flush, to_reject, arrived, settle, on_response,
}

module _ (cfg : Config) (world : World) where
  length-due-le : (now : ℕ) (m : Manager) → length (due cfg world now m) ≤ length m.transactions
  unfolding due
  length-due-le now m = omega (
    arith,
    length-sorted (errors_first m.objects)
        (select (λ r. time_to_flush now (m.objects r)) m.transactions),
    length-select-le (λ r. time_to_flush now (m.objects r)) m.transactions,
  )

  Returns-bind :
      (P Q : Manager → Type 0) (run : Run) (f : Manager → Run)
      → Returns P run
      → ((m : Manager) → P m → Returns Q (f m))
      → Returns Q (run >>= f)
  Returns-bind P Q (done m) f h k = k m h
  Returns-bind P Q (fault e m) f h k = h

  module _ (awake : (world.ioloop_running ≡ true) ⊎ (cfg.flush_without_ioloop ≡ false)) where
    begin_with-Returns :
        (fuel : ℕ) (trs : List ℕ) (m : Manager)
        → IsConsistent cfg world m
        → length trs < fuel
        → Returns (IsConsistent cfg world) (begin_with cfg world fuel trs m)
    unfolding begin_with
    begin_with-Returns fuel [] m c enough = c
    begin_with-Returns fuel (r ∷ rs) m c enough =
        flush_next-Returns cfg world awake fuel _
          (record {
            counted = record { counted = c.counted.counted; sized = c.counted.sized };
            running = c.running;
            parallel = c.parallel;
            active = λ idle. absurd (cc);
          })
          enough

    flush_at-Returns :
        (fuel : ℕ) (o : Option (List ℕ)) (m : Manager)
        → IsConsistent cfg world m
        → length m.transactions < fuel
        → Returns (IsConsistent cfg world) (flush_at cfg world fuel o m)
    unfolding flush_at
    flush_at-Returns fuel (some trs) m c enough = c
    flush_at-Returns fuel none m c enough =
        Returns-bind (IsConsistent cfg world) (IsConsistent cfg world) _ _
          (begin_with-Returns fuel (due cfg world (world.utcnow m.loop.reads) m) (tick m)
            (record {
              counted = record { counted = c.counted.counted; sized = c.counted.sized };
              running = c.running;
              parallel = c.parallel;
              active = c.active;
            })
            (omega (arith, length-due-le (world.utcnow m.loop.reads) m)))
          λ m' c'. record {
            counted = record { counted = c'.counted.counted; sized = c'.counted.sized };
            running = c'.running;
            parallel = c'.parallel;
            active = c'.active;
          }

    -- From a consistent state, with more fuel than there are queued transactions, `flush` returns
    -- in a consistent state.
    pub flush-Returns :
        (fuel : ℕ) (m : Manager)
        → IsConsistent cfg world m
        → length m.transactions < fuel
        → Returns (IsConsistent cfg world) (flush cfg world fuel m)
    unfolding flush
    flush-Returns fuel m c enough = flush_at-Returns fuel m.trs_to_flush m c enough

  settle-Returns :
      (r : ℕ) (trs : List ℕ) (response : Response) (m : Manager)
      → IsSettling cfg world trs m
      → Returns (IsSettled cfg world trs) (settle cfg world r response m)
  unfolding settle
  settle-Returns r trs response m s =
      let P = IsSettled cfg world trs in
      Returns-if P response.error _ (done (tr_success cfg world r m))
        (Returns-if P (to_reject response.code) (done (tr_error_reject_request cfg world r m))
          (tr_error cfg world r m) (tr_error_reject_request-IsSettled cfg world r trs m s)
          (tr_error-IsSettled cfg world r trs m s))
        (tr_success-IsSettled cfg world r trs m s)

  arrived-IsSettling :
      (r : ℕ) (m : Manager)
      → IsConsistent cfg world m
      → contains r m.loop.in_flight ≡ true
      → (trs : List ℕ) × (m.trs_to_flush ≡ some trs) × IsSettling cfg world trs (arrived r m)
  arrived-IsSettling r m c here =
      let running = length-remove_first r m.loop.in_flight here in
      elim (Option-cases m.trs_to_flush) [
        | inl idle ↦ absurd (omega (arith, c.active idle, c.running, running))
        | inr (trs, e) ↦ (
          trs,
          e,
          record {
            counted = record { counted = c.counted.counted; sized = c.counted.sized };
            running = omega (arith, c.running, running);
            parallel = c.parallel;
            flushing = e;
          },
        )
      ]

  module _ (awake : (world.ioloop_running ≡ true) ⊎ (cfg.flush_without_ioloop ≡ false)) where
    -- From a consistent state, `on_response` for a transaction in flight returns in a consistent
    -- state, with more fuel than the flush has transactions left: no `TypeError` is raised.
    pub on_response-Returns :
        (fuel r : ℕ) (response : Response) (m : Manager)
        → IsConsistent cfg world m
        → contains r m.loop.in_flight ≡ true
        → pending m.trs_to_flush < fuel
        → Returns (IsConsistent cfg world) (on_response cfg world fuel r response m)
    unfolding on_response
    on_response-Returns fuel r response m c here enough =
        let (trs, flushing, s) = arrived-IsSettling r m c here in
        Returns-bind (IsSettled cfg world trs) (IsConsistent cfg world) _ _
          (settle-Returns r trs response (arrived r m) s)
          λ m' v.
            flush_next-Returns cfg world awake fuel m' v.consistent
              (rw v.flushing (omega (arith, v.shorter, ap pending flushing)))
