-- ===== src/Forwarder/Manager/Outcomes/Invariant.antt =====
-- What an outcome makes of the manager's invariant.
use text.Mathlib.Text.{◌==◌ as str_eq}
use sts_agent.Prelude.{
  ℕ, ◌+◌, ◌-◌, ◌≤◌, ◌≡◌, ◌≢◌, refl, ◌∙◌, ap, not, inl, inr, Option, none, some, String, List, [],
  ◌∷◌, ◌++◌, arith, ltb, ◌==◌, Bool-cases, length, length-append,
}
use sts_agent.Forwarder.Transaction.{inc_error_count}
use sts_agent.Forwarder.Manager.State.{Config, World, Manager, done, delay}
use sts_agent.Forwarder.Manager.Queue.Accounting.{IsCounted, size_of-update, remove-IsCounted}
use sts_agent.Forwarder.Manager.Outcomes.{
  finished, errored, booked, tr_success, reject, tr_error_reject_request, skip_endpoint,
  break_circuit, replay, tr_error,
}
use sts_agent.Forwarder.Manager.Outcomes.Frame.{
  IsConsistent, IsSettling, IsSettled, Returns, Returns-if, IsFramed, same, remove-IsFramed,
  delay-IsFramed, delay-IsCounted,
}

-- The loop over the current flush: what it keeps is no longer than what it is given.
pub record IsSkipped (world : World) (ts new_trs : List ℕ) (m m' : Manager) : Type 0 where
  pub counted : IsCounted world m'
  pub running : m'.running_flushes ≡ m.running_flushes
  pub in_flight : m'.loop.in_flight ≡ m.loop.in_flight
  pub left : List ℕ
  pub flushing : m'.trs_to_flush ≡ some left
  pub shorter : length left ≤ length new_trs + length ts

module _ (cfg : Config) (world : World) (endpoint : String) where
  skip_step :
      (r : ℕ) (rs new_trs more : List ℕ) (m m1 m' : Manager)
      → IsFramed m m1
      → length more ≤ length new_trs + 1
      → IsSkipped world rs more m1 m'
      → IsSkipped world (r ∷ rs) new_trs m m'
  skip_step r rs new_trs more m m1 m' f le v = record {
    counted = v.counted;
    running = v.running ∙ f.running;
    in_flight = v.in_flight ∙ f.in_flight;
    left = v.left;
    flushing = v.flushing;
    shorter = omega (arith, v.shorter, le);
  }

  skip_endpoint-IsSkipped :
      (ts new_trs : List ℕ) (m : Manager)
      → IsCounted world m
      → IsSkipped world ts new_trs m (skip_endpoint cfg world endpoint ts new_trs m)
  unfolding skip_endpoint
  skip_endpoint-IsSkipped [] new_trs m h = record {
    counted = record { counted = h.counted; sized = h.sized };
    running = refl;
    in_flight = refl;
    left = new_trs;
    flushing = refl;
    shorter = omega arith;
  }
  skip_endpoint-IsSkipped (r ∷ rs) new_trs m h =
      elim (Bool-cases (not (str_eq (m.objects r).endpoint endpoint))) [
        | inl e ↦
            rw (e, skip_endpoint)
              (skip_step r rs new_trs (new_trs ++ r ∷ []) m m _ (same m)
                (omega (arith, length-append new_trs (r ∷ [])))
                (skip_endpoint-IsSkipped rs (new_trs ++ r ∷ []) m h))
        | inr e ↦
            rw (e, skip_endpoint)
              (skip_step r rs new_trs new_trs m (delay cfg world r m) _
                (delay-IsFramed cfg world r m) (omega arith)
                (skip_endpoint-IsSkipped rs new_trs (delay cfg world r m)
                  (delay-IsCounted cfg world r m h)))
      ]

module _ (cfg : Config) (world : World) (r : ℕ) (trs : List ℕ) (m : Manager) where
  abbrev once_more : Manager
  once_more = errored r (finished m)

  finished-IsCounted : IsCounted world m → IsCounted world (finished m)
  finished-IsCounted h = record { counted = h.counted; sized = h.sized }

  once_more-IsCounted : IsCounted world m → IsCounted world once_more
  unfolding inc_error_count
  once_more-IsCounted h = record {
    counted = h.counted;
    sized = rw (size_of-update world m.objects r (inc_error_count (m.objects r)) refl) h.sized;
  }

  -- A transaction that leaves the queue.
  tr_success-IsConsistent :
      IsSettling cfg world trs m → IsConsistent cfg world (tr_success cfg world r m)
  unfolding tr_success
  tr_success-IsConsistent s =
      let f = remove-IsFramed world r (finished m) in
      let c = remove-IsCounted world r (finished m) (finished-IsCounted s.counted) in
      record {
        counted = record { counted = c.counted; sized = c.sized };
        running = omega (arith, f.running, s.running, ap length f.in_flight);
        parallel = omega (arith, f.running, s.parallel);
        active = λ e. absurd (cc (f.flushing, s.flushing, e));
      }

  reject-IsConsistent :
      IsSettling cfg world trs m → IsConsistent cfg world (reject cfg world r once_more)
  unfolding reject
  reject-IsConsistent s =
      let f = remove-IsFramed world r once_more in
      let c = remove-IsCounted world r once_more (once_more-IsCounted s.counted) in
      record {
        counted = record { counted = c.counted; sized = c.sized };
        running = omega (arith, f.running, s.running, ap length f.in_flight);
        parallel = omega (arith, f.running, s.parallel);
        active = λ e. absurd (cc (f.flushing, s.flushing, e));
      }

  -- With the error booked on `m1`, a state that differs from `once_more` in the frame at most.
  booked-IsConsistent :
      (m1 : Manager)
      → IsSettling cfg world trs m
      → IsCounted world m1
      → m1.running_flushes ≡ m.running_flushes - 1
      → m1.loop.in_flight ≡ m.loop.in_flight
      → m1.trs_to_flush ≢ none
      → IsConsistent cfg world m1
  booked-IsConsistent m1 s c e f busy = record {
    counted = c;
    running = omega (arith, e, s.running, ap length f);
    parallel = omega (arith, e, s.parallel);
    active = λ idle. absurd (busy idle);
  }

  booked-IsSettled :
      (m1 : Manager)
      → IsSettling cfg world trs m
      → IsCounted world m1
      → m1.running_flushes ≡ m.running_flushes - 1
      → m1.loop.in_flight ≡ m.loop.in_flight
      → m1.trs_to_flush ≡ some trs
      → IsSettled cfg world trs m1
  booked-IsSettled m1 s c e f g = record {
    consistent = booked-IsConsistent m1 s c e f (λ idle. cc);
    left = trs;
    flushing = g;
    shorter = omega arith;
  }

  break_circuit-IsSettled :
      (endpoint : String) (o : Option (List ℕ)) (m1 : Manager)
      → IsSettling cfg world trs m
      → IsCounted world m1
      → m1.running_flushes ≡ m.running_flushes - 1
      → m1.loop.in_flight ≡ m.loop.in_flight
      → o ≡ some trs
      → Returns (IsSettled cfg world trs) (break_circuit cfg world endpoint o m1)
  unfolding break_circuit
  break_circuit-IsSettled endpoint none m1 s c e f g = cc
  break_circuit-IsSettled endpoint (some l) m1 s c e f g =
      let v = skip_endpoint-IsSkipped cfg world endpoint l [] m1 c in
      record {
        consistent =
            booked-IsConsistent (skip_endpoint cfg world endpoint l [] m1) s v.counted
              (v.running ∙ e) (v.in_flight ∙ f) (λ idle. cc (v.flushing));
        left = v.left;
        flushing = v.flushing;
        shorter = let same_list : l ≡ trs = cc in omega (arith, v.shorter, ap length same_list);
      }

  -- The state in which `replay` tests the errors of the endpoint.
  abbrev delayed : Manager
  delayed = delay cfg world r once_more

  abbrev endpoint_of : String
  endpoint_of = (delayed.objects r).endpoint

  abbrev noted : Manager
  noted = booked endpoint_of delayed

  replay-IsSettled :
      IsSettling cfg world trs m → Returns (IsSettled cfg world trs) (replay cfg world r once_more)
  unfolding replay
  replay-IsSettled s =
      let f = delay-IsFramed cfg world r once_more in
      let c = delay-IsCounted cfg world r once_more (once_more-IsCounted s.counted) in
      let counted : IsCounted world noted = record { counted = c.counted; sized = c.sized } in
      let flushing = f.flushing ∙ s.flushing in
      Returns-if (IsSettled cfg world trs)
        (noted.endpoints_errors endpoint_of == cfg.max_endpoint_errors)
        (break_circuit cfg world endpoint_of noted.trs_to_flush noted) (done noted)
        (break_circuit-IsSettled endpoint_of noted.trs_to_flush noted s counted f.running
          f.in_flight flushing)
        (booked-IsSettled noted s counted f.running f.in_flight flushing)

  rejected-IsSettled :
      IsSettling cfg world trs m → IsSettled cfg world trs (reject cfg world r once_more)
  unfolding reject
  rejected-IsSettled s = record {
    consistent = unfold reject in reject-IsConsistent s;
    left = trs;
    flushing = (remove-IsFramed world r once_more).flushing ∙ s.flushing;
    shorter = omega arith;
  }

  pub tr_error-IsSettled :
      IsSettling cfg world trs m → Returns (IsSettled cfg world trs) (tr_error cfg world r m)
  unfolding tr_error
  tr_error-IsSettled s =
      Returns-if (IsSettled cfg world trs)
        (ltb cfg.max_endpoint_errors (once_more.objects r).error_count)
        (done (reject cfg world r once_more)) (replay cfg world r once_more) (rejected-IsSettled s)
        (replay-IsSettled s)

  pub tr_error_reject_request-IsSettled :
      IsSettling cfg world trs m → IsSettled cfg world trs (tr_error_reject_request cfg world r m)
  unfolding tr_error_reject_request
  tr_error_reject_request-IsSettled s = rejected-IsSettled s

  pub tr_success-IsSettled :
      IsSettling cfg world trs m → IsSettled cfg world trs (tr_success cfg world r m)
  unfolding tr_success
  tr_success-IsSettled s = record {
    consistent = unfold tr_success in tr_success-IsConsistent s;
    left = trs;
    flushing = (remove-IsFramed world r (finished m)).flushing ∙ s.flushing;
    shorter = omega arith;
  }
