-- ===== src/Forwarder/Manager/Replay.antt =====
-- What a failed transaction comes to: rejection, or a replay, and the test on its endpoint.
mod Kept
use mathlib.Core.Path.{ap₂, fun_ext}
use mathlib.Core.List.{append-nil, append_assoc}
use text.Mathlib.Text.{◌==◌ as str_eq}
use text.Mathlib.TextPositions.{eq_refl}
use sts_agent.Prelude.{
  ℕ, suc, ◌+◌, ◌-◌, ◌*◌, ◌%◌, ◌≤◌, ◌<◌, ◌≡◌, refl, ◌∙◌, ap, sym, Bool, true, false, not, inl, inr,
  Option, none, some, String, List, [], ◌∷◌, ◌++◌, arith, ltb, ◌==◌, ==_iff, if◌then◌else◌,
  Bool-cases, select,
}
use sts_agent.Prelude.Bag.{contains, remove_first}
use sts_agent.Forwarder.Transaction.{
  Transaction, second, replay_delay, inc_error_count, compute_next_flush,
}
use sts_agent.Forwarder.Manager.State.{Config, World, Manager, Run, done, update, delay}
use sts_agent.Forwarder.Manager.Outcomes.Frame.{Returns, Returns-by, delay-IsFramed}
use sts_agent.Forwarder.Manager.Queue.{remove}
use sts_agent.Forwarder.Manager.Outcomes.{
  finished, errored, booked, skip_endpoint, break_circuit, replay, reject, tr_error,
  tr_error_reject_request,
}
use sts_agent.Forwarder.Manager.Replay.Kept.{
  others, endpoint-delay, others-delay, skip_endpoint-flushing, IsKept, delay-IsKept, IsKept-refl,
  trans, skip_endpoint-IsKept,
}

-- `r` stays queued with one more error, and so does its endpoint; at the limit of its errors, the
-- endpoint's transactions have left the flush `trs`, and the others stand in it in their order.
pub record IsReplayed (cfg : Config) (r : ℕ) (trs : List ℕ) (m m' : Manager) : Type 0 where
  pub queued : m'.transactions ≡ m.transactions
  pub rejected : m'.transactions_rejected ≡ m.transactions_rejected
  pub errors : (m'.objects r).error_count ≡ (m.objects r).error_count + 1
  pub by_endpoint :
      m'.endpoints_errors (m.objects r).endpoint ≡ m.endpoints_errors (m.objects r).endpoint + 1
  pub flushing :
      m'.trs_to_flush
      ≡ some (
          if m.endpoints_errors (m.objects r).endpoint + 1 == cfg.max_endpoint_errors
          then select (others m.objects (m.objects r).endpoint) trs
          else trs)

module _ (cfg : Config) (world : World) (r : ℕ) (trs : List ℕ) (m : Manager)
    (flushing : m.trs_to_flush ≡ some trs) where
  abbrev once_more : Manager
  once_more = errored r (finished m)

  abbrev delayed : Manager
  delayed = delay cfg world r once_more

  abbrev its_endpoint : String
  its_endpoint = (delayed.objects r).endpoint

  abbrev noted : Manager
  noted = booked its_endpoint delayed

  endpoint-errored : (x : ℕ) → (once_more.objects x).endpoint ≡ (m.objects x).endpoint
  unfolding inc_error_count
  endpoint-errored x = elim (Bool-cases (x == r)) [
    | inl e ↦ rw e (ap (λ y. (m.objects y).endpoint) (sym ((==_iff x r).0 e)))
    | inr e ↦ rw e
  ]

  same_endpoint : its_endpoint ≡ (m.objects r).endpoint
  same_endpoint = endpoint-delay cfg world r r once_more ∙ endpoint-errored r

  same_others : others noted.objects its_endpoint ≡ others m.objects (m.objects r).endpoint
  same_others =
      others-delay cfg world r its_endpoint once_more
      ∙ fun_ext λ x. ap₂ (λ a b. not (str_eq a b)) (endpoint-errored x) same_endpoint

  same_test :
      (noted.endpoints_errors its_endpoint == cfg.max_endpoint_errors)
      ≡ (m.endpoints_errors (m.objects r).endpoint + 1 == cfg.max_endpoint_errors)
  unfolding delay
  same_test =
      ap (λ n. n == cfg.max_endpoint_errors)
        (rw eq_refl (ap (λ e. m.endpoints_errors e + 1) same_endpoint))

  one_more : (once_more.objects r).error_count ≡ (m.objects r).error_count + 1
  unfolding inc_error_count
  one_more = ground arith

  counted :
      noted.endpoints_errors (m.objects r).endpoint ≡ m.endpoints_errors (m.objects r).endpoint + 1
  unfolding delay
  counted = rw (← same_endpoint) (rw eq_refl)

  replayed :
      (m' : Manager)
      → IsKept noted m'
      → m'.trs_to_flush
        ≡ some (
            if m.endpoints_errors (m.objects r).endpoint + 1 == cfg.max_endpoint_errors
            then select (others m.objects (m.objects r).endpoint) trs
            else trs)
      → IsReplayed cfg r trs m m'
  replayed m' k flush =
      let d = delay-IsKept cfg world r once_more in
      record {
        queued = k.queued ∙ d.queued;
        rejected = k.rejected ∙ d.rejected;
        errors = k.errors r ∙ d.errors r ∙ one_more;
        by_endpoint = ap (λ (f : String → ℕ). f (m.objects r).endpoint) k.by_endpoint ∙ counted;
        flushing = flush;
      }

  break_circuit_returns :
      (o : Option (List ℕ))
      → o ≡ some trs
      → (m.endpoints_errors (m.objects r).endpoint + 1 == cfg.max_endpoint_errors) ≡ true
      → Returns (IsReplayed cfg r trs m) (break_circuit cfg world its_endpoint o noted)
  unfolding break_circuit
  break_circuit_returns none e at_limit = cc
  break_circuit_returns (some l) e at_limit =
      let same : l ≡ trs = cc in
      replayed (skip_endpoint cfg world its_endpoint l [] noted)
        (skip_endpoint-IsKept cfg world its_endpoint l [] noted)
        (rw at_limit (
          skip_endpoint-flushing cfg world its_endpoint l [] noted
          ∙ ap₂ (λ p q. some (select p q)) same_others same))

  replay_returns : Returns (IsReplayed cfg r trs m) (replay cfg world r once_more)
  unfolding replay
  replay_returns =
      let d : delayed.trs_to_flush ≡ some trs =
        (delay-IsFramed cfg world r once_more).flushing ∙ flushing in
      Returns-by (IsReplayed cfg r trs m)
        (noted.endpoints_errors its_endpoint == cfg.max_endpoint_errors)
        (break_circuit cfg world its_endpoint noted.trs_to_flush noted) (done noted)
        (λ e. break_circuit_returns noted.trs_to_flush d (sym same_test ∙ e))
        (λ e. replayed noted (IsKept-refl cfg world noted) (rw (sym same_test ∙ e) d))

  -- While a flush of `trs` is in progress, an error that is not one too many is a replay.
  pub tr_error_replays :
      (m.objects r).error_count + 1 ≤ cfg.max_endpoint_errors
      → Returns (IsReplayed cfg r trs m) (tr_error cfg world r m)
  unfolding tr_error
  tr_error_replays few =
      Returns-by (IsReplayed cfg r trs m)
        (ltb cfg.max_endpoint_errors (once_more.objects r).error_count)
        (done (reject cfg world r once_more)) (replay cfg world r once_more)
        (λ e. absurd (ground (arith, one_more))) (λ _. replay_returns)

-- `r` has left the queue, if it was there, for good; the flush in progress is left alone.
pub record IsRejected (r : ℕ) (m m' : Manager) : Type 0 where
  pub queued :
      m'.transactions
      ≡ (if contains r m.transactions then remove_first r m.transactions else m.transactions)
  pub rejected : m'.transactions_rejected ≡ m.transactions_rejected + 1
  pub flushed : m'.transactions_flushed ≡ m.transactions_flushed + 1
  pub flushing : m'.trs_to_flush ≡ m.trs_to_flush

module _ (cfg : Config) (world : World) (r : ℕ) (m : Manager) where
  rejects : IsRejected r m (reject cfg world r (errored r (finished m)))
  unfolding reject remove
  rejects = record {
    queued = ground arith;
    rejected = ground arith;
    flushed = ground arith;
    flushing = ground arith;
  }

  -- A transaction is rejected for good by a response that says so, and by one error too many.
  pub tr_error_rejects :
      IsRejected r m (tr_error_reject_request cfg world r m)
      × (cfg.max_endpoint_errors < (m.objects r).error_count + 1
          → Returns (IsRejected r m) (tr_error cfg world r m))
  unfolding tr_error tr_error_reject_request inc_error_count
  tr_error_rejects = (
    rejects,
    λ many.
        Returns-by (IsRejected r m)
          (ltb cfg.max_endpoint_errors ((errored r (finished m)).objects r).error_count) _ _
          (λ _. rejects) (λ e. absurd (ground arith)),
  )
