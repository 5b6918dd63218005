-- ===== src/Forwarder/Manager/Outcomes.antt =====
-- What the manager does with each outcome of a transaction: success, rejection, and error.
pub mod Frame
pub mod Invariant
use text.Mathlib.Text.{◌==◌ as str_eq}
use sts_agent.Prelude.{
  Option, none, ℕ, ◌+◌, ◌-◌, Bool, not, some, List, [], ◌∷◌, ◌++◌, ltb, ◌==◌, String, if◌then◌else◌,
}
use sts_agent.Forwarder.Transaction.{inc_error_count}
use sts_agent.Forwarder.Manager.State.{
  Config, World, Manager, Run, done, fault, type_error, update, set_errors, delay,
}
use sts_agent.Forwarder.Manager.Queue.{remove}

-- The common start of the outcomes: the transaction does not run any more.
abbrev pub finished : Manager → Manager
finished m = record m {
  running_flushes = m.running_flushes - 1;
  finished_flushes = m.finished_flushes + 1;
}

-- `tr.inc_error_count()`
abbrev pub errored : ℕ → Manager → Manager
errored r m = record m { objects = update m.objects r (inc_error_count (m.objects r)) }

-- `self._endpoints_errors[endpoint] = self._endpoints_errors.get(endpoint, 0) + 1`
abbrev pub booked : String → Manager → Manager
booked endpoint m = record m {
  endpoints_errors = set_errors m.endpoints_errors endpoint (m.endpoints_errors endpoint + 1);
}

module _ (cfg : Config) (world : World) where
  unfoldable pub tr_success : ℕ → Manager → Manager
  tr_success r m =
      let m1 : Manager = remove world r (finished m) in
      record m1 { transactions_flushed = m1.transactions_flushed + 1 }

  -- The transaction leaves the queue for good.
  unfoldable pub reject : ℕ → Manager → Manager
  reject r m =
      let m1 : Manager = remove world r m in
      record m1 {
        transactions_flushed = m1.transactions_flushed + 1;
        transactions_rejected = m1.transactions_rejected + 1;
      }

  unfoldable pub tr_error_reject_request : ℕ → Manager → Manager
  tr_error_reject_request r m = reject r (errored r (finished m))

  -- The loop that takes the transactions of an endpoint out of the current flush.
  unfoldable pub skip_endpoint : String → List ℕ → List ℕ → Manager → Manager
  skip_endpoint endpoint [] new_trs m = record m { trs_to_flush = some new_trs }
  skip_endpoint endpoint (r ∷ rs) new_trs m =
      let other : Bool = not (str_eq (m.objects r).endpoint endpoint) in
      skip_endpoint endpoint rs (if other then new_trs ++ r ∷ [] else new_trs)
        (if other then m else delay cfg world r m)

  -- At the limit of errors the endpoint is left alone for the rest of the flush; iterating over
  -- `None` raises.
  unfoldable pub break_circuit : String → Option (List ℕ) → Manager → Run
  break_circuit endpoint none m = fault type_error m
  break_circuit endpoint (some trs) m = done (skip_endpoint endpoint trs [] m)

  -- Where a transaction is to be replayed, and the error is counted for its endpoint too.
  unfoldable pub replay : ℕ → Manager → Run
  replay r m =
      let m1 : Manager = delay cfg world r m in
      let endpoint : String = (m1.objects r).endpoint in
      let m2 : Manager = booked endpoint m1 in
      if m2.endpoints_errors endpoint == cfg.max_endpoint_errors
      then break_circuit endpoint m2.trs_to_flush m2
      else done m2

  unfoldable pub tr_error : ℕ → Manager → Run
  tr_error r m =
      let m1 : Manager = errored r (finished m) in
      if ltb cfg.max_endpoint_errors (m1.objects r).error_count
      then done (reject r m1)
      else replay r m1
