-- ===== src/Forwarder/Manager/Flush.antt =====
-- Flushing: `flush`, `flush_next`, and `on_response` of stsagent.py.
pub mod Invariant
pub mod Callbacks
use sts_agent.Prelude.{
  ℕ, zero, suc, ◌+◌, Bool, true, false, ◌&&◌, ◌||◌, Option, none, some, List, [], ◌∷◌, ◌++◌, ltb,
  leb, ◌==◌, if◌then◌else◌, select, split_last,
}
use sts_agent.Prelude.Sorting.{sorted}
use sts_agent.Prelude.Bag.{remove_first}
use sts_agent.Forwarder.Transaction.{Transaction, time_to_flush}
use sts_agent.Forwarder.Manager.State.{
  Config, World, Manager, Run, done, fault, Fault, no_fuel, tick, no_errors, max_flush_duration,
  delay_all, ◌>>=◌,
}
use sts_agent.Forwarder.Manager.Outcomes.{tr_success, tr_error, tr_error_reject_request}

-- The response that tornado hands to `on_response`.
pub record Response : Type 0 where
  pub error : Bool
  pub code : ℕ

-- The transaction whose response arrives leaves the event loop.
abbrev pub arrived : ℕ → Manager → Manager
arrived r m = record m { loop = record m.loop { in_flight = remove_first r m.loop.in_flight } }

-- `response.code in RESPONSES_TO_REJECT`
abbrev pub to_reject : ℕ → Bool
to_reject code = code == 413 || code == 400

-- The key `(- tr._error_count, tr._id)`, compared as Python compares tuples; `None` is below all
-- numbers.
abbrev pub id_le : Option ℕ → Option ℕ → Bool
id_le none b = true
id_le (some a) none = false
id_le (some a) (some b) = leb a b

abbrev pub errors_first : (ℕ → Transaction) → ℕ → ℕ → Bool
errors_first objects a b =
    ltb (objects b).error_count (objects a).error_count
    || (objects a).error_count == (objects b).error_count && id_le (objects a).id (objects b).id

-- What one pass through `flush_next` comes to: it returns, it calls itself once more as the last
-- thing that it does, or an exception leaves it.
pub data Pass : Type 0 where
  stop : Manager → Pass
  again : Manager → Pass
  failed : Fault → Manager → Pass

-- After the handler of the `try` block around `tr.flush()`.
unfoldable pub after_error : Run → Pass
after_error (done m) = again m
after_error (fault e m) = failed e m

unfoldable pub resume : (Manager → Run) → Pass → Run
resume flush_next (stop m) = done m
resume flush_next (again m) = flush_next m
resume flush_next (failed e m) = fault e m

module _ (cfg : Config) (world : World) where
  -- The `try` block around `tr.flush()`, which returns while the response is awaited or raises.
  unfoldable pub launch : ℕ → Manager → Pass
  launch r m =
      let n : ℕ = m.loop.attempts in
      if world.flush_raises r n
      then after_error
          (tr_error cfg world r (record m { loop = record m.loop { attempts = n + 1 } }))
      else again (record m {
        loop = record m.loop { attempts = n + 1; in_flight = m.loop.in_flight ++ r ∷ [] };
      })

  -- `self._trs_to_flush.pop()`, and the start of what it gives.
  unfoldable pub pop_and_launch : ℕ → List ℕ → Manager → Pass
  pop_and_launch t ts m =
      let (trs, tr) = split_last t ts in
      launch tr (record (tick m) {
        trs_to_flush = some trs;
        running_flushes = m.running_flushes + 1;
        last_flush = world.utcnow m.loop.reads;
      })

  -- Another transaction may run, but not yet: flush again when the delay is over.
  unfoldable pub wait : Manager → Pass
  wait m =
      if world.ioloop_running
      then stop (record m { loop = record m.loop { timers = m.loop.timers + 1 } })
      else if cfg.flush_without_ioloop
      then again m
      else stop m

  -- With transactions left, after the test on how long the flush has taken.
  unfoldable pub throttled : ℕ → List ℕ → Manager → Pass
  throttled t ts m =
      let free : Bool = ltb m.running_flushes cfg.max_parallelism in
      if leb (m.last_flush + cfg.throttling_delay) (world.utcnow m.loop.reads) && free
      then pop_and_launch t ts (tick m)
      else if free
      then wait (tick m)
      else stop (tick m)

  unfoldable pub pass_with : ℕ → List ℕ → Manager → Pass
  pass_with t ts m =
      if leb (m.flush_time + max_flush_duration) (world.utcnow m.loop.reads)
      then again (record (delay_all cfg world (t ∷ ts) (tick m)) { trs_to_flush = some [] })
      else throttled t ts (tick m)

  -- With nothing left to flush: the flush is over when no transaction runs any more. The clock is
  -- read for the message only.
  unfoldable pub pass_without : Manager → Pass
  pass_without m =
      if m.running_flushes == 0 then stop (record (tick m) { trs_to_flush = none }) else stop m

  unfoldable pub pass_at : Option (List ℕ) → Manager → Pass
  pass_at none m = pass_without m
  pass_at (some []) m = pass_without m
  pass_at (some (t ∷ ts)) m = pass_with t ts m

  unfoldable pub flush_next : ℕ → Manager → Run
  flush_next zero m = fault no_fuel m
  flush_next (suc fuel) m = resume (flush_next fuel) (pass_at m.trs_to_flush m)

  -- The transactions whose time has come, the one to be sent first at the end.
  unfoldable pub due : ℕ → Manager → List ℕ
  due now m =
      sorted (errors_first m.objects) (select (λ r. time_to_flush now (m.objects r)) m.transactions)

  unfoldable pub begin_with : ℕ → List ℕ → Manager → Run
  begin_with fuel [] m = done m
  begin_with fuel (r ∷ rs) m = flush_next fuel (record (tick m) {
    endpoints_errors = no_errors;
    finished_flushes = 0;
    trs_to_flush = some (r ∷ rs);
    flush_time = world.utcnow m.loop.reads;
  })

  -- `flush`, which does nothing while another flush is in progress.
  unfoldable pub flush_at : ℕ → Option (List ℕ) → Manager → Run
  flush_at fuel (some trs) m = done m
  flush_at fuel none m = begin_with fuel (due (world.utcnow m.loop.reads) m) (tick m) >>= λ m'.
      done (record m' { flush_count = m'.flush_count + 1 })

  unfoldable pub flush : ℕ → Manager → Run
  flush fuel m = flush_at fuel m.trs_to_flush m

  unfoldable pub settle : ℕ → Response → Manager → Run
  settle r response m =
      if response.error
      then if to_reject response.code
        then done (tr_error_reject_request cfg world r m)
        else tr_error cfg world r m
      else done (tr_success cfg world r m)

  -- The response to a transaction in flight arrives.
  unfoldable pub on_response : ℕ → ℕ → Response → Manager → Run
  on_response fuel r response m = settle r response (arrived r m) >>= flush_next fuel
