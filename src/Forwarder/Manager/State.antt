-- ===== src/Forwarder/Manager/State.antt =====
-- The attributes of the manager, the objects that it refers to, and the event loop around it.
use text.Mathlib.Text.{◌==◌ as str_eq}
use sts_agent.Prelude.{ℕ, ◌+◌, ◌*◌, Bool, Option, none, String, List, [], ◌∷◌, ◌==◌, if◌then◌else◌}
use sts_agent.Forwarder.Transaction.{Transaction, second, compute_next_flush}

-- The arguments of the constructor, and the flag that the unit tests set.
pub record Config : Type 0 where
  pub max_wait_for_replay : ℕ
  pub max_queue_size : ℕ
  pub throttling_delay : ℕ
  pub max_parallelism : ℕ
  pub max_endpoint_errors : ℕ
  pub flush_without_ioloop : Bool

-- What the manager reads from outside: the n-th reading of `datetime.utcnow()`, the size that
-- `sys.getsizeof` gives for an object, whether the n-th call of a transaction's `flush` raises,
-- and whether tornado's loop runs.
pub record World : Type 0 where
  pub utcnow : ℕ → ℕ
  pub getsizeof : ℕ → ℕ
  pub flush_raises : ℕ → ℕ → Bool
  pub ioloop_running : Bool

-- The event loop: clock readings and `flush` calls made so far, the transactions whose response
-- is awaited, and the timeouts that were added and have not fired.
pub record EventLoop : Type 0 where
  pub reads : ℕ
  pub attempts : ℕ
  pub in_flight : List ℕ
  pub timers : ℕ

-- A transaction is an object, named by a reference; several lists refer to the same object.
-- `flush_time` is first assigned by `flush`, and is 0 until then.
pub record Manager : Type 0 where
  pub transactions : List ℕ
  pub total_count : ℕ
  pub total_size : ℕ
  pub flush_count : ℕ
  pub running_flushes : ℕ
  pub transactions_received : ℕ
  pub transactions_flushed : ℕ
  pub transactions_rejected : ℕ
  pub counter : ℕ
  pub trs_to_flush : Option (List ℕ)
  pub last_flush : ℕ
  pub flush_time : ℕ
  pub endpoints_errors : String → ℕ
  pub finished_flushes : ℕ
  pub objects : ℕ → Transaction
  pub loop : EventLoop

-- `AssertionError` of `set_id`; `TypeError` of iterating over `None`; and the model's own fuel.
pub data Fault : Type 0 where
  assertion_error type_error no_fuel : Fault

pub data Run : Type 0 where
  done : Manager → Run
  fault : Fault → Manager → Run

infixl 5 ◌>>=◌
abbrev pub ◌>>=◌ : Run → (Manager → Run) → Run
done m >>= f = f m
fault e m >>= f = fault e m

abbrev pub max_flush_duration : ℕ
max_flush_duration = 10 * second

abbrev pub no_errors : String → ℕ
no_errors e = 0

-- `TransactionManager.__init__`, before any object is known to it.
abbrev pub start : World → (ℕ → Transaction) → Manager
start world objects = record {
  transactions = [];
  total_count = 0;
  total_size = 0;
  flush_count = 0;
  running_flushes = 0;
  transactions_received = 0;
  transactions_flushed = 0;
  transactions_rejected = 0;
  counter = 0;
  trs_to_flush = none;
  last_flush = world.utcnow 0;
  flush_time = 0;
  endpoints_errors = no_errors;
  finished_flushes = 0;
  objects = objects;
  loop = record { reads = 1; attempts = 0; in_flight = []; timers = 0 };
}

-- Assignment to an object, seen through every reference to it.
abbrev pub update : (ℕ → Transaction) → ℕ → Transaction → ℕ → Transaction
update objects r tr x = if x == r then tr else objects x

-- `self._endpoints_errors[endpoint] = n`
abbrev pub set_errors : (String → ℕ) → String → ℕ → String → ℕ
set_errors errors e n x = if str_eq x e then n else errors x

-- One reading of the clock has been made.
abbrev pub tick : Manager → Manager
tick m = record m { loop = record m.loop { reads = m.loop.reads + 1 } }

module _ (cfg : Config) (world : World) where
  -- `tr.compute_next_flush(self._MAX_WAIT_FOR_REPLAY)`
  unfoldable pub delay : ℕ → Manager → Manager
  delay r m = record (tick m) {
    objects =
        update m.objects r
          (compute_next_flush cfg.max_wait_for_replay (world.utcnow m.loop.reads) (m.objects r));
  }

  -- The same for each transaction of a list.
  unfoldable pub delay_all : List ℕ → Manager → Manager
  unfolding delay
  delay_all [] m = m
  delay_all (r ∷ rs) m = delay_all rs (delay r m)
