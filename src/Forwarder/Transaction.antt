-- ===== src/Forwarder/Transaction.antt =====
-- transaction.py, class Transaction: one payload that waits to be sent. Times are microseconds.
pub mod Delay
use sts_agent.Prelude.{ℕ, ◌+◌, ◌-◌, ◌*◌, ◌%◌, Bool, Option, none, String, ltb, leb, if◌then◌else◌}

-- `endpoint` is the attribute that the subclass of stsagent.py sets on each copy.
pub record Transaction : Type 0 where
  pub id : Option ℕ
  pub error_count : ℕ
  pub next_flush : ℕ
  pub size : Option ℕ
  pub endpoint : String

-- `timedelta(seconds=1)`
abbrev pub second : ℕ
second = 1_000_000

-- `Transaction.__init__` at the time `now`
abbrev pub create : ℕ → String → Transaction
create now endpoint = record {
  id = none;
  error_count = 0;
  next_flush = now;
  size = none;
  endpoint = endpoint;
}

unfoldable pub inc_error_count : Transaction → Transaction
inc_error_count tr = record tr { error_count = tr.error_count + 1 }

-- The delay before the next attempt.
unfoldable pub replay_delay : ℕ → ℕ → ℕ
replay_delay max_delay error_count =
    let td : ℕ = error_count * 20 * second in if ltb max_delay td then max_delay else td

unfoldable pub compute_next_flush : ℕ → ℕ → Transaction → Transaction
unfolding replay_delay
compute_next_flush max_delay now tr =
    let newdate : ℕ = now + replay_delay max_delay tr.error_count in
    record tr { next_flush = newdate - newdate % second }

unfoldable pub time_to_flush : ℕ → Transaction → Bool
time_to_flush now tr = leb tr.next_flush now
