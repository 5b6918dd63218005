-- ===== src/Forwarder/Transaction/Delay.antt =====
-- When a transaction is tried next.
use sts_agent.Prelude.{ℕ, ◌+◌, ◌*◌, ◌%◌, ◌≤◌, ◌<◌, ◌≡◌, arith}
use sts_agent.Forwarder.Transaction.{Transaction, second, replay_delay, compute_next_flush}

-- The next attempt is planned at a whole second, later than one second before the present, and at
-- most the delay after it, which is twenty seconds for each error up to the maximal wait.
pub compute_next_flush_bounds :
    (max_delay now : ℕ) (tr : Transaction)
    → let next = (compute_next_flush max_delay now tr).next_flush in
      (now < next + second)
      × (next ≤ now + max_delay)
      × (next ≤ now + tr.error_count * 20 * second)
      × (next % second ≡ 0)
unfolding compute_next_flush replay_delay
compute_next_flush_bounds max_delay now tr =
    (ground arith, ground arith, ground arith, ground arith)
