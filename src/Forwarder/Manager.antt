-- ===== src/Forwarder/Manager.antt =====
-- transaction.py, class TransactionManager, over a store of transaction objects; and `on_response`
-- of stsagent.py, the callback through which the event loop re-enters it.
pub mod State
pub mod Queue
pub mod Outcomes
pub mod Flush
pub mod Loop
pub mod Order
pub mod Replay
pub mod Pace
mod Tests
