-- ===== src/Forwarder.antt =====
-- The forwarder's queue of payloads: transaction.py, and the callback of stsagent.py that drives it.
pub mod Transaction
pub mod Manager
