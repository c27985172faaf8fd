-- ===== src/Proactive.antt =====
-- Messages to an end user with no inbound turn: proactive.py.
pub mod Quiet
pub mod Queue
pub mod Dispatch
pub mod Delivery
