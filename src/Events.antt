-- ===== src/Events.antt =====
-- The queues of timing events.
pub mod Multimap
pub mod PrioQueue
pub mod EventQueue
