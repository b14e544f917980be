-- ===== src/Tests.antt =====
-- Runs of the models on small inputs, and the properties applied to them.
pub mod Coherence
pub mod Predictor
pub mod Buffers
pub mod Issue
pub mod Arrays
pub mod Events
pub mod Window
pub mod ZArray
pub mod Sched
