-- ===== src/Legos.antt =====
-- src/legos.h: the bounded structures that the micro-models share.
pub mod DelayLine
pub mod ReorderBuffer
pub mod CycleQueue
pub mod WindowStructure
