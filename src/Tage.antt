-- ===== src/Tage.antt =====
-- src/tage.h and src/tage.cpp: the TAGE branch predictor of the fetch model, with src/mybitset.h.
pub mod BitSet
pub mod Entry
pub mod Hash
pub mod Predictor
