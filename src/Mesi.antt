-- ===== src/Mesi.antt =====
-- The MESI controllers of src/coherence_ctrls.h and src/coherence_ctrls.cpp, over one line.
pub mod States
pub mod Bottom
pub mod Directory
pub mod Top
pub mod Level
