-- ===== src/Arrays.antt =====
-- The set-associative array of src/cache_arrays.cpp with the LRU policy of src/repl_policies.h.
pub mod Lru
pub mod Nru
pub mod Lfu
pub mod SetAssoc
pub mod ZArray
