-- ===== src/Issue/Lsu/Order.antt =====
-- Memory accesses wait for the store addresses and fences before them.
use me_mo_tracer.Base.{ℕ, ◌+◌, ◌^◌, ◌≤◌, ◌<◌, ◌≡◌, Bool, true, false, List, [], ◌∷◌, arith}
use me_mo_tracer.Legos.ReorderBuffer
use me_mo_tracer.Issue.Lsu.{
  UopType, uop_general, uop_load, uop_store, uop_store_addr, uop_fence, Lsu, ordered, load, store,
  lsu,
}

pub record Uop : Type 0 where
  pub type : UopType
  pub lat : ℕ
  pub dispatch : ℕ

module _ (load_addrs store_addrs : List ℕ) where
  -- The uops of a list, in its order.
  abbrev pub run : List Uop → Lsu → Lsu
  run [] s = s
  run (u ∷ us) s = run us (lsu load_addrs store_addrs u.type u.lat u.dispatch s).1

-- What later accesses wait for.
abbrev pub is_ordering : UopType → Bool
is_ordering uop_store_addr = true
is_ordering uop_fence = true
is_ordering _ = false

abbrev pub is_access : UopType → Bool
is_access uop_load = true
is_access uop_store = true
is_access _ = false

module _ (load_addrs store_addrs : List ℕ) where
  step_mono :
      (type : UopType) (lat dispatch : ℕ) (s : Lsu)
      → s.last_store_addr_commit
        ≤ (lsu load_addrs store_addrs type lat dispatch s).1.last_store_addr_commit
  unfolding lsu load store
  step_mono uop_general lat dispatch s = omega arith
  step_mono uop_load lat dispatch s = omega arith
  step_mono uop_store lat dispatch s = omega arith
  step_mono uop_store_addr lat dispatch s = omega arith
  step_mono uop_fence lat dispatch s = omega arith

  run_mono :
      (us : List Uop) (s : Lsu)
      → s.last_store_addr_commit ≤ (run load_addrs store_addrs us s).last_store_addr_commit
  run_mono [] s = omega arith
  run_mono (u ∷ us) s = omega (
    arith,
    step_mono u.type u.lat u.dispatch s,
    run_mono us (lsu load_addrs store_addrs u.type u.lat u.dispatch s).1,
  )

  recorded :
      (type : UopType) (lat dispatch : ℕ) (s : Lsu)
      → is_ordering type ≡ true
      → (lsu load_addrs store_addrs type lat dispatch s).0
        ≤ (lsu load_addrs store_addrs type lat dispatch s).1.last_store_addr_commit
  unfolding lsu
  recorded uop_general lat dispatch s e = cc
  recorded uop_load lat dispatch s e = cc
  recorded uop_store lat dispatch s e = cc
  recorded uop_store_addr lat dispatch s e = omega arith
  recorded uop_fence lat dispatch s e = omega arith

-- The cycles that an access looks at are not near the end of their range.
pub record IsEarly (s : Lsu) (dispatch : ℕ) : Type 0 where
  pub soon : dispatch + 5 < 2 ^ 64
  pub stores : s.last_store_addr_commit + 6 < 2 ^ 64
  pub loads_wait : ReorderBuffer.min_alloc_cycle s.load_queue + 5 < 2 ^ 64
  pub stores_wait : ReorderBuffer.min_alloc_cycle s.store_queue + 5 < 2 ^ 64

module _ (load_addrs store_addrs : List ℕ) where
  waits :
      (type : UopType) (lat dispatch : ℕ) (s : Lsu)
      → is_access type ≡ true
      → IsEarly s dispatch
      → s.last_store_addr_commit + 5 ≤ (lsu load_addrs store_addrs type lat dispatch s).0
  unfolding lsu load store ordered
  waits uop_general lat dispatch s e h = cc
  waits uop_load lat dispatch s e h = ground (arith, h.soon, h.stores, h.loads_wait)
  waits uop_store lat dispatch s e h = omega (arith, h.soon, h.stores, h.stores_wait)
  waits uop_store_addr lat dispatch s e h = cc
  waits uop_fence lat dispatch s e h = cc

  -- A load or store commits at least 5 cycles after every fence and every store address before it,
  -- whatever uops stand between them, as long as no cycle that it looks at wraps.
  pub lsu-ordered :
      (u access : Uop) (us : List Uop) (s : Lsu)
      → is_ordering u.type ≡ true
      → is_access access.type ≡ true
      → IsEarly (run load_addrs store_addrs (u ∷ us) s) access.dispatch
      → (lsu load_addrs store_addrs u.type u.lat u.dispatch s).0 + 5
        ≤ (lsu load_addrs store_addrs access.type access.lat access.dispatch
            (run load_addrs store_addrs (u ∷ us) s)).0
  lsu-ordered u access us s o a h = omega (
    arith,
    recorded load_addrs store_addrs u.type u.lat u.dispatch s o,
    run_mono load_addrs store_addrs us (lsu load_addrs store_addrs u.type u.lat u.dispatch s).1,
    waits access.type access.lat access.dispatch (run load_addrs store_addrs (u ∷ us) s) a h,
  )
