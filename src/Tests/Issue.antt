-- ===== src/Tests/Issue.antt =====
-- A fence, an addition and a load.
use me_mo_tracer.Base.{◌+◌, ◌≤◌, refl, [], ◌∷◌, replicate, arith}
use me_mo_tracer.Legos.ReorderBuffer
use me_mo_tracer.Legos.ReorderBuffer.{ReorderBuffer}
use me_mo_tracer.Issue.Lsu.{uop_general, uop_load, uop_fence, Lsu, lsu}
use me_mo_tracer.Issue.Lsu.Order.{Uop, run, IsEarly, lsu-ordered}

abbrev empty_queue : ReorderBuffer
empty_queue = record {
  buf = 0 ∷ 0 ∷ [];
  cur_retire_cycle = 0;
  cur_cycle_retires = 1;
  idx = 0;
  sz = 2;
  w = 4;
}

abbrev units : Lsu
units = record {
  last_store_commit = 20;
  last_store_addr_commit = 10;
  load_queue = empty_queue;
  store_queue = empty_queue;
  fwd_array = replicate 32 (record { addr = 0; store_cycle = 0 });
  load_idx = 0;
  store_idx = 0;
}

abbrev fence : Uop
fence = record { type = uop_fence; lat = 8; dispatch = 15 }

abbrev addition : Uop
addition = record { type = uop_general; lat = 1; dispatch = 16 }

abbrev access : Uop
access = record { type = uop_load; lat = 0; dispatch = 17 }

early : IsEarly (run (64 ∷ []) [] (fence ∷ addition ∷ []) units) 17
unfolding lsu ReorderBuffer.min_alloc_cycle
early = record {
  soon = omega arith;
  stores = omega arith;
  loads_wait = omega arith;
  stores_wait = omega arith;
}

lsu-ordered_example :
    (lsu (64 ∷ []) [] uop_fence 8 15 units).0 + 5
    ≤ (lsu (64 ∷ []) [] uop_load 0 17 (run (64 ∷ []) [] (fence ∷ addition ∷ []) units)).0
lsu-ordered_example = lsu-ordered (64 ∷ []) [] fence access (addition ∷ []) units refl refl early
