-- ===== src/Tests/Buffers.antt =====
-- The reorder buffer and the queue with two slots.
use me_mo_tracer.Base.{ℕ, ◌≡◌, refl, List, [], ◌∷◌, get_or, replicate, arith}
use me_mo_tracer.Legos.ReorderBuffer
use me_mo_tracer.Legos.ReorderBuffer.{ReorderBuffer}
use me_mo_tracer.Legos.ReorderBuffer.Window.{mark_all, retired, min_alloc_cycle-mark_all}
use me_mo_tracer.Legos.ReorderBuffer.Bandwidth.{retired_after_full_bundle}
use me_mo_tracer.Legos.CycleQueue
use me_mo_tracer.Legos.CycleQueue.{leave_all, pushed, min_alloc_cycle-leave_all}

abbrev cycles : List ℕ
cycles = 3 ∷ 3 ∷ 2 ∷ 9 ∷ 4 ∷ []

-- Two uops of width 2 have retired at cycle 7.
abbrev full : ReorderBuffer
full = record {
  buf = 7 ∷ 7 ∷ 0 ∷ [];
  cur_retire_cycle = 7;
  cur_cycle_retires = 2;
  idx = 2;
  sz = 3;
  w = 2;
}

min_alloc_cycle-mark_all_example :
    ReorderBuffer.min_alloc_cycle (mark_all (ReorderBuffer.init 2 4) cycles)
    ≡ get_or (retired (ReorderBuffer.init 2 4) cycles []) 1 0
min_alloc_cycle-mark_all_example = min_alloc_cycle-mark_all 2 4 cycles (omega arith) (omega arith)

retired_after_full_bundle_example : retired full (1 ∷ 2 ∷ 3 ∷ []) [] ≡ replicate 3 8
retired_after_full_bundle_example =
    retired_after_full_bundle full 1 (2 ∷ 3 ∷ []) refl refl (omega arith)
      (omega arith, (omega arith, tt)) (omega arith) (omega arith)

min_alloc_cycle-leave_all_example :
    CycleQueue.min_alloc_cycle (leave_all (CycleQueue.init 2) cycles)
    ≡ get_or (pushed cycles []) 1 0
min_alloc_cycle-leave_all_example = min_alloc_cycle-leave_all 2 cycles (omega arith) (omega arith)
