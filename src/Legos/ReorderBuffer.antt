-- ===== src/Legos/ReorderBuffer.antt =====
-- `ReorderBuffer` of src/legos.h: in-order retirement with a width, and a bounded number of entries.
pub mod Window
pub mod Bandwidth
use me_mo_tracer.Base.{ℕ, List, if◌then◌else◌, leb, ◌==◌, add32, add64, get_or, set, replicate}
use me_mo_tracer.Legos.DelayLine.{bump}

pub record ReorderBuffer : Type 0 where
  pub buf : List ℕ
  pub cur_retire_cycle : ℕ
  pub cur_cycle_retires : ℕ
  pub idx : ℕ
  pub sz : ℕ
  pub w : ℕ

pub init : ℕ → ℕ → ReorderBuffer
init sz w = record {
  buf = replicate sz 0;
  cur_retire_cycle = 0;
  cur_cycle_retires = 1;
  idx = 0;
  sz = sz;
  w = w;
}

unfoldable pub min_alloc_cycle : ReorderBuffer → ℕ
min_alloc_cycle r = get_or r.buf r.idx 0

-- The first half of `markRetire`: the cycle of this retirement, and how many it counts there.
pub bundle : ReorderBuffer → ℕ → ReorderBuffer
bundle r min_retire_cycle =
    if leb min_retire_cycle r.cur_retire_cycle
    then (if r.cur_cycle_retires == r.w
        then record r { cur_retire_cycle = add64 r.cur_retire_cycle 1; cur_cycle_retires = 0 }
        else record r { cur_cycle_retires = add32 r.cur_cycle_retires 1 })
    else record r { cur_retire_cycle = min_retire_cycle; cur_cycle_retires = 1 }

pub mark_retire : ReorderBuffer → ℕ → ReorderBuffer
mark_retire r min_retire_cycle =
    let r' = bundle r min_retire_cycle in
    record r' { buf = set r'.buf r'.idx r'.cur_retire_cycle; idx = bump r'.idx r'.sz }
