-- ===== src/Issue/Lsu.antt =====
-- The loads, stores and fences of `IssueModel::bbl`: when a uop commits, from when it dispatches.
pub mod Order
use Prim.Native.Nat.{max}
use me_mo_tracer.Base.{
  ℕ, ◌+◌, ◌/◌, ◌%◌, Bool, true, false, List, if◌then◌else◌, ◌==◌, add64, get_or, set, replicate,
}
use me_mo_tracer.Legos.ReorderBuffer
use me_mo_tracer.Legos.ReorderBuffer.{ReorderBuffer, mark_retire}

pub data UopType : Type 0 where
  uop_general uop_load uop_store uop_store_addr uop_fence : UopType

pub record FwdEntry : Type 0 where
  pub addr : ℕ
  pub store_cycle : ℕ

pub record Lsu : Type 0 where
  pub last_store_commit : ℕ
  pub last_store_addr_commit : ℕ
  pub load_queue : ReorderBuffer
  pub store_queue : ReorderBuffer
  pub fwd_array : List FwdEntry
  pub load_idx : ℕ
  pub store_idx : ℕ

abbrev pub l1d_lat : ℕ
l1d_lat = 4

abbrev pub fwd_entries : ℕ
fwd_entries = 32

-- `(addr >> 2) & (FWD_ENTRIES - 1)`.
abbrev pub fwd_idx : ℕ → ℕ
fwd_idx addr = addr / 4 % fwd_entries

abbrev pub fwd_at : Lsu → ℕ → FwdEntry
fwd_at s addr = get_or s.fwd_array (fwd_idx addr) (record { addr = 0; store_cycle = 0 })

-- A load or store waits for its queue, and for the addresses of all stores before it.
unfoldable pub ordered : Lsu → ReorderBuffer → ℕ → ℕ
ordered s queue dispatch =
    max (add64 s.last_store_addr_commit 1) (max (ReorderBuffer.min_alloc_cycle queue) dispatch)

unfoldable pub load : Lsu → ℕ → ℕ → ℕ × Lsu
unfolding ordered
load s addr dispatch =
    let satisfied = add64 (ordered s s.load_queue dispatch) l1d_lat in
    let forwarded = max satisfied (fwd_at s addr).store_cycle in
    let commit = if (fwd_at s addr).addr == addr then forwarded else satisfied in
    (commit, record s { load_queue = mark_retire s.load_queue commit; load_idx = s.load_idx + 1 })

unfoldable pub store : Lsu → ℕ → ℕ → ℕ × Lsu
unfolding ordered
store s addr dispatch =
    let commit = add64 (ordered s s.store_queue dispatch) l1d_lat in
    (
      commit,
      record s {
        fwd_array = set s.fwd_array (fwd_idx addr) (record { addr = addr; store_cycle = commit });
        last_store_commit = max s.last_store_commit commit;
        store_queue = mark_retire s.store_queue commit;
        store_idx = s.store_idx + 1;
      },
    )

-- The cycle at which the uop commits, and the state after it.
module _ (load_addrs store_addrs : List ℕ) where
  unfoldable pub lsu : UopType → ℕ → ℕ → Lsu → ℕ × Lsu
  unfolding load store
  lsu uop_general lat dispatch s = (add64 dispatch lat, s)
  lsu uop_load lat dispatch s = load s (get_or load_addrs s.load_idx 0) dispatch
  lsu uop_store lat dispatch s = store s (get_or store_addrs s.store_idx 0) dispatch
  lsu uop_store_addr lat dispatch s =
      let commit = add64 dispatch lat in
      (commit, record s { last_store_addr_commit = max s.last_store_addr_commit commit })
  lsu uop_fence lat dispatch s =
      let commit = add64 dispatch lat in
      (
        commit,
        record s {
          last_store_addr_commit =
              max commit (max s.last_store_addr_commit (add64 s.last_store_commit lat));
        },
      )
