-- ===== src/Mesi/Bottom.antt =====
-- `MESIBottomCC` of src/coherence_ctrls.cpp, and the memory of src/mem_ctrls.cpp as its parent.
use me_mo_tracer.Base.{
  ℕ, Bool, true, false, ◌||◌, Option, some, if◌then◌else◌, ltb, leb, add64, add32, sub64, u32,
  ◌>>=◌, ◌>>◌, assert,
}
use me_mo_tracer.Mesi.States.{
  MesiState, invalid, shared, exclusive, modified, AccessType, gets, getx, puts, putx, InvType, inv,
  invx, fwd, Flags, no_flags, is_state, is_exclusive, is_valid,
}

abbrev pub given : AccessType → Flags → MesiState
given gets flags = if flags.noexcl then shared else exclusive
given getx flags = modified
given puts flags = invalid
given putx flags = invalid

-- An answer to a request: the state that the line has now in the one who asked, the cycle, and the
-- world behind the one who answered.
pub record Answer (W : Type 0) : Type 0 where
  pub state : MesiState
  pub cycle : ℕ
  pub world : W

-- `parents[parentId]->access(req)`.
abbrev pub Parent : Type 0 → Type 0
Parent W = AccessType → Flags → ℕ → W → Option (Answer W)

-- `SimpleMemory::access` with its latency; a memory has no state.
unfoldable pub memory_access : ℕ → Parent (Unit {0})
memory_access latency type flags cycle world = do
  assert (ltb cycle (add64 cycle latency))
  some (record { state = given type flags; cycle = add64 cycle latency; world = world })

-- The cycle of an answer that came at `done`: `nextLevelLat` has 32 bits.
abbrev pub net_cycle : ℕ → ℕ → ℕ → ℕ
net_cycle cycle rtt done = add64 cycle (add32 (u32 (sub64 done cycle)) rtt)

module _ {W : Type 0} (parent : Parent W) (rtt : ℕ) where
  -- A miss: ask the parent, and test the state that it gives.
  unfoldable pub miss : (MesiState → Bool) → AccessType → Flags → ℕ → W → Option (Answer W)
  miss fits type flags cycle world = do
    a ← parent type flags cycle world
    assert (fits a.state)
    assert (leb cycle (net_cycle cycle rtt a.cycle))
    some (record a { cycle = net_cycle cycle rtt a.cycle })

  -- `processAccess`, with the state of the line before and after.
  unfoldable pub process_access : MesiState → AccessType → Flags → ℕ → W → Option (Answer W)
  unfolding miss
  process_access state puts flags cycle world = do
    assert (is_valid state)
    some (record { state = state; cycle = cycle; world = world })
  process_access state putx flags cycle world = do
    assert (is_exclusive state)
    some (record { state = modified; cycle = cycle; world = world })
  process_access state gets flags cycle world =
      if is_state state invalid
      then miss (λ s. is_state s shared || is_state s exclusive) gets flags cycle world
      else some (record { state = state; cycle = cycle; world = world })
  process_access state getx flags cycle world =
      if is_state state invalid || is_state state shared
      then miss (λ s. is_state s modified) getx flags cycle world
      else some (record { state = modified; cycle = cycle; world = world })

  -- The writeback of an eviction.
  unfoldable pub put_up : MesiState → ℕ → W → Option (Answer W)
  put_up invalid cycle world = some (record { state = invalid; cycle = cycle; world = world })
  put_up shared cycle world = parent puts no_flags cycle world
  put_up exclusive cycle world = parent puts no_flags cycle world
  put_up modified cycle world = parent putx no_flags cycle world

  -- `processEviction`: a writeback from below makes the line dirty first.
  unfoldable pub process_eviction : MesiState → Bool → ℕ → W → Option (Answer W)
  unfolding put_up
  process_eviction state lower_level_writeback cycle world = do
    assert (if lower_level_writeback then is_exclusive state else true)
    a ← put_up (if lower_level_writeback then modified else state) cycle world
    assert (is_state a.state invalid)
    some a

unfoldable pub process_writeback_on_access : MesiState → Option MesiState
process_writeback_on_access state = do assert (is_exclusive state); some modified

-- `processInval`: the new state, and whether dirty data goes up.
unfoldable pub process_inval : MesiState → InvType → Option (MesiState × Bool)
process_inval state invx = do assert (is_exclusive state); some (shared, is_state state modified)
process_inval state inv = do assert (is_valid state); some (invalid, is_state state modified)
process_inval state fwd = do assert (is_state state shared); some (shared, false)
