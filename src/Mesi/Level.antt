-- ===== src/Mesi/Level.antt =====
-- A cache with `MESICC` over terminal caches with `MESITerminalCC` (src/coherence_ctrls.h), under a
-- memory, as far as one line goes. Accesses are atomic: the locks serialise them. Every cache holds a
-- slot for the line, so an eviction is an operation of its own.
pub mod Sharing
pub mod Messages
pub mod Grants
pub mod Upgrade
pub mod Coherence
pub mod Accesses
pub mod Evictions
pub mod Invalidations
pub mod Runs
use me_mo_tracer.Base.{
  ℕ, Bool, true, false, not, ◌||◌, Option, some, if◌then◌else◌, get_or, set, add64, ◌>>=◌, ◌>>◌,
  assert, List,
}
use mathlib.Core.List.{map}
use me_mo_tracer.Mesi.States.{
  MesiState, invalid, AccessType, puts, putx, InvType, Flags, is_exclusive, is_valid,
}
use me_mo_tracer.Mesi.Directory.{Below, out, Reply}
use me_mo_tracer.Mesi.Bottom
use me_mo_tracer.Mesi.Bottom.{Answer, memory_access, process_writeback_on_access}
use me_mo_tracer.Mesi.Top

-- The state of the line in the cache, and what is below it.
pub record Level : Type 0 where
  pub own : MesiState
  pub below : Below

-- Latencies: of the cache, of the memory, and of the networks above the cache and above a child.
pub record Timing : Type 0 where
  pub acc_lat : ℕ
  pub mem_lat : ℕ
  pub rtt : ℕ
  pub child_rtt : ℕ

-- A line that nobody has, over children with these latencies.
unfoldable pub idle : List ℕ → Level
idle lats = record {
  own = invalid;
  below = record {
    entry = record { num_sharers = 0; sharers = map (λ (n : ℕ). false) lats; excl = false };
    kids = map (λ (n : ℕ). record { state = invalid; lat = n }) lats;
  };
}

abbrev pub is_put : AccessType → Bool
is_put puts = true
is_put putx = true
is_put _ = false

abbrev pub child_state : Level → ℕ → MesiState
child_state l child = (get_or l.below.kids child out).state

abbrev pub with_child : Level → ℕ → MesiState → Level
with_child l child state = record l {
  below = record (l.below) {
    kids = set l.below.kids child (record (get_or l.below.kids child out) { state = state });
  };
}

module _ (t : Timing) where
  -- The last step of `MESICC::processAccess`: dirty data that came up makes the line M.
  unfoldable pub settle : ℕ → MesiState → Reply → Option (Answer Level)
  settle child own r = do
    own' ← if r.writeback then process_writeback_on_access own else some own
    some (record {
      state = (get_or r.below.kids child out).state;
      cycle = r.cycle;
      world = record { own = own'; below = r.below };
    })

  -- `Cache::access` with `MESICC::processAccess`, for a line that the inclusive cache has a slot for.
  unfoldable pub access : ℕ → AccessType → Flags → ℕ → Level → Option (Answer Level)
  unfolding settle
  access child type flags cycle l = do
    assert (not (is_put type) || is_valid l.own)
    up ←
        Bottom.process_access (memory_access t.mem_lat) t.rtt l.own type flags
          (add64 cycle t.acc_lat) tt
    r ← Top.process_access type child (is_exclusive up.state) flags l.below up.cycle
    settle child up.state r

  -- `MESITerminalCC::processAccess` of a child, with what it makes of the level.
  unfoldable pub child_access : ℕ → AccessType → Flags → ℕ → Level → Option Level
  child_access child type flags cycle l = do
    a ← Bottom.process_access (access child) t.child_rtt (child_state l child) type flags cycle l
    some (with_child a.world child a.state)

  -- `MESITerminalCC::processEviction`.
  unfoldable pub child_eviction : ℕ → ℕ → Level → Option Level
  child_eviction child cycle l = do
    a ← Bottom.process_eviction (access child) t.child_rtt (child_state l child) false cycle l
    some (with_child a.world child a.state)

  -- `MESICC::processEviction`.
  unfoldable pub eviction : ℕ → Level → Option Level
  eviction cycle l = do
    r ← Top.process_eviction false l.below cycle
    a ← Bottom.process_eviction (memory_access t.mem_lat) t.rtt l.own r.writeback r.cycle tt
    some (record { own = a.state; below = r.below })

-- `MESICC::processInv`, and whether dirty data goes up.
unfoldable pub invalidate : InvType → ℕ → Level → Option (Level × Bool)
invalidate type cycle l = do
  r ← Top.process_inval false type l.below cycle
  a ← Bottom.process_inval l.own type
  some (record { own = a.0; below = r.below }, r.writeback || a.1)
