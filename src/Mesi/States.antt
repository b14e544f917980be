-- ===== src/Mesi/States.antt =====
-- src/memory_hierarchy.h: states, requests and flags; `CheckForMESIRace` of src/coherence_ctrls.h.
use me_mo_tracer.Base.{Bool, true, false, ◌||◌, Option, none, some, if◌then◌else◌, ◌>>◌, assert}

-- `MESIState`; the library's names are the source's I, S, E and M.
pub data MesiState : Type 0 where
  invalid shared exclusive modified : MesiState

pub data AccessType : Type 0 where
  gets getx puts putx : AccessType

pub data InvType : Type 0 where
  inv invx fwd : InvType

-- The flags of a `MemReq` that the controllers read.
pub record Flags : Type 0 where
  pub noexcl : Bool
  pub putx_keepexcl : Bool

abbrev pub no_flags : Flags
no_flags = record { noexcl = false; putx_keepexcl = false }

abbrev pub is_state : MesiState → MesiState → Bool
is_state invalid invalid = true
is_state shared shared = true
is_state exclusive exclusive = true
is_state modified modified = true
is_state _ _ = false

-- E or M.
abbrev pub is_exclusive : MesiState → Bool
is_exclusive s = is_state s exclusive || is_state s modified

abbrev pub is_valid : MesiState → Bool
is_valid invalid = false
is_valid _ = true

-- A PUT on a line that an invalidation has reached first.
unfoldable pub late_put : AccessType → MesiState → Option (AccessType × Bool)
late_put type now =
    if is_state now invalid
    then some (type, true)
    else (do assert (is_state now shared); some (puts, false))

unfoldable pub lost_race : AccessType → MesiState → MesiState → Option (AccessType × Bool)
unfolding late_put
lost_race puts now initial = late_put puts now
lost_race putx now initial = late_put putx now
lost_race getx now initial = do
  assert (is_state initial shared)
  assert (is_state now invalid)
  some (getx, false)
lost_race gets now initial = none

-- A failed assertion and a panic are `none`; else the type of access to go on with, and whether to
-- skip it.
unfoldable pub check_for_mesi_race : AccessType → MesiState → MesiState → Option (AccessType × Bool)
unfolding lost_race
check_for_mesi_race type now initial =
    if is_state now initial then some (type, false) else lost_race type now initial
