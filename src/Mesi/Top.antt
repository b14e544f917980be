-- ===== src/Mesi/Top.antt =====
-- The operations of `MESITopCC` (src/coherence_ctrls.cpp) over one line and its children.
use me_mo_tracer.Base.{
  ℕ, Bool, true, false, not, ◌&&◌, ◌||◌, Option, some, if◌then◌else◌, ◌==◌, sub32, add32, get_or,
  set, length, replicate, ◌>>=◌, ◌>>◌, assert,
}
use me_mo_tracer.Mesi.States.{
  MesiState, invalid, shared, exclusive, modified, AccessType, gets, getx, puts, putx, InvType, inv,
  invx, fwd, Flags, is_state,
}
use me_mo_tracer.Mesi.Directory.{
  Entry, Below, Reply, out, is_empty, entry_is_exclusive, send_invalidates,
}

-- `processEviction`; with the non-inclusive hack the children keep the line.
unfoldable pub process_eviction : Bool → Below → ℕ → Option Reply
process_eviction non_inclusive_hack l cycle =
    let clear : Entry = record {
      num_sharers = 0;
      sharers = replicate (length l.entry.sharers) false;
      excl = false;
    } in
    let cleared =
      some (record { below = record l { entry = clear }; writeback = false; cycle = cycle }) in
    let invalidated = send_invalidates inv l cycle in
    if non_inclusive_hack then cleared else invalidated

-- `processInval`.
unfoldable pub process_inval : Bool → InvType → Below → ℕ → Option Reply
process_inval non_inclusive_hack fwd l cycle = do
  assert (not non_inclusive_hack)
  some (record { below = l; writeback = false; cycle = cycle })
process_inval non_inclusive_hack type l cycle = send_invalidates type l cycle

-- Put the bit, the count, the mark and the child's state.
abbrev pub give : Below → ℕ → Bool → ℕ → Bool → MesiState → Below
give l child bit num excl state = record {
  entry = record { num_sharers = num; sharers = set l.entry.sharers child bit; excl = excl };
  kids = set l.kids child (record (get_or l.kids child out) { state = state });
}

abbrev pub shares : Below → ℕ → Bool
shares l child = get_or l.entry.sharers child false

-- A sharer gives its copy back.
unfoldable pub put_back : Below → ℕ → ℕ → Option Reply
put_back l child cycle = do
  assert (shares l child)
  some (record {
    below = give l child false (sub32 l.entry.num_sharers 1) l.entry.excl invalid;
    writeback = false;
    cycle = cycle;
  })

-- The child keeps its exclusive copy, which is clean from now on.
unfoldable pub keep_exclusive : Below → ℕ → ℕ → Option Reply
keep_exclusive l child cycle = do
  assert (shares l child)
  assert (is_state (get_or l.kids child out).state modified)
  some (record {
    below = record l {
      kids = set l.kids child (record (get_or l.kids child out) { state = exclusive });
    };
    writeback = false;
    cycle = cycle;
  })

-- A copy in S, after a downgrade of the exclusive sharer where there is one.
unfoldable pub give_shared : Below → ℕ → ℕ → Option Reply
give_shared l child cycle = do
  assert (not (shares l child))
  r ←
      if entry_is_exclusive l.entry
      then send_invalidates invx l cycle
      else some (record { below = l; writeback = false; cycle = cycle })
  assert (not (entry_is_exclusive r.below.entry))
  some (record r {
    below = give r.below child true (add32 r.below.entry.num_sharers 1) false shared;
  })

-- The copy of an upgrading sharer is taken out of the list.
abbrev pub take_out : Below → ℕ → Below
take_out l child = record l {
  entry = record (l.entry) {
    num_sharers = sub32 l.entry.num_sharers 1;
    sharers = set l.entry.sharers child false;
  };
}

-- All other copies go, and the child gets the line in M.
unfoldable pub only_copy : Below → ℕ → ℕ → Option Reply
only_copy l child cycle = do
  r ← send_invalidates inv l cycle
  assert (add32 r.below.entry.num_sharers 1 == 1)
  some (record r {
    below = give r.below child true (add32 r.below.entry.num_sharers 1) true modified;
  })

unfoldable pub give_modified : Below → ℕ → ℕ → Option Reply
give_modified l child cycle = do
  assert (not (shares l child) || not (entry_is_exclusive l.entry))
  only_copy (if shares l child then take_out l child else l) child cycle

-- `processAccess`.
unfoldable pub process_access : AccessType → ℕ → Bool → Flags → Below → ℕ → Option Reply
process_access putx child have_exclusive flags l cycle = do
  assert (entry_is_exclusive l.entry)
  if flags.putx_keepexcl then keep_exclusive l child cycle else put_back l child cycle
process_access puts child have_exclusive flags l cycle = put_back l child cycle
process_access gets child have_exclusive flags l cycle =
    if is_empty l.entry && (have_exclusive && not flags.noexcl)
    then some
        (record { below = give l child true 1 true exclusive; writeback = false; cycle = cycle })
    else give_shared l child cycle
process_access getx child have_exclusive flags l cycle = do
  assert have_exclusive
  give_modified l child cycle
