-- ===== src/Mesi/Directory.antt =====
-- The directory of `MESITopCC` (src/coherence_ctrls.h): the entry of a line, the children below it,
-- and `sendInvalidates` of src/coherence_ctrls.cpp. The children are terminal caches: an
-- invalidation reaches `MESIBottomCC::processInval` of the child.
use me_mo_tracer.Base.{
  ℕ, Bool, true, false, not, ◌&&◌, ◌||◌, List, [], ◌∷◌, Option, none, some, if◌then◌else◌, ◌==◌,
  add64, add32, max, ◌>>=◌, ◌>>◌, assert,
}
use me_mo_tracer.Mesi.States.{MesiState, invalid, InvType, inv, invx}
use me_mo_tracer.Mesi.Bottom.{process_inval}

pub record Entry : Type 0 where
  pub num_sharers : ℕ
  pub sharers : List Bool
  pub excl : Bool

-- A child: its state of the line, and the latency of an invalidation with the network's.
pub record Kid : Type 0 where
  pub state : MesiState
  pub lat : ℕ

abbrev pub out : Kid
out = record { state = invalid; lat = 0 }

abbrev pub is_empty : Entry → Bool
is_empty e = e.num_sharers == 0

abbrev pub entry_is_exclusive : Entry → Bool
entry_is_exclusive e = e.num_sharers == 1 && e.excl

-- The line of one cache with the caches below it.
pub record Below : Type 0 where
  pub entry : Entry
  pub kids : List Kid

-- What an operation on it gives: the line, whether a child sent dirty data, and the cycle.
pub record Reply : Type 0 where
  pub below : Below
  pub writeback : Bool
  pub cycle : ℕ

abbrev pub is_invx : InvType → Bool
is_invx invx = true
is_invx _ = false

abbrev pub is_inv : InvType → Bool
is_inv inv = true
is_inv _ = false

-- The loop of `sendInvalidates` over the children.
pub record Sent : Type 0 where
  pub sharers : List Bool
  pub kids : List Kid
  pub writeback : Bool
  pub max_cycle : ℕ
  pub count : ℕ

unfoldable pub send_loop : InvType → ℕ → List Bool → List Kid → Option Sent
send_loop type cycle [] kids =
    some (record { sharers = []; kids = kids; writeback = false; max_cycle = cycle; count = 0 })
send_loop type cycle (b ∷ sharers) [] = none
send_loop type cycle (false ∷ sharers) (k ∷ kids) = do
  r ← send_loop type cycle sharers kids
  some (record r { sharers = false ∷ r.sharers; kids = k ∷ r.kids })
send_loop type cycle (true ∷ sharers) (k ∷ kids) = do
  a ← process_inval k.state type
  r ← send_loop type cycle sharers kids
  some (record {
    sharers = not (is_inv type) ∷ r.sharers;
    kids = record k { state = a.0 } ∷ r.kids;
    writeback = a.1 || r.writeback;
    max_cycle = max (add64 cycle k.lat) r.max_cycle;
    count = add32 r.count 1;
  })

-- What the invalidations leave of the entry; the downgrade wants a single exclusive sharer.
unfoldable pub close_entry : InvType → Entry → Sent → Option Reply
close_entry type e r = do
  assert (r.count == e.num_sharers)
  assert (is_inv type || (e.excl && e.num_sharers == 1))
  some (record {
    below = record {
      entry = record {
        num_sharers = if is_inv type then 0 else e.num_sharers;
        sharers = r.sharers;
        excl = e.excl && is_inv type;
      };
      kids = r.kids;
    };
    writeback = r.writeback;
    cycle = r.max_cycle;
  })

unfoldable pub send_invalidates : InvType → Below → ℕ → Option Reply
unfolding close_entry
send_invalidates type l cycle =
    let send = send_loop type cycle l.entry.sharers l.kids >>= close_entry type l.entry in
    let stay = some (record { below = l; writeback = false; cycle = cycle }) in
    if (is_invx type && not (entry_is_exclusive l.entry)) || is_empty l.entry then stay else send
