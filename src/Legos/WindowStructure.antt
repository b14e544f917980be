-- ===== src/Legos/WindowStructure.antt =====
-- `WindowStructure` of src/legos.h: the ports in use at the cycles ahead, in two arrays of `h` cycles
-- and a map of the cycles farther on. A mask of eight ports is a list of bits. Positions and `h` stay
-- below 2 ^ 31, so that sums of two of them do not wrap. Where the source changes a cycle that it is
-- given, it is a result here.
pub mod Place
pub mod Schedule
pub mod View
pub mod Rebase
pub mod Advance
pub mod Scan
pub mod Far
pub mod Slots
pub mod Search
pub mod Drain
pub mod Uops
pub mod Poison
pub mod Jump
use me_mo_tracer.Base.{
  ℕ, zero, suc, ◌+◌, ◌-◌, ◌*◌, ◌%◌, ◌^◌, Bool, true, false, not, ◌&&◌, ◌||◌, List, [], ◌∷◌, Option,
  none, some, if◌then◌else◌, ltb, leb, ◌==◌, add64, sub64, add32, sub32, u32, get_or, set,
  replicate, ◌>>=◌, ◌>>◌, assert, first_bit, free_of, or_bits, max,
}

pub record WinCycle : Type 0 where
  pub occ_units : List Bool
  pub count : ℕ

abbrev pub blank : WinCycle
blank = record { occ_units = replicate 8 false; count = 0 }

pub record WindowStructure : Type 0 where
  pub cur_win : List WinCycle
  pub next_win : List WinCycle
  pub ub_win : List (ℕ × WinCycle)
  pub occupancy : ℕ
  pub cur_pos : ℕ
  pub last_port : ℕ
  pub h : ℕ
  pub wsz : ℕ

unfoldable pub init : ℕ → ℕ → WindowStructure
init h wsz = record {
  cur_win = replicate h blank;
  next_win = replicate h blank;
  ub_win = [];
  occupancy = 0;
  cur_pos = 0;
  last_port = 0;
  h = h;
  wsz = wsz;
}

-- The cycle afterwards, and the port if one is available. The first argument is `touchOccupancy`.
abbrev pub take_port : WinCycle → Option ℕ → WinCycle
take_port wc none = wc
take_port wc (some port) = record {
  occ_units = set wc.occ_units port true;
  count = (wc.count + 1) % 2 ^ 8;
}

unfoldable pub try_schedule : Bool → WinCycle → List Bool → WinCycle × Option ℕ
try_schedule true wc ports =
    let avail = first_bit (free_of wc.occ_units ports) in (take_port wc avail, avail)
try_schedule false wc ports =
    (record wc { occ_units = or_bits wc.occ_units ports }, first_bit (free_of wc.occ_units ports))

-- The loop that moves cycles from the map into the next array.
unfoldable pub move_in :
    ℕ → ℕ → ℕ → List (ℕ × WinCycle) → List WinCycle → Option (List (ℕ × WinCycle) × List WinCycle)
move_in horizon h cur_cycle [] next = some ([], next)
move_in horizon h cur_cycle (e ∷ es) next =
    let pos = u32 (sub64 (sub64 e.0 h) cur_cycle) in
    let moved = assert (ltb pos h) >> move_in horizon h cur_cycle es (set next pos e.1) in
    if ltb e.0 horizon then moved else some (e ∷ es, next)

unfoldable pub rebase : ℕ → WindowStructure → Option WindowStructure
unfolding move_in
rebase cur_cycle w = do
  r ← move_in (add64 cur_cycle (2 * w.h)) w.h cur_cycle w.ub_win w.cur_win
  some (record w { cur_win = w.next_win; next_win = r.1; ub_win = r.0; cur_pos = 0 })

-- The window, and the current cycle.
unfoldable pub advance_pos : WindowStructure → ℕ → Option (WindowStructure × ℕ)
unfolding rebase
advance_pos w cur_cycle =
    let v = record w {
      occupancy = sub32 w.occupancy (get_or w.cur_win w.cur_pos blank).count;
      cur_win = set w.cur_win w.cur_pos blank;
      cur_pos = w.cur_pos + 1;
    } in
    let cycle = add64 cur_cycle 1 in
    let rebased = rebase cycle v >>= λ r. some (r, cycle) in
    if v.cur_pos == v.h then rebased else some (v, cycle)
