-- ===== src/Legos/WindowStructure/Schedule.antt =====
-- The loops that move the window on, and the operations of the core on it.
use me_mo_tracer.Base.{
  ℕ, zero, suc, ◌+◌, ◌-◌, ◌*◌, Bool, true, false, not, ◌&&◌, List, [], ◌∷◌, Option, none, some,
  if◌then◌else◌, ltb, leb, ◌==◌, add64, add32, set, replicate, ◌>>=◌, ◌>>◌, assert, max,
}
use me_mo_tracer.Legos.WindowStructure.{WinCycle, WindowStructure, advance_pos}
use me_mo_tracer.Legos.WindowStructure.Place.{place}

-- `while (occupancy == WSZ)`, with the number of rounds at most.
unfoldable pub drain : ℕ → WindowStructure → ℕ → Option (WindowStructure × ℕ)
unfolding advance_pos
drain zero w cur_cycle = if w.occupancy == w.wsz then none else some (w, cur_cycle)
drain (suc n) w cur_cycle =
    let next = advance_pos w cur_cycle >>= λ r. drain n r.0 r.1 in
    if w.occupancy == w.wsz then next else some (w, cur_cycle)

-- The cycles from the current one to the last that the window knows of.
abbrev pub last_far : List (ℕ × WinCycle) → ℕ
last_far [] = 0
last_far (e ∷ es) = max e.0 (last_far es)

abbrev pub rounds_for : WindowStructure → ℕ → ℕ
rounds_for w cur_cycle = max (2 * w.h) (last_far w.ub_win + 1 - cur_cycle)

-- The window, the current cycle and the cycle scheduled. The arguments are `touchOccupancy`,
-- `recordPort` and the mask.
unfoldable pub schedule_internal :
    Bool → Bool → List Bool → WindowStructure → ℕ → ℕ → Option (WindowStructure × ℕ × ℕ)
unfolding drain place
schedule_internal touch keep ports w cur_cycle sched = do
  d ← if touch then drain (rounds_for w cur_cycle) w cur_cycle else some (w, cur_cycle)
  p ← place touch ports d.1 sched d.0
  let kept = if keep then record p.0 { last_port = p.2 } else p.0
  let counted = if touch then record kept { occupancy = add32 kept.occupancy 1 } else kept
  some (counted, d.1, p.1)

abbrev pub one_port : ℕ → List Bool
one_port port = set (replicate 8 false) port true

unfoldable pub extra_loop : ℕ → List Bool → WindowStructure → ℕ → ℕ → Option (WindowStructure × ℕ)
unfolding schedule_internal
extra_loop zero ports w cur_cycle cycle = some (w, cur_cycle)
extra_loop (suc n) ports w cur_cycle cycle = do
  r ← schedule_internal false false ports w cur_cycle cycle
  extra_loop n ports r.0 r.1 (add64 r.2 1)

unfoldable pub schedule : List Bool → ℕ → WindowStructure → ℕ → ℕ → Option (WindowStructure × ℕ × ℕ)
unfolding schedule_internal extra_loop
schedule ports extra_slots w cur_cycle sched = do
  r ← schedule_internal true (not (extra_slots == 0)) ports w cur_cycle sched
  e ← extra_loop extra_slots (one_port r.0.last_port) r.0 r.1 (add64 r.2 1)
  assert (leb e.0.occupancy e.0.wsz)
  some (e.0, e.1, r.2)

-- `while (occupancy && curCycle < targetCycle)`, at most as many rounds as the cycles between.
unfoldable pub drain_until : ℕ → ℕ → WindowStructure → ℕ → Option (WindowStructure × ℕ)
unfolding advance_pos
drain_until zero target w cur_cycle = some (w, cur_cycle)
drain_until (suc n) target w cur_cycle =
    let next = advance_pos w cur_cycle >>= λ r. drain_until n target r.0 r.1 in
    if not (w.occupancy == 0) && ltb cur_cycle target then next else some (w, cur_cycle)

unfoldable pub long_advance : WindowStructure → ℕ → ℕ → Option (WindowStructure × ℕ)
unfolding drain_until
long_advance w cur_cycle target = do
  assert (leb cur_cycle target)
  d ← drain_until (target - cur_cycle) target w cur_cycle
  let cycle = if d.0.occupancy == 0 then target else d.1
  assert (if d.0.occupancy == 0 then leb d.1 target else d.1 == target)
  some (d.0, cycle)

-- Each round takes a later cycle, so there are at most as many rounds as cycles.
unfoldable pub poison_loop :
    ℕ → List Bool → ℕ → WindowStructure → ℕ → ℕ → Option (WindowStructure × ℕ)
unfolding schedule_internal
poison_loop zero ports target w cur_cycle poison =
    if ltb poison target then none else some (w, cur_cycle)
poison_loop (suc n) ports target w cur_cycle poison =
    let next = schedule_internal false false ports w cur_cycle poison >>= λ r.
    poison_loop n ports target r.0 r.1 r.2 in
    if ltb poison target then next else some (w, cur_cycle)

unfoldable pub poison_range : List Bool → WindowStructure → ℕ → ℕ → Option (WindowStructure × ℕ)
unfolding poison_loop
poison_range ports w cur_cycle target = do
  r ← poison_loop (target - cur_cycle + 1) ports target w cur_cycle cur_cycle
  assert (cur_cycle == r.1)
  some r
