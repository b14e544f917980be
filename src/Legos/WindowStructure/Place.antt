-- ===== src/Legos/WindowStructure/Place.antt =====
-- Where `scheduleInternal` looks for a free port: the two arrays, and then the map.
use me_mo_tracer.Base.{
  ℕ, zero, suc, ◌+◌, ◌-◌, Bool, List, [], ◌∷◌, Option, none, some, if◌then◌else◌, ltb, ◌==◌, add64,
  sub64, add32, u32, get_or, set, ◌>>=◌, max,
}
use me_mo_tracer.Legos.WindowStructure.{WinCycle, blank, WindowStructure, try_schedule}

-- The cycles of an array from a position on, up to `n` of them: the array afterwards, and the
-- position and the port of the first cycle that has one.
unfoldable pub scan : Bool → List Bool → ℕ → ℕ → List WinCycle → List WinCycle × Option (ℕ × ℕ)
unfolding try_schedule
scan touch ports zero pos ws = (ws, none)
scan touch ports (suc n) pos ws =
    let t = try_schedule touch (get_or ws pos blank) ports in
    elim t.1 [
      | some port ↦ (set ws pos t.0, some (pos, port))
      | none ↦ scan touch ports n (pos + 1) (set ws pos t.0)
    ]

-- The cycles of the map from `lower_bound` on: the map, the cycle and the port.
unfoldable pub ub_fresh :
    Bool → List Bool → ℕ → List (ℕ × WinCycle) → Option (List (ℕ × WinCycle) × ℕ × ℕ)
unfolding try_schedule
ub_fresh touch ports sched es = do
  let t = try_schedule touch blank ports
  port ← t.1
  some ((sched, t.0) ∷ es, sched, port)

unfoldable pub ub_from :
    Bool → List Bool → ℕ → List (ℕ × WinCycle) → Option (List (ℕ × WinCycle) × ℕ × ℕ)
unfolding ub_fresh
ub_from touch ports sched [] = ub_fresh touch ports sched []
ub_from touch ports sched (e ∷ es) =
    let t = try_schedule touch e.1 ports in
    let later = ub_from touch ports (add64 sched 1) es >>= λ r. some ((e.0, t.0) ∷ r.0, r.1, r.2) in
    let here : Option (List (ℕ × WinCycle) × ℕ × ℕ) = elim t.1 [
      | some port ↦ some ((e.0, t.0) ∷ es, sched, port)
      | none ↦ later
    ] in
    if e.0 == sched then here else ub_fresh touch ports sched (e ∷ es)

unfoldable pub ub_place :
    Bool → List Bool → ℕ → List (ℕ × WinCycle) → Option (List (ℕ × WinCycle) × ℕ × ℕ)
unfolding ub_from
ub_place touch ports sched [] = ub_from touch ports sched []
ub_place touch ports sched (e ∷ es) =
    let next = ub_place touch ports sched es >>= λ r. some (e ∷ r.0, r.1, r.2) in
    if ltb e.0 sched then next else ub_from touch ports sched (e ∷ es)

-- The three stages of `scheduleInternal`, each with the window, the cycle and the port.
unfoldable pub place_far :
    Bool → List Bool → ℕ → ℕ → WindowStructure → Option (WindowStructure × ℕ × ℕ)
unfolding ub_place
place_far touch ports cur_cycle pos w = do
  r ← ub_place touch ports (add64 cur_cycle (pos + w.h - w.cur_pos)) w.ub_win
  some (record w { ub_win = r.0 }, r.1, r.2)

unfoldable pub after_next :
    Bool
    → List Bool
    → ℕ
    → ℕ
    → WindowStructure
    → List WinCycle × Option (ℕ × ℕ)
    → Option (WindowStructure × ℕ × ℕ)
unfolding place_far
after_next touch ports cur_cycle pos w (ws, none) =
    place_far touch ports cur_cycle (max pos w.h) (record w { next_win = ws })
after_next touch ports cur_cycle pos w (ws, some r) =
    some (record w { next_win = ws }, add64 cur_cycle (r.0 + w.h - w.cur_pos), r.1)

unfoldable pub place_next :
    Bool → List Bool → ℕ → ℕ → WindowStructure → Option (WindowStructure × ℕ × ℕ)
unfolding scan after_next
place_next touch ports cur_cycle pos w =
    after_next touch ports cur_cycle pos w (scan touch ports (w.h - pos) pos w.next_win)

unfoldable pub after_cur :
    Bool
    → List Bool
    → ℕ
    → ℕ
    → WindowStructure
    → List WinCycle × Option (ℕ × ℕ)
    → Option (WindowStructure × ℕ × ℕ)
unfolding place_next
after_cur touch ports cur_cycle pos w (ws, none) =
    place_next touch ports cur_cycle (max pos w.h - w.h) (record w { cur_win = ws })
after_cur touch ports cur_cycle pos w (ws, some r) =
    some (record w { cur_win = ws }, add64 cur_cycle (r.0 - w.cur_pos), r.1)

unfoldable pub place : Bool → List Bool → ℕ → ℕ → WindowStructure → Option (WindowStructure × ℕ × ℕ)
unfolding scan after_cur
place touch ports cur_cycle sched w =
    let delay = if ltb cur_cycle sched then u32 (sub64 sched cur_cycle) else 0 in
    let pos = add32 w.cur_pos delay in
    after_cur touch ports cur_cycle pos w (scan touch ports (w.h - pos) pos w.cur_win)
