-- ===== src/Legos/WindowStructure/Search.antt =====
-- `scheduleInternal` takes the first cycle with a free port.
use me_mo_tracer.Base.{
  ℕ, ◌+◌, ◌-◌, ◌^◌, ◌≤◌, ◌<◌, ◌≡◌, refl, sym, inl, inr, Bool, List, none, some, if◌then◌else◌, ltb,
  add64, sub64, add32, u32, max, All, arith,
}
use me_mo_tracer.Legos.WindowStructure.{WinCycle, blank, WindowStructure}
use me_mo_tracer.Legos.WindowStructure.Place.{
  scan, ub_place, place, after_cur, after_next, place_next, place_far,
}
use me_mo_tracer.Legos.WindowStructure.Scan.{free_port, scan-Hit}
use me_mo_tracer.Legos.WindowStructure.Far.{ub_place-FarHit}
use me_mo_tracer.Legos.WindowStructure.Slots.{
  Placed, in_cur, in_next, in_map, in_cur-Placed, in_next-Placed, in_map-Placed,
}
use me_mo_tracer.Legos.WindowStructure.View.{IsValid}

-- What each stage gives, from what its scan gives.
module _ (touch : Bool) (ports : List Bool) (w : WindowStructure) (cur sched start : ℕ)
    (v : IsValid w cur) (at : start ≡ w.cur_pos + (max cur sched - cur)) (cur-lt : cur < 2 ^ 62)
    (sched-lt : sched < 2 ^ 62) (near : sched < cur + 2 ^ 31) where
  start_of : add32 w.cur_pos (if ltb cur sched then u32 (sub64 sched cur) else 0) ≡ start
  start_of = ground (arith, v.pos, v.small)

  place_cur :
      (ws : List WinCycle) (i port : ℕ)
      → scan touch ports (w.h - start) start w.cur_win ≡ (ws, some (i, port))
      → i < 2 ^ 32
      → place touch ports cur sched w
        ≡ some (record w { cur_win = ws }, cur + (i - w.cur_pos), port)
  unfolding place after_cur
  place_cur ws i port e lt =
      let s : add64 cur (i - w.cur_pos) ≡ cur + (i - w.cur_pos) = omega arith in
      rw (start_of, e, s) refl

  module _ (first : scan touch ports (w.h - start) start w.cur_win ≡ (w.cur_win, none)) (pos : ℕ)
      (from : pos ≡ max start w.h - w.h) where
    place_in_next :
        (ws : List WinCycle) (i port : ℕ)
        → scan touch ports (w.h - pos) pos w.next_win ≡ (ws, some (i, port))
        → i < 2 ^ 32
        → place touch ports cur sched w
          ≡ some (record w { next_win = ws }, cur + (i + w.h - w.cur_pos), port)
    unfolding place after_cur place_next after_next
    place_in_next ws i port e lt =
        let m = v.small in
        let s : add64 cur (i + w.h - w.cur_pos) ≡ cur + (i + w.h - w.cur_pos) = omega arith in
        rw (start_of, first, sym from, e, s) refl

    place_in_map :
        (fs : List (ℕ × WinCycle)) (s port : ℕ)
        → scan touch ports (w.h - pos) pos w.next_win ≡ (w.next_win, none)
        → ub_place touch ports (cur + (max pos w.h + w.h - w.cur_pos)) w.ub_win ≡ some (fs, s, port)
        → place touch ports cur sched w ≡ some (record w { ub_win = fs }, s, port)
    unfolding place after_cur place_next after_next place_far
    place_in_map fs s port e u =
        let m = v.small in
        let t : add64 cur (max pos w.h + w.h - w.cur_pos) ≡ cur + (max pos w.h + w.h - w.cur_pos) =
          omega arith in
        rw (start_of, first, sym from, e, t, u) refl

-- When the mask has a port and the cycles are below 2 ^ 62, a place is found: the first cycle that
-- is neither past nor before the one asked for and has a port of the mask free. That cycle alone changes.
pub place-Placed :
    (touch : Bool) (ports : List Bool) (w : WindowStructure) (cur sched p : ℕ)
    → IsValid w cur
    → free_port ports blank ≡ some p
    → cur < 2 ^ 62
    → sched < 2 ^ 62
    → sched < cur + 2 ^ 31
    → All (λ e. e.0 < 2 ^ 63) w.ub_win
    → (v : WindowStructure) × (s : ℕ) × (port : ℕ) × (place touch ports cur sched w
        ≡ some (v, s, port))
      × Placed touch ports w cur (max cur sched) v s port
unfolding place after_cur place_next after_next place_far in_cur in_next in_map
place-Placed touch ports w cur sched p v some_port cur-lt sched-lt near keys =
    let start = w.cur_pos + (max cur sched - cur) in
    let le : cur ≤ max cur sched = omega arith in
    let small = v.small in
    let before = v.pos in
    elim (scan-Hit touch ports (w.h - start) start w.cur_win) [
      | inl r ↦ (
        _,
        cur + (r.0 - w.cur_pos),
        r.1,
        place_cur touch ports w cur sched start v refl cur-lt sched-lt near _ r.0 r.1 r.2
            (omega (arith, r.3.high)),
        in_cur-Placed touch ports w cur (max cur sched) start v le refl r.0 r.1 r.3,
      )
      | inr first ↦
          let pos = max start w.h - w.h in
          elim (scan-Hit touch ports (w.h - pos) pos w.next_win) [
            | inl r ↦ (
              _,
              cur + (r.0 + w.h - w.cur_pos),
              r.1,
              place_in_next touch ports w cur sched start v refl cur-lt sched-lt near first.0 pos
                  refl _ r.0 r.1 r.2 (omega (arith, r.3.high)),
              in_next-Placed touch ports w cur (max cur sched) start v le refl first.1 pos refl r.0
                  r.1 r.3,
            )
            | inr second ↦
                let far = cur + (max pos w.h + w.h - w.cur_pos) in
                let r =
                  ub_place-FarHit touch ports p some_port far w.ub_win v.sorted (omega arith)
                    keys in
                (
                  record w { ub_win = r.0 },
                  r.1,
                  r.2,
                  place_in_map touch ports w cur sched start v refl cur-lt sched-lt near first.0 pos
                      refl r.0 r.1 r.2 second.0 r.3,
                  in_map-Placed touch ports w cur (max cur sched) start v le refl first.1 pos refl
                      second.1 far refl r.0 r.1 r.2 r.4,
                )
          ]
    ]
