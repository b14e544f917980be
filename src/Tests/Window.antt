-- ===== src/Tests/Window.antt =====
-- An instruction window of one uop, over two arrays of two cycles, from cycle 100 on.
use me_mo_tracer.Base.{
  ℕ, ◌≡◌, ◌≢◌, refl, Bool, true, false, List, [], ◌∷◌, none, some, map_some, ◌>>=◌, replicate, set,
  arith,
}
use me_mo_tracer.Legos.WindowStructure.{
  WinCycle, blank, WindowStructure, init, advance_pos, rebase, move_in, try_schedule,
}
use me_mo_tracer.Legos.WindowStructure.Place.{
  scan, place, after_cur, place_next, after_next, place_far, ub_place, ub_from, ub_fresh,
}
use me_mo_tracer.Legos.WindowStructure.Schedule.{
  drain, one_port, schedule_internal, long_advance, drain_until, poison_loop, poison_range,
}
use me_mo_tracer.Legos.WindowStructure.View.{IsValid, init-IsValid}
use me_mo_tracer.Legos.WindowStructure.Advance.{Stepped, advance_pos-Stepped}
use me_mo_tracer.Legos.WindowStructure.Uops.{Scheduled, schedule_internal-Scheduled}
use me_mo_tracer.Legos.WindowStructure.Jump.{Moved, long_advance-Moved}
use me_mo_tracer.Legos.WindowStructure.Poison.{IsPoisoned, poison_range-IsPoisoned}

abbrev mask : List Bool
mask = false ∷ true ∷ true ∷ replicate 5 false

abbrev started : WindowStructure
started = record {
  cur_win = replicate 2 blank;
  next_win = replicate 2 blank;
  ub_win = [];
  occupancy = 0;
  cur_pos = 0;
  last_port = 0;
  h = 2;
  wsz = 1;
}

started-IsValid : IsValid started 100
unfolding init
started-IsValid = init-IsValid 2 1 100 (omega arith) (omega arith)

abbrev busy : WinCycle
busy = record { occ_units = set (replicate 8 false) 1 true; count = 1 }

-- A uop waits for cycle 106.
abbrev full : WindowStructure
full = record started { ub_win = (106, busy) ∷ []; occupancy = 1; last_port = 1 }

full-IsValid : IsValid full 100
full-IsValid = record {
  pos = omega arith;
  small = omega arith;
  cur_sized = refl;
  next_sized = refl;
  past = λ i l. absurd (omega arith);
  sorted = (tt, tt);
  beyond = (omega arith, tt);
}

far_uop : schedule_internal true true mask started 100 106 ≡ some (full, 100, 106)
unfolding schedule_internal drain place after_cur place_next after_next place_far scan ub_place
    ub_from ub_fresh try_schedule
far_uop = refl

-- The window drains before it takes the next one.
next_uop : map_some (λ r. r.1) (schedule_internal true true mask full 100 106) ≡ some 107
unfolding schedule_internal drain advance_pos rebase move_in place after_cur place_next after_next
    place_far scan ub_place ub_from ub_fresh try_schedule
next_uop = refl

schedule_internal-Scheduled_example :
    (v : WindowStructure) × (to : ℕ) × (s : ℕ) × (schedule_internal true true mask full 100 106
      ≡ some (v, to, s))
    × (full.occupancy ≢ full.wsz → to ≡ 100)
    × Scheduled true mask full 100 106 v to s
schedule_internal-Scheduled_example =
    schedule_internal-Scheduled true mask full 100 106 1 full-IsValid refl (omega arith)
      (omega arith) (omega arith) (omega arith) (omega arith, tt)
      (λ e. (106, omega arith, omega arith, omega arith, omega arith))

advance_pos-Stepped_example :
    (v : WindowStructure) × (advance_pos full 100 ≡ some (v, 101)) × Stepped full 100 v
advance_pos-Stepped_example = advance_pos-Stepped full 100 full-IsValid (omega arith)

poison_range-IsPoisoned_example :
    (v : WindowStructure) × (poison_range (one_port 1) full 100 108 ≡ some (v, 100))
    × IsValid v 100
    × IsPoisoned (one_port 1) v 100 108
poison_range-IsPoisoned_example =
    poison_range-IsPoisoned (one_port 1) full 100 108 1 full-IsValid refl (omega arith)
      (omega arith) (omega arith, tt)

-- A jump over a poisoned range leaves its marks at cycles that are past, and the window then fails.
jumped :
    (poison_range (one_port 1) started 100 110 >>= λ r. long_advance r.0 100 120 >>= λ a.
    advance_pos a.0 a.1 >>= λ b. map_some (λ c. c.1) (advance_pos b.0 b.1))
    ≡ none
unfolding long_advance drain_until poison_range poison_loop schedule_internal drain advance_pos
    rebase move_in place after_cur place_next after_next place_far scan ub_place ub_from ub_fresh
    try_schedule
jumped = refl

long_advance-Moved_example :
    (v : WindowStructure) × (long_advance full 100 104 ≡ some (v, 104))
    × (v.occupancy ≢ 0 → Moved full 100 v 104)
long_advance-Moved_example =
    long_advance-Moved full 100 104 full-IsValid (omega arith) (omega arith)
