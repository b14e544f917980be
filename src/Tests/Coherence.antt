-- ===== src/Tests/Coherence.antt =====
-- A line shared by three terminal caches.
use me_mo_tracer.Base.{ℕ, ◌≡◌, refl, Bool, true, false, List, [], ◌∷◌, some, none, length, arith}
use me_mo_tracer.Mesi.States.{
  invalid, shared, modified, gets, getx, inv, invx, no_flags, is_exclusive, is_valid,
}
use me_mo_tracer.Mesi.Level.{Level, Timing, idle, child_state, child_access, eviction, invalidate}
use me_mo_tracer.Mesi.Level.Coherence.{IsCoherent, IsTimely}
use me_mo_tracer.Mesi.Level.Accesses.{child_access-gets, child_access-getx}
use me_mo_tracer.Mesi.Level.Evictions.{eviction-IsCoherent}
use me_mo_tracer.Mesi.Level.Invalidations.{invalidate-inv, invalidate-invx}
use me_mo_tracer.Mesi.Level.Runs.{
  Event, child_load, child_store, child_replace, replace, run, run-IsCoherent, run-single_writer,
  idle-IsCoherent,
}

abbrev timing : Timing
timing = record { acc_lat = 10; mem_lat = 100; rtt = 4; child_rtt = 3 }

abbrev three : Level
three = idle (5 ∷ 6 ∷ 7 ∷ [])

-- Child 1 has the line in M, and so has the cache.
abbrev written : Level
written = record {
  own = modified;
  below = record {
    entry = record { num_sharers = 1; sharers = false ∷ true ∷ false ∷ []; excl = true };
    kids =
        record { state = invalid; lat = 5 }
        ∷ record { state = modified; lat = 6 }
        ∷ record { state = invalid; lat = 7 }
        ∷ [];
  };
}

written-IsCoherent : IsCoherent written
written-IsCoherent = record {
  right = record {
    agree = ((refl, omega arith), ((refl, omega arith), ((refl, omega arith), tt)));
    counted = refl;
    single = λ e. omega arith;
    few = omega arith;
  };
  inclusive = λ n. refl;
  above = λ e. refl;
}

timely : IsTimely timing 1000
timely = record { acc = omega arith; mem = omega arith; mem_pos = omega arith; room = omega arith }

abbrev events : List (ℕ × Event)
events =
    (1000, child_load 0 no_flags)
    ∷ (1000, child_store 2 no_flags)
    ∷ (1000, child_load 1 no_flags)
    ∷ (1000, child_replace 2)
    ∷ (1000, replace)
    ∷ []

-- A read of a line that is dirty elsewhere.
child_access-gets_example :
    (m : Level) × (child_access timing 0 gets no_flags 1000 written ≡ some m)
    × IsCoherent m
    × (is_valid (child_state m 0) ≡ true)
    × (length m.below.entry.sharers ≡ 3)
child_access-gets_example =
    child_access-gets timing 0 1000 no_flags written written-IsCoherent timely (omega arith)

-- A write to a line that is dirty elsewhere.
child_access-getx_example :
    (m : Level) × (child_access timing 0 getx no_flags 1000 written ≡ some m)
    × IsCoherent m
    × (child_state m 0 ≡ modified)
    × (length m.below.entry.sharers ≡ 3)
child_access-getx_example =
    child_access-getx timing 0 1000 no_flags written written-IsCoherent timely (omega arith)

eviction-IsCoherent_example :
    (m : Level) × (eviction timing 1000 written ≡ some m)
    × IsCoherent m
    × (m.own ≡ invalid)
    × ((child : ℕ) → is_valid (child_state m child) ≡ false)
    × (length m.below.entry.sharers ≡ 3)
eviction-IsCoherent_example = eviction-IsCoherent timing 1000 written written-IsCoherent timely

invalidate-inv_example :
    (m : Level) × (w : Bool) × (invalidate inv 1000 written ≡ some (m, w))
    × IsCoherent m
    × (m.own ≡ invalid)
    × ((child : ℕ) → is_valid (child_state m child) ≡ false)
    × (modified ≡ modified → w ≡ true)
invalidate-inv_example = invalidate-inv 1000 written written-IsCoherent refl

invalidate-invx_example :
    (m : Level) × (w : Bool) × (invalidate invx 1000 written ≡ some (m, w))
    × IsCoherent m
    × (m.own ≡ shared)
    × ((child : ℕ) → is_exclusive (child_state m child) ≡ false)
    × (modified ≡ modified → w ≡ true)
invalidate-invx_example = invalidate-invx 1000 written written-IsCoherent refl

three-IsCoherent : IsCoherent three
three-IsCoherent =
    idle-IsCoherent (5 ∷ 6 ∷ 7 ∷ []) (omega arith, (omega arith, (omega arith, tt))) (omega arith)

run-IsCoherent_example : (m : Level) × (run timing events three ≡ some m) × IsCoherent m
unfolding idle
run-IsCoherent_example = run-IsCoherent timing events three three-IsCoherent (
  timely,
  omega arith,
  (timely, omega arith, (timely, omega arith, (timely, omega arith, (timely, tt, tt)))),
)

-- The second child has written the line.
abbrev one_writes : List (ℕ × Event)
one_writes = (1000, child_store 1 no_flags) ∷ []

abbrev after_write : Level
after_write = elim (run timing one_writes three) [ none ↦ three | some l ↦ l ]

run-single_writer_example : child_state after_write 2 ≡ invalid
unfolding idle run child_access me_mo_tracer.Mesi.Bottom.process_access
    me_mo_tracer.Mesi.Level.access me_mo_tracer.Mesi.Bottom.memory_access
    me_mo_tracer.Mesi.Top.process_access me_mo_tracer.Mesi.Top.give_modified
    me_mo_tracer.Mesi.Top.only_copy me_mo_tracer.Mesi.Directory.send_invalidates
run-single_writer_example =
    run-single_writer timing one_writes three after_write 1 2 three-IsCoherent
      (timely, omega arith, tt) refl (λ e. cc) refl
