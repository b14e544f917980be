-- ===== src/Tests/Sched.antt =====
-- The scheduler at concrete states: two cores, three threads.
use me_mo_tracer.Base.{
  ℕ, ◌≡◌, refl, Bool, true, false, List, [], ◌∷◌, Option, none, some, Returns, Returns-weaken,
  arith, ◌==◌, ◌||◌,
}
use me_mo_tracer.Sched.{Scheduler, ThreadInfo, blocked, fja_none, schedule}
use me_mo_tracer.Sched.Queues.{mem, insert_sleeper, remove, first}
use me_mo_tracer.Sched.Policy.{
  sched_thread, free_context, steal, cids_from, shuffle, promise, tick_loop, sched_tick,
}
use me_mo_tracer.Sched.Operations.{
  start, join, join_begin, join_end, futex_match, join_thread, enter, queue_up, leave, finish,
}
use me_mo_tracer.Sched.Phases.{after_sync, callback, wake_due}
use me_mo_tracer.Sched.Wakes.{ordered, insert_sleeper-ordered}
use me_mo_tracer.Sched.Links.{IsValid, state_is, in_play, handoff_of}
use me_mo_tracer.Sched.Signals.{init, init-IsValid, start-IsValid}
use me_mo_tracer.Sched.Futexes.{are_matched, join-IsValid}
use me_mo_tracer.Sched.Leaves.{has_left, leave-IsValid}
use me_mo_tracer.Sched.Finishes.{finish-IsValid}
use me_mo_tracer.Sched.Handover.{runs_at, after_sync-IsValid}
use me_mo_tracer.Sched.Joins.{may_join}
use me_mo_tracer.Sched.Ticks.{IsKept}
use me_mo_tracer.Sched.Callbacks.{AllLater, IsOver, callback-IsKept}
use me_mo_tracer.Sched.Runs.{here, next_step, starts, joins, reachable-IsValid}

abbrev state_of : Option Scheduler → Scheduler
state_of none = init 2 1
state_of (some s) = s

state_of-IsValid : (o : Option Scheduler) → Returns o IsValid → IsValid (state_of o)
state_of-IsValid none r = absurd r
state_of-IsValid (some s) r = r

abbrev both : List Bool
both = true ∷ true ∷ []

-- A thread at its start, and in what follows.
abbrev newcomer : ThreadInfo
newcomer = record {
  state = blocked;
  cid = 0;
  handoff_thread = none;
  futex_word = 0;
  needs_join = false;
  marked_for_sleep = false;
  wakeup_phase = 0;
  mask = both;
  fake_leave = none;
  futex_join = record { action = fja_none; max_wakes = 0; woken_up = 0 };
}

abbrev info_of : ℕ → Scheduler → ThreadInfo
info_of g s = elim (s.threads g) [ none ↦ newcomer | some th ↦ th ]

abbrev one_started : Scheduler
one_started = state_of (start 5 both (init 2 1))

abbrev one_joined : Scheduler
one_joined = state_of (join false 5 one_started)

abbrev two_started : Scheduler
two_started = state_of (start 6 both one_joined)

abbrev two_joined : Scheduler
two_joined = state_of (join false 6 two_started)

abbrev three_started : Scheduler
three_started = state_of (start 7 both two_joined)

-- The third thread waits in the run queue.
abbrev three_joined : Scheduler
three_joined = state_of (join false 7 three_started)

third_waits : three_joined.run_queue ≡ 7 ∷ []
unfolding init cids_from start join join_begin join_end futex_match join_thread enter sched_thread
    free_context steal first remove schedule queue_up
third_waits = refl

reachable-IsValid_example : IsValid one_joined
unfolding init cids_from start join join_begin join_end futex_match join_thread enter sched_thread
    free_context first remove schedule
reachable-IsValid_example = reachable-IsValid 2 1 one_joined (omega arith) (
    next_step (starts {s = init 2 1} {t = one_started} 5 both refl refl refl refl refl) (
      next_step
        (joins {s = one_started} {t = one_joined} false 5 (info_of 5 one_started) refl refl refl)
        here))

one_started-IsValid : IsValid one_started
unfolding init
one_started-IsValid =
    state_of-IsValid (start 5 both (init 2 1))
      (start-IsValid 5 both (init 2 1) (init-IsValid 2 1 (omega arith)) refl refl refl refl)

-- The states in turn are valid.
joined-IsValid :
    (g : ℕ) (s : Scheduler)
    → IsValid s
    → s.threads g ≡ some (info_of g s)
    → may_join (info_of g s) ≡ true
    → are_matched false (info_of g s) s ≡ true
    → IsValid (state_of (join false g s))
joined-IsValid g s v e j f = state_of-IsValid (join false g s) (
    Returns-weaken (join false g s) _ IsValid (join-IsValid false g (info_of g s) s v e j f)
      (λ t r. r.0))

two_joined-IsValid : IsValid two_joined
unfolding init cids_from start join join_begin join_end futex_match join_thread enter sched_thread
    free_context first remove schedule
two_joined-IsValid =
    let v1 = joined-IsValid 5 one_started one_started-IsValid refl refl refl in
    let v2 =
      state_of-IsValid (start 6 both one_joined)
        (start-IsValid 6 both one_joined v1 refl refl refl refl) in
    joined-IsValid 6 two_started v2 refl refl refl

three_started-IsValid : IsValid three_started
unfolding init cids_from start join join_begin join_end futex_match join_thread enter sched_thread
    free_context first remove schedule
three_started-IsValid =
    state_of-IsValid (start 7 both two_joined)
      (start-IsValid 7 both two_joined two_joined-IsValid refl refl refl refl)

join-IsValid_example :
    Returns (join false 7 three_started) (λ t. IsValid t × (state_is in_play (t.threads 7) ≡ true))
unfolding init cids_from start join join_begin join_end futex_match join_thread enter sched_thread
    free_context first remove schedule
join-IsValid_example =
    join-IsValid false 7 (info_of 7 three_started) three_started three_started-IsValid refl refl
      refl

three_joined-IsValid : IsValid three_joined
unfolding init cids_from start join join_begin join_end futex_match join_thread enter sched_thread
    free_context first remove schedule
three_joined-IsValid = joined-IsValid 7 three_started three_started-IsValid refl refl refl

-- The first thread leaves, and the one that waits gets its context.
leave-IsValid_example :
    Returns (leave 5 0 three_joined) (λ t. IsValid t × (state_is has_left (t.threads 5) ≡ true))
unfolding init cids_from start join join_begin join_end futex_match join_thread enter sched_thread
    free_context steal first remove schedule queue_up
leave-IsValid_example =
    leave-IsValid 5 0 (info_of 5 three_joined) three_joined
      (record { valid = three_joined-IsValid; info = refl; runs = refl; place = refl }) refl refl

finish-IsValid_example : Returns (finish 5 three_joined) (λ t. IsValid t × (t.threads 5 ≡ none))
unfolding init cids_from start join join_begin join_end futex_match join_thread enter sched_thread
    free_context steal first remove schedule queue_up
finish-IsValid_example =
    finish-IsValid 5 (info_of 5 three_joined) three_joined three_joined-IsValid refl refl

three_joined-IsKept : IsKept three_joined
unfolding init cids_from start join join_begin join_end futex_match join_thread enter sched_thread
    free_context steal first remove schedule queue_up
three_joined-IsKept = record {
  valid = three_joined-IsValid;
  kept = λ g d p. absurd (ground (arith, p));
}

three_joined-AllLater : AllLater three_joined
unfolding init cids_from start join join_begin join_end futex_match join_thread enter sched_thread
    free_context steal first remove schedule queue_up
three_joined-AllLater = record { room = omega arith; later = λ g m. cc }

-- A phase ends, and the quantum with it.
callback-IsKept_example : Returns (callback (λ i. 0) three_joined) (IsOver three_joined)
unfolding init cids_from start join join_begin join_end futex_match join_thread enter sched_thread
    free_context steal first remove schedule queue_up
callback-IsKept_example =
    callback-IsKept (λ i. 0) three_joined three_joined-IsKept refl three_joined-AllLater refl

-- The second context is promised to the third thread.
abbrev ticked : Scheduler
ticked = state_of (callback (λ i. 0) three_joined)

ticked-IsValid : IsValid ticked
unfolding init cids_from start join join_begin join_end futex_match join_thread enter sched_thread
    free_context steal first remove schedule queue_up callback wake_due sched_tick shuffle tick_loop
    promise
ticked-IsValid =
    let over : IsOver three_joined ticked =
      callback-IsKept (λ i. 0) three_joined three_joined-IsKept refl three_joined-AllLater refl in
    over.kept.valid

after_sync-IsValid_example : Returns (after_sync 6 ticked) (λ t.
    IsValid t
    × (t.threads 7 ≡ some (runs_at (info_of 6 ticked).cid (info_of 7 ticked)))
    × (handoff_of (t.threads 6) ≡ none)
    × (state_is in_play (t.threads 6) ≡ true))
unfolding init cids_from start join join_begin join_end futex_match join_thread enter sched_thread
    free_context steal first remove schedule queue_up callback wake_due sched_tick shuffle tick_loop
    promise
after_sync-IsValid_example =
    after_sync-IsValid 6 7 (info_of 6 ticked) (info_of 7 ticked) ticked
      (record { valid = ticked-IsValid; info = refl; runs = refl; place = refl }) refl
      (record { info = refl; ready = refl; away = refl }) refl refl

-- Sleepers 3, 4 and 9, due at phases of the same numbers, and another one for phase 5.
insert_sleeper-ordered_example :
    (ordered (λ g. g) (insert_sleeper (λ g. g) 5 (3 ∷ 4 ∷ 9 ∷ [])) ≡ true)
    × ((h : ℕ)
        → mem h (insert_sleeper (λ g. g) 5 (3 ∷ 4 ∷ 9 ∷ [])) ≡ ((h == 5) || mem h (3 ∷ 4 ∷ 9 ∷ [])))
insert_sleeper-ordered_example = insert_sleeper-ordered (λ g. g) 5 (3 ∷ 4 ∷ 9 ∷ []) refl
