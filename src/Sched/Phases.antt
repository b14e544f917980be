-- ===== src/Sched/Phases.antt =====
-- `sync` and `callback` of src/scheduler.h: the end of a phase, and the contexts handed over then.
use me_mo_tracer.Base.{
  ℕ, ◌%◌, Bool, true, false, not, ◌||◌, List, [], ◌∷◌, Option, none, some, if◌then◌else◌, leb, ◌==◌,
  add64, ◌>>=◌, ◌>>◌, assert,
}
use me_mo_tracer.Sched.{
  blocked, queued, Scheduler, core_join, bar_join, bar_sync, is_running, write_thread, call,
  schedule, deschedule,
}
use me_mo_tracer.Sched.Policy.{sched_thread, sched_tick}
use me_mo_tracer.Sched.Operations.{wakeup, queue_up, resume}

-- `sync` up to the barrier.
unfoldable pub sync : ℕ → Scheduler → Option Scheduler
sync c s = do
  g ← (s.contexts c).cur_thread
  th ← s.threads g
  assert (not th.marked_for_sleep)
  some (call (bar_sync c) s)

-- The context of `g` goes to `next`.
unfoldable pub hand_over : ℕ → ℕ → Scheduler → Option Scheduler
hand_over g next s = do
  th ← s.threads g
  gone ← deschedule g th.cid queued (write_thread g (record th { handoff_thread = none }) s)
  placed ← schedule next th.cid gone
  wakeup next false placed

-- A thread that gave its context away looks for another one.
unfoldable pub look_around : ℕ → Scheduler → Option Scheduler
look_around g s = do
  found ← sched_thread g s
  elim (found.0) [
    | some c ↦ do
      placed ← schedule g c found.1
      now ← placed.threads g
      assert (is_running now.state)
      some (call (bar_join c) (call (core_join c) placed))
    | none ↦ queue_up g found.1
  ]

-- The end of `sync` for a thread that waited in the run queue.
unfoldable pub resume_sync : ℕ → Scheduler → Option Scheduler
resume_sync g s = do back ← resume g s; th ← back.threads g; assert (is_running th.state); some back

-- `sync` after the barrier.
unfoldable pub after_sync : ℕ → Scheduler → Option Scheduler
after_sync g s = do
  th ← s.threads g
  elim th.handoff_thread [
    | none ↦ assert (is_running th.state) >> some s
    | some next ↦ do handed ← hand_over g next s; look_around g handed
  ]

-- The loop of `callback` over the sleep queue, which is taken apart from the front.
unfoldable pub wake_due : List ℕ → Scheduler → Option Scheduler
wake_due [] s = some s
wake_due (g ∷ gs) s = do
  th ← s.threads g
  elim (leb th.wakeup_phase s.cur_phase) [
    | false ↦ some s
    | true ↦ do
      assert (th.wakeup_phase == s.cur_phase)
      woken ← wakeup g false (write_thread g (record th { state = blocked }) s)
      wake_due gs (record woken { sleep_queue = gs })
  ]

abbrev pub is_empty : List ℕ → Bool
is_empty [] = true
is_empty (g ∷ gs) = false

unfoldable pub callback : (ℕ → ℕ) → Scheduler → Option Scheduler
callback rand_int s = do
  assert (leb s.scheduled_threads s.num_cores)
  woken ← wake_due s.sleep_queue (record s { cur_phase = add64 s.cur_phase 1 })
  if is_empty woken.run_queue || not (woken.cur_phase % woken.sched_quantum == 0)
      then some woken
      else sched_tick rand_int woken
