-- ===== src/Sched.antt =====
-- `Scheduler` of src/scheduler.h and src/scheduler.cpp: its threads and contexts, and the changes of
-- one of each. Callers hold `schedLock`. A thread is named by its gid and a context by its cid, in
-- place of the pointers.
pub mod Queues
pub mod Policy
pub mod Operations
pub mod Phases
pub mod Links
pub mod Moves
pub mod Places
pub mod Seats
pub mod Leaves
pub mod Joins
pub mod Counters
pub mod Futexes
pub mod Notices
pub mod Handover
pub mod Finishes
pub mod Signals
pub mod Wakes
pub mod Ticks
pub mod Callbacks
pub mod Runs
use me_mo_tracer.Base.{
  ℕ, ◌+◌, Bool, true, false, not, ◌&&◌, ◌||◌, List, [], ◌∷◌, Option, none, some, if◌then◌else◌, ltb,
  ◌==◌, add32, sub32, get_or, ◌>>=◌, ◌>>◌, assert,
}

pub data ThreadState : Type 0 where
  started running out blocked sleeping queued : ThreadState

pub data ContextState : Type 0 where
  idle used : ContextState

pub data FutexJoinAction : Type 0 where
  fja_none fja_wake fja_wait : FutexJoinAction

pub record FutexJoinInfo : Type 0 where
  pub action : FutexJoinAction
  pub max_wakes : ℕ
  pub woken_up : ℕ

-- `fake_leave` is the program counter of a system call whose `leave` is put off.
pub record ThreadInfo : Type 0 where
  pub state : ThreadState
  pub cid : ℕ
  pub handoff_thread : Option ℕ
  pub futex_word : ℕ
  pub needs_join : Bool
  pub marked_for_sleep : Bool
  pub wakeup_phase : ℕ
  pub mask : List Bool
  pub fake_leave : Option ℕ
  pub futex_join : FutexJoinInfo

pub record ContextInfo : Type 0 where
  pub state : ContextState
  pub cur_thread : Option ℕ

-- What the scheduler asks of the cores, the barrier and the kernel.
pub data Call : Type 0 where
  core_join core_leave bar_join bar_leave bar_sync : ℕ → Call
  context_switch : ℕ → Option ℕ → Call
  futex_wake : ℕ → Call

-- `calls` has the last call first.
pub record Scheduler : Type 0 where
  pub num_cores : ℕ
  pub sched_quantum : ℕ
  pub threads : ℕ → Option ThreadInfo
  pub contexts : ℕ → ContextInfo
  pub free_list : List ℕ
  pub run_queue : List ℕ
  pub out_queue : List ℕ
  pub sleep_queue : List ℕ
  pub fake_leaves : List ℕ
  pub blocking_syscalls : ℕ → ℕ → Bool
  pub cur_phase : ℕ
  pub scheduled_threads : ℕ
  pub max_allowed_futex_wakeups : ℕ
  pub unmatched_futex_wakeups : ℕ
  pub calls : List Call

abbrev pub is_started : ThreadState → Bool
is_started started = true
is_started _ = false

abbrev pub is_running : ThreadState → Bool
is_running running = true
is_running _ = false

abbrev pub is_out : ThreadState → Bool
is_out out = true
is_out _ = false

abbrev pub is_blocked : ThreadState → Bool
is_blocked blocked = true
is_blocked _ = false

abbrev pub is_sleeping : ThreadState → Bool
is_sleeping sleeping = true
is_sleeping _ = false

abbrev pub is_queued : ThreadState → Bool
is_queued queued = true
is_queued _ = false

abbrev pub is_idle : ContextState → Bool
is_idle idle = true
is_idle used = false

-- The thread has a context, running or not.
abbrev pub on_context : ThreadState → Bool
on_context running = true
on_context out = true
on_context _ = false

-- The states that `schedule` and `deschedule` assert.
abbrev pub can_start : ThreadState → Bool
can_start started = true
can_start blocked = true
can_start queued = true
can_start _ = false

abbrev pub is_target : ThreadState → Bool
is_target blocked = true
is_target queued = true
is_target sleeping = true
is_target _ = false

abbrev pub points_to : Option ℕ → ℕ → Bool
points_to none g = false
points_to (some h) g = h == g

abbrev pub is_null : Option ℕ → Bool
is_null none = true
is_null (some g) = false

-- A write into a table.
abbrev pub put {ℓ} : {A : Type ℓ} → ℕ → A → (ℕ → A) → ℕ → A
put k v table i = if i == k then v else table i

abbrev pub write_thread : ℕ → ThreadInfo → Scheduler → Scheduler
write_thread g th s = record s { threads = put g (some th) s.threads }

abbrev pub call : Call → Scheduler → Scheduler
call c s = record s { calls = c ∷ s.calls }

abbrev pub allows : ThreadInfo → ℕ → Bool
allows th c = get_or th.mask c false

abbrev pub idle_context : ContextInfo
idle_context = record { state = idle; cur_thread = none }

unfoldable pub schedule : ℕ → ℕ → Scheduler → Option Scheduler
schedule g c s = do
  th ← s.threads g
  assert (can_start th.state)
  assert (is_idle (s.contexts c).state)
  assert (is_null (s.contexts c).cur_thread)
  let placed = write_thread g (record th { state = running; cid = c }) s
  some (
      call (context_switch c (some g)) (record placed {
        contexts = put c (record { state = used; cur_thread = some g }) s.contexts;
        scheduled_threads = add32 s.scheduled_threads 1;
      }))

unfoldable pub deschedule : ℕ → ℕ → ThreadState → Scheduler → Option Scheduler
deschedule g c target s = do
  th ← s.threads g
  assert (on_context th.state)
  assert (not (is_idle (s.contexts c).state))
  assert (c == th.cid)
  assert (points_to (s.contexts c).cur_thread g)
  assert (is_target target)
  let moved = write_thread g (record th { state = target }) s
  some (
      call (context_switch c none) (record moved {
        contexts = put c idle_context s.contexts;
        scheduled_threads = sub32 s.scheduled_threads 1;
      }))
