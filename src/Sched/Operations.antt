-- ===== src/Sched/Operations.antt =====
-- The operations of threads of src/scheduler.h and src/scheduler.cpp. Where a call releases the lock
-- to wait, the part after the wait is a step of its own, or its outcome is an argument.
use me_mo_tracer.Base.{
  ℕ, ◌-◌, ◌^◌, Bool, true, false, not, ◌&&◌, ◌||◌, List, [], ◌∷◌, ◌++◌, Option, none, some,
  if◌then◌else◌, ltb, leb, min, ◌==◌, add32, sub32, length, any, ◌>>=◌, ◌>>◌, assert, map_some,
}
use me_mo_tracer.Sched.{
  started, running, out, blocked, sleeping, queued, fja_none, fja_wake, fja_wait, ThreadInfo,
  Scheduler, core_join, core_leave, bar_join, bar_leave, futex_wake, is_started, is_running, is_out,
  is_blocked, is_sleeping, is_queued, is_null, put, write_thread, call, schedule, deschedule,
}
use me_mo_tracer.Sched.Queues.{mem, remove, insert_sleeper}
use me_mo_tracer.Sched.Policy.{sched_thread, sched_context}

-- `owner` of the node is null.
abbrev pub unowned : ℕ → Scheduler → Bool
unowned g s = not (mem g s.run_queue) && not (mem g s.out_queue) && not (mem g s.sleep_queue)

unfoldable pub push_free : ℕ → Scheduler → Option Scheduler
push_free c s =
    assert (not (mem c s.free_list)) >> some (record s { free_list = s.free_list ++ (c ∷ []) })

unfoldable pub push_out : ℕ → Scheduler → Option Scheduler
push_out g s = assert (unowned g s) >> some (record s { out_queue = s.out_queue ++ (g ∷ []) })

abbrev pub wakeup_key : Scheduler → ℕ → ℕ
wakeup_key s g = elim (s.threads g) [ none ↦ 0 | some th ↦ th.wakeup_phase ]

unfoldable pub push_sleeper : ℕ → Scheduler → Option Scheduler
push_sleeper g s =
    assert (unowned g s)
    >> some (record s { sleep_queue = insert_sleeper (wakeup_key s) g s.sleep_queue })

-- The thread enters the run queue, and `waitForContext` up to its wait.
unfoldable pub queue_up : ℕ → Scheduler → Option Scheduler
queue_up g s = do
  th ← s.threads g
  assert (unowned g s)
  let waiting = write_thread g (record th { futex_word = 1 }) s
  some (record waiting { run_queue = s.run_queue ++ (g ∷ []) })

-- `waitForContext` after its wait.
unfoldable pub resume : ℕ → Scheduler → Option Scheduler
resume g s = do
  th ← s.threads g
  assert (not (th.futex_word == 1))
  some (if th.needs_join then call (bar_join th.cid) (call (core_join th.cid) s) else s)

unfoldable pub wakeup : ℕ → Bool → Scheduler → Option Scheduler
wakeup g needs_join s = do
  th ← s.threads g
  assert (th.futex_word == 1)
  some (
      call (futex_wake g)
        (write_thread g (record th { needs_join = needs_join; futex_word = 0 }) s))

unfoldable pub start : ℕ → List Bool → Scheduler → Option Scheduler
start g mask s = elim (s.threads g) [
  | some th ↦ none
  | none ↦ do
    assert (length mask == s.num_cores)
    assert (any mask)
    some (
        write_thread g
          (record {
            state = started;
            cid = 0;
            handoff_thread = none;
            futex_word = 0;
            needs_join = false;
            marked_for_sleep = false;
            wakeup_phase = 0;
            mask = mask;
            fake_leave = none;
            futex_join = record { action = fja_none; max_wakes = 0; woken_up = 0 };
          })
          s)
]

-- A thread from the run queue gets the context of one that goes.
unfoldable pub bring_in : ℕ → ℕ → Scheduler → Option Scheduler
bring_in g c s = do placed ← schedule g c s; wakeup g false (call (core_join c) placed)

-- `leave` of a thread that is marked for sleep.
unfoldable pub leave_asleep : ℕ → ℕ → ThreadInfo → Scheduler → Option Scheduler
leave_asleep g c th s = do
  gone ← deschedule g c sleeping (write_thread g (record th { marked_for_sleep = false }) s)
  abed ← push_sleeper g gone
  found ← sched_context c abed
  elim (found.0) [
    | some next ↦ bring_in next c found.1
    | none ↦ map_some (call (bar_leave c)) (push_free c found.1)
  ]

-- `leave` of another thread: it keeps its context if no thread wants it.
unfoldable pub leave_out : ℕ → ℕ → ThreadInfo → Scheduler → Option Scheduler
leave_out g c th s = do
  found ← sched_context c s
  elim (found.0) [
    | some next ↦ do gone ← deschedule g c blocked found.1; bring_in next c gone
    | none ↦
        map_some (call (bar_leave c))
          (push_out g (write_thread g (record th { state = out }) found.1))
  ]

unfoldable pub leave : ℕ → ℕ → Scheduler → Option Scheduler
leave g c s = do
  holder ← (s.contexts c).cur_thread
  th ← s.threads holder
  assert (holder == g)
  assert (is_running th.state)
  if th.marked_for_sleep
      then leave_asleep holder c th (call (core_leave c) s)
      else leave_out holder c th (call (core_leave c) s)

unfoldable pub finish_fake_leave : ℕ → Scheduler → Option Scheduler
finish_fake_leave g s = do
  th ← s.threads g
  assert (not (is_null th.fake_leave))
  assert (is_running th.state)
  rest ← remove g s.fake_leaves
  some (record (write_thread g (record th { fake_leave = none }) s) { fake_leaves = rest })

abbrev pub max_threads : ℕ
max_threads = 2048

unfoldable pub syscall_leave : ℕ → ℕ → ℕ → ℕ → Scheduler → Option Scheduler
syscall_leave pid g c pc s = do
  holder ← (s.contexts c).cur_thread
  th ← s.threads holder
  assert (holder == g)
  assert (th.cid == c)
  assert (is_running th.state)
  assert (ltb pid max_threads)
  if s.blocking_syscalls pid pc || th.marked_for_sleep then leave g c s else do
    assert (is_null th.fake_leave && not (mem g s.fake_leaves))
    some (record (write_thread g (record th { fake_leave = some pc }) s) {
      fake_leaves = s.fake_leaves ++ (g ∷ []);
    })

unfoldable pub mark_for_sleep : ℕ → ℕ → Scheduler → Option Scheduler
mark_for_sleep g phase s = do
  th ← s.threads g
  assert (not th.marked_for_sleep)
  some (
      write_thread g (record th { marked_for_sleep = true; wakeup_phase = phase; futex_word = 1 })
        s)

-- A sleeper leaves the sleep queue.
unfoldable pub rouse : ℕ → Scheduler → Option Scheduler
rouse g s = do
  th ← s.threads g
  rest ← remove g s.sleep_queue
  some (record (write_thread g (record th { state = blocked }) s) { sleep_queue = rest })

unfoldable pub notify_sleep_end : ℕ → Scheduler → Option Scheduler
notify_sleep_end g s = do
  th ← s.threads g
  assert (not th.marked_for_sleep)
  assert (is_sleeping th.state || is_blocked th.state)
  if is_blocked th.state then some s else rouse g s

unfoldable pub futex_wake_start : ℕ → ℕ → Scheduler → Option Scheduler
futex_wake_start g max_wakes s = do
  th ← s.threads g
  assert (elim th.futex_join.action [ fja_none ↦ true | _ ↦ false ])
  let most = min max_wakes (2 ^ 24)
  let told =
      write_thread g (record th { futex_join = record (th.futex_join) { max_wakes = most } }) s
  some (record told { max_allowed_futex_wakeups = add32 s.max_allowed_futex_wakeups most })

unfoldable pub futex_wake_end : ℕ → ℕ → Scheduler → Option Scheduler
futex_wake_end g woken_up s = do
  th ← s.threads g
  some (
      write_thread g
        (record th {
          futex_join = record (th.futex_join) { action = fja_wake; woken_up = woken_up };
        })
        s)

unfoldable pub futex_wait_woken : ℕ → Scheduler → Option Scheduler
futex_wait_woken g s = do
  th ← s.threads g
  some (
      write_thread g
        (record th { futex_join = record { action = fja_wait; max_wakes = 0; woken_up = 0 } }) s)

-- `late` says that the wait for the woken threads ran into its time limit. If not, it ends when
-- enough of them have come.
-- `futexWakeJoin` before it gives up the lock.
unfoldable pub futex_wake_begin : ThreadInfo → Scheduler → Option Scheduler
futex_wake_begin th s = do
  let most = th.futex_join.max_wakes
  let woken = th.futex_join.woken_up
  assert (leb most s.max_allowed_futex_wakeups)
  assert (leb woken most)
  let allowed = sub32 s.max_allowed_futex_wakeups (most - woken)
  assert (leb s.unmatched_futex_wakeups allowed)
  some (record s { max_allowed_futex_wakeups = allowed })

-- The rest of it, with the lock again: the wait is over when there are enough wakes, or it is late.
unfoldable pub futex_wake_over : Bool → ThreadInfo → Scheduler → Option Scheduler
futex_wake_over late th s = do
  let woken = th.futex_join.woken_up
  assert (late || leb woken s.unmatched_futex_wakeups)
  some (record s {
    max_allowed_futex_wakeups = sub32 s.max_allowed_futex_wakeups woken;
    unmatched_futex_wakeups = if late then 0 else sub32 s.unmatched_futex_wakeups woken;
  })

unfoldable pub futex_wait_join : Scheduler → Scheduler
futex_wait_join s =
    if leb s.max_allowed_futex_wakeups s.unmatched_futex_wakeups
    then s
    else record s { unmatched_futex_wakeups = add32 s.unmatched_futex_wakeups 1 }

-- `join` up to where `futexWakeJoin` gives up the lock.
unfoldable pub join_begin : ℕ → Scheduler → Option Scheduler
join_begin g s = do
  th ← s.threads g
  elim th.futex_join.action [
    | fja_none ↦ some s
    | fja_wait ↦ some s
    | fja_wake ↦ futex_wake_begin th s
  ]

-- The matching of futex wakes and waits, once the lock is held for good.
unfoldable pub futex_match : Bool → ℕ → Scheduler → Option Scheduler
futex_match late g s = do
  th ← s.threads g
  let done = record th { futex_join = record (th.futex_join) { action = fja_none } }
  elim th.futex_join.action [
    | fja_none ↦ some s
    | fja_wait ↦ some (write_thread g done (futex_wait_join s))
    | fja_wake ↦ map_some (write_thread g done) (futex_wake_over late th s)
  ]

-- `join` of a thread without a context: it takes one, or waits in the run queue.
unfoldable pub enter : ℕ → Scheduler → Option Scheduler
enter g s = do
  th ← s.threads g
  assert (is_blocked th.state || is_started th.state)
  found ← sched_thread g s
  elim (found.0) [
    | some c ↦ do
      placed ← schedule g c found.1
      some (call (bar_join c) (call (core_join c) placed))
    | none ↦ queue_up g (write_thread g (record th { state = queued }) found.1)
  ]

-- `join` of a thread that is out: it still has its context.
unfoldable pub come_back : ℕ → Scheduler → Option Scheduler
come_back g s = do
  th ← s.threads g
  rest ← remove g s.out_queue
  let back = record (write_thread g (record th { state = running }) s) { out_queue = rest }
  some (call (bar_join th.cid) (call (core_join th.cid) back))

-- The rest of `join`, after the futexes.
unfoldable pub join_thread : ℕ → Scheduler → Option Scheduler
join_thread g s = do
  th ← s.threads g
  if not (is_null th.fake_leave) then finish_fake_leave g s else do
    assert (not th.marked_for_sleep)
    if is_out th.state
        then come_back g s
        else do roused ← if is_sleeping th.state then rouse g s else some s; enter g roused

-- `join` from where the lock is held for good.
unfoldable pub join_end : Bool → ℕ → Scheduler → Option Scheduler
join_end late g s = do matched ← futex_match late g s; join_thread g matched

-- `join` when no other thread takes the lock in between.
unfoldable pub join : Bool → ℕ → Scheduler → Option Scheduler
join late g s = do begun ← join_begin g s; join_end late g begun

-- The calls of `leave` in `finish`, for a system call and for a thread that still runs.
unfoldable pub stop : ℕ → Scheduler → Option Scheduler
stop g s = do
  th ← s.threads g
  left ←
      if not (is_null th.fake_leave)
      then (do ended ← finish_fake_leave g s; leave g th.cid ended)
      else some s
  now ← left.threads g
  if is_running now.state then leave g now.cid left else some left

-- A thread that finishes leaves the queue that owns it.
unfoldable pub disown : ℕ → Scheduler → Option Scheduler
disown g s = do
  th ← s.threads g
  assert (is_started th.state || is_out th.state || is_blocked th.state || is_queued th.state)
  if is_queued th.state
      then map_some (λ rest. record s { run_queue = rest }) (remove g s.run_queue)
      else if unowned g s
      then some s
      else do
        rest ← remove g s.out_queue
        gone ← deschedule g th.cid blocked (record s { out_queue = rest })
        push_free th.cid gone

-- The thread is deleted at the end, where the source takes it out of `gidMap` first.
unfoldable pub finish : ℕ → Scheduler → Option Scheduler
finish g s = do
  stopped ← stop g s
  gone ← disown g stopped
  some (record gone { threads = put g none gone.threads })
