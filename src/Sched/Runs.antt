-- ===== src/Sched/Runs.antt =====
-- The runs of the scheduler: the steps of the threads, under the lock, in any order.
use me_mo_tracer.Base.{
  ℕ, ◌≡◌, subst, Bool, true, false, ◌&&◌, ◌||◌, Option, none, some, List, ltb, ◌==◌, Returns, arith,
}
use me_mo_tracer.Sched.{ThreadInfo, Scheduler, is_running, is_sleeping, is_null}
use me_mo_tracer.Sched.Operations.{leave, wakeup_key}
use me_mo_tracer.Sched.Links.{handoff_of, in_play, state_is, IsValid}
use me_mo_tracer.Base.{inl, inr, Bool-cases, ◌<◌, ◌^◌, length, any}
use me_mo_tracer.Sched.{is_blocked}
use me_mo_tracer.Sched.Signals.{
  init, init-IsValid, start-IsValid, mark_for_sleep-IsValid, notify_sleep_end-IsValid,
  syscall_leave-IsValid,
}
use me_mo_tracer.Sched.Operations.{
  start, mark_for_sleep, notify_sleep_end, syscall_leave, max_threads, join_begin, join_end, finish,
}
use me_mo_tracer.Sched.Leaves.{has_left, IsHolder, leave-IsValid}
use me_mo_tracer.Base.{IfSome, if-keep, arith, ◌==◌}
use me_mo_tracer.Sched.{points_to, bar_sync, bar_join, core_join, call}
use me_mo_tracer.Sched.Links.{call-IsLinked}
use me_mo_tracer.Sched.Phases.{sync}
use me_mo_tracer.Sched.Operations.{resume, futex_wake_start, futex_wake_end, futex_wait_woken}
use me_mo_tracer.Sched.Notices.{
  futex_wake_start-IsValid, futex_wake_end-IsValid, futex_wait_woken-IsValid,
}
use me_mo_tracer.Sched.Joins.{may_join}
use me_mo_tracer.Sched.Counters.{IsCounted}
use me_mo_tracer.Sched.Futexes.{HasJoined, join_begin-IsCounted, join_end-HasJoined}
use me_mo_tracer.Sched.Finishes.{may_finish, finish-IsValid}
use me_mo_tracer.Sched.Handover.{runs_at, IsPromised, after_sync-IsValid}
use me_mo_tracer.Sched.Phases.{after_sync, resume_sync, callback}
use me_mo_tracer.Sched.Wakes.{ordered}
use me_mo_tracer.Sched.Ticks.{IsKept}
use me_mo_tracer.Sched.Callbacks.{AllLater, IsOver, callback-IsKept}

-- The thread runs on its context, and nothing is put off.
abbrev pub runs_free : ThreadInfo → Bool
runs_free th = is_running th.state && is_null th.fake_leave

-- A step, with what its caller sees to.
infix 40 ◌⟶◌ ◌⟶*◌
pub data ◌⟶◌ : Scheduler → Scheduler → Type 0 where
  starts :
      {s t : Scheduler} (g : ℕ) (mask : List Bool)
      → ltb 0 s.num_cores ≡ true
      → s.threads g ≡ none
      → (length mask == s.num_cores) ≡ true
      → any mask ≡ true
      → start g mask s ≡ some t
      → s ⟶ t
  begins :
      {s t : Scheduler} (g : ℕ) (th : ThreadInfo)
      → s.threads g ≡ some th
      → join_begin g s ≡ some t
      → s ⟶ t
  joins :
      {s t : Scheduler} (late : Bool) (g : ℕ) (th : ThreadInfo)
      → s.threads g ≡ some th
      → may_join th ≡ true
      → join_end late g s ≡ some t
      → s ⟶ t
  leaves :
      {s t : Scheduler} (g : ℕ) (th : ThreadInfo)
      → s.threads g ≡ some th
      → runs_free th ≡ true
      → is_null th.handoff_thread ≡ true
      → leave g th.cid s ≡ some t
      → s ⟶ t
  calls :
      {s t : Scheduler} (pid g pc : ℕ) (th : ThreadInfo)
      → s.threads g ≡ some th
      → runs_free th ≡ true
      → is_null th.handoff_thread ≡ true
      → ltb pid max_threads ≡ true
      → syscall_leave pid g th.cid pc s ≡ some t
      → s ⟶ t
  marks :
      {s t : Scheduler} (g phase : ℕ) (th : ThreadInfo)
      → s.threads g ≡ some th
      → runs_free th ≡ true
      → th.marked_for_sleep ≡ false
      → mark_for_sleep g phase s ≡ some t
      → s ⟶ t
  syncs :
      {s t : Scheduler} (g : ℕ) (th : ThreadInfo)
      → s.threads g ≡ some th
      → runs_free th ≡ true
      → th.marked_for_sleep ≡ false
      → sync th.cid s ≡ some t
      → s ⟶ t
  resumes :
      {s t : Scheduler} (g : ℕ) (th : ThreadInfo)
      → s.threads g ≡ some th
      → (th.futex_word == 1) ≡ false
      → resume g s ≡ some t
      → s ⟶ t
  resumes_sync :
      {s t : Scheduler} (g : ℕ) (th : ThreadInfo)
      → s.threads g ≡ some th
      → (th.futex_word == 1) ≡ false
      → is_running th.state ≡ true
      → resume_sync g s ≡ some t
      → s ⟶ t
  wakes_start :
      {s t : Scheduler} (g max_wakes : ℕ) (th : ThreadInfo)
      → s.threads g ≡ some th
      → futex_wake_start g max_wakes s ≡ some t
      → s ⟶ t
  wakes_end :
      {s t : Scheduler} (g woken : ℕ) (th : ThreadInfo)
      → s.threads g ≡ some th
      → futex_wake_end g woken s ≡ some t
      → s ⟶ t
  waits_woken :
      {s t : Scheduler} (g : ℕ) (th : ThreadInfo)
      → s.threads g ≡ some th
      → futex_wait_woken g s ≡ some t
      → s ⟶ t
  rouses :
      {s t : Scheduler} (g : ℕ) (th : ThreadInfo)
      → s.threads g ≡ some th
      → (is_sleeping th.state || is_blocked th.state) ≡ true
      → notify_sleep_end g s ≡ some t
      → s ⟶ t
  hands :
      {s t : Scheduler} (g next : ℕ) (th nx : ThreadInfo)
      → s.threads g ≡ some th
      → runs_free th ≡ true
      → th.marked_for_sleep ≡ false
      → th.handoff_thread ≡ some next
      → IsPromised next nx s
      → after_sync g s ≡ some t
      → s ⟶ t
  ends :
      {s t : Scheduler} (rand_int : ℕ → ℕ)
      → ltb 0 s.num_cores ≡ true
      → ((g : ℕ) → handoff_of (s.threads g) ≡ none)
      → AllLater s
      → ordered (wakeup_key s) s.sleep_queue ≡ true
      → callback rand_int s ≡ some t
      → s ⟶ t
  finishes :
      {s t : Scheduler} (g : ℕ) (th : ThreadInfo)
      → s.threads g ≡ some th
      → may_finish g th s ≡ true
      → finish g s ≡ some t
      → s ⟶ t

pub data ◌⟶*◌ : Scheduler → Scheduler → Type 0 where
  here : {s : Scheduler} → s ⟶* s
  next_step : {s t u : Scheduler} → s ⟶ t → t ⟶* u → s ⟶* u

returned :
    (P : Scheduler → Type 0) (o : Option Scheduler) (t : Scheduler) → Returns o P → o ≡ some t → P t
returned P o t r e = subst (λ x. Returns x P) e r

free-IsHolder :
    (g : ℕ) (th : ThreadInfo) (s : Scheduler)
    → IsValid s
    → s.threads g ≡ some th
    → runs_free th ≡ true
    → IsHolder g th.cid th s × (is_null th.fake_leave ≡ true)
free-IsHolder g th s v e r = (
  record { valid = v; info = e; runs = ground (arith, r); place = ground arith },
  ground (arith, r),
)

no_promise : (s : Scheduler) → IsValid s → ((g : ℕ) → handoff_of (s.threads g) ≡ none) → IsKept s
no_promise s v n = record { valid = v; kept = λ g d p. absurd (ground (arith, p, n g)) }

-- A running thread may go to the barrier.
sync-IsValid :
    (g : ℕ) (th : ThreadInfo) (s : Scheduler)
    → IsValid s
    → s.threads g ≡ some th
    → runs_free th ≡ true
    → th.marked_for_sleep ≡ false
    → Returns (sync th.cid s) IsValid
unfolding sync
sync-IsValid g th s v e f m =
    let c = th.cid in
    let p : points_to (s.contexts c).cur_thread g ≡ true = ground (arith, v.held c g, e, f) in
    let cur : (s.contexts c).cur_thread ≡ some g = ground (arith, p) in
    rw (sync, cur, e, m) (call-IsLinked none (bar_sync c) s v)

-- A thread that was woken goes on.
resume-IsValid :
    (g : ℕ) (th : ThreadInfo) (s : Scheduler)
    → IsValid s
    → s.threads g ≡ some th
    → (th.futex_word == 1) ≡ false
    → Returns (resume g s) IsValid
unfolding resume
resume-IsValid g th s v e n =
    let c = th.cid in
    rw (resume, e, n)
      (if-keep IsValid th.needs_join
        (call-IsLinked none (bar_join c) (call (core_join c) s)
          (call-IsLinked none (core_join c) s v))
        v)

-- A thread that waited in the run queue at the end of `sync` goes on.
resume_sync-IsValid :
    (g : ℕ) (th : ThreadInfo) (s : Scheduler)
    → IsValid s
    → s.threads g ≡ some th
    → (th.futex_word == 1) ≡ false
    → is_running th.state ≡ true
    → Returns (resume_sync g s) IsValid
unfolding resume_sync resume
resume_sync-IsValid g th s v e n i = elim (Bool-cases th.needs_join) [
  | inl y ↦
      let c = th.cid in
      let joined = call-IsLinked none (core_join c) s v in
      rw (resume_sync, resume, e, n, y, e, i) (call-IsLinked none (bar_join c) _ joined)
  | inr m ↦ rw (resume_sync, resume, e, n, m, e, i) v
]

step-IsValid : {s t : Scheduler} → s ⟶ t → IsValid s → IsValid t
step-IsValid {s} {t} (starts g mask l e len m r) v =
    returned IsValid _ t (start-IsValid g mask s v l e len m) r
step-IsValid {s} {t} (begins g th e r) v =
    (subst (λ x. IfSome x (IsCounted s)) r (join_begin-IsCounted g th s v e)).valid
step-IsValid {s} {t} (joins late g th e j r) v =
    (subst (λ x. IfSome x (HasJoined g)) r (join_end-HasJoined late g th s v e j)).0
step-IsValid {s} {t} (leaves g th e f h r) v =
    let k = free-IsHolder g th s v e f in
    (returned (λ x. IsValid x × (state_is has_left (x.threads g) ≡ true)) _ t
      (leave-IsValid g th.cid th s k.0 k.1 h) r).0
step-IsValid {s} {t} (calls pid g pc th e f h b r) v =
    let k = free-IsHolder g th s v e f in
    returned IsValid _ t (syscall_leave-IsValid pid g th.cid pc th s k.0 k.1 h b) r
step-IsValid {s} {t} (marks g phase th e f m r) v =
    let k = free-IsHolder g th s v e f in
    returned IsValid _ t (mark_for_sleep-IsValid g phase th s v e (k.0).runs k.1 m) r
step-IsValid {s} {t} (syncs g th e f m r) v = returned IsValid _ t (sync-IsValid g th s v e f m) r
step-IsValid {s} {t} (resumes g th e n r) v = returned IsValid _ t (resume-IsValid g th s v e n) r
step-IsValid {s} {t} (resumes_sync g th e n i r) v =
    returned IsValid _ t (resume_sync-IsValid g th s v e n i) r
step-IsValid {s} {t} (wakes_start g max_wakes th e r) v =
    subst (λ x. IfSome x IsValid) r (futex_wake_start-IsValid g max_wakes th s v e)
step-IsValid {s} {t} (wakes_end g woken th e r) v =
    returned IsValid _ t (futex_wake_end-IsValid g woken th s v e) r
step-IsValid {s} {t} (waits_woken g th e r) v =
    returned IsValid _ t (futex_wait_woken-IsValid g th s v e) r
step-IsValid {s} {t} (rouses g th e o r) v =
    returned IsValid _ t (notify_sleep_end-IsValid g th s v e o) r
step-IsValid {s} {t} (hands g next th nx e f m h p r) v =
    let k = free-IsHolder g th s v e f in
    (returned
      (λ x.
        IsValid x
        × (x.threads next ≡ some (runs_at th.cid nx))
        × (handoff_of (x.threads g) ≡ none)
        × (state_is in_play (x.threads g) ≡ true))
      _ t (after_sync-IsValid g next th nx s k.0 h p m k.1) r).0
step-IsValid {s} {t} (ends rand_int l n on o r) v =
    (returned (IsOver s) _ t (callback-IsKept rand_int s (no_promise s v n) l on o) r).kept.valid
step-IsValid {s} {t} (finishes g th e f r) v =
    (returned (λ x. IsValid x × (x.threads g ≡ none)) _ t (finish-IsValid g th s v e f) r).0

run-IsValid : {s t : Scheduler} → s ⟶* t → IsValid s → IsValid t
run-IsValid here v = v
run-IsValid (next_step p q) v = run-IsValid q (step-IsValid p v)

-- With fewer than 2 ^ 32 cores, in every state that the threads can reach from the start by steps of
-- `◌⟶◌`, threads and contexts point to each other, the queues and the free list hold what the states
-- say, the count of scheduled threads is right, and no thread of the run queue may run on a context
-- that is free or kept by a thread that is out. The steps take these conditions: a thread is started
-- under a new gid, with a mask of one place per core that allows some core; it runs, has no system
-- call put off and has promised its context to nobody when it leaves or enters a system call, which
-- a process of the range makes; it is not marked for sleep yet when it is marked, nor at the
-- barrier; it may join or finish as `may_join` and `may_finish` say; it goes on after a wait once
-- its futex is released, and is roused while it sleeps or is blocked; a promise that is taken up is
-- to a thread that waits off the run queue; and at the end of a phase no promise is pending, the
-- sleep queue is in order, the sleepers are due later, and the counter of phases does not wrap.
pub reachable-IsValid :
    (n quantum : ℕ) (t : Scheduler) → n < 2 ^ 32 → init n quantum ⟶* t → IsValid t
reachable-IsValid n quantum t l r = run-IsValid r (init-IsValid n quantum l)
