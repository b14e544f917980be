-- ===== src/Sched/Counters.antt =====
-- The counters of futex wakes and waits, which change no thread, and the futex of a thread.
use me_mo_tracer.Base.{
  ℕ, ◌≡◌, refl, ◌∙◌, ap, Bool, true, false, ◌||◌, Option, none, some, if◌then◌else◌, ◌>>◌, assert,
  sub32, arith,
}
use me_mo_tracer.Sched.{ThreadInfo, Scheduler, write_thread}
use me_mo_tracer.Sched.Links.{is_proper, IsValid}
use me_mo_tracer.Sched.Moves.{rewritten-IsLinked}
use me_mo_tracer.Base.{IfSome, ◌-◌, if-keep, leb}
use me_mo_tracer.Sched.{FutexJoinInfo}
use me_mo_tracer.Sched.Operations.{futex_wait_join, futex_wake_begin, futex_wake_over}

-- The thread is as it was, but for its futex.
pub record IsMatched (g : ℕ) (th : ThreadInfo) (t : Scheduler) : Type 0 where
  pub valid : IsValid t
  pub to : FutexJoinInfo
  pub info : t.threads g ≡ some (record th { futex_join = to })

-- The state but for the two counters.
pub record IsCounted (s t : Scheduler) : Type 0 where
  pub valid : IsValid t
  pub same_threads : t.threads ≡ s.threads

pub counted :
    (s : Scheduler) (a u : ℕ)
    → IsValid s
    → IsCounted s (record s { max_allowed_futex_wakeups = a; unmatched_futex_wakeups = u })
counted s a u v = record {
  valid = record {
    held = v.held;
    idle = v.idle;
    freed = v.freed;
    proper = v.proper;
    gone = v.gone;
    asleep = v.asleep;
    once = v.once;
    counted = v.counted;
    small = v.small;
    waiting = v.waiting;
    faked = v.faked;
    busy = v.busy;
  };
  same_threads = refl;
}

pub wait_join-IsCounted : (s : Scheduler) → IsValid s → IsCounted s (futex_wait_join s)
unfolding futex_wait_join
wait_join-IsCounted s v =
    if-keep (IsCounted s) (leb s.max_allowed_futex_wakeups s.unmatched_futex_wakeups)
      (record { valid = v; same_threads = refl }) (counted s s.max_allowed_futex_wakeups _ v)

pub past_one :
    (a : Bool) (o : Option Scheduler) (Good : Scheduler → Type 0)
    → IfSome o Good
    → IfSome (assert a >> o) Good
past_one true o Good h = h
past_one false o Good h = tt

pub wake_begin-IsCounted :
    (th : ThreadInfo) (s : Scheduler) → IsValid s → IfSome (futex_wake_begin th s) (IsCounted s)
unfolding futex_wake_begin
wake_begin-IsCounted th s v =
    let most = (th.futex_join).max_wakes in
    let woken = (th.futex_join).woken_up in
    let allowed = sub32 s.max_allowed_futex_wakeups (most - woken) in
    past_one (leb most s.max_allowed_futex_wakeups) _ (IsCounted s) (
      past_one (leb woken most) _ (IsCounted s) (
        past_one (leb s.unmatched_futex_wakeups allowed)
          (some (record s { max_allowed_futex_wakeups = allowed })) (IsCounted s)
          (counted s allowed s.unmatched_futex_wakeups v)))

pub wake_over-IsCounted :
    (late : Bool) (th : ThreadInfo) (s : Scheduler)
    → IsValid s
    → IfSome (futex_wake_over late th s) (IsCounted s)
unfolding futex_wake_over
wake_over-IsCounted late th s v =
    let woken = (th.futex_join).woken_up in
    let allowed = sub32 s.max_allowed_futex_wakeups woken in
    let u = if late then 0 else sub32 s.unmatched_futex_wakeups woken in
    past_one (late || leb woken s.unmatched_futex_wakeups)
      (some (record s { max_allowed_futex_wakeups = allowed; unmatched_futex_wakeups = u }))
      (IsCounted s) (counted s allowed u v)

pub told :
    (g : ℕ) (th : ThreadInfo) (to : FutexJoinInfo) (s t : Scheduler)
    → s.threads g ≡ some th
    → IsCounted s t
    → IsMatched g th (write_thread g (record th { futex_join = to }) t)
told g th to s t e k =
    let e1 : t.threads g ≡ some th = ap (λ f. f g) k.same_threads ∙ e in
    let pr : is_proper t.num_cores (some (record th { futex_join = to })) ≡ true =
      ground (arith, (k.valid).proper g, e1) in
    record {
      valid =
          rewritten-IsLinked none g th (record th { futex_join = to }) t e1 k.valid (ground arith)
            refl refl refl (λ q. q) pr;
      to = to;
      info = ground arith;
    }
