-- ===== src/Sched/Notices.antt =====
-- The notices of futex wakes and waits, which touch the thread's own record and one counter.
use me_mo_tracer.Base.{ℕ, ◌≡◌, true, false, some, Returns}
use me_mo_tracer.Sched.{ThreadInfo, Scheduler, write_thread}
use me_mo_tracer.Sched.Links.{IsValid}
use me_mo_tracer.Base.{IfSome}
use me_mo_tracer.Sched.{FutexJoinInfo, fja_none, fja_wait, fja_wake}
use me_mo_tracer.Base.{min, add32, ◌^◌}
use me_mo_tracer.Sched.Operations.{futex_wake_start, futex_wake_end, futex_wait_woken}
use me_mo_tracer.Sched.Counters.{IsCounted, counted, past_one, told}

-- The notices of a futex touch the thread's own record and one counter.
noted-IsValid :
    (g : ℕ) (th : ThreadInfo) (to : FutexJoinInfo) (s t : Scheduler)
    → s.threads g ≡ some th
    → IsCounted s t
    → IsValid (write_thread g (record th { futex_join = to }) t)
noted-IsValid g th to s t e k = (told g th to s t e k).valid

pub futex_wake_start-IsValid :
    (g max_wakes : ℕ) (th : ThreadInfo) (s : Scheduler)
    → IsValid s
    → s.threads g ≡ some th
    → IfSome (futex_wake_start g max_wakes s) IsValid
unfolding futex_wake_start
futex_wake_start-IsValid g max_wakes th s v e =
    let most = min max_wakes (2 ^ 24) in
    let to = record (th.futex_join) { max_wakes = most } in
    let all = add32 s.max_allowed_futex_wakeups most in
    let more = counted s all s.unmatched_futex_wakeups v in
    rw (futex_wake_start, e)
      (past_one (elim (th.futex_join).action [ fja_none ↦ true | _ ↦ false ])
        (some (
          write_thread g (record th { futex_join = to })
            (record s { max_allowed_futex_wakeups = all })))
        IsValid (noted-IsValid g th to s (record s { max_allowed_futex_wakeups = all }) e more))

pub futex_wake_end-IsValid :
    (g woken : ℕ) (th : ThreadInfo) (s : Scheduler)
    → IsValid s
    → s.threads g ≡ some th
    → Returns (futex_wake_end g woken s) IsValid
unfolding futex_wake_end
futex_wake_end-IsValid g woken th s v e =
    let self = counted s s.max_allowed_futex_wakeups s.unmatched_futex_wakeups v in
    rw (futex_wake_end, e)
      (noted-IsValid g th (record (th.futex_join) { action = fja_wake; woken_up = woken }) s s e
        self)

pub futex_wait_woken-IsValid :
    (g : ℕ) (th : ThreadInfo) (s : Scheduler)
    → IsValid s
    → s.threads g ≡ some th
    → Returns (futex_wait_woken g s) IsValid
unfolding futex_wait_woken
futex_wait_woken-IsValid g th s v e =
    let self = counted s s.max_allowed_futex_wakeups s.unmatched_futex_wakeups v in
    rw (futex_wait_woken, e)
      (noted-IsValid g th (record { action = fja_wait; max_wakes = 0; woken_up = 0 }) s s e self)
