-- ===== src/Sched/Futexes.antt =====
-- `join` with the matching of futexes, which touches two counters and no thread but its own.
use me_mo_tracer.Base.{
  ℕ, ◌≡◌, refl, ◌∙◌, ap, Bool, true, false, not, ◌&&◌, ◌||◌, Option, ◌>>=◌, none, some,
  if◌then◌else◌, Returns, map_some, sub32, arith,
}
use me_mo_tracer.Sched.{ThreadInfo, Scheduler, write_thread}
use me_mo_tracer.Sched.Links.{state_is, in_play, IsValid}
use me_mo_tracer.Base.{IfSome, ◌-◌, IfSome-map, leb}
use me_mo_tracer.Sched.{FutexJoinAction, FutexJoinInfo, fja_none, fja_wait, fja_wake}
use me_mo_tracer.Sched.Operations.{
  futex_match, futex_wait_join, futex_wake_begin, futex_wake_over, join_begin, join_end,
  join_thread, join,
}
use me_mo_tracer.Sched.Joins.{may_join, join_thread-Ends}
use me_mo_tracer.Sched.Counters.{
  IsMatched, IsCounted, counted, wait_join-IsCounted, wake_begin-IsCounted, wake_over-IsCounted,
  told,
}

futex_match-IsMatched :
    (late : Bool) (g : ℕ) (th : ThreadInfo) (s : Scheduler)
    → IsValid s
    → s.threads g ≡ some th
    → IfSome (futex_match late g s) (IsMatched g th)
unfolding futex_match
futex_match-IsMatched late g th s v e =
    let done = record (th.futex_join) { action = fja_none } in
    rw (futex_match, e) (by_action (th.futex_join).action done)
  where
    by_action :
        (a : FutexJoinAction) (done : FutexJoinInfo)
        → IfSome
            (elim a [
              | fja_none ↦ some s
              | fja_wait ↦
                  some (write_thread g (record th { futex_join = done }) (futex_wait_join s))
              | fja_wake ↦
                  map_some
                    (write_thread g (record th { futex_join = done }))
                    (futex_wake_over late th s)
            ])
            (IsMatched g th)
    by_action fja_none done = record { valid = v; to = th.futex_join; info = e }
    by_action fja_wait done = told g th done s (futex_wait_join s) e (wait_join-IsCounted s v)
    by_action fja_wake done =
        IfSome-map _ (futex_wake_over late th s) (IsCounted s) (IsMatched g th)
          (wake_over-IsCounted late th s v) (λ t k. told g th done s t e k)

pub join_begin-IsCounted :
    (g : ℕ) (th : ThreadInfo) (s : Scheduler)
    → IsValid s
    → s.threads g ≡ some th
    → IfSome (join_begin g s) (IsCounted s)
unfolding join_begin
join_begin-IsCounted g th s v e = rw (join_begin, e) (by_action (th.futex_join).action)
  where
    by_action :
        (a : FutexJoinAction)
        → IfSome
            (elim a [ fja_none ↦ some s | fja_wait ↦ some s | fja_wake ↦ futex_wake_begin th s ])
            (IsCounted s)
    by_action fja_none = record { valid = v; same_threads = refl }
    by_action fja_wait = record { valid = v; same_threads = refl }
    by_action fja_wake = wake_begin-IsCounted th s v

-- The thread runs or is queued.
abbrev pub HasJoined : ℕ → Scheduler → Type 0
HasJoined g t = IsValid t × (state_is in_play (t.threads g) ≡ true)

pub join_end-HasJoined :
    (late : Bool) (g : ℕ) (th : ThreadInfo) (s : Scheduler)
    → IsValid s
    → s.threads g ≡ some th
    → may_join th ≡ true
    → IfSome (join_end late g s) (HasJoined g)
unfolding join_end
join_end-HasJoined late g th s v e j =
    bound (futex_match late g s) (futex_match-IsMatched late g th s v e)
  where
    bound :
        (o : Option Scheduler)
        → IfSome o (IsMatched g th)
        → IfSome (o >>= join_thread g) (HasJoined g)
    bound none k = tt
    bound (some m) k =
        let r = join_thread-Ends g (record th { futex_join = k.to }) m k.valid k.info j in
        rw (r.1) (r.2, r.3)

returned :
    (o : Option Scheduler) (P : Scheduler → Type 0)
    → Returns o P
    → (t : Scheduler) × (o ≡ some t) × P t
returned none P r = absurd r
returned (some t) P r = (t, refl, r)

abbrev wakes_others : FutexJoinAction → Bool
wakes_others fja_none = false
wakes_others fja_wait = false
wakes_others fja_wake = true

-- The wakes of the thread are within what is allowed, as `futexWakeJoin` asserts.
abbrev are_allowed : FutexJoinInfo → Scheduler → Bool
are_allowed info s =
    leb info.max_wakes s.max_allowed_futex_wakeups
    && leb info.woken_up info.max_wakes
    && leb s.unmatched_futex_wakeups
        (sub32 s.max_allowed_futex_wakeups (info.max_wakes - info.woken_up))

-- The wait of `futexWakeJoin` is over: the waits that it matches are there, or it is late.
abbrev are_found : Bool → FutexJoinInfo → Scheduler → Bool
are_found late info s = late || leb info.woken_up s.unmatched_futex_wakeups

abbrev are_awaited : Bool → FutexJoinAction → FutexJoinInfo → Scheduler → Bool
are_awaited late a info s = not (wakes_others a) || are_found late info s

-- What `join` needs of the futexes of a thread.
abbrev pub are_matched : Bool → ThreadInfo → Scheduler → Bool
are_matched late th s =
    not (wakes_others (th.futex_join).action)
    || (are_allowed th.futex_join s && are_found late th.futex_join s)

join_begin-Returns :
    (late : Bool) (g : ℕ) (th : ThreadInfo) (s : Scheduler)
    → IsValid s
    → s.threads g ≡ some th
    → are_matched late th s ≡ true
    → Returns
        (join_begin g s)
        (λ t. IsCounted s t × (are_awaited late (th.futex_join).action th.futex_join t ≡ true))
unfolding join_begin futex_wake_begin
join_begin-Returns late g th s v e ok = rw (join_begin, e) (by_action (th.futex_join).action ok)
  where
    by_action :
        (a : FutexJoinAction)
        → (not (wakes_others a) || (are_allowed th.futex_join s && are_found late th.futex_join s))
          ≡ true
        → Returns
            (elim a [ fja_none ↦ some s | fja_wait ↦ some s | fja_wake ↦ futex_wake_begin th s ])
            (λ t. IsCounted s t × (are_awaited late a th.futex_join t ≡ true))
    by_action fja_none h = (record { valid = v; same_threads = refl }, refl)
    by_action fja_wait h = (record { valid = v; same_threads = refl }, refl)
    by_action fja_wake h =
        let most = (th.futex_join).max_wakes in
        let woken = (th.futex_join).woken_up in
        let allowed = sub32 s.max_allowed_futex_wakeups (most - woken) in
        let a : leb most s.max_allowed_futex_wakeups ≡ true = ground (arith, h) in
        let b : leb woken most ≡ true = ground (arith, h) in
        let c : leb s.unmatched_futex_wakeups allowed ≡ true = ground (arith, h) in
        rw (futex_wake_begin, a, b, c)
          (counted s allowed s.unmatched_futex_wakeups v, ground (arith, h))

futex_match-Returns :
    (late : Bool) (g : ℕ) (th : ThreadInfo) (s : Scheduler)
    → IsValid s
    → s.threads g ≡ some th
    → are_awaited late (th.futex_join).action th.futex_join s ≡ true
    → Returns (futex_match late g s) (IsMatched g th)
unfolding futex_match futex_wake_over
futex_match-Returns late g th s v e ok =
    let done = record (th.futex_join) { action = fja_none } in
    rw (futex_match, e) (by_action (th.futex_join).action done ok)
  where
    by_action :
        (a : FutexJoinAction) (done : FutexJoinInfo)
        → are_awaited late a th.futex_join s ≡ true
        → Returns
            (elim a [
              | fja_none ↦ some s
              | fja_wait ↦
                  some (write_thread g (record th { futex_join = done }) (futex_wait_join s))
              | fja_wake ↦
                  map_some
                    (write_thread g (record th { futex_join = done }))
                    (futex_wake_over late th s)
            ])
            (IsMatched g th)
    by_action fja_none done h = record { valid = v; to = th.futex_join; info = e }
    by_action fja_wait done h = told g th done s (futex_wait_join s) e (wait_join-IsCounted s v)
    by_action fja_wake done h =
        let a : (late || leb (th.futex_join).woken_up s.unmatched_futex_wakeups) ≡ true = h in
        let woken = (th.futex_join).woken_up in
        let u = if late then 0 else sub32 s.unmatched_futex_wakeups woken in
        let less = sub32 s.max_allowed_futex_wakeups woken in
        rw (futex_wake_over, a)
          (told g th done s
            (record s { max_allowed_futex_wakeups = less; unmatched_futex_wakeups = u }) e
            (counted s less u v))

-- A thread joins in every valid state if it is in a system call or has left, and if its futex wakes,
-- when it made any, are within the allowance that `futexWakeJoin` asserts and find the waits that
-- they match or are late, with no other thread in between. No assertion fails, the invariant holds
-- afterwards, and the thread runs or is queued.
pub join-IsValid :
    (late : Bool) (g : ℕ) (th : ThreadInfo) (s : Scheduler)
    → IsValid s
    → s.threads g ≡ some th
    → may_join th ≡ true
    → are_matched late th s ≡ true
    → Returns (join late g s) (λ t. IsValid t × (state_is in_play (t.threads g) ≡ true))
unfolding join join_end
join-IsValid late g th s v e j ok =
    let b = returned (join_begin g s) _ (join_begin-Returns late g th s v e ok) in
    let e1 : (b.0).threads g ≡ some th = ap (λ f. f g) (b.2).0.same_threads ∙ e in
    let m =
      returned (futex_match late g (b.0)) _
        (futex_match-Returns late g th (b.0) (b.2).0.valid e1 (b.2).1) in
    let r =
      join_thread-Ends g (record th { futex_join = (m.2).to }) (m.0) (m.2).valid (m.2).info j in
    rw (join, b.1, join_end, m.1, r.1) (r.2, r.3)
