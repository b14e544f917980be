-- ===== src/Sched/Seats.antt =====
-- What gives a context to a thread, or back to the free list, with the invariant.
use me_mo_tracer.Base.{
  ℕ, ◌≡◌, refl, ◌∙◌, ap, Bool, true, false, ◌||◌, Option, none, some, [], ◌∷◌, ◌++◌, ltb, ◌==◌, inl,
  inr, Bool-cases, arith,
}
use me_mo_tracer.Sched.{
  running, futex_wake, core_join, ThreadInfo, Scheduler, is_running, is_out, is_sleeping, is_queued,
  can_start, is_null, write_thread, call, schedule,
}
use me_mo_tracer.Sched.Queues.{mem, mem-push}
use me_mo_tracer.Sched.Operations.{wakeup, bring_in, push_free, unowned}
use me_mo_tracer.Sched.Links.{state_is, waits, is_proper, IsLinked, IsValid, call-IsLinked}
use me_mo_tracer.Sched.Moves.{placed, schedule-placed, placed-IsLinked, rewritten-IsLinked}
use me_mo_tracer.Sched.Places.{IsFreed, Unwanted}

pub wakeup-some :
    (g : ℕ) (needs_join : Bool) (th : ThreadInfo) (s : Scheduler)
    → s.threads g ≡ some th
    → (th.futex_word == 1) ≡ true
    → wakeup g needs_join s
      ≡ some (
          call
            (futex_wake g)
            (write_thread g (record th { needs_join = needs_join; futex_word = 0 }) s))
unfolding wakeup
wakeup-some g needs_join th s e f = rw (wakeup, e, f) refl

-- A thread got the context, and the others are as they were.
pub record IsPlaced (g : ℕ) (s t : Scheduler) : Type 0 where
  pub valid : IsValid t
  pub others : (h : ℕ) → (h == g) ≡ false → t.threads h ≡ s.threads h
  pub same_queue : t.run_queue ≡ s.run_queue
  pub runs : state_is is_running (t.threads g) ≡ true

-- A thread that waits can be placed on a context that is free.
pub seated_next :
    (g c : ℕ) (th : ThreadInfo) (s : Scheduler)
    → IsFreed c s
    → s.threads g ≡ some th
    → waits (some th) ≡ true
    → mem g s.run_queue ≡ false
    → (schedule g c s ≡ some (placed g c th s)) × IsValid (placed g c th s)
seated_next g c th s f e w m =
    let st : can_start th.state ≡ true = ground (arith, w) in
    let nul : is_null (s.contexts c).cur_thread ≡ true =
      ground (arith, (f.linked).idle c, f.idle) in
    (
      schedule-placed g c th s e st f.idle nul,
      placed-IsLinked g c th s e f.linked st m f.idle f.in_range,
    )

-- The thread was just placed, and is woken.
pub woken-IsPlaced :
    (g c : ℕ) (th : ThreadInfo) (s after : Scheduler)
    → IsValid after
    → waits (some th) ≡ true
    → ltb c s.num_cores ≡ true
    → is_proper s.num_cores (some th) ≡ true
    → after.threads ≡ (placed g c th s).threads
    → after.run_queue ≡ s.run_queue
    → after.num_cores ≡ s.num_cores
    → (t : Scheduler) × (wakeup g false after ≡ some t)
      × IsPlaced g s t
      × (t.threads g
          ≡ some (record th { state = running; cid = c; needs_join = false; futex_word = 0 }))
woken-IsPlaced g c th s after ok w lt pr same queue cores =
    let here = record th { state = running; cid = c } in
    let awake = record here { needs_join = false; futex_word = 0 } in
    let own : after.threads g ≡ some here = ap (λ f. f g) same ∙ ground arith in
    let fw : (th.futex_word == 1) ≡ true = ground (arith, w) in
    let pr1 : is_proper after.num_cores (some awake) ≡ true = ground (arith, pr, lt, w, cores) in
    (
      call (futex_wake g) (write_thread g awake after),
      wakeup-some g false here after own fw,
      record {
        valid =
            call-IsLinked none (futex_wake g) (write_thread g awake after)
              (rewritten-IsLinked none g here awake after own ok refl refl refl refl (λ q. q) pr1);
        others = λ h n.
            let old : after.threads h ≡ s.threads h = ap (λ f. f h) same ∙ ground (arith, n) in
            ground (arith, n, old);
        same_queue = queue;
        runs = ground arith;
      },
      ground arith,
    )

pub bring_in-IsPlaced :
    (g c : ℕ) (th : ThreadInfo) (s : Scheduler)
    → IsFreed c s
    → s.threads g ≡ some th
    → waits (some th) ≡ true
    → mem g s.run_queue ≡ false
    → (t : Scheduler) × (bring_in g c s ≡ some t) × IsPlaced g s t
unfolding bring_in
bring_in-IsPlaced g c th s f e w m =
    let r = seated_next g c th s f e w m in
    let q =
      woken-IsPlaced g c th s (call (core_join c) (placed g c th s))
        (call-IsLinked none (core_join c) (placed g c th s) r.1) w f.in_range
        (ground (arith, (f.linked).proper g, e)) refl refl refl in
    (q.0, rw (bring_in, r.0) (q.1), q.2)

pub freed_again :
    (c : ℕ) (s : Scheduler)
    → IsFreed c s
    → Unwanted c s
    → (t : Scheduler) × (push_free c s ≡ some t) × IsValid t × (t.threads ≡ s.threads)
unfolding push_free
freed_again c s f u =
    let v = f.linked in
    let m : mem c s.free_list ≡ false = ground (arith, v.freed c) in
    (
      record s { free_list = s.free_list ++ (c ∷ []) },
      rw (push_free, m) refl,
      record {
        held = v.held;
        idle = v.idle;
        freed = λ d. ground (arith, v.freed d, mem-push d c s.free_list, f.idle, f.in_range);
        proper = v.proper;
        gone = v.gone;
        asleep = v.asleep;
        once = v.once;
        counted = v.counted;
        small = v.small;
        waiting = v.waiting;
        faked = v.faked;
        busy = λ h d q a l. ground (arith, v.busy h d q a l, u h q, a);
      },
      refl,
    )

-- The operation ends well.
abbrev pub Ends : Option Scheduler → Type 0
Ends m = (t : Scheduler) × (m ≡ some t) × IsValid t

pub owned_none :
    (p : Option ℕ) (g : ℕ) (th : ThreadInfo) (s : Scheduler)
    → IsLinked p s
    → s.threads g ≡ some th
    → (is_queued th.state || is_out th.state || is_sleeping th.state) ≡ false
    → unowned g s ≡ true
owned_none p g th s v e n =
    let q : mem g s.run_queue ≡ false = elim (Bool-cases (mem g s.run_queue)) [
      | inl y ↦ absurd (ground (arith, e, n, v.waiting g y))
      | inr y ↦ y
    ] in
    ground (arith, e, n, q, v.gone g, v.asleep g)
