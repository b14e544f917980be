-- ===== src/Sched/Handover.antt =====
-- `sync` after the barrier: a thread whose context was promised hands it over, and looks for another.
use me_mo_tracer.Base.{
  ℕ, ◌≡◌, refl, ◌∙◌, true, false, none, some, ◌==◌, Returns, inl, inr, Bool-cases, arith,
}
use me_mo_tracer.Sched.{ThreadInfo, Scheduler, is_queued, is_null, write_thread}
use me_mo_tracer.Sched.Queues.{mem}
use me_mo_tracer.Sched.Links.{waits, is_proper, IsValid}
use me_mo_tracer.Sched.Moves.{placed, vacated, rewritten-IsLinked}
use me_mo_tracer.Sched.Places.{IsFreed}
use me_mo_tracer.Sched.Places.{sched_thread-cases}
use me_mo_tracer.Sched.{queued}
use me_mo_tracer.Sched.Seats.{seated_next, woken-IsPlaced}
use me_mo_tracer.Sched.Leaves.{IsHolder, holder_gone, holder_vacates}
use me_mo_tracer.Sched.{running, is_running, core_join, bar_join, call, schedule}
use me_mo_tracer.Base.{◌>>=◌, ◌>>◌, assert, ap}
use me_mo_tracer.Sched.Links.{handoff_of, in_play, state_is}
use me_mo_tracer.Sched.Moves.{schedule-placed}
use me_mo_tracer.Sched.Places.{IsFreed}
use me_mo_tracer.Sched.Joins.{seat, seat-Ends, queue_up-Ends}
use me_mo_tracer.Sched.Phases.{hand_over, look_around, after_sync}

-- The thread waits, and has been taken off the run queue.
pub record IsPromised (next : ℕ) (nx : ThreadInfo) (s : Scheduler) : Type 0 where
  pub info : s.threads next ≡ some nx
  pub ready : waits (some nx) ≡ true
  pub away : mem next s.run_queue ≡ false

-- A thread that was woken on the context.
abbrev pub runs_at : ℕ → ThreadInfo → ThreadInfo
runs_at c th = record th { state = running; cid = c; needs_join = false; futex_word = 0 }

hand_over-IsPlaced :
    (g next : ℕ) (th nx : ThreadInfo) (s : Scheduler)
    → IsHolder g th.cid th s
    → IsPromised next nx s
    → th.marked_for_sleep ≡ false
    → is_null th.fake_leave ≡ true
    → (t : Scheduler) × (hand_over g next s ≡ some t)
      × IsValid t
      × (t.threads g ≡ some (record th { state = queued; handoff_thread = none }))
      × (mem g t.run_queue ≡ false)
      × (t.threads next ≡ some (runs_at th.cid nx))
unfolding hand_over
hand_over-IsPlaced g next th nx s k p mk nf =
    let c = th.cid in
    let v = k.valid in
    let e = k.info in
    let i = k.runs in
    let to = record th { handoff_thread = none } in
    let s0 = write_thread g to s in
    let pr : is_proper s.num_cores (some to) ≡ true = ground (arith, v.proper g, e) in
    let k0 : IsHolder g c to s0 = record {
      valid = rewritten-IsLinked none g th to s e v (ground arith) refl refl refl (λ q. q) pr;
      info = ground arith;
      runs = i;
      place = k.place;
    } in
    let gone = vacated g c to queued s.out_queue s.sleep_queue s0 in
    let free : IsFreed c gone =
      holder_vacates g c to s0 k0 queued s.sleep_queue mk nf refl refl (λ h. ground arith)
        (ground (arith, v.once)) in
    let apart : (next == g) ≡ false = ground (arith, e, i, p.info, p.ready) in
    let flip : (g == next) ≡ false = ground (arith, apart) in
    let e1 : gone.threads next ≡ some nx = ground (arith, apart, p.info) in
    let r = seated_next next c nx gone free e1 p.ready p.away in
    let q =
      woken-IsPlaced next c nx gone (placed next c nx gone) r.1 p.ready free.in_range
        (ground (arith, v.proper next, p.info)) refl refl refl in
    let run0 = holder_gone g c to s0 k0 queued refl in
    let mg : mem g s.run_queue ≡ false = elim (Bool-cases (mem g s.run_queue)) [
      | inl y ↦ absurd (ground (arith, e, i, v.waiting g y))
      | inr y ↦ y
    ] in
    (
      q.0,
      rw (hand_over, e, run0, r.0) (q.1),
      (q.2).valid,
      (q.2).others g flip ∙ ground arith,
      rw ((q.2).same_queue) mg,
      q.3,
    )

-- What `look_around` leaves: the other threads that run, run where they did.
record IsBack (g : ℕ) (s t : Scheduler) : Type 0 where
  valid : IsValid t
  runners :
      (h : ℕ)
      → (h == g) ≡ false
      → state_is is_running (s.threads h) ≡ true
      → t.threads h ≡ s.threads h
  active : state_is in_play (t.threads g) ≡ true
  promise : handoff_of (t.threads g) ≡ handoff_of (s.threads g)

seat_checked :
    (g c : ℕ) (th : ThreadInfo) (s : Scheduler)
    → IsFreed c s
    → s.threads g ≡ some th
    → is_queued th.state ≡ true
    → (schedule g c s >>= λ p. p.threads g >>= λ now.
        assert (is_running now.state) >> some (call (bar_join c) (call (core_join c) p)))
      ≡ seat g c s
seat_checked g c th s f e i =
    let nul : is_null (s.contexts c).cur_thread ≡ true =
      ground (arith, (f.linked).idle c, f.idle) in
    let run = schedule-placed g c th s e (ground (arith, i)) f.idle nul in
    let here : (placed g c th s).threads g ≡ some (record th { state = running; cid = c }) =
      ground arith in
    rw (run, ◌>>=◌, here) refl

look_around-IsBack :
    (g : ℕ) (th : ThreadInfo) (s : Scheduler)
    → IsValid s
    → s.threads g ≡ some th
    → is_queued th.state ≡ true
    → mem g s.run_queue ≡ false
    → (t : Scheduler) × (look_around g s ≡ some t) × IsBack g s t
unfolding look_around
look_around-IsBack g th s v e i m = elim (sched_thread-cases g th s v e (ground (arith, i))) [
  | inl n ↦
      let r = queue_up-Ends g th s v e i m n.1 in
      (
        r.0,
        rw (look_around, n.0) (r.1),
        record {
          valid = (r.2).valid;
          runners = λ h x run. (r.2).others h x;
          active = (r.2).active;
          promise = (r.2).promise;
        },
      )
  | inr p ↦
      let t = p.1 in
      let e1 : t.threads g ≡ some th = (p.3).same_thread ∙ e in
      let m1 : mem g t.run_queue ≡ false = rw ((p.3).same_queue) m in
      let r = seat-Ends g p.0 th t (p.3).freed e1 (ground (arith, i)) m1 in
      (
        r.0,
        rw (look_around, p.2) (seat_checked g p.0 th t (p.3).freed e1 i ∙ r.1),
        record {
          valid = (r.2).valid;
          runners = λ h x run. (r.2).others h x ∙ (p.3).runners h run;
          active = (r.2).active;
          promise = (r.2).promise ∙ ap handoff_of (p.3).same_thread;
        },
      )
]

-- After the barrier a running thread that is not marked for sleep and has no system call put off, and
-- whose context was promised, gives it to the thread it was promised to, which waits for it. No
-- assertion fails, and the invariant holds again; the other thread runs on that context, with its
-- futex released; and the first one has no promise left, and runs or is queued.
pub after_sync-IsValid :
    (g next : ℕ) (th nx : ThreadInfo) (s : Scheduler)
    → IsHolder g th.cid th s
    → th.handoff_thread ≡ some next
    → IsPromised next nx s
    → th.marked_for_sleep ≡ false
    → is_null th.fake_leave ≡ true
    → Returns (after_sync g s) (λ t.
      IsValid t
      × (t.threads next ≡ some (runs_at th.cid nx))
      × (handoff_of (t.threads g) ≡ none)
      × (state_is in_play (t.threads g) ≡ true))
unfolding after_sync
after_sync-IsValid g next th nx s k h p mk nf =
    let r = hand_over-IsPlaced g next th nx s k p mk nf in
    let q =
      look_around-IsBack g (record th { state = queued; handoff_thread = none }) (r.0) r.2 r.3 refl
        r.4 in
    let apart : (next == g) ≡ false = ground (arith, k.info, k.runs, p.info, p.ready) in
    let same = (q.2).runners next apart (ap (state_is is_running) r.5) in
    rw (after_sync, k.info, h, r.1, q.1)
      ((q.2).valid, same ∙ r.5, (q.2).promise ∙ ap handoff_of r.3, (q.2).active)
