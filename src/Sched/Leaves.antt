-- ===== src/Sched/Leaves.antt =====
-- `leave` passes its assertions and keeps the invariant: the context goes to a thread that waits for
-- it, or is kept, or is freed.
use me_mo_tracer.Base.{
  ℕ, ◌≡◌, refl, ◌∙◌, true, false, ◌&&◌, ◌||◌, none, some, List, [], ◌∷◌, ◌++◌, if◌then◌else◌, ltb,
  ◌==◌, ◌>>=◌, Returns, inl, inr, Bool-cases, Option, Option-cases, if-true, if-false, map_some, ap,
  Bool, arith,
}
use me_mo_tracer.Sched.{
  ThreadState, Scheduler, blocked, sleeping, out, core_leave, bar_leave, is_blocked, ThreadInfo,
  is_running, is_out, is_sleeping, is_idle, is_target, points_to, is_null, write_thread, call,
  deschedule,
}
use me_mo_tracer.Sched.Queues.{
  mem, nodup, nodup-insert_sleeper, without, insert_sleeper, mem-without, mem-push,
  mem-insert_sleeper,
}
use me_mo_tracer.Sched.Policy.{allowed_on, sched_context}
use me_mo_tracer.Sched.Operations.{
  bring_in, push_free, push_out, push_sleeper, leave, leave_asleep, leave_out, unowned, wakeup_key,
}
use me_mo_tracer.Sched.Links.{state_is, waits, is_proper, runs_on, IsValid, call-IsLinked}
use me_mo_tracer.Sched.Moves.{
  vacated, deschedule-vacated, vacated-IsLinked, unqueued-IsLinked, rewritten-IsLinked,
}
use me_mo_tracer.Sched.Places.{IsFreed, Unwanted, sched_context-cases}
use me_mo_tracer.Sched.Seats.{bring_in-IsPlaced, freed_again, owned_none}

refill :
    (c : ℕ) (s : Scheduler)
    → IsFreed c s
    → (t : Scheduler) × ((sched_context c s >>= λ found. elim (found.0) [
      | some next ↦ bring_in next c found.1
      | none ↦ map_some (call (bar_leave c)) (push_free c found.1)
    ])
        ≡ some t)
      × IsValid t
      × ((h : ℕ) → mem h s.run_queue ≡ false → t.threads h ≡ s.threads h)
refill c s f = elim (sched_context-cases (some c) c s f.linked) [
  | inl n ↦
      let r = freed_again c s f n.1 in
      (
        call (bar_leave c) (r.0),
        rw (n.0, r.1) refl,
        call-IsLinked none (bar_leave c) (r.0) r.2,
        λ h m. ap (λ f. f h) r.3,
      )
  | inr n ↦
      let g = n.0 in
      let rest = record s { run_queue = without g s.run_queue } in
      let free : IsFreed c rest = record {
        linked = unqueued-IsLinked (some c) g s f.linked;
        idle = f.idle;
        in_range = f.in_range;
      } in
      let away : mem g rest.run_queue ≡ false = ground (arith, mem-without g g s.run_queue) in
      let r = bring_in-IsPlaced g c n.1 rest free (n.2).info (n.2).ready away in
      let apart : (h : ℕ) → mem h s.run_queue ≡ false → (h == g) ≡ true → ⊥ =
        λ h m y. ground (arith, m, (n.2).queued, y) in
      (
        r.0,
        rw ((n.2).chosen, r.1) refl,
        (r.2).valid,
        λ h m. elim (Bool-cases (h == g)) [
          | inl y ↦ absurd (apart h m y)
          | inr x ↦ (r.2).others h x
        ],
      )
]

-- A thread that left: it does not run, and it does not wait for a context.
abbrev pub has_left : ThreadState → Bool
has_left x = is_blocked x || is_out x || is_sleeping x

-- The operation ends well, and the thread has left.
abbrev pub Leaves : ℕ → Option Scheduler → Type 0
Leaves g m = (t : Scheduler) × (m ≡ some t) × IsValid t × (state_is has_left (t.threads g) ≡ true)

-- The thread that left is out or has no context.
pub record HasLeft (g : ℕ) (t : Scheduler) : Type 0 where
  pub valid : IsValid t
  pub to : ThreadInfo
  pub info : t.threads g ≡ some to
  pub away : (is_blocked to.state || is_out to.state) ≡ true

-- What `deschedule` asserts, for a thread that has the context.
pub record IsHolder (g c : ℕ) (th : ThreadInfo) (s : Scheduler) : Type 0 where
  pub valid : IsValid s
  pub info : s.threads g ≡ some th
  pub runs : is_running th.state ≡ true
  pub place : (c == th.cid) ≡ true

module _ (g c : ℕ) (th : ThreadInfo) (s : Scheduler) (k : IsHolder g c th s) where
  holder_points : points_to (s.contexts c).cur_thread g ≡ true
  holder_points = ground (arith, (k.valid).held c g, k.info, k.runs, k.place)

  pub holder_gone :
      (target : ThreadState)
      → is_target target ≡ true
      → deschedule g c target s ≡ some (vacated g c th target s.out_queue s.sleep_queue s)
  holder_gone target t =
      let p = holder_points in
      let busy : is_idle (s.contexts c).state ≡ false = ground (arith, (k.valid).idle c, p) in
      deschedule-vacated g c th target s k.info (ground (arith, k.runs, k.place)) busy p t

  pub holder_vacates :
      (target : ThreadState) (sleepers : List ℕ)
      → th.marked_for_sleep ≡ false
      → is_null th.fake_leave ≡ true
      → is_target target ≡ true
      → (if is_sleeping target then th.futex_word == 1 else true) ≡ true
      → ((h : ℕ) → mem h sleepers ≡ (((h == g) && is_sleeping target) || mem h s.sleep_queue))
      → nodup sleepers ≡ true
      → IsFreed c (vacated g c th target s.out_queue sleepers s)
  holder_vacates target sleepers mk nf t fw ms nd =
      let v = k.valid in
      record {
        linked =
            vacated-IsLinked g c th s k.info target s.out_queue sleepers v
              (ground (arith, k.runs, k.place)) mk nf t fw
              (λ h. ground (arith, v.gone h, v.gone g, k.info, k.runs)) ms nd;
        idle = ground arith;
        in_range = ground (arith, v.proper g, k.info, k.place);
      }

  put_to_bed :
      th.marked_for_sleep ≡ false
      → is_null th.fake_leave ≡ true
      → (th.futex_word == 1) ≡ true
      → Leaves g (
          deschedule g c sleeping s >>= λ gone. push_sleeper g gone >>= λ abed.
          sched_context c abed >>= λ found. elim (found.0) [
            | some next ↦ bring_in next c found.1
            | none ↦ map_some (call (bar_leave c)) (push_free c found.1)
          ])
  unfolding push_sleeper
  put_to_bed mk nf fw =
      let gone = vacated g c th sleeping s.out_queue s.sleep_queue s in
      let beds = insert_sleeper (wakeup_key gone) g s.sleep_queue in
      let own : unowned g gone ≡ true =
        owned_none none g th s k.valid k.info (ground (arith, k.runs)) in
      let free =
        holder_vacates sleeping beds mk nf refl fw
          (λ h. ground (arith, mem-insert_sleeper (wakeup_key gone) h g s.sleep_queue))
          (ground
            (arith, own, (k.valid).once, nodup-insert_sleeper (wakeup_key gone) g s.sleep_queue)) in
      let r = refill c (vacated g c th sleeping s.out_queue beds s) free in
      let away : mem g s.run_queue ≡ false = elim (Bool-cases (mem g s.run_queue)) [
        | inl y ↦ absurd (ground (arith, k.info, k.runs, (k.valid).waiting g y))
        | inr y ↦ y
      ] in
      (
        r.0,
        rw (push_sleeper, holder_gone sleeping refl, own) (r.1),
        r.2,
        ap (state_is has_left) (r.3 g away) ∙ ground arith,
      )

module _ (g c : ℕ) (th : ThreadInfo) (s : Scheduler) (k : IsHolder g c th s) where
  -- A thread that is marked goes to sleep.
  leave_asleep-Ends : th.marked_for_sleep ≡ true → Leaves g (leave_asleep g c th s)
  unfolding leave_asleep push_sleeper
  leave_asleep-Ends mk =
      let to = record th { marked_for_sleep = false } in
      let s0 = write_thread g to s in
      let pr = (k.valid).proper g in
      let fw : (th.futex_word == 1) ≡ true = ground (arith, pr, k.info, mk) in
      let nf : is_null th.fake_leave ≡ true = ground (arith, pr, k.info, mk) in
      let lt : is_proper s.num_cores (some to) ≡ true = ground (arith, pr, k.info, k.runs, nf) in
      let k0 : IsHolder g c to s0 = record {
        valid =
            rewritten-IsLinked none g th to s k.info k.valid (ground arith) refl refl refl (λ q. q)
              lt;
        info = ground arith;
        runs = k.runs;
        place = k.place;
      } in
      put_to_bed g c to s0 k0 refl nf fw

  -- Another one keeps its context, if no thread wants it.
  leave_out-Ends :
      th.marked_for_sleep ≡ false
      → is_null th.fake_leave ≡ true
      → (t : Scheduler) × (leave_out g c th s ≡ some t) × HasLeft g t
  unfolding leave_out push_out
  leave_out-Ends mk nf = elim (sched_context-cases none c s k.valid) [
    | inl n ↦
        let to = record th { state = out } in
        let own : unowned g s ≡ true =
          owned_none none g th s k.valid k.info (ground (arith, k.runs)) in
        let kept = record (write_thread g to s) { out_queue = s.out_queue ++ (g ∷ []) } in
        (
          call (bar_leave c) kept,
          rw (leave_out, push_out, n.0, own) refl,
          record {
            valid = call-IsLinked none (bar_leave c) kept (out-IsValid n.1 nf mk);
            to = to;
            info = ground arith;
            away = refl;
          },
        )
    | inr n ↦
        let next = n.0 in
        let rest = record s { run_queue = without next s.run_queue } in
        let k1 : IsHolder g c th rest = record {
          valid = unqueued-IsLinked none next s k.valid;
          info = k.info;
          runs = k.runs;
          place = k.place;
        } in
        let gone = vacated g c th blocked rest.out_queue rest.sleep_queue rest in
        let free : IsFreed c gone =
          holder_vacates g c th rest k1 blocked rest.sleep_queue mk nf refl refl (λ h. ground arith)
            (ground (arith, (k.valid).once)) in
        let away : mem next gone.run_queue ≡ false =
          ground (arith, mem-without next next s.run_queue) in
        let e : gone.threads next ≡ some n.1 =
          ground (arith, (n.2).info, (n.2).ready, k.info, k.runs) in
        let apart : (g == next) ≡ false = ground (arith, (n.2).info, (n.2).ready, k.info, k.runs) in
        let r = bring_in-IsPlaced next c n.1 gone free e (n.2).ready away in
        (
          r.0,
          rw (leave_out, (n.2).chosen, holder_gone g c th rest k1 blocked refl, r.1) refl,
          record {
            valid = (r.2).valid;
            to = record th { state = blocked };
            info = (r.2).others g apart ∙ ground arith;
            away = refl;
          },
        )
  ]
    where
      kept_busy :
          Unwanted c s
          → (h d : ℕ) → mem h s.run_queue ≡ true
          → allowed_on d ((write_thread g (record th { state = out }) s).threads h) ≡ true
          → ltb d s.num_cores ≡ true
          → runs_on d (write_thread g (record th { state = out }) s) ≡ true
      kept_busy u h d m a l =
          let v = k.valid in
          let w : waits (s.threads h) ≡ true = v.waiting h m in
          let other : (h == g) ≡ false = ground (arith, w, k.info, k.runs) in
          let b : allowed_on d (s.threads h) ≡ true = ground (arith, a, other) in
          elim (Option-cases (s.contexts d).cur_thread) [
            | inl n ↦ ground (arith, n, v.busy h d m b l)
            | inr x ↦ ground (arith, x.1, b, u h m, k.info, k.place, v.busy h d m b l, v.held d x.0)
          ]

      out-IsValid :
          Unwanted c s
          → is_null th.fake_leave ≡ true
          → th.marked_for_sleep ≡ false
          → IsValid (record (write_thread g (record th { state = out }) s) {
            out_queue = s.out_queue ++ (g ∷ []);
          })
      out-IsValid u nf mk =
          let v = k.valid in
          let e = k.info in
          let i = k.runs in
          record {
            held = λ d h. ground (arith, v.held d h, v.held d g, e, i);
            idle = v.idle;
            freed = v.freed;
            proper = λ h. ground (arith, v.proper h, v.proper g, e, i);
            gone = λ h. ground (arith, v.gone h, mem-push h g s.out_queue);
            asleep = λ h. ground (arith, v.asleep h, v.asleep g, e, i);
            once = v.once;
            counted = v.counted;
            small = v.small;
            waiting = λ h m. ground (arith, v.waiting h m, e, i);
            faked = λ h. ground (arith, v.faked h, v.faked g, e);
            busy = λ h d m a l. kept_busy u h d m a l;
          }

left_core :
    (g c : ℕ) (th : ThreadInfo) (s : Scheduler)
    → IsHolder g c th s
    → IsHolder g c th (call (core_leave c) s)
left_core g c th s k = record {
  valid = call-IsLinked none (core_leave c) s k.valid;
  info = k.info;
  runs = k.runs;
  place = k.place;
}

leave_run :
    (g c : ℕ) (th : ThreadInfo) (s : Scheduler)
    → IsHolder g c th s
    → leave g c s ≡ (
        if th.marked_for_sleep
        then leave_asleep g c th (call (core_leave c) s)
        else leave_out g c th (call (core_leave c) s))
unfolding leave
leave_run g c th s k =
    let p = holder_points g c th s k in
    let cur : (s.contexts c).cur_thread ≡ some g = ground (arith, p) in
    let same : (g == g) ≡ true = ground arith in rw (leave, cur, k.info, same, k.runs) refl

-- `leave` of a thread that is not marked, with what becomes of it.
pub leave-HasLeft :
    (g c : ℕ) (th : ThreadInfo) (s : Scheduler)
    → IsHolder g c th s
    → is_null th.fake_leave ≡ true
    → th.marked_for_sleep ≡ false
    → (t : Scheduler) × (leave g c s ≡ some t) × HasLeft g t
leave-HasLeft g c th s k nf mk =
    let now = call (core_leave c) s in
    let r = leave_out-Ends g c th now (left_core g c th s k) mk nf in
    (r.0, leave_run g c th s k ∙ if-false th.marked_for_sleep _ _ mk ∙ r.1, r.2)

-- A thread that runs on its context, has no system call put off, and has promised the context to
-- nobody may leave: no assertion fails, the invariant holds afterwards, and the thread is blocked,
-- asleep or out.
pub leave-IsValid :
    (g c : ℕ) (th : ThreadInfo) (s : Scheduler)
    → IsHolder g c th s
    → is_null th.fake_leave ≡ true
    → is_null th.handoff_thread ≡ true
    → Returns (leave g c s) (λ t. IsValid t × (state_is has_left (t.threads g) ≡ true))
leave-IsValid g c th s k nf nh =
    let now = call (core_leave c) s in
    elim (Bool-cases th.marked_for_sleep) [
      | inl y ↦
          let r = leave_asleep-Ends g c th now (left_core g c th s k) y in
          let run = leave_run g c th s k ∙ if-true th.marked_for_sleep _ _ y ∙ r.1 in
          rw run (r.2, r.3)
      | inr n ↦
          let r = leave-HasLeft g c th s k nf n in
          let q = r.2 in rw (r.1) (q.valid, ground (arith, q.info, q.away))
    ]
