-- ===== src/Sched/Finishes.antt =====
-- `finish` takes a thread out of all queues and frees its context.
use me_mo_tracer.Base.{
  ℕ, ◌≡◌, refl, ◌∙◌, ap, Bool, true, false, not, ◌&&◌, ◌||◌, none, some, ltb, ◌==◌, Returns, inl,
  inr, Bool-cases, Option-cases, arith,
}
use me_mo_tracer.Sched.{
  blocked, ThreadInfo, Scheduler, is_running, is_out, is_sleeping, is_queued, is_idle, points_to,
  is_null, put,
}
use me_mo_tracer.Sched.Queues.{mem, without, mem-without}
use me_mo_tracer.Sched.Policy.{allowed_on}
use me_mo_tracer.Sched.Operations.{unowned}
use me_mo_tracer.Sched.Links.{holds, IsValid}
use me_mo_tracer.Sched.Moves.{vacated, deschedule-vacated, unqueued-IsLinked}
use me_mo_tracer.Sched.Places.{IsFreed, Unwanted}
use me_mo_tracer.Base.{same}
use me_mo_tracer.Sched.Places.{remove-some, evicted-IsFreed}
use me_mo_tracer.Sched.{is_started, is_blocked}
use me_mo_tracer.Sched.Seats.{freed_again, owned_none}
use me_mo_tracer.Sched.Leaves.{IsHolder, HasLeft, leave-HasLeft}
use me_mo_tracer.Sched.Joins.{finish_fake_leave-IsHolder}
use me_mo_tracer.Sched.Operations.{stop, disown, finish}

-- Nothing points to the thread.
record IsLoose (g : ℕ) (t : Scheduler) : Type 0 where
  valid : IsValid t
  to : ThreadInfo
  info : t.threads g ≡ some to
  unseated : (is_started to.state || is_blocked to.state || is_queued to.state) ≡ true
  unqueued : mem g t.run_queue ≡ false

deleted-IsValid :
    (g : ℕ) (s : Scheduler) → IsLoose g s → IsValid (record s { threads = put g none s.threads })
deleted-IsValid g s k =
    let v = k.valid in
    let e = k.info in
    let u = k.unseated in
    record {
      held = λ d h. ground (arith, v.held d h, v.held d g, e, u);
      idle = v.idle;
      freed = v.freed;
      proper = λ h. ground (arith, v.proper h);
      gone = λ h. ground (arith, v.gone h, v.gone g, e, u);
      asleep = λ h. ground (arith, v.asleep h, v.asleep g, e, u);
      once = v.once;
      counted = v.counted;
      small = v.small;
      waiting = λ h m. ground (arith, v.waiting h m, k.unqueued, m);
      faked = λ h. ground (arith, v.faked h, v.faked g, v.proper g, e, u);
      busy = λ h d m a l.
          let other : (h == g) ≡ false = ground (arith, m, k.unqueued) in
          let b : allowed_on d (s.threads h) ≡ true = ground (arith, a, other) in
          elim (Option-cases (s.contexts d).cur_thread) [
            | inl n ↦ ground (arith, n, v.busy h d m b l)
            | inr x ↦ ground (arith, x.1, e, u, v.busy h d m b l)
          ];
    }

-- A thread that `finish` may delete: it does not sleep, nor is it promised a context.
pub record IsDone (g : ℕ) (th : ThreadInfo) (s : Scheduler) : Type 0 where
  pub valid : IsValid s
  pub info : s.threads g ≡ some th
  pub awake : (is_sleeping th.state || is_running th.state) ≡ false
  pub in_queue : mem g s.run_queue ≡ is_queued th.state

disowned_out :
    (g : ℕ) (th : ThreadInfo) (s : Scheduler)
    → IsDone g th s
    → is_out th.state ≡ true
    → (t : Scheduler) × (disown g s ≡ some t) × IsLoose g t
unfolding disown
disowned_out g th s k o =
    let v = k.valid in
    let e = k.info in
    let m : mem g s.out_queue ≡ true = ground (arith, v.gone g, e, o) in
    let own : unowned g s ≡ false = ground (arith, m) in
    let c = th.cid in
    let rest = record s { out_queue = without g s.out_queue } in
    let gone = vacated g c th blocked (without g s.out_queue) s.sleep_queue s in
    let p : points_to (s.contexts c).cur_thread g ≡ true = ground (arith, v.held c g, e, o) in
    let taken : is_idle (s.contexts c).state ≡ false = ground (arith, v.idle c, p) in
    let seated : holds c (some th) ≡ true = ground (arith, o) in
    let run = deschedule-vacated g c th blocked rest e seated taken p refl in
    let free : IsFreed c gone = evicted-IsFreed g th s v e o in
    let r = freed_again c gone free unwanted in
    let info : (r.0).threads g ≡ some (record th { state = blocked }) =
      ap (λ f. f g) r.3 ∙ ground arith in
    let st : (is_started th.state || is_out th.state || is_blocked th.state || is_queued th.state)
        ≡ true =
      ground (arith, o) in
    let q : is_queued th.state ≡ false = ground (arith, o) in
    (
      r.0,
      rw (disown, e, st, q, own, remove-some g s.out_queue m, run) (r.1),
      record {
        valid = r.2;
        to = record th { state = blocked };
        info = info;
        unseated = refl;
        unqueued =
            ground (arith, owned_none none g (record th { state = blocked }) r.0 r.2 info refl);
      },
    )
  where
    unwanted : Unwanted th.cid (vacated g th.cid th blocked (without g s.out_queue) s.sleep_queue s)
    unwanted h m =
        let v = k.valid in
        let c = th.cid in
        let other : (h == g) ≡ false = ground (arith, m, k.in_queue, o) in
        let lt : ltb c s.num_cores ≡ true = ground (arith, v.proper g, k.info) in
        elim (Bool-cases (allowed_on c (s.threads h))) [
          | inl y ↦
              let p : points_to (s.contexts c).cur_thread g ≡ true =
                ground (arith, v.held c g, k.info, o) in
              let cur : (s.contexts c).cur_thread ≡ some g = ground (arith, p) in
              absurd (ground (arith, v.busy h c m y lt, cur, k.info, o))
          | inr n ↦ ground (arith, n, other)
        ]

disown-IsLoose :
    (g : ℕ) (th : ThreadInfo) (s : Scheduler)
    → IsDone g th s
    → (t : Scheduler) × (disown g s ≡ some t) × IsLoose g t
unfolding disown
disown-IsLoose g th s k =
    let v = k.valid in
    let e = k.info in
    let w = k.awake in
    let st : (is_started th.state || is_out th.state || is_blocked th.state || is_queued th.state)
        ≡ true =
      ground (arith, w) in
    elim (Bool-cases (is_queued th.state)) [
      | inl y ↦
          let m : mem g s.run_queue ≡ true = k.in_queue ∙ y in
          (
            record s { run_queue = without g s.run_queue },
            rw (disown, e, st, y, remove-some g s.run_queue m) refl,
            record {
              valid = unqueued-IsLinked none g s v;
              to = th;
              info = e;
              unseated = ground (arith, y);
              unqueued = ground (arith, mem-without g g s.run_queue);
            },
          )
      | inr n ↦ elim (Bool-cases (is_out th.state)) [
        | inl y ↦ disowned_out g th s k y
        | inr o ↦
            let own : unowned g s ≡ true = owned_none none g th s v e (ground (arith, n, o, w)) in
            (
              s,
              rw (disown, e, st, n, own) refl,
              record {
                valid = v;
                to = th;
                info = e;
                unseated = ground (arith, n, o, w);
                unqueued = k.in_queue ∙ n;
              },
            )
      ]
    ]

owned_in : (g : ℕ) (t : Scheduler) (l : HasLeft g t) → mem g t.run_queue ≡ false
owned_in g t l = elim (Bool-cases (mem g t.run_queue)) [
  | inl y ↦ absurd (ground (arith, (l.valid).waiting g y, l.info, l.away))
  | inr y ↦ y
]

left-IsDone : (g : ℕ) (t : Scheduler) (l : HasLeft g t) → IsDone g l.to t
left-IsDone g t l =
    let a = l.away in
    let n : is_queued (l.to).state ≡ false = ground (arith, a) in
    record {
      valid = l.valid;
      info = l.info;
      awake = ground (arith, a);
      in_queue = ground (arith, n, owned_in g t l);
    }

-- A thread that may finish: it does not sleep and is not marked for sleep, it has promised its context
-- to nobody, and if it is queued it is in the run queue, so that no context is promised to it.
abbrev pub may_finish : ℕ → ThreadInfo → Scheduler → Bool
may_finish g th s =
    not (is_sleeping th.state)
    && not th.marked_for_sleep
    && is_null th.handoff_thread
    && same (mem g s.run_queue) (is_queued th.state)

stop-IsDone :
    (g : ℕ) (th : ThreadInfo) (s : Scheduler)
    → IsValid s
    → s.threads g ≡ some th
    → may_finish g th s ≡ true
    → (t : Scheduler) × (to : ThreadInfo) × (stop g s ≡ some t) × IsDone g to t
unfolding stop
stop-IsDone g th s v e f = elim (Bool-cases (is_null th.fake_leave)) [
  | inl y ↦ elim (Bool-cases (is_running th.state)) [
    | inl r ↦
        let k : IsHolder g th.cid th s = record {
          valid = v;
          info = e;
          runs = r;
          place = ground arith;
        } in
        let l = leave-HasLeft g th.cid th s k y (ground (arith, f)) in
        (l.0, (l.2).to, rw (stop, e, y, e, r) (l.1), left-IsDone g (l.0) l.2)
    | inr n ↦ (
      s,
      th,
      rw (stop, e, y, e, n) refl,
      record { valid = v; info = e; awake = ground (arith, f, n); in_queue = ground (arith, f) },
    )
  ]
  | inr n ↦
      let r = finish_fake_leave-IsHolder g th s v e n in
      let l =
        leave-HasLeft g th.cid (record th { fake_leave = none }) (r.0) r.2 refl
          (ground (arith, f)) in
      let over : is_running ((l.2).to).state ≡ false = ground (arith, (l.2).away) in
      (l.0, (l.2).to, rw (stop, e, n, r.1, l.1, (l.2).info, over) refl, left-IsDone g (l.0) l.2)
]

-- A thread may finish that does not sleep, is not marked for sleep, has promised its context to
-- nobody, and, if it is queued, is in the run queue (so that no context is promised to it): no
-- assertion fails, the invariant holds afterwards, and the thread is gone.
pub finish-IsValid :
    (g : ℕ) (th : ThreadInfo) (s : Scheduler)
    → IsValid s
    → s.threads g ≡ some th
    → may_finish g th s ≡ true
    → Returns (finish g s) (λ t. IsValid t × (t.threads g ≡ none))
unfolding finish
finish-IsValid g th s v e f =
    let a = stop-IsDone g th s v e f in
    let b = disown-IsLoose g (a.1) (a.0) a.3 in
    rw (finish, a.2, b.1) (deleted-IsValid g (b.0) b.2, ground arith)
