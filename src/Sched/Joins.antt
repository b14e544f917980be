-- ===== src/Sched/Joins.antt =====
-- `join` passes its assertions and keeps the invariant: a thread gets a context, or there is none
-- that it may have and it waits.
use me_mo_tracer.Base.{
  ℕ, ◌≡◌, refl, ◌∙◌, Bool, true, false, not, ◌&&◌, ◌||◌, Option, none, some, [], ◌∷◌, ◌++◌, ◌==◌,
  ◌>>=◌, inl, inr, Bool-cases, arith,
}
use me_mo_tracer.Sched.{
  running, blocked, core_join, ThreadInfo, Scheduler, is_running, is_out, is_sleeping, is_queued,
  can_start, is_null, write_thread, call, schedule,
}
use me_mo_tracer.Sched.Queues.{mem, nodup-without, nodup-push, without, mem-without, mem-push}
use me_mo_tracer.Sched.Operations.{unowned}
use me_mo_tracer.Sched.Links.{handoff_of, in_play, state_is, is_proper, IsValid, call-IsLinked}
use me_mo_tracer.Sched.Moves.{
  placed, schedule-placed, placed-IsLinked, rewritten-IsLinked, still_runs, still_busy,
}
use me_mo_tracer.Sched.Places.{IsFreed}
use me_mo_tracer.Sched.Places.{NoPlace, sched_thread-cases, remove-some}
use me_mo_tracer.Sched.Operations.{
  queue_up, enter, come_back, rouse, finish_fake_leave, join_thread,
}
use me_mo_tracer.Sched.Seats.{owned_none}
use me_mo_tracer.Sched.Leaves.{IsHolder}
use me_mo_tracer.Sched.{queued, bar_join, is_blocked, is_started}

-- The thread takes the context.
abbrev pub seat : ℕ → ℕ → Scheduler → Option Scheduler
seat g c s = schedule g c s >>= λ placed. some (call (bar_join c) (call (core_join c) placed))

-- The thread runs or waits for a context, and the others are as they were.
pub record IsSeated (g : ℕ) (s t : Scheduler) : Type 0 where
  pub valid : IsValid t
  pub others : (h : ℕ) → (h == g) ≡ false → t.threads h ≡ s.threads h
  pub active : state_is in_play (t.threads g) ≡ true
  pub promise : handoff_of (t.threads g) ≡ handoff_of (s.threads g)

pub seat-Ends :
    (g c : ℕ) (th : ThreadInfo) (s : Scheduler)
    → IsFreed c s
    → s.threads g ≡ some th
    → can_start th.state ≡ true
    → mem g s.run_queue ≡ false
    → (t : Scheduler) × (seat g c s ≡ some t) × IsSeated g s t
seat-Ends g c th s f e st m =
    let v = f.linked in
    let nul : is_null (s.contexts c).cur_thread ≡ true = ground (arith, v.idle c, f.idle) in
    let t = placed g c th s in
    (
      call (bar_join c) (call (core_join c) t),
      rw (schedule-placed g c th s e st f.idle nul) refl,
      record {
        valid = call-IsLinked none (bar_join c) (call (core_join c) t) (
            call-IsLinked none (core_join c) t
              (placed-IsLinked g c th s e v st m f.idle f.in_range));
        others = λ h n. ground (arith, n);
        active = ground arith;
        promise = ground (arith, e);
      },
    )

pub queue_up-Ends :
    (g : ℕ) (th : ThreadInfo) (s : Scheduler)
    → IsValid s
    → s.threads g ≡ some th
    → is_queued th.state ≡ true
    → mem g s.run_queue ≡ false
    → NoPlace th s
    → (t : Scheduler) × (queue_up g s ≡ some t) × IsSeated g s t
unfolding queue_up
queue_up-Ends g th s v e q m np =
    let own : unowned g s ≡ true = ground (arith, e, q, m, v.gone g, v.asleep g) in
    let to = record th { futex_word = 1 } in
    let pr : is_proper s.num_cores (some to) ≡ true = ground (arith, v.proper g, e) in
    let w =
      rewritten-IsLinked none g th to s e v (ground arith) refl refl refl (λ x. ground (arith, x))
        pr in
    (
      record (write_thread g to s) { run_queue = s.run_queue ++ (g ∷ []) },
      rw (queue_up, e, own) refl,
      record {
        valid = record {
          held = w.held;
          idle = w.idle;
          freed = w.freed;
          proper = w.proper;
          gone = w.gone;
          asleep = w.asleep;
          once = ground (arith, w.once, m, nodup-push g s.run_queue);
          counted = w.counted;
          small = w.small;
          waiting = λ h x. ground (arith, x, w.waiting h, mem-push h g s.run_queue, q);
          faked = w.faked;
          busy = λ h d x a l. elim (Bool-cases (h == g)) [
            | inl y ↦ still_runs g th to s d e (λ r. r) (np d (ground (arith, a, y)) l)
            | inr n ↦ w.busy h d (ground (arith, x, n, mem-push h g s.run_queue)) a l
          ];
        };
        others = λ h n. ground (arith, n);
        active = ground (arith, q);
        promise = ground (arith, e);
      },
    )

-- The operation ends well, and the thread runs or waits for a context.
abbrev pub JoinsIn : ℕ → Option Scheduler → Type 0
JoinsIn g m = (t : Scheduler) × (m ≡ some t) × IsValid t × (state_is in_play (t.threads g) ≡ true)

-- A thread that has no context, and that no queue owns.
pub record IsAway (g : ℕ) (th : ThreadInfo) (s : Scheduler) : Type 0 where
  pub valid : IsValid s
  pub info : s.threads g ≡ some th
  pub off : (is_blocked th.state || is_started th.state) ≡ true

-- To call the thread queued changes nothing for the others.
away_queued :
    (g : ℕ) (th : ThreadInfo) (s : Scheduler)
    → IsAway g th s
    → NoPlace th s
    → IsValid (write_thread g (record th { state = queued }) s)
      × NoPlace (record th { state = queued }) (write_thread g (record th { state = queued }) s)
away_queued g th s k np =
    let to = record th { state = queued } in
    let e = k.info in
    let o = k.off in
    let pr : is_proper s.num_cores (some to) ≡ true = ground (arith, (k.valid).proper g, e, o) in
    (
      rewritten-IsLinked none g th to s e k.valid (ground (arith, o)) refl refl refl
          (λ x. ground (arith, x, o)) pr,
      λ c a l. still_runs g th to s c e (λ r. ground (arith, r, o)) (np c a l),
    )

pub enter-Ends : (g : ℕ) (th : ThreadInfo) (s : Scheduler) → IsAway g th s → JoinsIn g (enter g s)
unfolding enter
enter-Ends g th s k =
    let v = k.valid in
    let e = k.info in
    let o = k.off in
    let m : mem g s.run_queue ≡ false =
      ground (arith, owned_none none g th s v e (ground (arith, o))) in
    elim (sched_thread-cases g th s v e (ground (arith, o))) [
      | inl n ↦
          let to = record th { state = queued } in
          let q = away_queued g th s k n.1 in
          let r = queue_up-Ends g to (write_thread g to s) q.0 (ground arith) refl m q.1 in
          (r.0, rw (enter, e, o, n.0) (r.1), (r.2).valid, (r.2).active)
      | inr p ↦
          let t = p.1 in
          let e1 : t.threads g ≡ some th = (p.3).same_thread ∙ e in
          let m1 : mem g t.run_queue ≡ false = rw ((p.3).same_queue) m in
          let r = seat-Ends g p.0 th t (p.3).freed e1 (ground (arith, o)) m1 in
          (r.0, rw (enter, e, o, p.2) (r.1), (r.2).valid, (r.2).active)
    ]

come_back-Ends :
    (g : ℕ) (th : ThreadInfo) (s : Scheduler)
    → IsValid s
    → s.threads g ≡ some th
    → is_out th.state ≡ true
    → JoinsIn g (come_back g s)
unfolding come_back
come_back-Ends g th s v e o =
    let m : mem g s.out_queue ≡ true = ground (arith, v.gone g, e, o) in
    let to = record th { state = running } in
    let back = record (write_thread g to s) { out_queue = without g s.out_queue } in
    (
      call (bar_join th.cid) (call (core_join th.cid) back),
      rw (come_back, e, remove-some g s.out_queue m) refl,
      call-IsLinked none (bar_join th.cid) (call (core_join th.cid) back)
          (call-IsLinked none (core_join th.cid) back back-IsValid),
      ground arith,
    )
  where
    back-IsValid : IsValid (record (write_thread g (record th { state = running }) s) {
      out_queue = without g s.out_queue;
    })
    back-IsValid = record {
      held = λ d h. ground (arith, v.held d h, v.held d g, e, o);
      idle = v.idle;
      freed = v.freed;
      proper = λ h. ground (arith, v.proper h, v.proper g, e, o);
      gone = λ h. ground (arith, v.gone h, mem-without h g s.out_queue);
      asleep = λ h. ground (arith, v.asleep h, v.asleep g, e, o);
      once = v.once;
      counted = v.counted;
      small = v.small;
      waiting = λ h m. ground (arith, v.waiting h m, e, o);
      faked = λ h. ground (arith, v.faked h, v.faked g, e);
      busy = still_busy none g th (record th { state = running }) s e v (λ r. refl) refl;
    }

-- A sleeper that wakes has no context yet.
pub rouse-IsAway :
    (g : ℕ) (th : ThreadInfo) (s : Scheduler)
    → IsValid s
    → s.threads g ≡ some th
    → is_sleeping th.state ≡ true
    → (t : Scheduler) × (rouse g s ≡ some t) × IsAway g (record th { state = blocked }) t
unfolding rouse
rouse-IsAway g th s v e i =
    let m : mem g s.sleep_queue ≡ true = ground (arith, v.asleep g, e, i) in
    let to = record th { state = blocked } in
    (
      record (write_thread g to s) { sleep_queue = without g s.sleep_queue },
      rw (rouse, e, remove-some g s.sleep_queue m) refl,
      record {
        valid = record {
          held = λ d h. ground (arith, v.held d h, v.held d g, e, i);
          idle = v.idle;
          freed = v.freed;
          proper = λ h. ground (arith, v.proper h, v.proper g, e, i);
          gone = λ h. ground (arith, v.gone h, v.gone g, e, i);
          asleep = λ h. ground (arith, v.asleep h, mem-without h g s.sleep_queue);
          once = ground (arith, v.once, nodup-without g s.sleep_queue);
          counted = v.counted;
          small = v.small;
          waiting = λ h x. ground (arith, v.waiting h x, e, i);
          faked = λ h. ground (arith, v.faked h, v.faked g, e);
          busy = still_busy none g th to s e v (λ r. ground (arith, r, i)) refl;
        };
        info = ground arith;
        off = refl;
      },
    )

-- A system call that is put off ends: the thread runs on, in the same place.
pub finish_fake_leave-IsHolder :
    (g : ℕ) (th : ThreadInfo) (s : Scheduler)
    → IsValid s
    → s.threads g ≡ some th
    → is_null th.fake_leave ≡ false
    → (t : Scheduler) × (finish_fake_leave g s ≡ some t)
      × IsHolder g th.cid (record th { fake_leave = none }) t
unfolding finish_fake_leave
finish_fake_leave-IsHolder g th s v e f =
    let m : mem g s.fake_leaves ≡ true = ground (arith, v.faked g, e, f) in
    let r : is_running th.state ≡ true = ground (arith, v.proper g, e, f) in
    let to = record th { fake_leave = none } in
    (
      record (write_thread g to s) { fake_leaves = without g s.fake_leaves },
      rw (finish_fake_leave, e, f, r, remove-some g s.fake_leaves m) refl,
      record {
        valid = record {
          held = λ d h. ground (arith, v.held d h, v.held d g, e);
          idle = v.idle;
          freed = v.freed;
          proper = λ h. ground (arith, v.proper h, v.proper g, e, r);
          gone = λ h. ground (arith, v.gone h, v.gone g, e);
          asleep = λ h. ground (arith, v.asleep h, v.asleep g, e);
          once = v.once;
          counted = v.counted;
          small = v.small;
          waiting = λ h x. ground (arith, v.waiting h x, e);
          faked = λ h. ground (arith, v.faked h, mem-without h g s.fake_leaves);
          busy = still_busy none g th to s e v (λ x. x) refl;
        };
        info = ground arith;
        runs = r;
        place = ground arith;
      },
    )

-- The threads that may call `join`: they are in a system call, or have left.
abbrev pub may_join : ThreadInfo → Bool
may_join th = not (is_running th.state && is_null th.fake_leave) && not (is_queued th.state)

join_real :
    (g : ℕ) (th : ThreadInfo) (s : Scheduler)
    → IsValid s
    → s.threads g ≡ some th
    → may_join th ≡ true
    → is_null th.fake_leave ≡ true
    → JoinsIn g (join_thread g s)
unfolding join_thread
join_real g th s v e j f =
    let mk : th.marked_for_sleep ≡ false = ground (arith, v.proper g, e, j, f) in
    elim (Bool-cases (is_out th.state)) [
      | inl y ↦
          let r = come_back-Ends g th s v e y in
          (r.0, rw (join_thread, e, f, mk, y) (r.1), r.2, r.3)
      | inr n ↦ elim (Bool-cases (is_sleeping th.state)) [
        | inl y ↦
            let a = rouse-IsAway g th s v e y in
            let r = enter-Ends g (record th { state = blocked }) (a.0) a.2 in
            (r.0, rw (join_thread, e, f, mk, n, y, a.1) (r.1), r.2, r.3)
        | inr m ↦
            let r =
              enter-Ends g th s
                (record { valid = v; info = e; off = ground (arith, j, f, n, m) }) in
            (r.0, rw (join_thread, e, f, mk, n, m) (r.1), r.2, r.3)
      ]
    ]

pub join_thread-Ends :
    (g : ℕ) (th : ThreadInfo) (s : Scheduler)
    → IsValid s
    → s.threads g ≡ some th
    → may_join th ≡ true
    → JoinsIn g (join_thread g s)
unfolding join_thread
join_thread-Ends g th s v e j = elim (Bool-cases (is_null th.fake_leave)) [
  | inl y ↦ join_real g th s v e j y
  | inr n ↦
      let r = finish_fake_leave-IsHolder g th s v e n in
      (r.0, rw (join_thread, e, n, r.1) refl, (r.2).valid, ground (arith, (r.2).info, (r.2).runs))
]
