-- ===== src/Sched/Moves.antt =====
-- What the changes of one thread and one context do to the invariant.
use me_mo_tracer.Base.{
  ℕ, ◌≡◌, refl, Bool, true, false, not, same, ◌&&◌, ◌||◌, Option, none, some, List, ◌∷◌,
  if◌then◌else◌, ltb, ltb→lt, ◌<◌, ◌==◌, ==→eq, inl, inr, Bool-cases, Option-cases, add32, sub32,
  arith,
}
use me_mo_tracer.Sched.{
  ThreadState, running, used, context_switch, ContextInfo, ThreadInfo, Scheduler, is_running,
  is_out, is_sleeping, is_idle, on_context, can_start, is_target, points_to, is_null, put,
  write_thread, idle_context, schedule, deschedule,
}
use me_mo_tracer.Sched.Queues.{mem, nodup, nodup-without, without, mem-without}
use me_mo_tracer.Sched.Policy.{allowed_on}
use me_mo_tracer.Sched.Links.{
  in_use, used_count-le, used_count-put, holds, waits, is_proper, runs_on, IsLinked,
}

in_use_idle : (c : ContextInfo) → is_idle c.state ≡ true → in_use c ≡ 0
in_use_idle c i = ground (arith, i)

in_use_used : (c : ContextInfo) → is_idle c.state ≡ false → in_use c ≡ 1
in_use_used c i = ground (arith, i)

-- The state after `schedule`.
abbrev pub placed : ℕ → ℕ → ThreadInfo → Scheduler → Scheduler
placed g c th s = record s {
  threads = put g (some (record th { state = running; cid = c })) s.threads;
  contexts = put c (record { state = used; cur_thread = some g }) s.contexts;
  scheduled_threads = add32 s.scheduled_threads 1;
  calls = context_switch c (some g) ∷ s.calls;
}

-- The state after `deschedule`, with the queues of `owner` brought in line.
abbrev pub vacated : ℕ → ℕ → ThreadInfo → ThreadState → List ℕ → List ℕ → Scheduler → Scheduler
vacated g c th target outs sleepers s = record s {
  threads = put g (some (record th { state = target })) s.threads;
  contexts = put c idle_context s.contexts;
  out_queue = outs;
  sleep_queue = sleepers;
  scheduled_threads = sub32 s.scheduled_threads 1;
  calls = context_switch c none ∷ s.calls;
}

pub schedule-placed :
    (g c : ℕ) (th : ThreadInfo) (s : Scheduler)
    → s.threads g ≡ some th
    → can_start th.state ≡ true
    → is_idle (s.contexts c).state ≡ true
    → is_null (s.contexts c).cur_thread ≡ true
    → schedule g c s ≡ some (placed g c th s)
unfolding schedule
schedule-placed g c th s e st i n = rw (e, st, i, n) refl

pub deschedule-vacated :
    (g c : ℕ) (th : ThreadInfo) (target : ThreadState) (s : Scheduler)
    → s.threads g ≡ some th
    → holds c (some th) ≡ true
    → is_idle (s.contexts c).state ≡ false
    → points_to (s.contexts c).cur_thread g ≡ true
    → is_target target ≡ true
    → deschedule g c target s ≡ some (vacated g c th target s.out_queue s.sleep_queue s)
unfolding deschedule
deschedule-vacated g c th target s e h i p t =
    let st : on_context th.state ≡ true = ground arith in
    let k : (c == th.cid) ≡ true = ground arith in rw (e, st, i, k, p, t) refl

module _ (g c : ℕ) (th : ThreadInfo) (s : Scheduler) (e : s.threads g ≡ some th) where
  pub placed-IsLinked :
      IsLinked (some c) s
      → can_start th.state ≡ true
      → mem g s.run_queue ≡ false
      → is_idle (s.contexts c).state ≡ true
      → ltb c s.num_cores ≡ true
      → IsLinked none (placed g c th s)
  placed-IsLinked v st nq i lt = record {
    held = λ d h. ground (arith, v.held d h, v.held d g, v.held c h, v.held c g, v.idle c);
    idle = λ d. ground (arith, v.idle d);
    freed = λ d. ground (arith, v.freed d);
    proper = λ h. ground (arith, v.proper h, v.proper g);
    gone = λ h. ground (arith, v.gone h, v.gone g);
    asleep = λ h. ground (arith, v.asleep h, v.asleep g);
    once = v.once;
    counted = omega (
      arith,
      v.counted,
      v.small,
      in_use_idle (s.contexts c) i,
      ltb→lt c s.num_cores lt,
      used_count-le s.num_cores (put c (record { state = used; cur_thread = some g }) s.contexts),
      used_count-put s.num_cores c (record { state = used; cur_thread = some g }) s.contexts
          (ltb→lt c s.num_cores lt),
    );
    small = v.small;
    waiting = λ h m. ground (arith, v.waiting h m);
    faked = λ h. ground (arith, v.faked h, v.faked g);
    busy = λ h d m a l. busy_lem h d m a l;
  }
    where
      busy_lem :
          (h d : ℕ)
          → mem h s.run_queue ≡ true
          → allowed_on d ((placed g c th s).threads h) ≡ true
          → ltb d s.num_cores ≡ true
          → runs_on d (placed g c th s) ≡ true
      busy_lem h d m a l =
          let ne : (h == g) ≡ false = ground (arith, m, nq) in
          let b : allowed_on d (s.threads h) ≡ true = ground (arith, a, ne) in
          elim (Option-cases (s.contexts d).cur_thread) [
            | inl n ↦ ground (arith, n, v.busy h d m b l)
            | inr k ↦ ground (arith, k.1, e, st, v.busy h d m b l)
          ]

  pub vacated-IsLinked :
      (target : ThreadState) (outs sleepers : List ℕ)
      → IsLinked none s
      → holds c (some th) ≡ true
      → th.marked_for_sleep ≡ false
      → is_null th.fake_leave ≡ true
      → is_target target ≡ true
      → (if is_sleeping target then th.futex_word == 1 else true) ≡ true
      → ((h : ℕ) → mem h outs ≡ (not (h == g) && mem h s.out_queue))
      → ((h : ℕ) → mem h sleepers ≡ (((h == g) && is_sleeping target) || mem h s.sleep_queue))
      → nodup sleepers ≡ true
      → IsLinked (some c) (vacated g c th target outs sleepers s)
  vacated-IsLinked target outs sleepers v ho mk nf tg fw mo ms nd =
      let busy : is_idle (s.contexts c).state ≡ false =
        ground (arith, v.idle c, v.held c g, e, ho) in
      let below : c < s.num_cores = ground (arith, v.proper g, e, ho) in
      record {
        held = λ d h. ground (arith, v.held d h, v.held d g, v.held c h, v.held c g);
        idle = λ d. ground (arith, v.idle d);
        freed = λ d. ground (arith, v.freed d, v.idle d, v.held d g);
        proper = λ h. ground (arith, v.proper h, v.proper g);
        gone = λ h. ground (arith, v.gone h, v.gone g, mo h);
        asleep = λ h. ground (arith, v.asleep h, v.asleep g, ms h);
        once = ground (arith, v.once, nd);
        counted = omega (
          arith,
          v.counted,
          v.small,
          in_use_used (s.contexts c) busy,
          used_count-le s.num_cores s.contexts,
          used_count-put s.num_cores c idle_context s.contexts below,
        );
        small = v.small;
        waiting = λ h m. ground (arith, v.waiting h m);
        faked = λ h. ground (arith, v.faked h, v.faked g);
        busy = λ h d m a l. still_busy h d m a l;
      }
    where
      still_busy :
          (h d : ℕ)
          → mem h s.run_queue ≡ true
          → allowed_on d ((vacated g c th target outs sleepers s).threads h) ≡ true
          → ltb d s.num_cores ≡ true
          → (points_to (some c) d || runs_on d (vacated g c th target outs sleepers s)) ≡ true
      still_busy h d m a l =
          let b : allowed_on d (s.threads h) ≡ true = ground (arith, a) in
          elim (Option-cases (s.contexts d).cur_thread) [
            | inl n ↦ ground (arith, n, v.busy h d m b l)
            | inr k ↦ ground (arith, k.1, e, ho, v.busy h d m b l, v.held d k.0)
          ]

-- The states differ at most in why the thread has no context.
abbrev pub alike : ThreadState → ThreadState → Bool
alike x y =
    same (is_running x) (is_running y)
    && same (is_out x) (is_out y)
    && same (is_sleeping x) (is_sleeping y)

alike-on_context : (x y : ThreadState) → alike x y ≡ true → on_context x ≡ on_context y
alike-on_context x y h = ground arith

-- A context that had a running thread has one still.
pub still_runs :
    (g : ℕ) (th to : ThreadInfo) (s : Scheduler) (c : ℕ)
    → s.threads g ≡ some th
    → (is_running th.state ≡ true → is_running to.state ≡ true)
    → runs_on c s ≡ true
    → runs_on c (write_thread g to s) ≡ true
still_runs g th to s c e f r = elim (Option-cases (s.contexts c).cur_thread) [
  | inl n ↦ ground (arith, n, r)
  | inr k ↦ elim (Bool-cases (is_running th.state)) [
    | inl y ↦ ground (arith, k.1, e, r, f y)
    | inr n ↦ ground (arith, k.1, e, r, n)
  ]
]

pub still_busy :
    (p : Option ℕ) (g : ℕ) (th to : ThreadInfo) (s : Scheduler)
    → s.threads g ≡ some th
    → IsLinked p s
    → (is_running th.state ≡ true → is_running to.state ≡ true)
    → to.mask ≡ th.mask
    → (h c : ℕ) → mem h s.run_queue ≡ true
    → allowed_on c ((write_thread g to s).threads h) ≡ true
    → ltb c s.num_cores ≡ true
    → (points_to p c || runs_on c (write_thread g to s)) ≡ true
still_busy p g th to s e v f em h c m a l =
    let b : allowed_on c (s.threads h) ≡ true = ground (arith, a, em, e) in
    elim (Bool-cases (runs_on c s)) [
      | inl y ↦ ground (arith, still_runs g th to s c e f y)
      | inr n ↦ ground (arith, n, v.busy h c m b l)
    ]

pub rewritten-IsLinked :
    (p : Option ℕ) (g : ℕ) (th to : ThreadInfo) (s : Scheduler)
    → s.threads g ≡ some th
    → IsLinked p s
    → alike to.state th.state ≡ true
    → to.cid ≡ th.cid
    → to.mask ≡ th.mask
    → to.fake_leave ≡ th.fake_leave
    → (waits (some th) ≡ true → waits (some to) ≡ true)
    → is_proper s.num_cores (some to) ≡ true
    → IsLinked p (write_thread g to s)
rewritten-IsLinked p g th to s e v es ec em ef w pr = record {
  held = λ d h. ground (arith, v.held d h, v.held d g, alike-on_context to.state th.state es, ec);
  idle = v.idle;
  freed = v.freed;
  proper = λ h. ground (arith, v.proper h);
  gone = λ h. ground (arith, v.gone h, v.gone g, es);
  asleep = λ h. ground (arith, v.asleep h, v.asleep g, es);
  once = v.once;
  counted = v.counted;
  small = v.small;
  waiting = λ h m. elim (Bool-cases (h == g)) [
    | inl y ↦ rw (==→eq h g y) (ground (arith, e, w (ground (arith, e, v.waiting h m, y))))
    | inr n ↦ ground (arith, n, v.waiting h m)
  ];
  faked = λ h. ground (arith, v.faked h, v.faked g, ef);
  busy = still_busy p g th to s e v (λ r. ground (arith, r, es)) em;
}

pub unqueued-IsLinked :
    (p : Option ℕ) (g : ℕ) (s : Scheduler)
    → IsLinked p s
    → IsLinked p (record s { run_queue = without g s.run_queue })
unqueued-IsLinked p g s v = record {
  held = v.held;
  idle = v.idle;
  freed = v.freed;
  proper = v.proper;
  gone = v.gone;
  asleep = v.asleep;
  once = ground (arith, v.once, nodup-without g s.run_queue);
  counted = v.counted;
  small = v.small;
  waiting = λ h m. v.waiting h (ground (arith, m, mem-without h g s.run_queue));
  faked = v.faked;
  busy = λ h d m a l. v.busy h d (ground (arith, m, mem-without h g s.run_queue)) a l;
}
