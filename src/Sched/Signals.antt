-- ===== src/Sched/Signals.antt =====
-- The operations that move no thread between contexts: new threads, marks, and system calls whose
-- `leave` is put off. And the scheduler at its start.
use me_mo_tracer.Base.{
  Returns-weaken, ℕ, ◌≡◌, refl, Bool, true, false, not, ◌&&◌, ◌||◌, none, some, List, [], ◌∷◌, ◌++◌,
  ltb, ◌==◌, Returns, inl, inr, Bool-cases, Option-cases, arith,
}
use me_mo_tracer.Sched.{
  ThreadInfo, Scheduler, is_running, is_sleeping, points_to, is_null, write_thread, idle_context,
}
use me_mo_tracer.Sched.Queues.{mem, mem-push}
use me_mo_tracer.Sched.Policy.{allowed_on}
use me_mo_tracer.Sched.Operations.{leave}
use me_mo_tracer.Sched.Links.{used_count, is_proper, IsValid}
use me_mo_tracer.Sched.Moves.{rewritten-IsLinked}
use me_mo_tracer.Base.{◌<◌, ◌^◌, zero, suc, ◌+◌, leb, length, any}
use me_mo_tracer.Sched.{is_blocked}
use me_mo_tracer.Sched.Moves.{still_busy}
use me_mo_tracer.Sched.Leaves.{IsHolder, leave-IsValid}
use me_mo_tracer.Sched.Joins.{rouse-IsAway}
use me_mo_tracer.Sched.Policy.{cids_from}
use me_mo_tracer.Sched.Operations.{
  start, mark_for_sleep, notify_sleep_end, syscall_leave, max_threads,
}

-- The constructor.
unfoldable pub init : ℕ → ℕ → Scheduler
unfolding cids_from
init num_cores sched_quantum = record {
  num_cores = num_cores;
  sched_quantum = sched_quantum;
  threads = λ g. none;
  contexts = λ c. idle_context;
  free_list = cids_from num_cores 0;
  run_queue = [];
  out_queue = [];
  sleep_queue = [];
  fake_leaves = [];
  blocking_syscalls = λ pid pc. false;
  cur_phase = 0;
  scheduled_threads = 0;
  max_allowed_futex_wakeups = 0;
  unmatched_futex_wakeups = 0;
  calls = [];
}

mem-cids_from : (n c d : ℕ) → mem d (cids_from n c) ≡ (leb c d && ltb d (c + n))
unfolding cids_from
mem-cids_from zero c d = ground arith
mem-cids_from (suc n) c d = ground (arith, mem-cids_from n (suc c) d)

unused : (n : ℕ) → 0 ≡ used_count n (λ c. idle_context)
unused zero = refl
unused (suc n) = omega (arith, unused n)

pub init-IsValid : (n q : ℕ) → n < 2 ^ 32 → IsValid (init n q)
unfolding init
init-IsValid n q l = record {
  held = λ c g. refl;
  idle = λ c. refl;
  freed = λ c. ground (arith, mem-cids_from n 0 c);
  proper = λ g. refl;
  gone = λ g. refl;
  asleep = λ g. refl;
  once = refl;
  counted = unused n;
  small = l;
  waiting = λ g m. cc;
  faked = λ g. refl;
  busy = λ g c m a l. cc;
}

pub start-IsValid :
    (g : ℕ) (mask : List Bool) (s : Scheduler)
    → IsValid s
    → ltb 0 s.num_cores ≡ true
    → s.threads g ≡ none
    → (length mask == s.num_cores) ≡ true
    → any mask ≡ true
    → Returns (start g mask s) IsValid
unfolding start
start-IsValid g mask s v lt e len some_bit =
    rw (start, e, len, some_bit)
      (record {
        held = λ d h. ground (arith, v.held d h, v.held d g, e);
        idle = v.idle;
        freed = v.freed;
        proper = λ h. ground (arith, v.proper h, lt);
        gone = λ h. ground (arith, v.gone h, v.gone g, e);
        asleep = λ h. ground (arith, v.asleep h, v.asleep g, e);
        once = v.once;
        counted = v.counted;
        small = v.small;
        waiting = λ h m. ground (arith, v.waiting h m, e);
        faked = λ h. ground (arith, v.faked h, v.faked g, e);
        busy = λ h d m a l.
            let other : (h == g) ≡ false = ground (arith, v.waiting h m, e) in
            let b : allowed_on d (s.threads h) ≡ true = ground (arith, a, other) in
            elim (Option-cases (s.contexts d).cur_thread) [
              | inl n ↦ ground (arith, n, v.busy h d m b l)
              | inr k ↦ ground (arith, k.1, e, v.busy h d m b l)
            ];
      })

pub mark_for_sleep-IsValid :
    (g phase : ℕ) (th : ThreadInfo) (s : Scheduler)
    → IsValid s
    → s.threads g ≡ some th
    → is_running th.state ≡ true
    → is_null th.fake_leave ≡ true
    → th.marked_for_sleep ≡ false
    → Returns (mark_for_sleep g phase s) IsValid
unfolding mark_for_sleep
mark_for_sleep-IsValid g phase th s v e r f m =
    let to = record th { marked_for_sleep = true; wakeup_phase = phase; futex_word = 1 } in
    let pr : is_proper s.num_cores (some to) ≡ true = ground (arith, v.proper g, e, r, f) in
    rw (mark_for_sleep, e, m)
      (rewritten-IsLinked none g th to s e v (ground arith) refl refl refl
        (λ q. ground (arith, q, r)) pr)

pub notify_sleep_end-IsValid :
    (g : ℕ) (th : ThreadInfo) (s : Scheduler)
    → IsValid s
    → s.threads g ≡ some th
    → (is_sleeping th.state || is_blocked th.state) ≡ true
    → Returns (notify_sleep_end g s) IsValid
unfolding notify_sleep_end
notify_sleep_end-IsValid g th s v e o =
    let m : th.marked_for_sleep ≡ false = ground (arith, v.proper g, e, o) in
    elim (Bool-cases (is_blocked th.state)) [
      | inl y ↦ rw (notify_sleep_end, e, m, o, y) v
      | inr n ↦
          let r = rouse-IsAway g th s v e (ground (arith, o, n)) in
          rw (notify_sleep_end, e, m, o, n, r.1) ((r.2).valid)
    ]

-- The system call is put off.
put_off-IsValid :
    (g pc : ℕ) (th : ThreadInfo) (s : Scheduler)
    → IsValid s
    → s.threads g ≡ some th
    → is_running th.state ≡ true
    → th.marked_for_sleep ≡ false
    → IsValid (record (write_thread g (record th { fake_leave = some pc }) s) {
      fake_leaves = s.fake_leaves ++ (g ∷ []);
    })
put_off-IsValid g pc th s v e r m = record {
  held = λ d h. ground (arith, v.held d h, v.held d g, e);
  idle = v.idle;
  freed = v.freed;
  proper = λ h. ground (arith, v.proper h, v.proper g, e, r, m);
  gone = λ h. ground (arith, v.gone h, v.gone g, e);
  asleep = λ h. ground (arith, v.asleep h, v.asleep g, e);
  once = v.once;
  counted = v.counted;
  small = v.small;
  waiting = λ h x. ground (arith, v.waiting h x, e);
  faked = λ h. ground (arith, v.faked h, mem-push h g s.fake_leaves);
  busy = still_busy none g th (record th { fake_leave = some pc }) s e v (λ x. x) refl;
}

-- A thread that runs, is in no system call and has promised its context to nobody may enter one: it leaves, or its leaving is put off,
-- and the invariant holds afterwards in both cases.
pub syscall_leave-IsValid :
    (pid g c pc : ℕ) (th : ThreadInfo) (s : Scheduler)
    → IsHolder g c th s
    → is_null th.fake_leave ≡ true
    → is_null th.handoff_thread ≡ true
    → ltb pid max_threads ≡ true
    → Returns (syscall_leave pid g c pc s) IsValid
unfolding syscall_leave
syscall_leave-IsValid pid g c pc th s k f h b =
    let v = k.valid in
    let e = k.info in
    let r = k.runs in
    let p : points_to (s.contexts c).cur_thread g ≡ true =
      ground (arith, v.held c g, e, r, k.place) in
    let cur : (s.contexts c).cur_thread ≡ some g = ground (arith, p) in
    let self : (g == g) ≡ true = ground arith in
    let seat : (th.cid == c) ≡ true = ground (arith, k.place) in
    elim (Bool-cases (s.blocking_syscalls pid pc || th.marked_for_sleep)) [
      | inl y ↦
          rw (syscall_leave, cur, e, self, seat, r, b, y)
            (Returns-weaken (leave g c s) _ IsValid (leave-IsValid g c th s k f h) (λ t r. r.0))
      | inr n ↦
          let fresh : (is_null th.fake_leave && not (mem g s.fake_leaves)) ≡ true =
            ground (arith, v.faked g, e, f) in
          rw (syscall_leave, cur, e, self, seat, r, b, n, fresh)
            (put_off-IsValid g pc th s v e r (ground (arith, n)))
    ]
