-- ===== src/Sched/Ticks.antt =====
-- The end of a quantum: contexts are promised to threads that wait, each by the thread that runs there.
use me_mo_tracer.Base.{
  ℕ, ◌≡◌, refl, ◌∙◌, Bool, true, false, ap, not, ◌&&◌, none, some, List, [], ◌∷◌, ltb, ◌==◌, ◌>>=◌,
  inl, inr, Bool-cases, Option-cases, arith,
}
use me_mo_tracer.Sched.{ThreadInfo, Scheduler, is_running, points_to, write_thread}
use me_mo_tracer.Sched.Queues.{mem, without, mem-without}
use me_mo_tracer.Sched.Policy.{allowed_on}
use me_mo_tracer.Sched.Operations.{wakeup_key}
use me_mo_tracer.Sched.Links.{handoff_of, state_is, waits, is_proper, runs_on, IsValid}
use me_mo_tracer.Sched.Moves.{unqueued-IsLinked, rewritten-IsLinked}
use me_mo_tracer.Base.{◌-◌, zero, suc, ◌+◌, All, All-set, All-get_or, set, get_or, leb}
use me_mo_tracer.Sched.Places.{remove-some, thread_of}
use me_mo_tracer.Sched.Queues.{nodup, first-some, first}
use me_mo_tracer.Sched.Policy.{promise, tick_loop, sched_tick, shuffle, cids_from}
use me_mo_tracer.Base.{fun_ext}

-- Every promise is made by a thread that runs, to a thread that waits and is off the run queue.
abbrev pub promise_holds : ℕ → ℕ → Scheduler → Bool
promise_holds g d s =
    state_is is_running (s.threads g) && waits (s.threads d) && not (mem d s.run_queue)

pub record IsKept (s : Scheduler) : Type 0 where
  pub valid : IsValid s
  pub kept : (g d : ℕ) → points_to (handoff_of (s.threads g)) d ≡ true → promise_holds g d s ≡ true

abbrev InRange : ℕ → ℕ → Type 0
InRange n c = ltb c n ≡ true

mem-All : (n c : ℕ) (cs : List ℕ) → All (InRange n) cs → mem c cs ≡ true → ltb c n ≡ true
mem-All n c [] a m = cc
mem-All n c (x ∷ xs) a m = ground (arith, a.0, m, mem-All n c xs a.1)

All-without : (n c : ℕ) (cs : List ℕ) → All (InRange n) cs → All (InRange n) (without c cs)
All-without n c [] a = tt
All-without n c (x ∷ xs) a = elim (Bool-cases (x == c)) [
  | inl y ↦ rw y (All-without n c xs a.1)
  | inr m ↦ rw m (a.0, All-without n c xs a.1)
]

All-cids_from : (m n c : ℕ) → leb (c + m) n ≡ true → All (InRange n) (cids_from m c)
unfolding cids_from
All-cids_from zero n c l = tt
All-cids_from (suc m) n c l = (ground (arith, l), All-cids_from m n (suc c) (ground (arith, l)))

All-shuffle :
    (rand_int : ℕ → ℕ) (n i : ℕ) (cs : List ℕ)
    → ltb 0 n ≡ true
    → All (InRange n) cs
    → All (InRange n) (shuffle rand_int i cs)
unfolding shuffle
All-shuffle rand_int n zero cs l a = a
All-shuffle rand_int n (suc i) cs l a =
    let j = rand_int (suc i) in
    let x = get_or cs (suc i) 0 in
    let y = get_or cs j 0 in
    let px = All-get_or (InRange n) cs (suc i) 0 l a in
    let py = All-get_or (InRange n) cs j 0 l a in
    All-shuffle rand_int n i (set (set cs (suc i) y) j x) l
      (All-set (InRange n) (set cs (suc i) y) j x px (All-set (InRange n) cs (suc i) y py a))

-- One thread of the run queue is promised a context.
abbrev promised : ℕ → ℕ → ThreadInfo → Scheduler → Scheduler
promised g v th s = record (write_thread v (record th { handoff_thread = some g }) s) {
  run_queue = without g s.run_queue;
}

promised-IsKept :
    (g v : ℕ) (th : ThreadInfo) (s : Scheduler)
    → IsKept s
    → s.threads v ≡ some th
    → is_running th.state ≡ true
    → mem g s.run_queue ≡ true
    → IsKept (promised g v th s)
promised-IsKept g v th s k e r m =
    let to = record th { handoff_thread = some g } in
    let ok = k.valid in
    let pr : is_proper s.num_cores (some to) ≡ true = ground (arith, ok.proper v, e) in
    record {
      valid =
          unqueued-IsLinked none g (write_thread v to s)
            (rewritten-IsLinked none v th to s e ok (ground arith) refl refl refl (λ q. q) pr);
      kept =
          λ h d p. ground (arith, p, e, r, k.kept h d, ok.waiting g m, mem-without d g s.run_queue);
    }

-- A context that a waiting thread may have runs a thread, as the note in `schedTick` says.
record IsVictim (v : ℕ) (th : ThreadInfo) (c : ℕ) (s : Scheduler) : Type 0 where
  cur : (s.contexts c).cur_thread ≡ some v
  info : s.threads v ≡ some th
  runs : is_running th.state ≡ true

victim :
    (g c : ℕ) (s : Scheduler)
    → IsValid s
    → mem g s.run_queue ≡ true
    → allowed_on c (s.threads g) ≡ true
    → ltb c s.num_cores ≡ true
    → (v : ℕ) × (th : ThreadInfo) × IsVictim v th c s
victim g c s ok m a l =
    let r : runs_on c s ≡ true = ok.busy g c m a l in
    elim (Option-cases (s.contexts c).cur_thread) [
      | inl n ↦ absurd (ground (arith, n, r))
      | inr v ↦
          let w = thread_of is_running (s.threads v.0) (ground (arith, v.1, r)) in
          (v.0, w.0, record { cur = v.1; info = w.1; runs = w.2 })
    ]

tick_past :
    (g x : ℕ) (gs avail : List ℕ) (s : Scheduler)
    → first (λ c. allowed_on c (s.threads g)) (x ∷ avail) ≡ none
    → tick_loop (g ∷ gs) (x ∷ avail) s ≡ tick_loop gs (x ∷ avail) s
unfolding tick_loop
tick_past g x gs avail s n = rw (tick_loop, n) refl

tick_give :
    (g x : ℕ) (gs avail : List ℕ) (c v : ℕ) (th : ThreadInfo) (s : Scheduler)
    → first (λ d. allowed_on d (s.threads g)) (x ∷ avail) ≡ some c
    → mem c (x ∷ avail) ≡ true
    → mem g s.run_queue ≡ true
    → IsVictim v th c s
    → tick_loop (g ∷ gs) (x ∷ avail) s ≡ tick_loop gs (without c (x ∷ avail)) (promised g v th s)
unfolding tick_loop promise
tick_give g x gs avail c v th s f mc m w =
    rw
      (
        tick_loop,
        f,
        remove-some c (x ∷ avail) mc,
        ◌>>=◌,
        promise,
        w.cur,
        ◌>>=◌,
        w.info,
        remove-some g s.run_queue m,
      )
      refl

promised_keys :
    (g v : ℕ) (th : ThreadInfo) (s : Scheduler)
    → s.threads v ≡ some th
    → wakeup_key (promised g v th s) ≡ wakeup_key s
promised_keys g v th s e = fun_ext (λ h. ground (arith, e))

-- What a quantum's end leaves of the sleepers.
pub record IsTicked (s t : Scheduler) : Type 0 where
  pub kept : IsKept t
  pub same_beds : t.sleep_queue ≡ s.sleep_queue
  pub same_phase : t.cur_phase ≡ s.cur_phase
  pub same_keys : wakeup_key t ≡ wakeup_key s
  pub others : (h : ℕ) → state_is is_running (s.threads h) ≡ false → t.threads h ≡ s.threads h

tick_loop-IsTicked :
    (gs avail : List ℕ) (s : Scheduler)
    → IsKept s
    → nodup gs ≡ true
    → ((h : ℕ) → mem h gs ≡ true → mem h s.run_queue ≡ true)
    → All (InRange s.num_cores) avail
    → (t : Scheduler) × (tick_loop gs avail s ≡ some t) × IsTicked s t
unfolding tick_loop
tick_loop-IsTicked [] avail s k nd sub a = (
  s,
  refl,
  record { kept = k; same_beds = refl; same_phase = refl; same_keys = refl; others = λ h n. refl },
)
tick_loop-IsTicked (g ∷ gs) [] s k nd sub a = (
  s,
  refl,
  record { kept = k; same_beds = refl; same_phase = refl; same_keys = refl; others = λ h n. refl },
)
tick_loop-IsTicked (g ∷ gs) (x ∷ avail) s k nd sub a =
    let cs = x ∷ avail in
    let fit : ℕ → Bool = λ c. allowed_on c (s.threads g) in
    elim (Option-cases (first fit cs)) [
      | inl n ↦
          let r =
            tick_loop-IsTicked gs cs s k (ground (arith, nd)) (λ h m. sub h (ground (arith, m)))
              a in
          (r.0, tick_past g x gs avail s n ∙ r.1, r.2)
      | inr c ↦
          let f = first-some fit cs c.0 c.1 in
          let m : mem g s.run_queue ≡ true = sub g (ground arith) in
          let w = victim g c.0 s k.valid m f.1 (mem-All s.num_cores c.0 cs a f.0) in
          let next = promised g w.0 w.1 s in
          let left : (h : ℕ) → mem h gs ≡ true → mem h next.run_queue ≡ true =
            λ h q. ground (arith, nd, q, sub h (ground (arith, q)), mem-without h g s.run_queue) in
          let r =
            tick_loop-IsTicked gs (without c.0 cs) next
              (promised-IsKept g w.0 w.1 s k (w.2).info (w.2).runs m) (ground (arith, nd)) left
              (All-without s.num_cores c.0 cs a) in
          (
            r.0,
            tick_give g x gs avail c.0 w.0 w.1 s c.1 f.0 m w.2 ∙ r.1,
            record {
              kept = (r.2).kept;
              same_beds = (r.2).same_beds;
              same_phase = (r.2).same_phase;
              same_keys = (r.2).same_keys ∙ promised_keys g (w.0) (w.1) s (w.2).info;
              others = λ h n.
                  let same : next.threads h ≡ s.threads h =
                    ground (arith, n, (w.2).info, (w.2).runs) in
                  (r.2).others h (ap (state_is is_running) same ∙ n) ∙ same;
            },
          )
    ]

pub sched_tick-IsTicked :
    (rand_int : ℕ → ℕ) (s : Scheduler)
    → IsKept s
    → ltb 0 s.num_cores ≡ true
    → (t : Scheduler) × (sched_tick rand_int s ≡ some t) × IsTicked s t
unfolding sched_tick
sched_tick-IsTicked rand_int s k l =
    let n = s.num_cores in
    tick_loop-IsTicked s.run_queue (shuffle rand_int (n - 1) (cids_from n 0)) s k
      (ground (arith, (k.valid).once)) (λ h m. m)
      (All-shuffle rand_int n (n - 1) (cids_from n 0) l (All-cids_from n n 0 (ground arith)))
