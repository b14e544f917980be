-- ===== src/Sched/Callbacks.antt =====
-- `callback` of src/scheduler.h: the sleepers that are due, and the end of a quantum.
use me_mo_tracer.Base.{
  ℕ, ◌+◌, ◌-◌, ◌<◌, ◌^◌, Option, none, ◌≡◌, refl, sym, ◌∙◌, ap, true, false, not, ◌||◌, some,
  if◌then◌else◌, ltb, ◌==◌, Returns, inl, inr, Bool-cases, if-true, if-false, arith,
}
use me_mo_tracer.Sched.{Scheduler, ThreadInfo, is_running, is_sleeping, points_to}
use me_mo_tracer.Sched.Queues.{mem}
use me_mo_tracer.Sched.Operations.{wakeup_key}
use me_mo_tracer.Sched.Links.{state_is}
use me_mo_tracer.Base.{leb}
use me_mo_tracer.Sched.Policy.{sched_tick}
use me_mo_tracer.Base.{◌%◌, add64}
use me_mo_tracer.Sched.Links.{used_count-le}
use me_mo_tracer.Sched.Phases.{is_empty, callback}
use me_mo_tracer.Sched.Wakes.{is_up, IsWoken, OnTime, ordered, wake_due-IsWoken}
use me_mo_tracer.Sched.Ticks.{IsTicked, IsKept, promise_holds, sched_tick-IsTicked}

-- Waking the sleepers breaks no promise.
woken-IsKept : (s t : Scheduler) → IsKept s → IsWoken s t → IsKept t
woken-IsKept s t k w = record {
  valid = w.valid;
  kept = λ g d p.
      let old : promise_holds g d s ≡ true =
        k.kept g d (ap (λ o. points_to o d) (sym (w.promises g)) ∙ p) in
      let a : state_is is_sleeping (s.threads g) ≡ false = ground (arith, old) in
      let b : state_is is_sleeping (s.threads d) ≡ false = ground (arith, old) in
      ground (arith, old, w.others g a, w.others d b, w.same_queue);
}

-- The phase is counted.
next_phase : (s : Scheduler) (p : ℕ) → IsKept s → IsKept (record s { cur_phase = p })
next_phase s p k =
    let v = k.valid in
    record {
      valid = record {
        held = v.held;
        idle = v.idle;
        freed = v.freed;
        proper = v.proper;
        gone = v.gone;
        asleep = v.asleep;
        once = v.once;
        counted = v.counted;
        small = v.small;
        waiting = v.waiting;
        faked = v.faked;
        busy = v.busy;
      };
      kept = k.kept;
    }

-- The sleepers are all due at a later phase, and the phase counter is not about to wrap.
pub record AllLater (s : Scheduler) : Type 0 where
  pub room : s.cur_phase < 2 ^ 64 - 1
  pub later : (g : ℕ) → mem g s.sleep_queue ≡ true → ltb s.cur_phase (wakeup_key s g) ≡ true

-- The phase counts one more; the sleepers that are due are up, and the others are due later.
pub record IsOver (s t : Scheduler) : Type 0 where
  pub kept : IsKept t
  pub phase : t.cur_phase ≡ s.cur_phase + 1
  pub later : (g : ℕ) → mem g t.sleep_queue ≡ true → ltb t.cur_phase (wakeup_key t g) ≡ true
  pub risen :
      (g : ℕ)
      → mem g s.sleep_queue ≡ true
      → leb (wakeup_key s g) (s.cur_phase + 1) ≡ true
      → is_up (t.threads g) ≡ true

up_idle : (o : Option ThreadInfo) → is_up o ≡ true → state_is is_running o ≡ false
up_idle none e = refl
up_idle (some th) e = ground (arith, e)

-- The end of a quantum touches no sleeper, and no thread that was woken.
ticked-IsOver : (s t u : Scheduler) → IsOver s t → IsTicked t u → IsOver s u
ticked-IsOver s t u o r = record {
  kept = r.kept;
  phase = r.same_phase ∙ o.phase;
  later = λ g m.
      let m1 : mem g t.sleep_queue ≡ true = ap (mem g) (sym r.same_beds) ∙ m in
      ap (λ p. ltb p (wakeup_key u g)) r.same_phase
      ∙ ap (λ f. ltb t.cur_phase (f g)) r.same_keys
      ∙ o.later g m1;
  risen = λ g m d. let up = o.risen g m d in ap is_up (r.others g (up_idle (t.threads g) up)) ∙ up;
}

-- At the end of a phase, if there is a core, the sleep queue is in order, every sleeper is due at a
-- later phase and the phase counter does not wrap, no assertion fails. The phase counts one more, and
-- the invariant holds; each sleeper that is due then is blocked, with its futex released; those that
-- still sleep are due later; and contexts are promised to threads that wait, by threads that run there.
pub callback-IsKept :
    (rand_int : ℕ → ℕ) (s : Scheduler)
    → IsKept s
    → ltb 0 s.num_cores ≡ true
    → AllLater s
    → ordered (wakeup_key s) s.sleep_queue ≡ true
    → Returns (callback rand_int s) (IsOver s)
unfolding callback
callback-IsKept rand_int s k l a o =
    let s1 = record s { cur_phase = add64 s.cur_phase 1 } in
    let next : s1.cur_phase ≡ s.cur_phase + 1 = omega (arith, a.room) in
    let on : OnTime s1 = λ g m. ground (arith, next, a.later g m) in
    let fits : leb s.scheduled_threads s.num_cores ≡ true =
      ground (arith, (k.valid).counted, used_count-le s.num_cores s.contexts) in
    let k1 = next_phase s (add64 s.cur_phase 1) k in
    let w = wake_due-IsWoken s.sleep_queue s1 refl k1.valid on o in
    let t = w.0 in
    let kt = woken-IsKept s1 t k1 w.2 in
    let idle_run = is_empty t.run_queue || not (t.cur_phase % t.sched_quantum == 0) in
    let run : callback rand_int s ≡ (if idle_run then some t else sched_tick rand_int t) =
      rw (callback, fits, w.1) refl in
    let same : t.cur_phase ≡ s1.cur_phase = (w.2).same_phase in
    let over : IsOver s t = record {
      kept = kt;
      phase = same ∙ next;
      later = λ g m. ap (λ p. ltb p (wakeup_key t g)) same ∙ (w.2).late g m;
      risen = λ g m d.
          (w.2).risen g (sym ((k.valid).asleep g) ∙ m) (ap (leb (wakeup_key s g)) next ∙ d);
    } in
    elim (Bool-cases idle_run) [
      | inl y ↦ rw (run ∙ if-true idle_run _ _ y) over
      | inr n ↦
          let lt : ltb 0 t.num_cores ≡ true = ap (ltb 0) (w.2).same_cores ∙ l in
          let r = sched_tick-IsTicked rand_int t kt lt in
          rw (run ∙ if-false idle_run _ _ n ∙ r.1) (ticked-IsOver s t (r.0) over r.2)
    ]
