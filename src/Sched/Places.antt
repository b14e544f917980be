-- ===== src/Sched/Places.antt =====
-- `schedThread` and `schedContext` find what there is, and leave the invariant but for the context
-- that they found.
use me_mo_tracer.Base.{
  ℕ, ◌≡◌, refl, sym, Bool, true, false, ◌&&◌, ◌⊎◌, Option, none, some, List, ltb, inl, inr,
  Bool-cases, Option-cases, arith,
}
use me_mo_tracer.Sched.{
  ThreadState, blocked, ThreadInfo, Scheduler, is_out, is_running, is_idle, on_context, points_to,
  allows,
}
use me_mo_tracer.Sched.Queues.{mem, remove, without, first, mem-without, first-some, first-none}
use me_mo_tracer.Sched.Policy.{
  allowed_on, cid_allowed, free_context, steal, sched_thread, sched_context,
}
use me_mo_tracer.Sched.Links.{holds, state_is, waits, runs_on, IsLinked}
use me_mo_tracer.Sched.Moves.{vacated, deschedule-vacated, vacated-IsLinked}

-- The context is free for a thread that will be there.
pub record IsFreed (c : ℕ) (s : Scheduler) : Type 0 where
  pub linked : IsLinked (some c) s
  pub idle : is_idle (s.contexts c).state ≡ true
  pub in_range : ltb c s.num_cores ≡ true

pub remove-some : (g : ℕ) (xs : List ℕ) → mem g xs ≡ true → remove g xs ≡ some (without g xs)
unfolding remove
remove-some g xs m = rw m refl

pub thread_of :
    (test : ThreadState → Bool) (o : Option ThreadInfo)
    → state_is test o ≡ true
    → (th : ThreadInfo) × (o ≡ some th) × (test th.state ≡ true)
thread_of test none h = cc
thread_of test (some th) h = (th, refl, h)

-- The outcome of `sched_context`.
abbrev pub Unwanted : ℕ → Scheduler → Type 0
Unwanted c s = (g : ℕ) → mem g s.run_queue ≡ true → allowed_on c (s.threads g) ≡ false

pub record IsNext (c g : ℕ) (th : ThreadInfo) (s : Scheduler) : Type 0 where
  pub info : s.threads g ≡ some th
  pub ready : waits (some th) ≡ true
  pub queued : mem g s.run_queue ≡ true
  pub chosen : sched_context c s ≡ some (some g, record s { run_queue = without g s.run_queue })

pub sched_context-cases :
    (p : Option ℕ) (c : ℕ) (s : Scheduler)
    → IsLinked p s
    → ((sched_context c s ≡ some (none, s)) × Unwanted c s)
      ⊎ ((g : ℕ) × (th : ThreadInfo) × IsNext c g th s)
unfolding sched_context
sched_context-cases p c s v =
    let wanted : ℕ → Bool = λ g. allowed_on c (s.threads g) in
    elim (Option-cases (first wanted s.run_queue)) [
      | inl n ↦ inl (rw (sched_context, n) refl, λ g m. first-none wanted s.run_queue g n m)
      | inr r ↦
          let f = first-some wanted s.run_queue r.0 r.1 in
          let w = v.waiting r.0 f.0 in
          elim (Option-cases (s.threads r.0)) [
            | inl n ↦ absurd (ground (arith, n, w))
            | inr t ↦ inr (
              r.0,
              t.0,
              record {
                info = t.1;
                ready = ground (arith, t.1, w);
                queued = f.0;
                chosen = rw (sched_context, r.1, remove-some r.0 s.run_queue f.0) refl;
              },
            )
          ]
    ]

-- The outcome of `sched_thread`.
abbrev pub NoPlace : ThreadInfo → Scheduler → Type 0
NoPlace th s = (c : ℕ) → allows th c ≡ true → ltb c s.num_cores ≡ true → runs_on c s ≡ true

pub record IsPlace (g c : ℕ) (s t : Scheduler) : Type 0 where
  pub freed : IsFreed c t
  pub runners : (h : ℕ) → state_is is_running (s.threads h) ≡ true → t.threads h ≡ s.threads h
  pub same_thread : t.threads g ≡ s.threads g
  pub same_queue : t.run_queue ≡ s.run_queue

free_context-some :
    (th : ThreadInfo) (s : Scheduler) (c : ℕ)
    → IsLinked none s
    → ltb th.cid s.num_cores ≡ true
    → free_context th s ≡ some c
    → (mem c s.free_list ≡ true) × (allows th c ≡ true)
unfolding free_context
free_context-some th s c v lt e =
    elim (Bool-cases (is_idle (s.contexts th.cid).state && allows th th.cid)) [
      | inl y ↦
          let k : th.cid ≡ c = ground (arith, e, y) in
          rw (sym k) (ground (arith, v.freed th.cid, y), ground (arith, y))
      | inr n ↦ first-some (allows th) s.free_list c (ground (arith, e, n))
    ]

free_context-none :
    (th : ThreadInfo) (s : Scheduler) (c : ℕ)
    → free_context th s ≡ none
    → mem c s.free_list ≡ true
    → allows th c ≡ false
unfolding free_context
free_context-none th s c e m = first-none (allows th) s.free_list c (ground (arith, e)) m

taken-IsFreed :
    (c : ℕ) (s : Scheduler)
    → IsLinked none s
    → mem c s.free_list ≡ true
    → IsFreed c (record s { free_list = without c s.free_list })
taken-IsFreed c s v m = record {
  linked = record {
    held = v.held;
    idle = v.idle;
    freed = λ d. ground (arith, v.freed d, mem-without d c s.free_list);
    proper = v.proper;
    gone = v.gone;
    asleep = v.asleep;
    once = v.once;
    counted = v.counted;
    small = v.small;
    waiting = v.waiting;
    faked = v.faked;
    busy = λ h d q a l. ground (arith, v.busy h d q a l);
  };
  idle = ground (arith, v.freed c, m);
  in_range = ground (arith, v.freed c, m);
}

-- A thread that is out loses its context.
pub evicted-IsFreed :
    (o : ℕ) (th : ThreadInfo) (s : Scheduler)
    → IsLinked none s
    → s.threads o ≡ some th
    → is_out th.state ≡ true
    → IsFreed th.cid (vacated o th.cid th blocked (without o s.out_queue) s.sleep_queue s)
evicted-IsFreed o th s v e i = record {
  linked =
      vacated-IsLinked o th.cid th s e blocked (without o s.out_queue) s.sleep_queue v
        (ground (arith, i)) (ground (arith, v.proper o, e, i)) (ground (arith, v.proper o, e, i))
        refl refl (λ h. mem-without h o s.out_queue) (λ h. ground arith) (ground (arith, v.once));
  idle = ground arith;
  in_range = ground (arith, v.proper o, e);
}

stolen :
    (th : ThreadInfo) (g o : ℕ) (info : ThreadInfo) (s : Scheduler)
    → IsLinked none s
    → state_is is_out (s.threads g) ≡ false
    → first (λ x. cid_allowed th (s.threads x)) s.out_queue ≡ some o
    → s.threads o ≡ some info
    → is_out info.state ≡ true
    → mem o s.out_queue ≡ true
    → (c : ℕ) × (t : Scheduler) × (steal th s ≡ some (some c, t)) × IsPlace g c s t
unfolding steal
stolen th g o info s v inside r e i m =
    let outs = without o s.out_queue in
    let p : points_to (s.contexts info.cid).cur_thread o ≡ true =
      ground (arith, v.held info.cid o, e, i) in
    let h : holds info.cid (some info) ≡ true = ground (arith, i) in
    let busy : is_idle (s.contexts info.cid).state ≡ false = ground (arith, v.idle info.cid, p) in
    let run =
      deschedule-vacated o info.cid info blocked (record s { out_queue = outs }) e h busy p refl in
    (
      info.cid,
      vacated o info.cid info blocked outs s.sleep_queue s,
      rw (steal, r, e, remove-some o s.out_queue m, run) refl,
      record {
        freed = evicted-IsFreed o info s v e i;
        runners = λ h r. ground (arith, e, i, r);
        same_thread = ground (arith, inside, e, i);
        same_queue = refl;
      },
    )

steal-cases :
    (th : ThreadInfo) (g : ℕ) (s : Scheduler)
    → IsLinked none s
    → state_is is_out (s.threads g) ≡ false
    → ((steal th s ≡ some (none, s))
        × ((o : ℕ) → mem o s.out_queue ≡ true → cid_allowed th (s.threads o) ≡ false))
      ⊎ ((c : ℕ) × (t : Scheduler) × (steal th s ≡ some (some c, t)) × IsPlace g c s t)
unfolding steal
steal-cases th g s v inside =
    let fit : ℕ → Bool = λ o. cid_allowed th (s.threads o) in
    elim (Option-cases (first fit s.out_queue)) [
      | inl n ↦ inl (rw (steal, n) refl, λ o m. first-none fit s.out_queue o n m)
      | inr r ↦
          let f = first-some fit s.out_queue r.0 r.1 in
          let i : state_is is_out (s.threads r.0) ≡ true = ground (arith, v.gone r.0, f.0) in
          let w = thread_of is_out (s.threads r.0) i in
          inr (stolen th g r.0 w.0 s v inside r.1 w.1 w.2 f.0)
    ]

pub sched_thread-cases :
    (g : ℕ) (th : ThreadInfo) (s : Scheduler)
    → IsLinked none s
    → s.threads g ≡ some th
    → on_context th.state ≡ false
    → ((sched_thread g s ≡ some (none, s)) × NoPlace th s)
      ⊎ ((c : ℕ) × (t : Scheduler) × (sched_thread g s ≡ some (some c, t)) × IsPlace g c s t)
unfolding sched_thread
sched_thread-cases g th s v e off =
    let lt : ltb th.cid s.num_cores ≡ true = ground (arith, v.proper g, e) in
    let inside : state_is is_out (s.threads g) ≡ false = ground (arith, e, off) in
    elim (Option-cases (free_context th s)) [
      | inl n ↦ elim (steal-cases th g s v inside) [
        | inl u ↦ inl (rw (sched_thread, e, lt, n, u.0) refl, λ c a l. taken c a l n u.1)
        | inr k ↦ inr (k.0, k.1, rw (sched_thread, e, lt, n, k.2) refl, k.3)
      ]
      | inr c ↦
          let f = free_context-some th s c.0 v lt c.1 in
          inr (
            c.0,
            record s { free_list = without c.0 s.free_list },
            rw (sched_thread, e, lt, c.1, remove-some c.0 s.free_list f.0, f.1) refl,
            record {
              freed = taken-IsFreed c.0 s v f.0;
              runners = λ h r. refl;
              same_thread = refl;
              same_queue = refl;
            },
          )
    ]
  where
    taken :
        (c : ℕ)
        → allows th c ≡ true
        → ltb c s.num_cores ≡ true
        → free_context th s ≡ none
        → ((o : ℕ) → mem o s.out_queue ≡ true → cid_allowed th (s.threads o) ≡ false)
        → runs_on c s ≡ true
    taken c a l n outs = elim (Option-cases (s.contexts c).cur_thread) [
      | inl k ↦
          let m : mem c s.free_list ≡ true = ground (arith, v.freed c, v.idle c, k, l) in
          absurd (ground (arith, a, free_context-none th s c n m))
      | inr k ↦ elim (Bool-cases (mem k.0 s.out_queue)) [
        | inl m ↦ absurd (ground (arith, k.1, a, outs k.0 m, v.held c k.0, v.gone k.0))
        | inr m ↦ ground (arith, k.1, m, v.held c k.0, v.gone k.0)
      ]
    ]
