-- ===== src/Sched/Links.antt =====
-- The invariant of the scheduler: threads and contexts point to each other, the lists hold what their
-- states say, and no thread of the run queue may run on a context that is free or is kept by a thread
-- that is out.
use me_mo_tracer.Base.{
  ℕ, zero, suc, ◌+◌, ◌<◌, ◌≤◌, ◌^◌, ap, ◌∙◌, ℕ_discrete, ◌≡◌, refl, Bool, true, false, not, ◌&&◌,
  ◌||◌, Option, none, some, if◌then◌else◌, ltb, ◌==◌, arith,
}
use me_mo_tracer.Sched.{
  ThreadState, ThreadInfo, ContextInfo, put, Scheduler, Call, is_running, is_out, is_sleeping,
  is_queued, is_idle, on_context, points_to, is_null, call,
}
use me_mo_tracer.Sched.Queues.{mem, nodup}
use me_mo_tracer.Sched.Policy.{allowed_on}

-- The thread has the context.
abbrev pub holds : ℕ → Option ThreadInfo → Bool
holds c none = false
holds c (some th) = on_context th.state && (c == th.cid)

abbrev pub state_is : (ThreadState → Bool) → Option ThreadInfo → Bool
state_is test none = false
state_is test (some th) = test th.state

-- The thread waits for a context, on its futex.
abbrev pub waits : Option ThreadInfo → Bool
waits none = false
waits (some th) = is_queued th.state && (th.futex_word == 1)

abbrev pub has_fake_leave : Option ThreadInfo → Bool
has_fake_leave none = false
has_fake_leave (some th) = not (is_null th.fake_leave)

-- A sleeper, or one that will be, waits on its futex. Marks and system calls are of running threads.
abbrev pub is_proper : ℕ → Option ThreadInfo → Bool
is_proper n none = true
is_proper n (some th) =
    ltb th.cid n
    && (if is_sleeping th.state || th.marked_for_sleep then th.futex_word == 1 else true)
    && (if th.marked_for_sleep then is_running th.state && is_null th.fake_leave else true)
    && (is_null th.fake_leave || is_running th.state)

-- The context has a thread that runs.
abbrev pub runs_on : ℕ → Scheduler → Bool
runs_on c s = elim (s.contexts c).cur_thread [
  | none ↦ false
  | some g ↦ state_is is_running (s.threads g)
]

-- The context that the thread will hand over, and to whom.
abbrev pub handoff_of : Option ThreadInfo → Option ℕ
handoff_of none = none
handoff_of (some th) = th.handoff_thread

-- The thread runs, or waits in a queue for a context.
abbrev pub in_play : ThreadState → Bool
in_play x = is_running x || is_queued x

-- The contexts in use among the first n.
abbrev pub in_use : ContextInfo → ℕ
in_use c = if is_idle c.state then 0 else 1

abbrev pub used_count : ℕ → (ℕ → ContextInfo) → ℕ
used_count zero table = 0
used_count (suc n) table = used_count n table + in_use (table n)

pub used_count-le : (n : ℕ) (table : ℕ → ContextInfo) → used_count n table ≤ n
used_count-le zero table = omega arith
used_count-le (suc n) table = ground (arith, used_count-le n table)

used_count-put_out :
    (n c : ℕ) (ctx : ContextInfo) (table : ℕ → ContextInfo)
    → n ≤ c
    → used_count n (put c ctx table) ≡ used_count n table
used_count-put_out zero c ctx table l = refl
used_count-put_out (suc n) c ctx table l =
    let r = used_count-put_out n c ctx table (omega arith) in
    let same : put c ctx table n ≡ table n = ground (arith, l) in
    ap (λ x. used_count n (put c ctx table) + in_use x) same ∙ ap (λ m. m + in_use (table n)) r

pub used_count-put :
    (n c : ℕ) (ctx : ContextInfo) (table : ℕ → ContextInfo)
    → c < n
    → used_count n (put c ctx table) + in_use (table c) ≡ used_count n table + in_use ctx
used_count-put zero c ctx table l = absurd (omega arith)
used_count-put (suc n) c ctx table l = elim (ℕ_discrete c n) [
  | yes e ↦
      let r = used_count-put_out n c ctx table (omega (arith, e)) in
      let here : put c ctx table n ≡ ctx = ground (arith, e) in
      let there : in_use (table c) ≡ in_use (table n) = ap (λ x. in_use (table x)) e in
      let k : in_use (put c ctx table n) ≡ in_use ctx = ap in_use here in omega (arith, r, there, k)
  | no ne ↦
      let r = used_count-put n c ctx table (omega (arith, ne)) in
      let there : put c ctx table n ≡ table n = ground (arith, ne) in
      let k : in_use (put c ctx table n) ≡ in_use (table n) = ap in_use there in omega (arith, r, k)
]

-- `pending` is a context that is between two threads.
pub record IsLinked (pending : Option ℕ) (s : Scheduler) : Type 0 where
  pub held : (c g : ℕ) → points_to (s.contexts c).cur_thread g ≡ holds c (s.threads g)
  pub idle : (c : ℕ) → is_idle (s.contexts c).state ≡ is_null (s.contexts c).cur_thread
  pub freed :
      (c : ℕ)
      → mem c s.free_list
        ≡ (ltb c s.num_cores && is_idle (s.contexts c).state && not (points_to pending c))
  pub proper : (g : ℕ) → is_proper s.num_cores (s.threads g) ≡ true
  pub gone : (g : ℕ) → mem g s.out_queue ≡ state_is is_out (s.threads g)
  pub asleep : (g : ℕ) → mem g s.sleep_queue ≡ state_is is_sleeping (s.threads g)
  pub once : (nodup s.sleep_queue && nodup s.run_queue) ≡ true
  pub counted : s.scheduled_threads ≡ used_count s.num_cores s.contexts
  pub small : s.num_cores < 2 ^ 32
  pub waiting : (g : ℕ) → mem g s.run_queue ≡ true → waits (s.threads g) ≡ true
  pub faked : (g : ℕ) → mem g s.fake_leaves ≡ has_fake_leave (s.threads g)
  pub busy :
      (g c : ℕ)
      → mem g s.run_queue ≡ true
      → allowed_on c (s.threads g) ≡ true
      → ltb c s.num_cores ≡ true
      → (points_to pending c || runs_on c s) ≡ true

abbrev pub IsValid : Scheduler → Type 0
IsValid s = IsLinked none s

pub call-IsLinked : (p : Option ℕ) (x : Call) (s : Scheduler) → IsLinked p s → IsLinked p (call x s)
call-IsLinked p x s v = record {
  held = v.held;
  idle = v.idle;
  freed = v.freed;
  proper = v.proper;
  gone = v.gone;
  asleep = v.asleep;
  once = v.once;
  counted = v.counted;
  small = v.small;
  waiting = v.waiting;
  faked = v.faked;
  busy = v.busy;
}
