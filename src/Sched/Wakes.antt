-- ===== src/Sched/Wakes.antt =====
-- The sleep queue: `leave` keeps it in the order of the phases, and `callback` wakes from its front.
use me_mo_tracer.Base.{
  ℕ, ◌≡◌, refl, sym, ◌∙◌, ap, Bool, true, false, ◌&&◌, ◌||◌, Option, none, some, List, [], ◌∷◌, ltb,
  ◌==◌, ◌>>=◌, ==→eq, inl, inr, Bool-cases, arith,
}
use me_mo_tracer.Sched.{
  blocked, futex_wake, ThreadInfo, Scheduler, is_sleeping, is_blocked, write_thread, call,
}
use me_mo_tracer.Sched.Queues.{mem, insert_sleeper, mem-insert_sleeper}
use me_mo_tracer.Sched.Operations.{wakeup_key}
use me_mo_tracer.Sched.Links.{handoff_of, state_is, is_proper, IsValid, call-IsLinked}
use me_mo_tracer.Sched.Moves.{rewritten-IsLinked}
use me_mo_tracer.Base.{leb, fun_ext}
use me_mo_tracer.Sched.Places.{thread_of}
use me_mo_tracer.Sched.Queues.{nodup, insert_after}
use me_mo_tracer.Sched.Moves.{still_busy}
use me_mo_tracer.Sched.Seats.{wakeup-some}
use me_mo_tracer.Sched.Phases.{wake_due}

-- The keys rise along the list.
abbrev pub head_below : (ℕ → ℕ) → ℕ → List ℕ → Bool
head_below key k [] = true
head_below key k (x ∷ xs) = leb k (key x)

abbrev pub ordered : (ℕ → ℕ) → List ℕ → Bool
ordered key [] = true
ordered key (x ∷ xs) = head_below key (key x) xs && ordered key xs

insert_after-ordered :
    (key : ℕ → ℕ) (g cur : ℕ) (xs : List ℕ)
    → leb (key cur) (key g) ≡ true
    → ordered key (cur ∷ xs) ≡ true
    → ordered key (insert_after key g cur xs) ≡ true
unfolding insert_after
insert_after-ordered key g cur [] l o = ground (arith, l)
insert_after-ordered key g cur (x ∷ xs) l o = elim (Bool-cases (leb (key x) (key g))) [
  | inl y ↦
      rw y
        (ground (arith, o, head_after x xs, insert_after-ordered key g x xs y (ground (arith, o))))
  | inr n ↦ rw n (ground (arith, l, o, n))
]
  where
    head_after :
        (y : ℕ) (ys : List ℕ)
        → leb (key cur) (key y) ≡ true
        → head_below key (key cur) (insert_after key g y ys) ≡ true
    head_after y [] h = ground (arith, h)
    head_after y (z ∷ zs) h = ground (arith, h)

sleeper_in_order :
    (key : ℕ → ℕ) (g : ℕ) (xs : List ℕ)
    → ordered key xs ≡ true
    → ordered key (insert_sleeper key g xs) ≡ true
unfolding insert_sleeper
sleeper_in_order key g [] o = refl
sleeper_in_order key g (x ∷ xs) o = elim (Bool-cases (ltb (key g) (key x))) [
  | inl y ↦ rw y (ground (arith, o, y))
  | inr n ↦ rw n (insert_after-ordered key g x xs (ground (arith, n)) o)
]

-- The insertion of `leave` into a sleep queue that is in the order of the phases keeps that order, and
-- the queue then holds the new sleeper and those it held.
pub insert_sleeper-ordered :
    (key : ℕ → ℕ) (g : ℕ) (xs : List ℕ)
    → ordered key xs ≡ true
    → (ordered key (insert_sleeper key g xs) ≡ true)
      × ((h : ℕ) → mem h (insert_sleeper key g xs) ≡ ((h == g) || mem h xs))
insert_sleeper-ordered key g xs o =
    (sleeper_in_order key g xs o, λ h. mem-insert_sleeper key h g xs)

-- The state when the thread at the front was woken.
abbrev roused : ℕ → ThreadInfo → List ℕ → Scheduler → Scheduler
roused g th gs s =
    record (call (futex_wake g) (
      write_thread g (record th { state = blocked; needs_join = false; futex_word = 0 })
        (write_thread g (record th { state = blocked }) s))) { sleep_queue = gs }

popped-IsValid :
    (g : ℕ) (th : ThreadInfo) (gs : List ℕ) (s : Scheduler)
    → IsValid s
    → s.threads g ≡ some th
    → is_sleeping th.state ≡ true
    → s.sleep_queue ≡ g ∷ gs
    → IsValid (record (write_thread g (record th { state = blocked }) s) { sleep_queue = gs })
popped-IsValid g th gs s v e i q =
    let nd : (nodup (g ∷ gs) && nodup s.run_queue) ≡ true =
      ap (λ x. nodup x && nodup s.run_queue) (sym q) ∙ v.once in
    record {
      held = λ d h. ground (arith, v.held d h, v.held d g, e, i);
      idle = v.idle;
      freed = v.freed;
      proper = λ h. ground (arith, v.proper h, v.proper g, e, i);
      gone = λ h. ground (arith, v.gone h, v.gone g, e, i);
      asleep = λ h.
          let a : mem h (g ∷ gs) ≡ state_is is_sleeping (s.threads h) =
            ap (mem h) (sym q) ∙ v.asleep h in
          elim (Bool-cases (h == g)) [
            | inl y ↦ rw (==→eq h g y) (ground (arith, nd))
            | inr n ↦ ground (arith, a, n)
          ];
      once = ground (arith, nd);
      counted = v.counted;
      small = v.small;
      waiting = λ h m. ground (arith, v.waiting h m, e, i);
      faked = λ h. ground (arith, v.faked h, v.faked g, e);
      busy =
          still_busy none g th (record th { state = blocked }) s e v (λ r. ground (arith, r, i))
            refl;
    }

roused-IsValid :
    (g : ℕ) (th : ThreadInfo) (gs : List ℕ) (s : Scheduler)
    → IsValid s
    → s.threads g ≡ some th
    → is_sleeping th.state ≡ true
    → s.sleep_queue ≡ g ∷ gs
    → IsValid (roused g th gs s)
roused-IsValid g th gs s v e i q =
    let from = record th { state = blocked } in
    let to = record from { needs_join = false; futex_word = 0 } in
    let old = record (write_thread g from s) { sleep_queue = gs } in
    let pr : is_proper s.num_cores (some to) ≡ true = ground (arith, v.proper g, e, i) in
    call-IsLinked none (futex_wake g) (write_thread g to old) (
      rewritten-IsLinked none g from to old (ground arith) (popped-IsValid g th gs s v e i q) refl
        refl refl refl (λ w. ground (arith, w)) pr)

-- The thread was woken: it is blocked, and its futex is released.
abbrev pub is_up : Option ThreadInfo → Bool
is_up none = false
is_up (some th) = is_blocked th.state && (th.futex_word == 0)

-- What waking leaves as it was: the run queue, the cores and the promises of the threads that run.
pub record IsWoken (s t : Scheduler) : Type 0 where
  pub valid : IsValid t
  pub same_queue : t.run_queue ≡ s.run_queue
  pub same_cores : t.num_cores ≡ s.num_cores
  pub same_phase : t.cur_phase ≡ s.cur_phase
  pub promises : (g : ℕ) → handoff_of (t.threads g) ≡ handoff_of (s.threads g)
  pub others : (g : ℕ) → state_is is_sleeping (s.threads g) ≡ false → t.threads g ≡ s.threads g
  pub late : (g : ℕ) → mem g t.sleep_queue ≡ true → ltb s.cur_phase (wakeup_key t g) ≡ true
  pub risen :
      (g : ℕ)
      → state_is is_sleeping (s.threads g) ≡ true
      → leb (wakeup_key s g) s.cur_phase ≡ true
      → is_up (t.threads g) ≡ true

-- The phase of the thread is not over.
abbrev pub OnTime : Scheduler → Type 0
OnTime s = (g : ℕ) → mem g s.sleep_queue ≡ true → leb s.cur_phase (wakeup_key s g) ≡ true

all_late :
    (key : ℕ → ℕ) (phase g : ℕ) (gs : List ℕ)
    → ltb phase (key g) ≡ true
    → ordered key (g ∷ gs) ≡ true
    → (h : ℕ) → mem h (g ∷ gs) ≡ true
    → ltb phase (key h) ≡ true
all_late key phase g [] l o h m = ground (arith, l, m)
all_late key phase g (x ∷ xs) l o h m =
    ground (arith, l, o, m, all_late key phase x xs (ground (arith, l, o)) (ground (arith, o)) h)

-- The keys do not change when a thread wakes.
same_key :
    (g : ℕ) (th : ThreadInfo) (gs : List ℕ) (s : Scheduler)
    → s.threads g ≡ some th
    → wakeup_key (roused g th gs s) ≡ wakeup_key s
same_key g th gs s e = fun_ext (λ h. ground (arith, e))

after_one :
    (g : ℕ) (th : ThreadInfo) (gs : List ℕ) (s t : Scheduler)
    → s.threads g ≡ some th
    → is_sleeping th.state ≡ true
    → IsWoken (roused g th gs s) t
    → IsWoken s t
after_one g th gs s t e i w = record {
  valid = w.valid;
  same_queue = w.same_queue;
  same_cores = w.same_cores;
  same_phase = w.same_phase;
  promises = λ h. w.promises h ∙ one h;
  others = λ h n. w.others h (ap (state_is is_sleeping) (kept h n) ∙ n) ∙ kept h n;
  late = w.late;
  risen = λ h i1 l. elim (Bool-cases (h == g)) [
    | inl y ↦
        let here : state_is is_sleeping ((roused g th gs s).threads h) ≡ false =
          ground (arith, y) in
        ap is_up (w.others h here) ∙ ground (arith, y)
    | inr n ↦
        let same : (roused g th gs s).threads h ≡ s.threads h = ground (arith, n) in
        let key : wakeup_key (roused g th gs s) h ≡ wakeup_key s h =
          ap (λ f. f h) (same_key g th gs s e) in
        w.risen h (ap (state_is is_sleeping) same ∙ i1) (ap (λ k. leb k s.cur_phase) key ∙ l)
  ];
}
  where
    one : (h : ℕ) → handoff_of ((roused g th gs s).threads h) ≡ handoff_of (s.threads h)
    one h = ground (arith, e)

    kept :
        (h : ℕ)
        → state_is is_sleeping (s.threads h) ≡ false
        → (roused g th gs s).threads h ≡ s.threads h
    kept h n = ground (arith, e, i, n)

-- The loop ends, and wakes what is due.
abbrev pub WakesUp : List ℕ → Scheduler → Type 0
WakesUp gs s = (t : Scheduler) × (wake_due gs s ≡ some t) × IsWoken s t

wake_first :
    (g : ℕ) (gs : List ℕ) (s : Scheduler)
    → s.sleep_queue ≡ g ∷ gs
    → IsValid s
    → OnTime s
    → ordered (wakeup_key s) (g ∷ gs) ≡ true
    → mem g s.sleep_queue ≡ true
    → (th : ThreadInfo) → s.threads g ≡ some th
    → is_sleeping th.state ≡ true
    → ((n : Scheduler)
        → n.sleep_queue ≡ gs
        → IsValid n
        → OnTime n
        → ordered (wakeup_key n) gs ≡ true
        → WakesUp gs n)
    → WakesUp (g ∷ gs) s
unfolding wake_due
wake_first g gs s q v on o here th e i again = elim (Bool-cases (leb th.wakeup_phase s.cur_phase)) [
  | inl y ↦
      let from = record th { state = blocked } in
      let now : (th.wakeup_phase == s.cur_phase) ≡ true = ground (arith, on g here, e, y) in
      let fw : (th.futex_word == 1) ≡ true = ground (arith, v.proper g, e, i) in
      let run = wakeup-some g false from (write_thread g from s) (ground arith) fw in
      let next = roused g th gs s in
      let k = same_key g th gs s e in
      let o1 : ordered (wakeup_key next) gs ≡ true = ap (λ f. ordered f gs) k ∙ ground (arith, o) in
      let on1 : OnTime next = λ h m.
        let m1 : mem h s.sleep_queue ≡ true = ap (mem h) q ∙ ground (arith, m) in
        ap (λ f. leb s.cur_phase (f h)) k ∙ on h m1 in
      let r = again next refl (roused-IsValid g th gs s v e i q) on1 o1 in
      (r.0, rw (e, ◌>>=◌, y, now, run) (r.1), after_one g th gs s (r.0) e i r.2)
  | inr n ↦ (
    s,
    rw (e, ◌>>=◌, n) refl,
    record {
      valid = v;
      same_queue = refl;
      same_cores = refl;
      same_phase = refl;
      promises = λ h. refl;
      others = λ h x. refl;
      late = λ h m.
          let m1 : mem h (g ∷ gs) ≡ true = ap (mem h) (sym q) ∙ m in
          all_late (wakeup_key s) s.cur_phase g gs (ground (arith, e, n)) o h m1;
      risen = λ h a l.
          let m : mem h s.sleep_queue ≡ true = v.asleep h ∙ a in
          let m1 : mem h (g ∷ gs) ≡ true = ap (mem h) (sym q) ∙ m in
          let later = all_late (wakeup_key s) s.cur_phase g gs (ground (arith, e, n)) o h m1 in
          absurd (ground (arith, l, later));
    },
  )
]

-- The loop of `callback` over the sleep queue wakes the threads whose phase has come, and no other.
pub wake_due-IsWoken :
    (gs : List ℕ) (s : Scheduler)
    → s.sleep_queue ≡ gs
    → IsValid s
    → OnTime s
    → ordered (wakeup_key s) gs ≡ true
    → WakesUp gs s
unfolding wake_due
wake_due-IsWoken [] s q v on o = (
  s,
  refl,
  record {
    valid = v;
    same_queue = refl;
    same_cores = refl;
    same_phase = refl;
    promises = λ g. refl;
    others = λ g n. refl;
    late =
        λ g m. let n : mem g s.sleep_queue ≡ false = ap (mem g) q in absurd (ground (arith, m, n));
    risen = λ g a l.
        let n : mem g s.sleep_queue ≡ false = ap (mem g) q in
        absurd (ground (arith, v.asleep g, a, n));
  },
)
wake_due-IsWoken (g ∷ gs) s q v on o =
    let here : mem g s.sleep_queue ≡ true = ap (mem g) q ∙ ground arith in
    let w = thread_of is_sleeping (s.threads g) (ground (arith, here, v.asleep g)) in
    wake_first g gs s q v on o here (w.0) w.1 w.2 (wake_due-IsWoken gs)
