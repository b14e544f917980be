-- ===== src/Barrier/Wake.antt =====
-- `checkRunList`: how many threads run.
use me_mo_tracer.Base.{
  ℕ, ℕ_discrete, sym, ap, ◌∙◌, zero, suc, ◌+◌, ◌-◌, ◌^◌, ◌≤◌, ◌<◌, ◌≡◌, ◌⊎◌, inl, inr, refl, true,
  false, List, [], ◌∷◌, some, get_or, set, dec_lt, ltb, ◌&&◌, if◌then◌else◌, Bool-cases, arith,
}
use me_mo_tracer.Barrier.{
  ThreadSyncInfo, running, Barrier, asleep, is_running, is_waiting, thread, tid_at, pass, wake,
  wake_one, wake_loop, check_run_list,
}

abbrev pub count_running : List ThreadSyncInfo → ℕ
count_running [] = 0
count_running (t ∷ ts) = if is_running t.state then suc (count_running ts) else count_running ts

-- The counter of running threads is right and below the limit, and a thread that waits can be woken.
pub record IsPaced (b : Barrier) : Type 0 where
  pub counted : b.running_threads ≡ count_running b.thread_list
  pub limited : b.running_threads ≤ b.parallel_threads
  pub small : b.parallel_threads < 2 ^ 32
  pub listed : b.run_list_size < 2 ^ 32
  pub placed : b.cur_thread_idx ≤ b.run_list_size
  pub asleep : (tid : ℕ) → is_waiting (thread b tid).state ≡ true → (thread b tid).futex_word ≡ 1

count_running-wake :
    (ts : List ThreadSyncInfo) (tid : ℕ) (info : ThreadSyncInfo)
    → is_waiting (get_or ts tid asleep).state ≡ true
    → is_running info.state ≡ true
    → count_running (set ts tid info) ≡ count_running ts + 1
count_running-wake [] tid info w r = absurd (cc)
count_running-wake (t ∷ ts) zero info w r = ground arith
count_running-wake (t ∷ ts) (suc tid) info w r = ground (arith, count_running-wake ts tid info w r)

set-ready :
    (ts : List ThreadSyncInfo) (tid other : ℕ) (info : ThreadSyncInfo)
    → is_waiting info.state ≡ false
    → ((k : ℕ) → is_waiting (get_or ts k asleep).state ≡ true → (get_or ts k asleep).futex_word ≡ 1)
    → is_waiting (get_or (set ts tid info) other asleep).state ≡ true
    → (get_or (set ts tid info) other asleep).futex_word ≡ 1
set-ready [] tid other info n h w = h other w
set-ready (t ∷ ts) zero zero info n h w = cc
set-ready (t ∷ ts) zero (suc other) info n h w = h (suc other) w
set-ready (t ∷ ts) (suc tid) zero info n h w = h zero w
set-ready (t ∷ ts) (suc tid) (suc other) info n h w =
    set-ready ts tid other info n (λ k. h (suc k)) w

set-still :
    (ts : List ThreadSyncInfo) (tid other : ℕ) (info : ThreadSyncInfo)
    → is_waiting info.state ≡ false
    → is_waiting (get_or ts other asleep).state ≡ false
    → is_waiting (get_or (set ts tid info) other asleep).state ≡ false
set-still [] tid other info n h = h
set-still (t ∷ ts) zero zero info n h = n
set-still (t ∷ ts) zero (suc other) info n h = h
set-still (t ∷ ts) (suc tid) zero info n h = h
set-still (t ∷ ts) (suc tid) (suc other) info n h = set-still ts tid other info n h

set-now :
    (ts : List ThreadSyncInfo) (tid : ℕ) (info : ThreadSyncInfo)
    → is_waiting info.state ≡ false
    → is_waiting (get_or (set ts tid info) tid asleep).state ≡ false
set-now [] tid info n = refl
set-now (t ∷ ts) zero info n = n
set-now (t ∷ ts) (suc tid) info n = set-now ts tid info n

-- What a round of the loop leaves.
record Woken (b c : Barrier) : Type 0 where
  paced : IsPaced c
  moved : c.cur_thread_idx ≡ b.cur_thread_idx + 1
  size : c.run_list_size ≡ b.run_list_size
  limit : c.parallel_threads ≡ b.parallel_threads
  list : c.run_list ≡ b.run_list
  rest :
      (tid : ℕ) → is_waiting (thread b tid).state ≡ false → is_waiting (thread c tid).state ≡ false
  turn : is_waiting (thread c (tid_at b b.cur_thread_idx)).state ≡ false

wake_one-Woken :
    (b : Barrier)
    → IsPaced b
    → b.running_threads < b.parallel_threads
    → b.cur_thread_idx < b.run_list_size
    → (c : Barrier) × (wake_one b ≡ some c) × Woken b c
unfolding wake_one
wake_one-Woken b p lt at_ =
    elim (Bool-cases (is_waiting (thread b (tid_at b b.cur_thread_idx)).state)) [
      | inl w ↦
          let wtid = tid_at b b.cur_thread_idx in
          let info : ThreadSyncInfo = record {
            state = running;
            futex_word = 0;
            last_idx = b.cur_thread_idx;
          } in
          let more = count_running-wake b.thread_list wtid info w refl in
          (
            wake b,
            rw (w, p.asleep wtid w) refl,
            record {
              paced = record {
                counted = omega (arith, more, p.counted, p.small, p.limited);
                limited = omega (arith, p.small);
                small = p.small;
                listed = p.listed;
                placed = omega (arith, p.listed);
                asleep = λ tid v. set-ready b.thread_list wtid tid info refl p.asleep v;
              };
              moved = omega (arith, p.listed);
              size = refl;
              limit = refl;
              list = refl;
              rest = λ tid n. set-still b.thread_list wtid tid info refl n;
              turn = set-now b.thread_list wtid info refl;
            },
          )
      | inr w ↦ (
        pass b,
        rw w refl,
        record {
          paced = record {
            counted = p.counted;
            limited = p.limited;
            small = p.small;
            listed = p.listed;
            placed = omega (arith, p.listed);
            asleep = p.asleep;
          };
          moved = omega (arith, p.listed);
          size = refl;
          limit = refl;
          list = refl;
          rest = λ tid n. n;
          turn = w;
        },
      )
    ]

-- All slots are taken, or the end of the run list is reached.
abbrev pub IsBusy : Barrier → Type 0
IsBusy b = (b.running_threads ≡ b.parallel_threads) ⊎ (b.cur_thread_idx ≡ b.run_list_size)

-- What the loop leaves: every thread of the run list that it passed has had its turn.
pub record IsSettled (b c : Barrier) : Type 0 where
  pub paced : IsPaced c
  pub busy : IsBusy c
  pub list : c.run_list ≡ b.run_list
  pub onward : b.cur_thread_idx ≤ c.cur_thread_idx
  pub rest :
      (tid : ℕ) → is_waiting (thread b tid).state ≡ false → is_waiting (thread c tid).state ≡ false
  pub passed :
      (i : ℕ)
      → b.cur_thread_idx ≤ i
      → i < c.cur_thread_idx
      → is_waiting (thread c (tid_at b i)).state ≡ false

stay-IsSettled : (b : Barrier) → IsPaced b → IsBusy b → IsSettled b b
stay-IsSettled b p y = record {
  paced = p;
  busy = y;
  list = refl;
  onward = omega arith;
  rest = λ tid n. n;
  passed = λ i l h. absurd (omega arith);
}

step-IsSettled : (b m c : Barrier) → Woken b m → IsSettled m c → IsSettled b c
step-IsSettled b m c w r = record {
  paced = r.paced;
  busy = r.busy;
  list = r.list ∙ w.list;
  onward = omega (arith, w.moved, r.onward);
  rest = λ tid n. r.rest tid (w.rest tid n);
  passed = λ i l h. elim (ℕ_discrete i b.cur_thread_idx) [
    | yes e ↦ rw e (r.rest (tid_at b b.cur_thread_idx) w.turn)
    | no ne ↦
        let same : tid_at m i ≡ tid_at b i = ap (λ xs. get_or xs i 0) w.list in
        ap (λ tid. is_waiting (thread c tid).state) (sym same)
        ∙ r.passed i (omega (arith, w.moved, ne)) h
  ];
}

wake_loop-IsSettled :
    (n : ℕ) (b : Barrier)
    → IsPaced b
    → b.cur_thread_idx + n ≡ b.run_list_size
    → (c : Barrier) × (wake_loop n b ≡ some c) × IsSettled b c
unfolding wake_loop
wake_loop-IsSettled zero b p e = (b, refl, stay-IsSettled b p (inr (omega arith)))
wake_loop-IsSettled (suc n) b p e = elim (dec_lt b.running_threads b.parallel_threads) [
  | yes lt ↦
      let o = wake_one-Woken b p lt (omega arith) in
      let r = wake_loop-IsSettled n o.0 o.2.paced (omega (arith, o.2.moved, o.2.size)) in
      let t : (ltb b.running_threads b.parallel_threads && ltb b.cur_thread_idx b.run_list_size)
          ≡ true =
        ground arith in
      (r.0, rw (wake_loop, t) (rw o.1 r.1), step-IsSettled b o.0 r.0 o.2 r.2)
  | no ge ↦
      let t : (ltb b.running_threads b.parallel_threads && ltb b.cur_thread_idx b.run_list_size)
          ≡ false =
        ground arith in
      (b, rw (wake_loop, t) refl, stay-IsSettled b p (inl (omega (arith, p.limited))))
]

-- `checkRunList` ends and does not panic, if the counter of running threads is right and within the
-- limit and the threads that wait can be woken, which still holds afterwards: then the limit is
-- reached or the end of the run list, the list is as it was, no thread of it that was passed over
-- waits any longer, and no other thread has begun to wait.
pub check_run_list-IsBusy :
    (b : Barrier) → IsPaced b → (c : Barrier) × (check_run_list b ≡ some c) × IsSettled b c
unfolding check_run_list
check_run_list-IsBusy b p =
    wake_loop-IsSettled (b.run_list_size - b.cur_thread_idx) b p (omega (arith, p.placed))
