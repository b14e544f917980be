-- ===== src/Barrier.antt =====
-- `Barrier` of src/barrier.h: the threads of a phase, and who runs. The callers hold the scheduler's
-- lock, so each operation is one step. A thread that waits on its futex is one in state `waiting`.
pub mod Wake
use me_mo_tracer.Base.{
  ℕ, zero, suc, ◌+◌, ◌-◌, ◌%◌, Bool, true, false, not, ◌&&◌, ◌||◌, List, Option, some,
  if◌then◌else◌, ltb, ◌==◌, add32, sub32, get_or, set, replicate, ◌>>=◌, ◌>>◌, assert,
}

pub data State : Type 0 where
  offline waiting running left : State

pub record ThreadSyncInfo : Type 0 where
  pub state : State
  pub futex_word : ℕ
  pub last_idx : ℕ

abbrev pub asleep : ThreadSyncInfo
asleep = record { state = offline; futex_word = 0; last_idx = 0 }

pub record Barrier : Type 0 where
  pub parallel_threads : ℕ
  pub thread_list : List ThreadSyncInfo
  pub run_list : List ℕ
  pub run_list_size : ℕ
  pub cur_thread_idx : ℕ
  pub running_threads : ℕ
  pub left_threads : ℕ
  pub phase_count : ℕ

abbrev pub is_offline : State → Bool
is_offline offline = true
is_offline _ = false

abbrev pub is_waiting : State → Bool
is_waiting waiting = true
is_waiting _ = false

abbrev pub is_running : State → Bool
is_running running = true
is_running _ = false

abbrev pub is_left : State → Bool
is_left left = true
is_left _ = false

unfoldable pub init : ℕ → ℕ → Barrier
init max_threads parallel_threads = record {
  parallel_threads = parallel_threads;
  thread_list = replicate max_threads asleep;
  run_list = replicate max_threads 0;
  run_list_size = 0;
  cur_thread_idx = 0;
  running_threads = 0;
  left_threads = 0;
  phase_count = 0;
}

abbrev pub thread : Barrier → ℕ → ThreadSyncInfo
thread b tid = get_or b.thread_list tid asleep

abbrev pub tid_at : Barrier → ℕ → ℕ
tid_at b idx = get_or b.run_list idx 0

abbrev pub put_thread : Barrier → ℕ → ThreadSyncInfo → Barrier
put_thread b tid info = record b { thread_list = set b.thread_list tid info }

abbrev pub pass : Barrier → Barrier
pass b = record b { cur_thread_idx = add32 b.cur_thread_idx 1 }

abbrev pub wake : Barrier → Barrier
wake b =
    put_thread (record (pass b) { running_threads = add32 b.running_threads 1 })
      (tid_at b b.cur_thread_idx)
      (record { state = running; futex_word = 0; last_idx = b.cur_thread_idx })

-- One round of the loop of `checkRunList`: the thread at `curThreadIdx` runs if it waits.
unfoldable pub wake_one : Barrier → Option Barrier
wake_one b =
    let next = thread b (tid_at b b.cur_thread_idx) in
    let woken = assert (next.futex_word == 1) >> some (wake b) in
    if is_waiting next.state then woken else some (pass b)

-- The loop, with the number of rounds that are left at most.
unfoldable pub wake_loop : ℕ → Barrier → Option Barrier
wake_loop zero b = some b
wake_loop (suc n) b =
    elim (ltb b.running_threads b.parallel_threads && ltb b.cur_thread_idx b.run_list_size) [
      | true ↦ wake_one b >>= wake_loop n
      | false ↦ some b
    ]

-- `checkRunList`: `curThreadIdx` moves on in each round.
unfoldable pub check_run_list : Barrier → Option Barrier
check_run_list b = wake_loop (b.run_list_size - b.cur_thread_idx) b

-- The loop of the cleanup pass: threads that left go offline, and the last one takes their place.
-- The result is the number of threads that stay. Every round is one off `new_size - idx`.
unfoldable pub clean_loop : ℕ → ℕ → ℕ → Barrier → Barrier × ℕ
clean_loop zero idx new_size b = (b, new_size)
clean_loop (suc n) idx new_size b =
    let wtid = tid_at b idx in
    let stid = tid_at b (new_size - 1) in
    let gone = put_thread b wtid (record (thread b wtid) { state = offline }) in
    let moved = record gone { run_list = set b.run_list idx stid } in
    elim (is_left (thread b wtid).state) [
      | true ↦
          clean_loop n idx (new_size - 1)
            (put_thread moved stid (record (thread moved stid) { last_idx = idx }))
      | false ↦ clean_loop n (idx + 1) new_size b
    ]

unfoldable pub clean : Barrier → Option Barrier
clean b = do
  assert (ltb 0 b.run_list_size)
  let c = clean_loop b.run_list_size 0 b.run_list_size b
  assert (b.run_list_size - c.1 == b.left_threads)
  some (record (c.0) { left_threads = 0; run_list_size = c.1 })

-- The shuffle, from `i` down to 1, with the numbers that the generator gives.
unfoldable pub shuffle : (ℕ → ℕ) → ℕ → Barrier → Barrier
shuffle rand_int zero b = b
shuffle rand_int (suc i) b =
    let j = rand_int (suc i) in
    let itid = tid_at b (suc i) in
    let jtid = tid_at b j in
    let swapped = record b { run_list = set (set b.run_list (suc i) jtid) j itid } in
    let one = put_thread swapped itid (record (thread swapped itid) { last_idx = j }) in
    shuffle rand_int i (put_thread one jtid (record (thread one jtid) { last_idx = suc i }))

module _ (rand_int : ℕ → ℕ) where
  -- The body of `checkEndPhase`; the callback goes to the scheduler.
  unfoldable pub end_phase : Barrier → Option Barrier
  unfolding clean
  end_phase b = do
    let rewound = record b { cur_thread_idx = 0; phase_count = add32 b.phase_count 1 }
    c ← if b.phase_count % 32 == 0 then clean rewound else some rewound
    some (
        if ltb c.parallel_threads c.run_list_size
        then shuffle rand_int (c.run_list_size - 1) c
        else c)

  unfoldable pub check_end_phase : Barrier → Option Barrier
  check_end_phase b =
      if (b.cur_thread_idx == b.run_list_size && b.running_threads == 0)
        && not (b.left_threads == b.run_list_size)
      then end_phase b
      else some b

  unfoldable pub try_wake_next : Barrier → Option Barrier
  try_wake_next b = do woken ← check_run_list b; ended ← check_end_phase woken; check_run_list ended

  -- A thread that left in this phase, after its turn, gets another one.
  unfoldable pub rejoin : ℕ → Barrier → Option Barrier
  rejoin tid b =
      let last = (thread b tid).last_idx in
      let cur = b.cur_thread_idx - 1 in
      let other = tid_at b cur in
      let back = record b {
        left_threads = sub32 b.left_threads 1;
        cur_thread_idx = cur;
        run_list = set (set b.run_list last other) cur tid;
      } in
      let one = put_thread back other (record (thread b other) { last_idx = last }) in
      let again =
        assert (tid == tid_at b last)
        >> some (put_thread one tid (record (thread one tid) { last_idx = cur })) in
      if ltb last b.cur_thread_idx
      then again
      else some (record b { left_threads = sub32 b.left_threads 1 })

  unfoldable pub join : ℕ → Barrier → Option Barrier
  unfolding rejoin try_wake_next
  join tid b = do
    assert (is_left (thread b tid).state || is_offline (thread b tid).state)
    c ←
        if is_offline (thread b tid).state
        then some (record b {
          run_list = set b.run_list b.run_list_size tid;
          run_list_size = add32 b.run_list_size 1;
        })
        else rejoin tid b
    try_wake_next (put_thread c tid (record (thread c tid) { state = waiting; futex_word = 1 }))

  unfoldable pub leave : ℕ → Barrier → Option Barrier
  unfolding try_wake_next
  leave tid b =
      let gone = put_thread b tid (record (thread b tid) { state = left }) in
      let counted = record gone { left_threads = add32 b.left_threads 1 } in
      let stopped =
        try_wake_next (record counted { running_threads = sub32 b.running_threads 1 }) in
      let idle = assert (is_waiting (thread b tid).state) >> some counted in
      if is_running (thread b tid).state then stopped else idle

  unfoldable pub sync : ℕ → Barrier → Option Barrier
  unfolding try_wake_next
  sync tid b = do
    assert (is_running (thread b tid).state)
    try_wake_next (
        put_thread (record b { running_threads = sub32 b.running_threads 1 }) tid
          (record (thread b tid) { state = waiting; futex_word = 1 }))
