-- ===== src/Tests/Arrays.antt =====
-- An array of two sets with two ways, and a barrier of two threads.
use me_mo_tracer.Base.{
  ℕ, zero, suc, ◌+◌, ◌≤◌, ◌<◌, ◌≡◌, refl, true, [], ◌∷◌, All, Option, none, some, map_some, ◌>>=◌,
  get_or, arith,
}
use me_mo_tracer.Base.{ltb, ◌^◌}
use me_mo_tracer.Arrays.Nru.{Nru, value, rank_legacy, rank_legacy-least}
use me_mo_tracer.Arrays.Lfu.{
  Lfu, reset_rank, less_than, rarer, record_lfu, rank_lfu, cost_of, rank_lfu-least,
}
use me_mo_tracer.Arrays.Lru.{Lru, Controller, rank, low_score, IsAmong, rank_lem}
use me_mo_tracer.Arrays.SetAssoc.{
  SetAssocArray, first_of, lookup, preinsert, postinsert, lookup-postinsert,
}
use me_mo_tracer.Barrier.{
  init, join, leave, rejoin, try_wake_next, check_end_phase, end_phase, clean, wake_loop, wake_one,
  Barrier, waiting, is_waiting, thread, check_run_list,
}
use me_mo_tracer.Barrier.Wake.{IsPaced, IsSettled, check_run_list-IsBusy}

abbrev controller : Controller
controller = record { num_sharers = λ id. 0; is_valid = λ id. true }

abbrev lru : Lru
lru = record { timestamp = 9; array = 5 ∷ 8 ∷ 7 ∷ 2 ∷ [] }

abbrev hash : ℕ → ℕ → ℕ
hash fn line_addr = line_addr

abbrev lines : SetAssocArray
lines = record { array = 16 ∷ 18 ∷ 17 ∷ 19 ∷ []; assoc = 2; set_mask = 1; rp = lru }

rank_lem_example :
    IsAmong (rank true controller lru (2 ∷ 3 ∷ [])) (2 ∷ 3 ∷ [])
    × All
        (λ d.
          low_score true controller lru (rank true controller lru (2 ∷ 3 ∷ []))
          ≤ low_score true controller lru d)
        (2 ∷ 3 ∷ [])
rank_lem_example = rank_lem true controller lru 2 (3 ∷ [])

-- Four lines of which the last two are old, and a policy after a reset.
abbrev nru : Nru
nru = record {
  num_lines = 4;
  array = 2 ∷ 3 ∷ 1 ∷ 1 ∷ [];
  cand_array = 0 ∷ 0 ∷ 0 ∷ [];
  young_lines = 1;
  cand_val = 2 ^ 20;
  cand_idx = 0;
}

rank_legacy-least_example :
    (r : ℕ) × (rank_legacy (0 ∷ 2 ∷ 3 ∷ []) nru ≡ some r)
    × IsAmong r (0 ∷ 2 ∷ 3 ∷ [])
    × All (λ x. value nru r ≤ value nru x) (0 ∷ 2 ∷ 3 ∷ [])
rank_legacy-least_example =
    rank_legacy-least 0 (2 ∷ 3 ∷ []) nru refl refl (omega arith) (omega arith)

abbrev lfu : Lfu
lfu = record {
  timestamp = 4001;
  best_candidate = none;
  infos =
      record { ts = 1; acc = 2 } ∷ record { ts = 2001; acc = 1 } ∷ record { ts = 0; acc = 0 } ∷ [];
  best_rank = reset_rank;
}

-- The last line is not valid.
abbrev two_valid : Controller
two_valid = record { num_sharers = λ id. 0; is_valid = λ id. ltb id 2 }

rank_lfu-least_example :
    (r : ℕ) × (rank_lfu two_valid (0 ∷ 1 ∷ 2 ∷ []) lfu ≡ some r)
    × IsAmong r (0 ∷ 1 ∷ 2 ∷ [])
    × All (λ x. cost_of two_valid r ≤ cost_of two_valid x) (0 ∷ 1 ∷ 2 ∷ [])
rank_lfu-least_example = rank_lfu-least two_valid 0 (1 ∷ 2 ∷ []) lfu refl

last_goes : rank_lfu two_valid (0 ∷ 1 ∷ 2 ∷ []) lfu ≡ some 2
unfolding rank_lfu record_lfu less_than rarer
last_goes = refl

-- The line 21 goes to the second set, in place of 19.
victim : (preinsert hash true controller lines 21) ≡ (3, 19)
unfolding preinsert rank me_mo_tracer.Arrays.Lru.rank_loop me_mo_tracer.Arrays.Lru.score first_of
victim = refl

lookup-postinsert_example :
    let first = first_of hash true lines 21 in
    let candidate = (preinsert hash true controller lines 21).0 in
    let b = postinsert lines 21 candidate in
    (first ≤ candidate)
    × (candidate < first + 2)
    × ((k : ℕ) × ((lookup hash true b 21 true).1 ≡ some k)
        × (get_or b.array k 0 ≡ 21)
        × (first ≤ k)
        × (k < first + 2))
unfolding first_of
lookup-postinsert_example =
    lookup-postinsert hash true controller lines 21 true (omega arith) (omega arith)

-- Two threads wait, and one may run.
abbrev two_waiting : Barrier
two_waiting = record {
  parallel_threads = 1;
  thread_list =
      record { state = waiting; futex_word = 1; last_idx = 0 }
      ∷ record { state = waiting; futex_word = 1; last_idx = 0 }
      ∷ [];
  run_list = 0 ∷ 1 ∷ [];
  run_list_size = 2;
  cur_thread_idx = 0;
  running_threads = 0;
  left_threads = 0;
  phase_count = 0;
}

all_ready :
    (tid : ℕ)
    → is_waiting (thread two_waiting tid).state ≡ true
    → (thread two_waiting tid).futex_word ≡ 1
all_ready zero w = refl
all_ready (suc zero) w = refl
all_ready (suc (suc tid)) w = cc

two_waiting-IsPaced : IsPaced two_waiting
two_waiting-IsPaced = record {
  counted = refl;
  limited = omega arith;
  small = omega arith;
  listed = omega arith;
  placed = omega arith;
  asleep = all_ready;
}

check_run_list-IsBusy_example :
    (c : Barrier) × (check_run_list two_waiting ≡ some c) × IsSettled two_waiting c
check_run_list-IsBusy_example = check_run_list-IsBusy two_waiting two_waiting-IsPaced

-- A thread that leaves before it has run has no place in the list to come back to: thread 0 runs,
-- thread 1 waits, leaves and joins again, and the assertion on its place fails.
abbrev back : Option Barrier
back = do
  one ← join (λ i. 0) 0 (init 2 1)
  two ← join (λ i. 0) 1 one
  gone ← leave (λ i. 0) 1 two
  join (λ i. 0) 1 gone

abbrev before : Option Barrier
before = do one ← join (λ i. 0) 0 (init 2 1); two ← join (λ i. 0) 1 one; leave (λ i. 0) 1 two

before_left : map_some (λ (b : Barrier). b.left_threads) before ≡ some 1
unfolding join leave rejoin try_wake_next check_run_list check_end_phase end_phase clean wake_loop
    wake_one init
before_left = refl

back_fails : back ≡ none
unfolding join leave rejoin try_wake_next check_run_list check_end_phase end_phase clean wake_loop
    wake_one init
back_fails = refl
