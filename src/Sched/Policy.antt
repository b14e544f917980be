-- ===== src/Sched/Policy.antt =====
-- `schedThread`, `schedContext` and `schedTick` of src/scheduler.h: who gets which context.
use me_mo_tracer.Base.{
  ℕ, zero, suc, ◌-◌, Bool, false, ◌&&◌, List, [], ◌∷◌, Option, none, some, if◌then◌else◌, ltb,
  get_or, set, ◌>>=◌, ◌>>◌, assert,
}
use me_mo_tracer.Sched.{ThreadInfo, Scheduler, blocked, is_idle, write_thread, allows, deschedule}
use me_mo_tracer.Sched.Queues.{remove, first}

-- The context of a thread, for the test of the mask while the out queue is searched.
abbrev pub cid_allowed : ThreadInfo → Option ThreadInfo → Bool
cid_allowed th none = false
cid_allowed th (some o) = allows th o.cid

abbrev pub allowed_on : ℕ → Option ThreadInfo → Bool
allowed_on c none = false
allowed_on c (some th) = allows th c

-- The first step: the context that the thread had before, and else the free list.
unfoldable pub free_context : ThreadInfo → Scheduler → Option ℕ
free_context th s =
    if is_idle (s.contexts th.cid).state && allows th th.cid
    then some th.cid
    else first (allows th) s.free_list

-- Takes the context of a thread that is out, if one has a context that fits.
unfoldable pub steal : ThreadInfo → Scheduler → Option (Option ℕ × Scheduler)
steal th s = elim (first (λ o. cid_allowed th (s.threads o)) s.out_queue) [
  | none ↦ some (none, s)
  | some o ↦ do
    other ← s.threads o
    rest ← remove o s.out_queue
    freed ← deschedule o other.cid blocked (record s { out_queue = rest })
    some (some other.cid, freed)
]

unfoldable pub sched_thread : ℕ → Scheduler → Option (Option ℕ × Scheduler)
sched_thread g s = do
  th ← s.threads g
  assert (ltb th.cid s.num_cores)
  elim (free_context th s) [
    | some c ↦ do
      rest ← remove c s.free_list
      assert (allows th c)
      some (some c, record s { free_list = rest })
    | none ↦ steal th s
  ]

unfoldable pub sched_context : ℕ → Scheduler → Option (Option ℕ × Scheduler)
sched_context c s = elim (first (λ g. allowed_on c (s.threads g)) s.run_queue) [
  | none ↦ some (none, s)
  | some g ↦ do rest ← remove g s.run_queue; some (some g, record s { run_queue = rest })
]

-- The shuffle of the cids, from `i` down to 1, with the numbers that the generator gives.
unfoldable pub shuffle : (ℕ → ℕ) → ℕ → List ℕ → List ℕ
shuffle rand_int zero avail = avail
shuffle rand_int (suc i) avail =
    let j = rand_int (suc i) in
    let x = get_or avail (suc i) 0 in
    let y = get_or avail j 0 in shuffle rand_int i (set (set avail (suc i) y) j x)

-- The cids from 0 to n - 1, in this order.
unfoldable pub cids_from : ℕ → ℕ → List ℕ
cids_from zero c = []
cids_from (suc n) c = c ∷ cids_from n (suc c)

-- The thread that runs on the context is told to hand it to `g`.
unfoldable pub promise : ℕ → ℕ → Scheduler → Option Scheduler
promise g c s = do
  victim ← (s.contexts c).cur_thread
  th ← s.threads victim
  some (write_thread victim (record th { handoff_thread = some g }) s)

-- The loop over the run queue: each thread takes the first context available that it may run on.
unfoldable pub tick_loop : List ℕ → List ℕ → Scheduler → Option Scheduler
tick_loop [] avail s = some s
tick_loop (g ∷ gs) [] s = some s
tick_loop (g ∷ gs) (a ∷ avail) s = elim (first (λ c. allowed_on c (s.threads g)) (a ∷ avail)) [
  | none ↦ tick_loop gs (a ∷ avail) s
  | some c ↦ do
    left ← remove c (a ∷ avail)
    promised ← promise g c s
    rest ← remove g promised.run_queue
    tick_loop gs left (record promised { run_queue = rest })
]

unfoldable pub sched_tick : (ℕ → ℕ) → Scheduler → Option Scheduler
sched_tick rand_int s =
    tick_loop s.run_queue (shuffle rand_int (s.num_cores - 1) (cids_from s.num_cores 0)) s
