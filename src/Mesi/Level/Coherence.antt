-- ===== src/Mesi/Level/Coherence.antt =====
-- One line in a cache, its children and the memory: coherence, and that no assertion of the
-- controllers fails.
use me_mo_tracer.Base.{
  ℕ, ◌+◌, ◌^◌, ◌<◌, ◌≡◌, refl, ◌⊎◌, inl, inr, true, false, not, ◌&&◌, some, length, get_or, add64,
  Bool-cases, arith,
}
use me_mo_tracer.Mesi.States.{
  MesiState, invalid, shared, exclusive, modified, gets, getx, Flags, is_exclusive, is_valid,
}
use me_mo_tracer.Mesi.Directory.{out, Below, Reply, is_empty, entry_is_exclusive}
use me_mo_tracer.Mesi.Bottom
use me_mo_tracer.Mesi.Bottom.{
  Answer, Parent, memory_access, miss, given, net_cycle, process_writeback_on_access,
}
use me_mo_tracer.Mesi.Top
use me_mo_tracer.Mesi.Top.{shares}
use me_mo_tracer.Mesi.Level.{Level, Timing, child_state, settle, access}
use me_mo_tracer.Mesi.Level.Sharing.{IsRight, Agree-get, Fits, not_in, not_owner}
use me_mo_tracer.Mesi.Level.Grants.{Granted, give_first-Granted, give_shared-Granted}
use me_mo_tracer.Mesi.Level.Upgrade.{give_modified-Granted}

-- The directory is right, the cache has every line that a child has, and it has E or M where a
-- child does.
pub record IsCoherent (l : Level) : Type 0 where
  pub right : IsRight l.below
  pub inclusive : 0 < l.below.entry.num_sharers → is_valid l.own ≡ true
  pub above : entry_is_exclusive l.below.entry ≡ true → is_exclusive l.own ≡ true

-- Latencies have 32 bits, the memory's is not 0, and the cycle is far from the end of its range.
pub record IsTimely (t : Timing) (cycle : ℕ) : Type 0 where
  pub acc : t.acc_lat < 2 ^ 32
  pub mem : t.mem_lat < 2 ^ 32
  pub mem_pos : 0 < t.mem_lat
  pub room : cycle + 2 ^ 34 < 2 ^ 64

-- What the cache has after it asked the memory for a copy, or for the only one.
up_gets :
    (t : Timing) (own : MesiState) (flags : Flags) (cycle : ℕ)
    → IsTimely t cycle
    → (a : Answer (Unit {0})) × (Bottom.process_access
          (memory_access t.mem_lat)
          t.rtt
          own
          gets
          flags
          (add64 cycle t.acc_lat)
          tt
        ≡ some a)
      × (is_valid a.state ≡ true)
      × (is_exclusive own ≡ true → is_exclusive a.state ≡ true)
unfolding Bottom.process_access memory_access
up_gets t invalid flags cycle v = (
  record {
    state = given gets flags;
    cycle = net_cycle (add64 cycle t.acc_lat) t.rtt (add64 (add64 cycle t.acc_lat) t.mem_lat);
    world = tt;
  },
  ground arith,
  ground arith,
  ground arith,
)
up_gets t shared flags cycle v =
    (record { state = shared; cycle = add64 cycle t.acc_lat; world = tt }, refl, refl, λ e. e)
up_gets t exclusive flags cycle v =
    (record { state = exclusive; cycle = add64 cycle t.acc_lat; world = tt }, refl, refl, λ e. e)
up_gets t modified flags cycle v =
    (record { state = modified; cycle = add64 cycle t.acc_lat; world = tt }, refl, refl, λ e. e)

up_getx :
    (t : Timing) (own : MesiState) (flags : Flags) (cycle : ℕ)
    → IsTimely t cycle
    → (a : Answer (Unit {0})) × (Bottom.process_access
          (memory_access t.mem_lat)
          t.rtt
          own
          getx
          flags
          (add64 cycle t.acc_lat)
          tt
        ≡ some a)
      × (a.state ≡ modified)
unfolding Bottom.process_access memory_access
up_getx t invalid flags cycle v = (
  record {
    state = modified;
    cycle = net_cycle (add64 cycle t.acc_lat) t.rtt (add64 (add64 cycle t.acc_lat) t.mem_lat);
    world = tt;
  },
  ground arith,
  refl,
)
up_getx t shared flags cycle v = (
  record {
    state = modified;
    cycle = net_cycle (add64 cycle t.acc_lat) t.rtt (add64 (add64 cycle t.acc_lat) t.mem_lat);
    world = tt;
  },
  ground arith,
  refl,
)
up_getx t exclusive flags cycle v =
    (record { state = modified; cycle = add64 cycle t.acc_lat; world = tt }, refl, refl)
up_getx t modified flags cycle v =
    (record { state = modified; cycle = add64 cycle t.acc_lat; world = tt }, refl, refl)

-- What an access leaves for a child: a coherent level, and the child's new state.
pub record Served (l : Below) (child : ℕ) (s : MesiState) (a : Answer Level) : Type 0 where
  pub coherent : IsCoherent a.world
  pub state : a.state ≡ s
  pub kept : child_state a.world child ≡ s
  pub size : length a.world.below.entry.sharers ≡ length l.entry.sharers

pub settle-Served :
    (t : Timing) (l : Below) (child cycle : ℕ) (own s : MesiState) (r : Reply)
    → Granted l child cycle s r
    → is_valid own ≡ true
    → (entry_is_exclusive l.entry ≡ true → is_exclusive own ≡ true)
    → (is_exclusive s ≡ true → is_exclusive own ≡ true)
    → (a : Answer Level) × (settle t child own r ≡ some a) × Served l child s a
unfolding settle process_writeback_on_access
settle-Served t l child cycle own s r g valid above fits = elim (Bool-cases r.writeback) [
  | inl w ↦ (
    record {
      state = (get_or r.below.kids child out).state;
      cycle = r.cycle;
      world = record { own = modified; below = r.below };
    },
    rw (w, above (g.dirty w)) refl,
    record {
      coherent = record { right = g.right; inclusive = λ n. refl; above = λ e. refl };
      state = g.state;
      kept = g.state;
      size = g.size;
    },
  )
  | inr w ↦ (
    record {
      state = (get_or r.below.kids child out).state;
      cycle = r.cycle;
      world = record { own = own; below = r.below };
    },
    rw w refl,
    record {
      coherent = record { right = g.right; inclusive = λ n. valid; above = λ e. fits (g.mark e) };
      state = g.state;
      kept = g.state;
      size = g.size;
    },
  )
]

-- The child's bit and state.
pub fits :
    (l : Level) (child : ℕ)
    → IsCoherent l
    → Fits (entry_is_exclusive l.below.entry) (shares l.below child) (get_or l.below.kids child out)
fits l child c =
    Agree-get (entry_is_exclusive l.below.entry) l.below.entry.sharers l.below.kids child
      c.right.agree

pub access_getx :
    (t : Timing) (child cycle : ℕ) (flags : Flags) (l : Level)
    → IsCoherent l
    → IsTimely t cycle
    → child < length l.below.entry.sharers
    → is_exclusive (child_state l child) ≡ false
    → (a : Answer Level) × (access t child getx flags cycle l ≡ some a)
      × Served l.below child modified a
unfolding access Top.process_access
access_getx t child cycle flags l c v lt e =
    let up = up_getx t l.own flags cycle v in
    let g =
      give_modified-Granted l.below child (up.0.cycle) c.right
        (λ y. not_owner _ _ _ (fits l child c) y e) lt in
    let s =
      settle-Served t l.below child (up.0.cycle) (up.0.state) modified (g.0) (g.2) (rw (up.2) refl)
        (λ y. rw (up.2) refl) (λ y. rw (up.2) refl) in
    (s.0, rw (up.1) (rw (up.2) (rw (g.1) (rw (← up.2) (s.1)))), s.2)

pub access_gets :
    (t : Timing) (child cycle : ℕ) (flags : Flags) (l : Level)
    → IsCoherent l
    → IsTimely t cycle
    → child < length l.below.entry.sharers
    → is_valid (child_state l child) ≡ false
    → (s : MesiState) × (a : Answer Level) × (access t child gets flags cycle l ≡ some a)
      × Served l.below child s a
      × ((s ≡ shared) ⊎ (s ≡ exclusive))
unfolding access Top.process_access
access_gets t child cycle flags l c v lt e =
    let up = up_gets t l.own flags cycle v in
    let none_yet = not_in _ _ _ (fits l child c) e in
    elim (Bool-cases (is_empty l.below.entry && (is_exclusive up.0.state && not flags.noexcl))) [
      | inl y ↦
          let g = give_first-Granted l.below child (up.0.cycle) c.right (ground arith) lt in
          let s =
            settle-Served t l.below child (up.0.cycle) (up.0.state) exclusive _ g (up.2)
              (λ z. up.3 (c.above z)) (λ z. ground arith) in
          (exclusive, s.0, rw (up.1) (rw y (s.1)), s.2, inr refl)
      | inr y ↦
          let g = give_shared-Granted l.below child (up.0.cycle) c.right none_yet lt in
          let s =
            settle-Served t l.below child (up.0.cycle) (up.0.state) shared (g.0) (g.2) (up.2)
              (λ z. up.3 (c.above z)) (λ z. ground arith) in
          (shared, s.0, rw (up.1) (rw y (rw (g.1) (s.1))), s.2, inl refl)
    ]
