-- ===== src/Mesi/Level/Accesses.antt =====
-- The access of a child, `MESITerminalCC::processAccess`, in a coherent level.
use me_mo_tracer.Base.{
  ℕ, ◌<◌, ◌≡◌, refl, sym, ◌∙◌, ap, Bool, true, false, some, length, get_or, set, ◌>>=◌, set-get_or,
  arith, List, leb, ◌||◌, Bool-cases, inl, inr,
}
use me_mo_tracer.Mesi.States.{
  MesiState, invalid, shared, exclusive, modified, gets, getx, AccessType, Flags, is_state,
  is_exclusive, is_valid,
}
use me_mo_tracer.Mesi.Directory.{Kid, out, entry_is_exclusive}
use me_mo_tracer.Mesi.Bottom
use me_mo_tracer.Mesi.Bottom.{miss, net_cycle, Answer}
use me_mo_tracer.Mesi.Top.{shares}
use me_mo_tracer.Mesi.Level.{Level, Timing, child_state, with_child, access, child_access}
use me_mo_tracer.Mesi.Level.Sharing.{Agree-set, is_in, is_owner}
use me_mo_tracer.Mesi.Level.Grants.{lat_of, given_state}
use me_mo_tracer.Mesi.Level.Coherence.{IsCoherent, IsTimely, Served, fits, access_getx, access_gets}

-- To write the state that a child has changes nothing.
pub same_child :
    (l : Level) (child : ℕ) (s : MesiState) → child_state l child ≡ s → with_child l child s ≡ l
same_child l child s e = rw (← e) (
    ap (λ (ks : List Kid). record l { below = record (l.below) { kids = ks } })
      (set-get_or l.below.kids child out))

-- The silent step of a child from E to M.
dirtied :
    (l : Level) (child : ℕ)
    → IsCoherent l
    → is_exclusive (child_state l child) ≡ true
    → IsCoherent (with_child l child modified)
dirtied l child c e =
    let f = fits l child c in
    let owner = is_owner _ _ _ f e in
    let held : shares l.below child ≡ true = is_in _ _ _ f (ground arith) in
    let a =
      Agree-set (entry_is_exclusive l.below.entry) l.below.entry.sharers l.below.kids child true
        (record (get_or l.below.kids child out) { state = modified })
        (rw owner refl, lat_of _ l.below child c.right.agree) c.right.agree in
    record {
      right = record {
        agree =
            rw
              (ap (λ b. set l.below.entry.sharers child b) (sym held)
                ∙ set-get_or l.below.entry.sharers child false)
              at a;
        counted = c.right.counted;
        single = c.right.single;
        few = c.right.few;
      };
      inclusive = c.inclusive;
      above = c.above;
    }

-- A miss of a child, from what its parent answers.
child_miss :
    (t : Timing) (child cycle : ℕ) (want : MesiState → Bool) (flags : Flags) (type : AccessType)
    (l : Level)
    → IsTimely t cycle
    → (s : MesiState) (a : Answer Level) → access t child type flags cycle l ≡ some a
    → Served l.below child s a
    → want s ≡ true
    → (miss (access t child) t.child_rtt want type flags cycle l
        >>= (λ b. some (with_child b.world child b.state)))
      ≡ some a.world
unfolding miss
child_miss t child cycle want flags type l v s a e d w =
    let late : leb cycle (net_cycle cycle t.child_rtt a.cycle) ≡ true = ground (arith, v.room) in
    rw e (rw d.state (rw (w, late) (ap some (same_child a.world child s d.kept))))

-- A GETS of a child succeeds: the level stays coherent
-- and keeps its number of children, and the child has a valid copy.
pub child_access-gets :
    (t : Timing) (child cycle : ℕ) (flags : Flags) (l : Level)
    → IsCoherent l
    → IsTimely t cycle
    → child < length l.below.entry.sharers
    → (m : Level) × (child_access t child gets flags cycle l ≡ some m)
      × IsCoherent m
      × (is_valid (child_state m child) ≡ true)
      × (length m.below.entry.sharers ≡ length l.below.entry.sharers)
unfolding child_access Bottom.process_access
child_access-gets t child cycle flags l c v lt =
    elim (Bool-cases (is_state (child_state l child) invalid)) [
      | inl e ↦
          let g = access_gets t child cycle flags l c v lt (ground arith) in
          let w : (is_state g.0 shared || is_state g.0 exclusive) ≡ true = ground (arith, g.4) in
          (
            g.1.world,
            rw e (
                child_miss t child cycle (λ s. is_state s shared || is_state s exclusive) flags gets
                  l v g.0 g.1 g.2 g.3 w),
            g.3.coherent,
            rw g.3.kept (ground (arith, w)),
            g.3.size,
          )
      | inr e ↦ (l, rw e (ap some (same_child l child _ refl)), c, ground arith, refl)
    ]

-- A GETX of a child succeeds: the level stays coherent
-- and keeps its number of children, and the child has the line in M.
pub child_access-getx :
    (t : Timing) (child cycle : ℕ) (flags : Flags) (l : Level)
    → IsCoherent l
    → IsTimely t cycle
    → child < length l.below.entry.sharers
    → (m : Level) × (child_access t child getx flags cycle l ≡ some m)
      × IsCoherent m
      × (child_state m child ≡ modified)
      × (length m.below.entry.sharers ≡ length l.below.entry.sharers)
unfolding child_access Bottom.process_access
child_access-getx t child cycle flags l c v lt =
    elim (Bool-cases (is_exclusive (child_state l child))) [
      | inl e ↦
          let n : (is_state (child_state l child) invalid || is_state (child_state l child) shared)
              ≡ false =
            ground arith in
          (
            with_child l child modified,
            rw n refl,
            dirtied l child c e,
            given_state _ l.below child modified c.right.agree lt,
            refl,
          )
      | inr e ↦
          let n : (is_state (child_state l child) invalid || is_state (child_state l child) shared)
              ≡ true =
            ground arith in
          let g = access_getx t child cycle flags l c v lt e in
          (
            g.0.world,
            rw n (
                child_miss t child cycle (λ s. is_state s modified) flags getx l v modified g.0 g.1
                  g.2 refl),
            g.2.coherent,
            g.2.kept,
            g.2.size,
          )
    ]
