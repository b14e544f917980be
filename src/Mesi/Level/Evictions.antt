-- ===== src/Mesi/Level/Evictions.antt =====
-- Evictions in a coherent level, of a child and of the cache, and invalidations from above.
use me_mo_tracer.Base.{
  ℕ, ◌<◌, ◌≡◌, ◌≢◌, refl, sym, ◌∙◌, ap, inl, inr, true, false, Option, some, assert, ◌>>=◌, ◌>>◌,
  ◌⊎◌, length, get_or, ltb, add64, Bool-cases, arith,
}
use me_mo_tracer.Mesi.States.{
  MesiState, invalid, shared, exclusive, modified, puts, putx, no_flags, is_state, is_exclusive,
  is_valid,
}
use me_mo_tracer.Mesi.Directory.{out, Entry, Below, Reply, entry_is_exclusive}
use me_mo_tracer.Mesi.Bottom
use me_mo_tracer.Mesi.Bottom.{Answer, memory_access}
use me_mo_tracer.Mesi.Top
use me_mo_tracer.Mesi.Top.{shares}
use me_mo_tracer.Mesi.Level.{
  Level, Timing, child_state, with_child, access, child_eviction, eviction,
}
use me_mo_tracer.Mesi.Level.Sharing.{
  Agree, Agree-get, Agree-none, count_true, count_true_pos, count_true_two, is_in, is_owner,
}
use me_mo_tracer.Mesi.Level.Messages.{Gone, IsCounted, send_inv-Gone}
use me_mo_tracer.Mesi.Level.Grants.{put_back-Granted}
use me_mo_tracer.Mesi.Level.Coherence.{IsCoherent, IsTimely, Served, fits, settle-Served}
use me_mo_tracer.Mesi.Level.Accesses.{same_child}

state-cases : (s : MesiState) → (s ≡ invalid) ⊎ ((s ≡ shared) ⊎ ((s ≡ exclusive) ⊎ (s ≡ modified)))
state-cases invalid = inl refl
state-cases shared = inr (inl refl)
state-cases exclusive = inr (inr (inl refl))
state-cases modified = inr (inr (inr refl))

invalid_of : (s : MesiState) → is_valid s ≡ false → s ≡ invalid
invalid_of invalid e = refl
invalid_of shared e = cc
invalid_of exclusive e = cc
invalid_of modified e = cc

pub one_sharer : (e : Entry) → entry_is_exclusive e ≡ true → e.num_sharers ≡ 1
one_sharer e x = ground arith

held :
    (l : Level) (child : ℕ)
    → IsCoherent l
    → is_valid (child_state l child) ≡ true
    → shares l.below child ≡ true
held l child c e = is_in _ _ _ (fits l child c) e

holder_valid :
    (l : Level) (child : ℕ) → IsCoherent l → shares l.below child ≡ true → is_valid l.own ≡ true
holder_valid l child c s =
    c.inclusive (omega (arith, c.right.counted, count_true_pos l.below.entry.sharers child s))

access_puts :
    (t : Timing) (child cycle : ℕ) (l : Level)
    → IsCoherent l
    → shares l.below child ≡ true
    → child < length l.below.entry.sharers
    → (a : Answer Level) × (access t child puts no_flags cycle l ≡ some a)
      × Served l.below child invalid a
unfolding access Top.process_access Bottom.process_access
access_puts t child cycle l c h lt =
    let v = holder_valid l child c h in
    let g = put_back-Granted l.below child (add64 cycle t.acc_lat) c.right h lt in
    let s =
      settle-Served t l.below child (add64 cycle t.acc_lat) l.own invalid g.0 g.2 v c.above
        (λ y. ground arith) in
    (s.0, rw v (rw g.1 s.1), s.2)

access_putx :
    (t : Timing) (child cycle : ℕ) (l : Level)
    → IsCoherent l
    → shares l.below child ≡ true
    → entry_is_exclusive l.below.entry ≡ true
    → child < length l.below.entry.sharers
    → (a : Answer Level) × (access t child putx no_flags cycle l ≡ some a)
      × Served l.below child invalid a
unfolding access Top.process_access Bottom.process_access
access_putx t child cycle l c h e lt =
    let v = holder_valid l child c h in
    let x = c.above e in
    let g = put_back-Granted l.below child (add64 cycle t.acc_lat) c.right h lt in
    let s =
      settle-Served t l.below child (add64 cycle t.acc_lat) modified invalid g.0 g.2 refl
        (λ y. refl) (λ y. refl) in
    (s.0, rw (v, x, e) (rw g.1 s.1), s.2)

-- The end of an eviction of a child, from what its parent answers.
put_end :
    (o : Option (Answer Level)) (b : Below) (child : ℕ) (a : Answer Level)
    → o ≡ some a
    → Served b child invalid a
    → ((do b ← o; assert (is_state b.state invalid); some b)
        >>= (λ (b : Answer Level). some (with_child b.world child b.state)))
      ≡ some a.world
put_end o b child a e d = rw e (rw d.state (ap some (same_child a.world child invalid d.kept)))

-- An eviction of a child succeeds: the level stays coherent and keeps its number of children, and the
-- child has no copy.
pub child_eviction-IsCoherent :
    (t : Timing) (child cycle : ℕ) (l : Level)
    → IsCoherent l
    → child < length l.below.entry.sharers
    → (m : Level) × (child_eviction t child cycle l ≡ some m)
      × IsCoherent m
      × (child_state m child ≡ invalid)
      × (length m.below.entry.sharers ≡ length l.below.entry.sharers)
unfolding child_eviction Bottom.process_eviction
child_eviction-IsCoherent t child cycle l c lt = elim (state-cases (child_state l child)) [
  | inl e ↦ (l, rw e (ap some (same_child l child invalid e)), c, e, refl)
  | inr (inl e) ↦
      let h = held l child c (rw e refl) in
      let p = access_puts t child cycle l c h lt in
      (p.0.world, rw e (put_end _ l.below child p.0 p.1 p.2), p.2.coherent, p.2.kept, p.2.size)
  | inr (inr (inl e)) ↦
      let h = held l child c (rw e refl) in
      let p = access_puts t child cycle l c h lt in
      (p.0.world, rw e (put_end _ l.below child p.0 p.1 p.2), p.2.coherent, p.2.kept, p.2.size)
  | inr (inr (inr e)) ↦
      let h = held l child c (rw e refl) in
      let x = is_owner _ _ _ (fits l child c) (rw e refl) in
      let p = access_putx t child cycle l c h x lt in
      (p.0.world, rw e (put_end _ l.below child p.0 p.1 p.2), p.2.coherent, p.2.kept, p.2.size)
]

abbrev leveled : MesiState → Below → Option Level
leveled own below = some (record { own = own; below = below })

-- The memory takes the line back.
send_up :
    (t : Timing) (r : Reply) (own : MesiState)
    → ltb r.cycle (add64 r.cycle t.mem_lat) ≡ true
    → (r.writeback ≡ true → is_exclusive own ≡ true)
    → (do
      a ← Bottom.process_eviction (memory_access t.mem_lat) t.rtt own r.writeback r.cycle tt
      leveled a.state r.below)
      ≡ some (record { own = invalid; below = r.below })
unfolding Bottom.process_eviction Bottom.put_up memory_access
send_up t r own late w = elim (Bool-cases r.writeback) [
  | inl y ↦ rw (y, w y, late) refl
  | inr y ↦ rw y (elim (state-cases own) [
    | inl e ↦ rw e refl
    | inr (inl e) ↦ rw (e, late) refl
    | inr (inr (inl e)) ↦ rw (e, late) refl
    | inr (inr (inr e)) ↦ rw (e, late) refl
  ])
]

pub Gone-IsCoherent :
    (l : Level) (cycle : ℕ) (r : Reply)
    → IsCoherent l
    → Gone l.below cycle r
    → IsCoherent (record { own = invalid; below = r.below })
Gone-IsCoherent l cycle r c g = record {
  right = record {
    agree = Agree-none false _ _ _ g.none_left g.agree;
    counted = g.zero_count ∙ sym g.none_left;
    single = λ e. omega (arith, g.zero_count);
    few = omega (arith, g.size, c.right.few);
  };
  inclusive = λ n. absurd (omega (arith, g.zero_count));
  above = λ e. absurd (omega (arith, g.zero_count, one_sharer r.below.entry e));
}

pub nobody :
    (b : Below) (child : ℕ)
    → Agree false b.entry.sharers b.kids
    → count_true b.entry.sharers ≡ 0
    → is_valid (get_or b.kids child out).state ≡ false
nobody b child a z = elim (Bool-cases (is_valid (get_or b.kids child out).state)) [
  | inl y ↦
      let i =
        is_in false (get_or b.entry.sharers child false) (get_or b.kids child out)
          (Agree-get false b.entry.sharers b.kids child a) y in
      absurd (omega (arith, z, count_true_pos b.entry.sharers child i))
  | inr y ↦ y
]

-- An eviction of the line succeeds: the level stays coherent and keeps its number of children,
-- and neither the cache nor any child has a copy.
pub eviction-IsCoherent :
    (t : Timing) (cycle : ℕ) (l : Level)
    → IsCoherent l
    → IsTimely t cycle
    → (m : Level) × (eviction t cycle l ≡ some m)
      × IsCoherent m
      × (m.own ≡ invalid)
      × ((child : ℕ) → is_valid (child_state m child) ≡ false)
      × (length m.below.entry.sharers ≡ length l.below.entry.sharers)
unfolding eviction Top.process_eviction
eviction-IsCoherent t cycle l c v =
    let k : IsCounted (entry_is_exclusive l.below.entry) l.below = record {
      agree = c.right.agree;
      counted = c.right.counted;
      few = c.right.few;
      marked = λ y. y;
    } in
    let g = send_inv-Gone (entry_is_exclusive l.below.entry) l.below cycle k in
    let late : ltb g.0.cycle (add64 g.0.cycle t.mem_lat) ≡ true =
      ground (arith, g.2.late (omega (arith, v.room)), v.room, v.mem, v.mem_pos) in
    (
      record { own = invalid; below = g.0.below },
      rw (g.1) (send_up t g.0 l.own late (λ w. c.above (g.2.dirty w))),
      Gone-IsCoherent l cycle g.0 c g.2,
      refl,
      λ child. nobody g.0.below child g.2.agree g.2.none_left,
      g.2.size,
    )

pub writer_alone :
    (l : Level) (c d : ℕ)
    → IsCoherent l
    → c ≢ d
    → is_exclusive (child_state l c) ≡ true
    → child_state l d ≡ invalid
writer_alone l c d h n e =
    let x = is_owner _ _ _ (fits l c h) e in
    let b = is_in _ _ _ (fits l c h) (ground arith) in
    elim (Bool-cases (is_valid (child_state l d))) [
      | inl y ↦ absurd (
          omega (
            arith,
            count_true_two l.below.entry.sharers c d n b (is_in _ _ _ (fits l d h) y),
            h.right.counted,
            one_sharer l.below.entry x,
          ))
      | inr y ↦ invalid_of _ y
    ]
