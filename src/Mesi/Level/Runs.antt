-- ===== src/Mesi/Level/Runs.antt =====
-- Sequences of operations on a line. Children read and write it, give it back, and the cache evicts it.
use me_mo_tracer.Base.{
  ℕ, ◌^◌, ◌<◌, ◌≤◌, ◌≡◌, ◌≢◌, ◌∙◌, subst, IfSome, refl, sym, true, false, List, [], ◌∷◌, Option,
  some, length, All, ◌>>=◌, arith,
}
use me_mo_tracer.Mesi.States.{invalid, is_exclusive, gets, getx, Flags}
use me_mo_tracer.Mesi.Level.{
  Level, Timing, child_state, idle, child_access, child_eviction, eviction,
}
use mathlib.Core.List.{map}
use me_mo_tracer.Mesi.Level.Sharing.{Agree, count_true}
use me_mo_tracer.Mesi.Level.Coherence.{IsCoherent, IsTimely}
use me_mo_tracer.Mesi.Level.Accesses.{child_access-gets, child_access-getx}
use me_mo_tracer.Mesi.Level.Evictions.{child_eviction-IsCoherent, eviction-IsCoherent, writer_alone}

pub data Event : Type 0 where
  child_load child_store : ℕ → Flags → Event
  child_replace : ℕ → Event
  replace : Event

unfoldable pub step : Timing → ℕ → Event → Level → Option Level
step t cycle (child_load child flags) l = child_access t child gets flags cycle l
step t cycle (child_store child flags) l = child_access t child getx flags cycle l
step t cycle (child_replace child) l = child_eviction t child cycle l
step t cycle replace l = eviction t cycle l

-- The events one after the other, each at its cycle.
unfoldable pub run : Timing → List (ℕ × Event) → Level → Option Level
unfolding step
run t [] l = some l
run t (e ∷ events) l = step t e.0 e.1 l >>= run t events

-- The child of an event exists.
abbrev NamesChild : ℕ → Event → Type 0
NamesChild n (child_load child flags) = child < n
NamesChild n (child_store child flags) = child < n
NamesChild n (child_replace child) = child < n
NamesChild n replace = Unit {0}

abbrev pub AreTimely : Timing → ℕ → List (ℕ × Event) → Type 0
AreTimely t n [] = Unit {0}
AreTimely t n (e ∷ events) = IsTimely t e.0 × NamesChild n e.1 × AreTimely t n events

-- What an event leaves.
abbrev Stepped : Level → Option Level → Type 0
Stepped l o =
    (m : Level) × (o ≡ some m)
    × IsCoherent m
    × (length m.below.entry.sharers ≡ length l.below.entry.sharers)

step-IsCoherent :
    (t : Timing) (cycle : ℕ) (e : Event) (l : Level)
    → IsCoherent l
    → IsTimely t cycle
    → NamesChild (length l.below.entry.sharers) e
    → Stepped l (step t cycle e l)
unfolding step
step-IsCoherent t cycle (child_load child flags) l c v lt =
    let g = child_access-gets t child cycle flags l c v lt in (g.0, g.1, g.2, g.4)
step-IsCoherent t cycle (child_store child flags) l c v lt =
    let g = child_access-getx t child cycle flags l c v lt in (g.0, g.1, g.2, g.4)
step-IsCoherent t cycle (child_replace child) l c v lt =
    let g = child_eviction-IsCoherent t child cycle l c lt in (g.0, g.1, g.2, g.4)
step-IsCoherent t cycle replace l c v lt =
    let g = eviction-IsCoherent t cycle l c v in (g.0, g.1, g.2, g.5)

-- From a coherent level every sequence of accesses and evictions runs to its end, if each names a
-- child that exists and its cycle is far from the end of the range: no assertion of a controller
-- fails, and the level is coherent at the end.
pub run-IsCoherent :
    (t : Timing) (events : List (ℕ × Event)) (l : Level)
    → IsCoherent l
    → AreTimely t (length l.below.entry.sharers) events
    → (m : Level) × (run t events l ≡ some m) × IsCoherent m
unfolding run
run-IsCoherent t [] l c v = (l, refl, c)
run-IsCoherent t (e ∷ events) l c v =
    let s = step-IsCoherent t e.0 e.1 l c v.0 v.1 in
    let r = run-IsCoherent t events s.0 s.2 (rw s.3 v.2) in (r.0, rw s.1 r.1, r.2)

-- When a sequence of accesses and evictions from a coherent level, each of a child that exists and at
-- a cycle far from the end of the range, has run, no child has a copy of a line that another one has
-- in E or M.
pub run-single_writer :
    (t : Timing) (events : List (ℕ × Event)) (l m : Level) (c d : ℕ)
    → IsCoherent l
    → AreTimely t (length l.below.entry.sharers) events
    → run t events l ≡ some m
    → c ≢ d
    → is_exclusive (child_state m c) ≡ true
    → child_state m d ≡ invalid
run-single_writer t events l m c d h v e n x =
    let r = run-IsCoherent t events l h v in
    let coherent : IsCoherent m = subst (λ o. IfSome o IsCoherent) (sym r.1 ∙ e) r.2 in
    writer_alone m c d coherent n x

idle-Agree :
    (lats : List ℕ)
    → All (λ n. n < 2 ^ 32) lats
    → Agree false
        (map (λ (n : ℕ). false) lats)
        (map (λ (n : ℕ). record { state = invalid; lat = n }) lats)
idle-Agree [] h = tt
idle-Agree (n ∷ lats) h = ((refl, h.0), idle-Agree lats h.1)

no_sharers : (lats : List ℕ) → count_true (map (λ (n : ℕ). false) lats) ≡ 0
no_sharers [] = refl
no_sharers (n ∷ lats) = no_sharers lats

length-no_sharers : (lats : List ℕ) → length (map (λ (n : ℕ). false) lats) ≡ length lats
length-no_sharers [] = refl
length-no_sharers (n ∷ lats) = omega (arith, length-no_sharers lats)

-- A line that nobody has is coherent, over at most 256 children with 32-bit latencies.
pub idle-IsCoherent :
    (lats : List ℕ) → All (λ n. n < 2 ^ 32) lats → length lats ≤ 256 → IsCoherent (idle lats)
unfolding idle
idle-IsCoherent lats h few = record {
  right = record {
    agree = idle-Agree lats h;
    counted = sym (no_sharers lats);
    single = λ e. omega arith;
    few = omega (arith, length-no_sharers lats);
  };
  inclusive = λ n. absurd (omega arith);
  above = λ e. cc;
}
