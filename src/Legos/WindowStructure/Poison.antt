-- ===== src/Legos/WindowStructure/Poison.antt =====
-- `poisonRange` leaves no port of its mask free in the range.
use me_mo_tracer.Base.{
  ℕ, zero, suc, ◌+◌, ◌-◌, ◌*◌, ◌^◌, ◌≤◌, ◌<◌, ◌≡◌, refl, sym, ap, ◌∙◌, inl, inr, Bool, true, false,
  List, [], ◌∷◌, Option, some, none, ltb, ◌==◌, max, All, ◌>>=◌, ℕ_discrete, dec_lt, arith,
  Bool-cases, first_bit, free_of, or_bits,
}
use me_mo_tracer.Legos.WindowStructure.{WinCycle, blank, WindowStructure, try_schedule}
use me_mo_tracer.Legos.WindowStructure.Schedule.{schedule_internal, poison_loop, poison_range}
use me_mo_tracer.Legos.WindowStructure.Place.{place}
use me_mo_tracer.Legos.WindowStructure.View.{view, IsValid, weaken}
use me_mo_tracer.Legos.WindowStructure.Scan.{free_port, taken}
use me_mo_tracer.Legos.WindowStructure.Slots.{Placed}
use me_mo_tracer.Legos.WindowStructure.Search.{place-Placed}

nothing_left : (os ps : List Bool) → first_bit (free_of (or_bits os ps) ps) ≡ none
nothing_left [] ps = refl
nothing_left (o ∷ os) [] = refl
nothing_left (true ∷ os) (p ∷ ps) = ap (λ m. m >>= λ i. some (i + 1)) (nothing_left os ps)
nothing_left (false ∷ os) (true ∷ ps) = ap (λ m. m >>= λ i. some (i + 1)) (nothing_left os ps)
nothing_left (false ∷ os) (false ∷ ps) = ap (λ m. m >>= λ i. some (i + 1)) (nothing_left os ps)

taken-shadow : (ports : List Bool) (wc : WinCycle) → free_port ports (taken false ports wc) ≡ none
unfolding taken try_schedule
taken-shadow ports wc = nothing_left wc.occ_units ports

shadow :
    (ports : List Bool) (w v : WindowStructure) (cur sched s port : ℕ)
    → place false ports cur sched w ≡ some (v, s, port)
    → schedule_internal false false ports w cur sched ≡ some (v, cur, s)
unfolding schedule_internal
shadow ports w v cur sched s port e = rw e refl

no_port : (i : ℕ) → ¬ (◌≡◌ {A = Option ℕ} (some i) none)
no_port i e = cc

-- The cycles from `cur` up to `poison` have no port of the mask free.
abbrev pub IsPoisoned : List Bool → WindowStructure → ℕ → ℕ → Type 0
IsPoisoned ports w cur poison =
    (j : ℕ) → cur ≤ j → j < poison → free_port ports (view w cur j) ≡ none

module _ (ports : List Bool) (cur target p : ℕ) (some_port : free_port ports blank ≡ some p)
    (cur-lt : cur < 2 ^ 61) (target-lt : target < cur + 2 ^ 31) where
  module _ (w : WindowStructure) (poison : ℕ) (v : WindowStructure) (s port : ℕ)
      (le : cur ≤ poison) where
    shadow-IsPoisoned :
        IsPoisoned ports w cur poison
        → Placed false ports w cur (max cur poison) v s port
        → IsPoisoned ports v cur (s + 1)
    shadow-IsPoisoned done h j l k = elim (ℕ_discrete j s) [
      | yes e ↦
          let b : (s == s) ≡ true = ground arith in
          rw e (
            ap (free_port ports) (h.after s (omega (arith, e)))
            ∙ rw b (taken-shadow ports (view w cur s)))
      | no ne ↦
          let b : (j == s) ≡ false = ground (arith, ne) in
          ap (free_port ports) (h.after j l)
          ∙ rw b (elim (dec_lt j poison) [
            | yes m ↦ done j l m
            | no g ↦ h.full j (omega arith) (omega (arith, ne))
          ])
    ]

    first_free :
        free_port ports (view w cur poison) ≡ none
        → Placed false ports w cur (max cur poison) v s port
        → poison < s
    first_free full h = elim (ℕ_discrete s poison) [
      | yes e ↦
          absurd (no_port port (sym h.free ∙ ap (λ i. free_port ports (view w cur i)) e ∙ full))
      | no ne ↦ omega (arith, ne, h.late)
    ]

  -- One round.
  poison_step :
      (w : WindowStructure) (poison b : ℕ)
      → IsValid w cur
      → cur ≤ poison
      → poison < target
      → target + 2 * w.h ≤ b
      → b < 2 ^ 63
      → All (λ e. e.0 < b) w.ub_win
      → IsPoisoned ports w cur poison
      → (v : WindowStructure) × (s : ℕ) × (schedule_internal false false ports w cur poison
          ≡ some (v, cur, s))
        × IsValid v cur
        × (poison ≤ s)
        × (v.h ≡ w.h)
        × All (λ e. e.0 < suc b) v.ub_win
        × IsPoisoned ports v cur (s + 1)
        × (free_port ports (view w cur poison) ≡ none → poison < s)
  poison_step w poison b v le lt room big keys done =
      let q =
        place-Placed false ports w cur poison p v some_port (omega arith) (omega arith)
          (omega arith) (weaken (λ e k. omega arith) w.ub_win keys) in
      let s = q.1 in
      let h = q.4 in
      (
        q.0,
        s,
        shadow ports w q.0 cur poison s q.2 q.3,
        h.valid,
        omega (arith, h.late),
        h.h,
        h.keys b (omega arith) keys,
        shadow-IsPoisoned w poison q.0 s q.2 le done h,
        λ full. first_free w poison q.0 s q.2 le full h,
      )

  -- Rounds enough for the cycles that are left; the round before has filled the cycle it starts at.
  poison_rounds :
      (n : ℕ) (w : WindowStructure) (poison b : ℕ)
      → IsValid w cur
      → cur ≤ poison
      → target ≤ poison + n
      → target + 2 * w.h ≤ b
      → b + n < 2 ^ 63
      → All (λ e. e.0 < b) w.ub_win
      → IsPoisoned ports w cur (poison + 1)
      → (v : WindowStructure) × (poison_loop n ports target w cur poison ≡ some (v, cur))
        × IsValid v cur
        × IsPoisoned ports v cur target
  unfolding poison_loop
  poison_rounds zero w poison b v le enough room big keys done =
      let f : ltb poison target ≡ false = ground arith in
      (w, rw f refl, v, λ j l k. done j l (omega arith))
  poison_rounds (suc n) w poison b v le enough room big keys done =
      elim (Bool-cases (ltb poison target)) [
        | inr f ↦ (w, rw f refl, v, λ j l k. done j l (ground arith))
        | inl t ↦
            let q =
              poison_step w poison b v le (ground arith) room (omega arith) keys
                (λ j l k. done j l (omega arith)) in
            let later = q.8 (done poison le (omega arith)) in
            let r =
              poison_rounds n q.0 q.1 (suc b) q.3 (omega arith) (omega arith) (omega (arith, q.5))
                (omega arith) q.6 q.7 in
            (r.0, rw (t, q.2) r.1, r.2, r.3)
      ]

  poison_start :
      (w : WindowStructure)
      → IsValid w cur
      → All (λ e. e.0 < 2 ^ 62) w.ub_win
      → (v : WindowStructure) × (poison_loop (suc (target - cur)) ports target w cur cur
          ≡ some (v, cur))
        × IsValid v cur
        × IsPoisoned ports v cur target
  unfolding poison_loop
  poison_start w v keys = elim (Bool-cases (ltb cur target)) [
    | inr f ↦ (w, rw f refl, v, λ j l k. absurd (ground arith))
    | inl t ↦
        let small = v.small in
        let q =
          poison_step w cur (2 ^ 62) v (omega arith) (ground arith) (omega arith) (omega arith) keys
            (λ j l k. absurd (omega arith)) in
        let r =
          poison_rounds (target - cur) q.0 q.1 (suc (2 ^ 62)) q.3 (omega (arith, q.4))
            (omega (arith, q.4)) (omega (arith, q.5)) (omega arith) q.6 q.7 in
        (r.0, rw (t, q.2) r.1, r.2, r.3)
  ]

-- `poisonRange` ends and leaves the current cycle as it is, for a mask with a port, a range of less
-- than 2 ^ 31 cycles and cycles below 2 ^ 61; the window stays valid, and no cycle of the range has a
-- port of the mask free.
pub poison_range-IsPoisoned :
    (ports : List Bool) (w : WindowStructure) (cur target p : ℕ)
    → IsValid w cur
    → free_port ports blank ≡ some p
    → cur < 2 ^ 61
    → target < cur + 2 ^ 31
    → All (λ e. e.0 < 2 ^ 62) w.ub_win
    → (v : WindowStructure) × (poison_range ports w cur target ≡ some (v, cur))
      × IsValid v cur
      × IsPoisoned ports v cur target
unfolding poison_range
poison_range-IsPoisoned ports w cur target p v some_port cur-lt target-lt keys =
    let r = poison_start ports cur target p some_port cur-lt target-lt w v keys in
    let n : target - cur + 1 ≡ suc (target - cur) = omega arith in
    let same : (cur == cur) ≡ true = ground arith in (r.0, rw (n, r.1, same) refl, r.2, r.3)
