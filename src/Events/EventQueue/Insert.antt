-- ===== src/Events/EventQueue/Insert.antt =====
-- `insert` of the event queue, and when it fails.
use me_mo_tracer.Base.{
  ℕ, ◌+◌, ◌-◌, ◌^◌, ◌≤◌, ◌<◌, ◌≡◌, ◌⊎◌, refl, ap, ◌∙◌, inl, inr, true, false, List, none, some,
  if◌then◌else◌, leb, ◌==◌, add64, All, ◌>>◌, assert, Bool-cases, dec_lt, arith,
}
use me_mo_tracer.Events.Multimap.{insert, IsSorted, All-insert, insert-IsSorted}
use me_mo_tracer.Events.EventQueue.{insert_event}

module _ {E : Type 0} (period : E → ℕ) where
  abbrev pub delay_of : E → ℕ → ℕ
  delay_of ev start_delay = if start_delay == 2 ^ 64 - 1 then period ev else start_delay

  inserted :
      (phase : ℕ) (ev : E) (start_delay p : ℕ) (es : List (ℕ × E))
      → delay_of ev start_delay ≡ p
      → insert_event period phase ev start_delay es
        ≡ (assert (leb phase (add64 phase p)) >> some (insert (add64 phase p) ev es))
  unfolding insert_event
  inserted phase ev start_delay p es e = elim (Bool-cases (start_delay == 2 ^ 64 - 1)) [
    | inl t ↦ rw t (
        ap (λ i. assert (leb phase (add64 phase i)) >> some (insert (add64 phase i) ev es))
          (rw t at e))
    | inr f ↦ rw f (
        ap (λ i. assert (leb phase (add64 phase i)) >> some (insert (add64 phase i) ev es))
          (rw f at e))
  ]

  -- An event is inserted for the current phase plus its delay, -1 standing for its period: where the
  -- sum does not wrap it succeeds, and leaves a sorted queue with no past phase as it was; where the
  -- sum wraps, as for a negative delay not beyond phase 0, the assertion fails.
  pub insert_event-cases :
      (phase : ℕ) (ev : E) (start_delay : ℕ) (es : List (ℕ × E))
      → phase < 2 ^ 64
      → delay_of ev start_delay < 2 ^ 64
      → IsSorted es
      → All (λ e. phase ≤ e.0) es
      → ((phase + delay_of ev start_delay < 2 ^ 64)
          × ((fs : List (ℕ × E)) × (insert_event period phase ev start_delay es ≡ some fs)
              × (fs ≡ insert (phase + delay_of ev start_delay) ev es)
              × IsSorted fs
              × All (λ e. phase ≤ e.0) fs))
        ⊎ ((2 ^ 64 ≤ phase + delay_of ev start_delay)
            × (insert_event period phase ev start_delay es ≡ none))
  insert_event-cases phase ev start_delay es small word s a =
      let p = delay_of ev start_delay in
      let i = inserted phase ev start_delay p es refl in
      elim (dec_lt (phase + p) (2 ^ 64)) [
        | yes l ↦
            let k : add64 phase p ≡ phase + p = omega arith in
            let t : leb phase (phase + p) ≡ true = ground arith in
            inl (
              l,
              (
                insert (phase + p) ev es,
                i ∙ rw (k, t) refl,
                refl,
                insert-IsSorted (phase + p) ev es s,
                All-insert (λ e. phase ≤ e.0) (phase + p) ev es (omega arith) a,
              ),
            )
        | no g ↦
            let f : leb phase (add64 phase p) ≡ false = ground arith in
            inr (omega arith, i ∙ rw f refl)
      ]
