-- ===== src/Events/EventQueue/Tick.antt =====
-- A tick calls the events of its phase, once each and in their order.
use me_mo_tracer.Base.{
  ℕ, zero, suc, ◌+◌, ◌^◌, ◌≤◌, ◌<◌, ◌≡◌, refl, sym, ap, ◌∙◌, Bool, true, false, List, [], ◌∷◌, some,
  if◌then◌else◌, ltb, leb, ◌==◌, add64, length, All, ℕ_discrete, arith,
}
use me_mo_tracer.Events.Multimap.{insert, IsSorted, All-insert, insert-IsSorted}
use me_mo_tracer.Events.EventQueue.{tick_loop, tick}

module _ {E : Type 0} where
  -- The events of the phase at the front, and the later ones.
  abbrev pub due : ℕ → List (ℕ × E) → List E
  due phase [] = []
  due phase (e ∷ es) = if e.0 == phase then e.1 ∷ due phase es else []

  abbrev pub later : ℕ → List (ℕ × E) → List (ℕ × E)
  later phase [] = []
  later phase (e ∷ es) = if e.0 == phase then later phase es else e ∷ es

  abbrev due_then : ℕ → List E → List (ℕ × E) → List (ℕ × E)
  due_then phase [] es = es
  due_then phase (d ∷ ds) es = (phase, d) ∷ due_then phase ds es

module _ {E W : Type 0} (period : E → ℕ) (callback : E → W → E × W) where
  -- Each event is called in turn, and waits for the phase after its period if that is not 0.
  abbrev pub call_each : ℕ → List E → List (ℕ × E) → W → List (ℕ × E) × W
  call_each phase [] es w = (es, w)
  call_each phase (d ∷ ds) es w =
      let r = callback d w in
      call_each phase ds (if period r.0 == 0 then es else insert (phase + period r.0) r.0 es) r.1

  insert-due_then :
      (phase key : ℕ) (obj : E) (ds : List E) (es : List (ℕ × E))
      → phase < key
      → insert key obj (due_then phase ds es) ≡ due_then phase ds (insert key obj es)
  unfolding insert
  insert-due_then phase key obj [] es lt = refl
  insert-due_then phase key obj (d ∷ ds) es lt =
      let f : ltb key phase ≡ false = ground arith in
      rw f (ap (◌∷◌ (phase, d)) (insert-due_then phase key obj ds es lt))

  module _ (phase : ℕ) (small : phase < 2 ^ 63)
      (short : (d : E) (w : W) → period (callback d w).0 < 2 ^ 63) where
    tick_loop-call_each :
        (n : ℕ) (ds : List E) (es : List (ℕ × E)) (w : W)
        → length ds ≤ n
        → All (λ e. phase < e.0) es
        → tick_loop period callback n phase (due_then phase ds es) w
          ≡ some (call_each phase ds es w)
    unfolding tick_loop
    tick_loop-call_each n [] [] w le a = refl
    tick_loop-call_each zero [] (e ∷ es) w le a =
        let f : leb e.0 phase ≡ false = ground (arith, a.0) in rw f refl
    tick_loop-call_each (suc n) [] (e ∷ es) w le a =
        let f : leb e.0 phase ≡ false = ground (arith, a.0) in rw f refl
    tick_loop-call_each zero (d ∷ ds) es w le a = absurd (omega arith)
    tick_loop-call_each (suc n) (d ∷ ds) es w le a =
        let r = callback d w in
        let t : leb phase phase ≡ true = ground arith in
        let s : (phase == phase) ≡ true = ground arith in
        let k : add64 phase (period r.0) ≡ phase + period r.0 = omega (arith, short d w) in
        elim (ℕ_discrete (period r.0) 0) [
          | yes z ↦
              let b : (period r.0 == 0) ≡ true = ground (arith, z) in
              rw (t, s, b) (tick_loop-call_each n ds es r.1 (omega arith) a)
          | no nz ↦
              let b : (period r.0 == 0) ≡ false = ground (arith, nz) in
              rw
                (
                  t,
                  s,
                  b,
                  k,
                  insert-due_then phase (phase + period r.0) r.0 ds es (omega (arith, nz)),
                )
                (tick_loop-call_each n ds (insert (phase + period r.0) r.0 es) r.1 (omega arith)
                  (All-insert (λ e. phase < e.0) (phase + period r.0) r.0 es (omega (arith, nz)) a))
        ]

    -- The queue after one event.
    rest_ahead :
        (once : Bool) (key : ℕ) (obj : E) (es : List (ℕ × E))
        → (once ≡ false → phase < key)
        → IsSorted es × All (λ e. phase < e.0) es
        → IsSorted (if once then es else insert key obj es)
          × All (λ e. phase < e.0) (if once then es else insert key obj es)
    rest_ahead true key obj es lt h = h
    rest_ahead false key obj es lt h =
        (insert-IsSorted key obj es h.0, All-insert (λ e. phase < e.0) key obj es (lt refl) h.1)

    call_each-ahead :
        (ds : List E) (es : List (ℕ × E)) (w : W)
        → IsSorted es × All (λ e. phase < e.0) es
        → IsSorted (call_each phase ds es w).0 × All (λ e. phase < e.0) (call_each phase ds es w).0
    call_each-ahead [] es w h = h
    call_each-ahead (d ∷ ds) es w h =
        let r = callback d w in
        call_each-ahead ds (if period r.0 == 0 then es else insert (phase + period r.0) r.0 es) r.1
          (rest_ahead (period r.0 == 0) (phase + period r.0) r.0 es (λ f. ground (arith, f)) h)

  due-later : (phase : ℕ) (es : List (ℕ × E)) → due_then phase (due phase es) (later phase es) ≡ es
  due-later phase [] = refl
  due-later phase (e ∷ es) = elim (ℕ_discrete e.0 phase) [
    | yes q ↦
        let t : (e.0 == phase) ≡ true = ground (arith, q) in
        rw t (
          ap (λ k. (k, e.1) ∷ due_then phase (due phase es) (later phase es)) (sym q)
          ∙ ap (◌∷◌ e) (due-later phase es))
    | no nq ↦ let f : (e.0 == phase) ≡ false = ground (arith, nq) in rw f refl
  ]

  due-length : (phase : ℕ) (es : List (ℕ × E)) → length (due phase es) ≤ length es
  due-length phase [] = omega arith
  due-length phase (e ∷ es) = elim (ℕ_discrete e.0 phase) [
    | yes q ↦
        let t : (e.0 == phase) ≡ true = ground (arith, q) in
        rw t (omega (arith, due-length phase es))
    | no nq ↦ let f : (e.0 == phase) ≡ false = ground (arith, nq) in rw f (omega arith)
  ]

  above :
      (phase k : ℕ) (es : List (ℕ × E))
      → phase < k
      → All (λ e. k ≤ e.0) es
      → All (λ e. phase < e.0) es
  above phase k [] lt h = tt
  above phase k (e ∷ es) lt h = (omega arith, above phase k es lt h.1)

  later-ahead :
      (phase : ℕ) (es : List (ℕ × E))
      → IsSorted es
      → All (λ e. phase ≤ e.0) es
      → IsSorted (later phase es) × All (λ e. phase < e.0) (later phase es)
  later-ahead phase [] s a = (tt, tt)
  later-ahead phase (e ∷ es) s a = elim (ℕ_discrete e.0 phase) [
    | yes q ↦
        let t : (e.0 == phase) ≡ true = ground (arith, q) in
        rw (later, t) (later-ahead phase es s.1 a.1)
    | no nq ↦
        let f : (e.0 == phase) ≡ false = ground (arith, nq) in
        rw (later, f) (s, (omega (arith, a.0, nq), above phase e.0 es (omega (arith, a.0, nq)) s.0))
  ]

  -- Where no event's phase is past, a tick does not panic: it calls the events of the phase, each
  -- once and in order, puts those with a period back behind what waits for the same phase, and
  -- leaves a sorted queue of events for later phases. The periods and the phase are below 2 ^ 63.
  pub tick-call_each :
      (phase : ℕ) (es : List (ℕ × E)) (w : W)
      → phase < 2 ^ 63
      → ((d : E) (v : W) → period (callback d v).0 < 2 ^ 63)
      → IsSorted es
      → All (λ e. phase ≤ e.0) es
      → (r : List (ℕ × E) × W) × (tick period callback phase es w ≡ some r)
        × (r ≡ call_each phase (due phase es) (later phase es) w)
        × IsSorted r.0
        × All (λ e. phase < e.0) r.0
  unfolding tick
  tick-call_each phase es w small short s a =
      let h = later-ahead phase es s a in
      let k = call_each-ahead phase small short (due phase es) (later phase es) w h in
      (
        call_each phase (due phase es) (later phase es) w,
        ap (λ q. tick_loop period callback (length es) phase q w) (sym (due-later phase es))
            ∙ tick_loop-call_each phase small short (length es) (due phase es) (later phase es) w
                (due-length phase es) h.1,
        refl,
        k.0,
        k.1,
      )
