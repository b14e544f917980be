-- ===== src/Legos/WindowStructure/Far.antt =====
-- The first cycle of the map with a free port.
use me_mo_tracer.Base.{
  ℕ, suc, ◌+◌, ◌^◌, ◌≤◌, ◌<◌, ◌≡◌, refl, ap, inl, inr, Bool, true, false, List, [], ◌∷◌, none, some,
  Option-cases, Bool-cases, if◌then◌else◌, ltb, ◌==◌, add64, All, ℕ_discrete, arith,
}
use me_mo_tracer.Legos.WindowStructure.{WinCycle, blank}
use me_mo_tracer.Legos.WindowStructure.Place.{ub_fresh, ub_from, ub_place}
use me_mo_tracer.Legos.WindowStructure.Scan.{free_port, taken, try_schedule-port, taken_full}
use me_mo_tracer.Legos.WindowStructure.View.{lookup_or, IsSorted, lookup_or-above, weaken}

module _ (touch : Bool) (ports : List Bool) where
  pub record FarHit (sched : ℕ) (es fs : List (ℕ × WinCycle)) (s port : ℕ) : Type 0 where
    pub late : sched ≤ s
    pub free : free_port ports (lookup_or blank es s) ≡ some port
    pub full : (j : ℕ) → sched ≤ j → j < s → free_port ports (lookup_or blank es j) ≡ none
    pub sorted : IsSorted fs
    pub keys : (b : ℕ) → b ≤ sched → All (λ e. b ≤ e.0) es → All (λ e. b ≤ e.0) fs
    pub upper : (b : ℕ) → sched ≤ b → All (λ e. e.0 < b) es → All (λ e. e.0 < suc b) fs
    pub after :
        (c : ℕ)
        → lookup_or blank fs c
          ≡ (if c == s then taken touch ports (lookup_or blank es s) else lookup_or blank es c)

  module _ (port : ℕ) (some_port : free_port ports blank ≡ some port) where
    ub_fresh-FarHit :
        (sched : ℕ) (es : List (ℕ × WinCycle))
        → IsSorted es
        → All (λ e. sched < e.0) es
        → (ub_fresh touch ports sched es
            ≡ some ((sched, taken touch ports blank) ∷ es, sched, port))
          × FarHit sched es ((sched, taken touch ports blank) ∷ es) sched port
    unfolding ub_fresh taken
    ub_fresh-FarHit sched es s a =
        let none_there = lookup_or-above blank es sched a in
        (
          rw (ub_fresh, try_schedule-port touch ports blank, some_port) refl,
          record {
            late = omega arith;
            free = rw none_there some_port;
            full = λ j l h. absurd (omega arith);
            sorted = (a, s);
            keys = λ b l h. (l, h);
            upper = λ b l h. (omega arith, weaken (λ e k. omega arith) es h);
            after = λ c. rw none_there (ground arith);
          },
        )

  cons-FarHit :
      (e : ℕ × WinCycle) (sched : ℕ) (es fs : List (ℕ × WinCycle)) (s port : ℕ)
      → e.0 < sched
      → All (λ d. e.0 < d.0) es
      → FarHit sched es fs s port
      → FarHit sched (e ∷ es) (e ∷ fs) s port
  cons-FarHit e sched es fs s port lt a f =
      let skip : (j : ℕ) → sched ≤ j → lookup_or blank (e ∷ es) j ≡ lookup_or blank es j =
        λ j l. ground arith in
      record {
        late = f.late;
        free = rw (skip s f.late) f.free;
        full = λ j l h. rw (skip j l) (f.full j l h);
        sorted = (f.keys (suc e.0) (omega arith) a, f.sorted);
        keys = λ b l h. (h.0, f.keys b l h.1);
        upper = λ b l h. (omega (arith, h.0), f.upper b l h.1);
        after = λ c. rw (skip s f.late) (ground (arith, f.after c, f.late));
      }

  widen-FarHit :
      (sched : ℕ) (es fs : List (ℕ × WinCycle)) (s port : ℕ)
      → ((b : ℕ) → All (λ e. e.0 < b) es → sched + 1 ≤ b)
      → free_port ports (lookup_or blank es sched) ≡ none
      → FarHit (sched + 1) es fs s port
      → FarHit sched es fs s port
  widen-FarHit sched es fs s port below n f = record {
    late = omega (arith, f.late);
    free = f.free;
    full = λ j l h. elim (ℕ_discrete j sched) [ yes e ↦ rw e n | no ne ↦ f.full j (omega arith) h ];
    sorted = f.sorted;
    keys = λ b l h. f.keys b (omega arith) h;
    upper = λ b l h. f.upper b (below b h) h;
    after = f.after;
  }

  ub_from_later :
      (e : ℕ × WinCycle) (sched : ℕ) (es fs : List (ℕ × WinCycle)) (s p : ℕ)
      → e.0 < 2 ^ 63
      → e.0 ≡ sched
      → free_port ports e.1 ≡ none
      → ub_from touch ports (sched + 1) es ≡ some (fs, s, p)
      → ub_from touch ports sched (e ∷ es) ≡ some (e ∷ fs, s, p)
  unfolding ub_from taken
  ub_from_later e sched es fs s p lt eq n r =
      let t : (e.0 == sched) ≡ true = ground (arith, eq) in
      let next : add64 sched 1 ≡ sched + 1 = omega arith in
      let same : (e.0, taken touch ports e.1) ≡ e =
        ap (λ w. (e.0, w)) (taken_full touch ports e.1 n) in
      rw (t, try_schedule-port touch ports e.1, n, next, r, same) refl

  module _ (port : ℕ) (some_port : free_port ports blank ≡ some port) where
    ub_from-FarHit :
        (sched : ℕ) (es : List (ℕ × WinCycle))
        → IsSorted es
        → All (λ e. sched ≤ e.0) es
        → sched ≤ 2 ^ 63
        → All (λ e. e.0 < 2 ^ 63) es
        → (fs : List (ℕ × WinCycle)) × (s : ℕ) × (p : ℕ) × (ub_from touch ports sched es
            ≡ some (fs, s, p))
          × FarHit sched es fs s p
    unfolding ub_from taken
    ub_from-FarHit sched [] s a lt k =
        let f = ub_fresh-FarHit port some_port sched [] tt tt in (_, sched, port, f.0, f.1)
    ub_from-FarHit sched (e ∷ es) s a lt k = elim (ℕ_discrete e.0 sched) [
      | no ne ↦
          let f =
            ub_fresh-FarHit port some_port sched (e ∷ es) s
              (omega (arith, a.0, ne), weaken (λ d l. omega (arith, l, a.0)) es s.0) in
          let t : (e.0 == sched) ≡ false = ground (arith, ne) in (_, sched, port, rw t f.0, f.1)
      | yes eq ↦
          let t : (e.0 == sched) ≡ true = ground (arith, eq) in
          let here : lookup_or blank (e ∷ es) sched ≡ e.1 = rw t refl in
          elim (Option-cases (free_port ports e.1)) [
            | inr p ↦ (
              (e.0, taken touch ports e.1) ∷ es,
              sched,
              p.0,
              rw (t, try_schedule-port touch ports e.1, p.1) refl,
              record {
                late = omega arith;
                free = rw here p.1;
                full = λ j l h. absurd (omega arith);
                sorted = s;
                keys = λ b l h. h;
                upper = λ b l h. (omega (arith, h.0), weaken (λ d m. omega arith) es h.1);
                after = λ c. rw here (ground (arith, eq));
              },
            )
            | inl n ↦
                let r =
                  ub_from-FarHit (sched + 1) es s.1 (weaken (λ d l. omega (arith, l, eq)) es s.0)
                    (omega (arith, k.0, eq)) k.1 in
                (
                  e ∷ r.0,
                  r.1,
                  r.2,
                  ub_from_later e sched es r.0 r.1 r.2 k.0 eq n r.3,
                  widen-FarHit sched (e ∷ es) (e ∷ r.0) r.1 r.2 (λ b h. omega (arith, eq, h.0))
                      (rw here n)
                      (cons-FarHit e (sched + 1) es r.0 r.1 r.2 (omega (arith, eq)) s.0 r.4),
                )
          ]
    ]

    pub ub_place-FarHit :
        (sched : ℕ) (es : List (ℕ × WinCycle))
        → IsSorted es
        → sched ≤ 2 ^ 63
        → All (λ e. e.0 < 2 ^ 63) es
        → (fs : List (ℕ × WinCycle)) × (s : ℕ) × (p : ℕ) × (ub_place touch ports sched es
            ≡ some (fs, s, p))
          × FarHit sched es fs s p
    unfolding ub_place
    ub_place-FarHit sched [] s lt k = ub_from-FarHit sched [] tt tt lt tt
    ub_place-FarHit sched (e ∷ es) s lt k = elim (Bool-cases (ltb e.0 sched)) [
      | inl t ↦
          let r = ub_place-FarHit sched es s.1 lt k.1 in
          (
            e ∷ r.0,
            r.1,
            r.2,
            rw (t, r.3) refl,
            cons-FarHit e sched es r.0 r.1 r.2 (ground arith) s.0 r.4,
          )
      | inr f ↦
          let r =
            ub_from-FarHit sched (e ∷ es) s (ground arith, weaken (λ d l. ground arith) es s.0) lt
              k in
          (r.0, r.1, r.2, rw f r.3, r.4)
    ]
