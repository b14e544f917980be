-- ===== src/Legos/WindowStructure/Rebase.antt =====
-- The far cycles that the next array takes in.
use me_mo_tracer.Base.{
  ℕ, ◌+◌, ◌-◌, ◌*◌, ◌%◌, ◌^◌, ◌≤◌, ◌<◌, ◌≡◌, refl, sym, ◌∙◌, inl, inr, true, List, [], ◌∷◌, some,
  ltb, length, get_or, set, length-set, get_or-set_self, get_or-set_ne, All, Bool-cases, ℕ_discrete,
  arith,
}
use me_mo_tracer.Legos.WindowStructure.{WinCycle, blank, move_in}
use me_mo_tracer.Legos.WindowStructure.View.{lookup_or, IsSorted, lookup_or-above, weaken}

pub record Filled (horizon h cur : ℕ) (es : List (ℕ × WinCycle)) (next : List WinCycle)
    (fs : List (ℕ × WinCycle)) (filled : List WinCycle) : Type 0 where
  pub sized : length filled ≡ h
  pub sorted : IsSorted fs
  pub beyond : All (λ e. horizon ≤ e.0) fs
  pub near :
      (i : ℕ) → i < h → get_or filled i blank ≡ lookup_or (get_or next i blank) es (cur + h + i)
  pub far : (c : ℕ) → horizon ≤ c → lookup_or blank fs c ≡ lookup_or blank es c
  pub keys : (b : ℕ) → All (λ e. e.0 < b) es → All (λ e. e.0 < b) fs

lookup_or-set :
    (next : List WinCycle) (d : ℕ × WinCycle) (es : List (ℕ × WinCycle)) (base i p : ℕ)
    → d.0 ≡ base + p
    → p < length next
    → All (λ e. d.0 < e.0) es
    → lookup_or (get_or (set next p d.1) i blank) es (base + i)
      ≡ lookup_or (get_or next i blank) (d ∷ es) (base + i)
lookup_or-set next d es base i p at lt above = elim (ℕ_discrete i p) [
  | yes e ↦
      let k : d.0 ≡ base + i = omega (arith, at, e) in
      rw
        (
          e,
          get_or-set_self next p d.1 blank lt,
          lookup_or-above d.1 es (base + p) (weaken (λ b l. omega (arith, at, l)) es above),
        )
        (ground (arith, at))
  | no ne ↦ rw (get_or-set_ne next p i d.1 blank (λ e. ne (sym e))) (ground (arith, at, ne))
]

pub move_in-Filled :
    (horizon h cur : ℕ) (es : List (ℕ × WinCycle)) (next : List WinCycle)
    → horizon ≡ cur + 2 * h
    → horizon < 2 ^ 64
    → h < 2 ^ 31
    → length next ≡ h
    → IsSorted es
    → All (λ e. cur + h ≤ e.0) es
    → (fs : List (ℕ × WinCycle)) × (filled : List WinCycle) × (move_in horizon h cur es next
        ≡ some (fs, filled))
      × Filled horizon h cur es next fs filled
unfolding move_in
move_in-Filled horizon h cur [] next e room small sized s a = (
  [],
  next,
  refl,
  record {
    sized = sized;
    sorted = tt;
    beyond = tt;
    near = λ i l. refl;
    far = λ c l. refl;
    keys = λ b a. a;
  },
)
move_in-Filled horizon h cur (d ∷ es) next e room small sized s a =
    elim (Bool-cases (ltb d.0 horizon)) [
      | inr f ↦ (
        d ∷ es,
        next,
        rw f refl,
        record {
          sized = sized;
          sorted = s;
          beyond = (ground arith, weaken (λ b l. ground arith) es s.0);
          near = λ i l. sym (
              lookup_or-above (get_or next i blank) (d ∷ es) (cur + h + i)
                (ground arith, weaken (λ b k. ground arith) es s.0));
          far = λ c l. refl;
          keys = λ b a. a;
        },
      )
      | inl t ↦
          let p = d.0 - h - cur in
          let lt : p < h = ground arith in
          let eq : (((d.0 + 2 ^ 64 - h) % 2 ^ 64 + 2 ^ 64 - cur) % 2 ^ 64) % 2 ^ 32 ≡ p =
            ground arith in
          let r =
            move_in-Filled horizon h cur es (set next p d.1) e room small
              (length-set next p d.1 ∙ sized) s.1 a.1 in
          (
            r.0,
            r.1,
            rw (t, eq) (rw (let b : ltb p h ≡ true = ground arith in b) r.2),
            record {
              sized = r.3.sized;
              sorted = r.3.sorted;
              beyond = r.3.beyond;
              near = λ i l.
                  r.3.near i l
                  ∙ lookup_or-set next d es (cur + h) i p (ground arith) (omega (arith, sized, lt))
                      s.0;
              far = λ c l. r.3.far c l ∙ ground arith;
              keys = λ b k. r.3.keys b k.1;
            },
          )
    ]
