-- ===== src/Legos/WindowStructure/Scan.antt =====
-- The first cycle of an array with a free port.
use me_mo_tracer.Base.{
  ℕ, zero, suc, ◌+◌, ◌≤◌, ◌<◌, ◌≡◌, ◌⊎◌, refl, ap, inl, inr, Bool, true, false, List, Option, none,
  some, Option-cases, get_or, set, set-get_or, first_bit, free_of, or_bits_full, ℕ_discrete, arith,
}
use me_mo_tracer.Legos.WindowStructure.{WinCycle, blank, try_schedule}
use me_mo_tracer.Legos.WindowStructure.Place.{scan}

-- The port that a mask finds at a cycle.
abbrev pub free_port : List Bool → WinCycle → Option ℕ
free_port ports wc = first_bit (free_of wc.occ_units ports)

-- The cycle after its mask has taken a port.
unfoldable pub taken : Bool → List Bool → WinCycle → WinCycle
unfolding try_schedule
taken touch ports wc = (try_schedule touch wc ports).0

pub try_schedule-port :
    (touch : Bool) (ports : List Bool) (wc : WinCycle)
    → try_schedule touch wc ports ≡ (taken touch ports wc, free_port ports wc)
unfolding try_schedule taken
try_schedule-port true ports wc = refl
try_schedule-port false ports wc = refl

pub taken_full :
    (touch : Bool) (ports : List Bool) (wc : WinCycle)
    → free_port ports wc ≡ none
    → taken touch ports wc ≡ wc
unfolding try_schedule taken
taken_full true ports wc h = rw h refl
taken_full false ports wc h =
    ap (λ b. record wc { occ_units = b }) (or_bits_full wc.occ_units ports h)

module _ (touch : Bool) (ports : List Bool) where
  -- The scan finds the first cycle with a free port, or leaves the array alone.
  pub record Hit (pos n : ℕ) (ws : List WinCycle) (i port : ℕ) : Type 0 where
    pub low : pos ≤ i
    pub high : i < pos + n
    pub free : free_port ports (get_or ws i blank) ≡ some port
    pub full : (j : ℕ) → pos ≤ j → j < i → free_port ports (get_or ws j blank) ≡ none

  pub scan-Hit :
      (n pos : ℕ) (ws : List WinCycle)
      → ((i : ℕ) × (port : ℕ) × (scan touch ports n pos ws
            ≡ (set ws i (taken touch ports (get_or ws i blank)), some (i, port)))
          × Hit pos n ws i port)
        ⊎ ((scan touch ports n pos ws ≡ (ws, none))
            × ((j : ℕ) → pos ≤ j → j < pos + n → free_port ports (get_or ws j blank) ≡ none))
  unfolding scan taken
  scan-Hit zero pos ws = inr (refl, λ j l h. absurd (omega arith))
  scan-Hit (suc n) pos ws =
      let t = try_schedule-port touch ports (get_or ws pos blank) in
      elim (Option-cases (free_port ports (get_or ws pos blank))) [
        | inr p ↦ inl (
          pos,
          p.0,
          rw (scan, t, p.1) refl,
          record {
            low = omega arith;
            high = omega arith;
            free = p.1;
            full = λ j l h. absurd (omega arith);
          },
        )
        | inl f ↦
            let same : set ws pos (taken touch ports (get_or ws pos blank)) ≡ ws =
              rw (taken_full touch ports (get_or ws pos blank) f) (set-get_or ws pos blank) in
            elim (scan-Hit n (pos + 1) ws) [
              | inl r ↦ inl (
                r.0,
                r.1,
                rw (scan, t, f, same) r.2,
                record {
                  low = omega (arith, r.3.low);
                  high = omega (arith, r.3.high);
                  free = r.3.free;
                  full = λ j l h. elim (ℕ_discrete j pos) [
                    | yes e ↦ rw e f
                    | no ne ↦ r.3.full j (omega arith) h
                  ];
                },
              )
              | inr r ↦ inr (
                rw (scan, t, f, same) r.0,
                λ j l h. elim (ℕ_discrete j pos) [
                  | yes e ↦ rw e f
                  | no ne ↦ r.1 j (omega arith) (omega arith)
                ],
              )
            ]
      ]
