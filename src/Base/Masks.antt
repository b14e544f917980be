-- ===== src/Base/Masks.antt =====
-- Masks as lists of bits, bit 0 first.
use Prim.Native.Nat.{ℕ, zero, suc, ◌+◌, ◌<◌}
use mathlib.Core.Path.{◌≡◌, refl, ap}
use mathlib.Core.Bool.{Bool, true, false, not, ◌&&◌, ◌||◌}
use mathlib.Core.Option.{Option, none, some}
use mathlib.Core.List.{List, [], ◌∷◌}
use native.Mathlib.Omega.{arith}
use me_mo_tracer.Base.Lists.{length, get_or}
use me_mo_tracer.Base.Options.{◌>>=◌}

-- The first bit that is set, which the builtins `ctz` and `ffs` look for.
abbrev pub first_bit : List Bool → Option ℕ
first_bit [] = none
first_bit (true ∷ bs) = some 0
first_bit (false ∷ bs) = first_bit bs >>= λ i. some (i + 1)

abbrev pub any : List Bool → Bool
any [] = false
any (b ∷ bs) = b || any bs

pub any-false : (bs : List Bool) (i : ℕ) → any bs ≡ false → get_or bs i false ≡ false
any-false [] i h = refl
any-false (b ∷ bs) zero h = ground arith
any-false (b ∷ bs) (suc i) h = any-false bs i (ground arith)

pub first_bit-some :
    (bs : List Bool)
    → any bs ≡ true
    → (p : ℕ) × (first_bit bs ≡ some p)
      × (p < length bs)
      × (get_or bs p false ≡ true)
      × ((i : ℕ) → i < p → get_or bs i false ≡ false)
first_bit-some [] h = absurd (cc)
first_bit-some (true ∷ bs) h = (0, refl, omega arith, refl, λ i lt. absurd (omega arith))
first_bit-some (false ∷ bs) h =
    let r = first_bit-some bs h in
    (suc (r.0), rw r.1 (ground arith), omega (arith, r.2), r.3, below r.0 r.4)
  where
    below :
        (p : ℕ)
        → ((i : ℕ) → i < p → get_or bs i false ≡ false)
        → (i : ℕ) → i < suc p
        → get_or (false ∷ bs) i false ≡ false
    below p h zero lt = refl
    below p h (suc i) lt = h i (omega arith)

-- `~occ & ports`, and `occ | ports`.
abbrev pub free_of : List Bool → List Bool → List Bool
free_of [] ps = []
free_of os [] = []
free_of (o ∷ os) (p ∷ ps) = (not o && p) ∷ free_of os ps

abbrev pub or_bits : List Bool → List Bool → List Bool
or_bits [] ps = []
or_bits os [] = os
or_bits (o ∷ os) (p ∷ ps) = (o || p) ∷ or_bits os ps

next_none : (m : Option ℕ) → (m >>= λ i. some (i + 1)) ≡ none → m ≡ none
next_none none h = refl
next_none (some i) h = absurd (cc)

-- Where nothing of the mask is free the mask adds nothing.
pub or_bits_full : (os ps : List Bool) → first_bit (free_of os ps) ≡ none → or_bits os ps ≡ os
or_bits_full [] ps h = refl
or_bits_full (o ∷ os) [] h = refl
or_bits_full (true ∷ os) (p ∷ ps) h = ap (◌∷◌ true) (or_bits_full os ps (next_none _ h))
or_bits_full (false ∷ os) (false ∷ ps) h = ap (◌∷◌ false) (or_bits_full os ps (next_none _ h))
or_bits_full (false ∷ os) (true ∷ ps) h = absurd (cc)
