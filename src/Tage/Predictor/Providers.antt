-- ===== src/Tage/Predictor/Providers.antt =====
-- Which components predict: the two matching tables with the longest histories.
use me_mo_tracer.Base.{
  ℕ, zero, suc, ◌%◌, ◌≡◌, refl, sym, Bool, true, ◌&&◌, List, [], ◌∷◌, ◌<◌, All, some, inl, inr,
  if◌then◌else◌, ltb, leb, get_or, u32, Bool-cases, arith,
}
use me_mo_tracer.Tage.Entry.{Tage, base_predictor_size, entry_at}
use me_mo_tracer.Tage.Hash.{get_tage_index}
use me_mo_tracer.Tage.Predictor.{
  Lookup, matches, hit, scan, is_some, start, fall_back, get_tage_predictions,
}

-- The tables among the first `n` whose entry carries the tag of `pc`, the longest history first.
abbrev pub hits : Tage → ℕ → ℕ → List ℕ
hits p pc zero = []
hits p pc (suc t) = if matches p pc (suc t) then suc t ∷ hits p pc t else hits p pc t

-- Component 0 is the base predictor.
abbrev pub first : List ℕ → ℕ
first [] = 0
first (t ∷ ts) = t

abbrev pub second : List ℕ → ℕ
second [] = 0
second (t ∷ ts) = first ts

-- The slot and the counter that `pc` has in a component.
abbrev pub slot : Tage → ℕ → ℕ → ℕ
slot p pc zero = pc % base_predictor_size
slot p pc (suc t) = u32 (get_tage_index p pc (suc t))

abbrev pub counter_at : Tage → ℕ → ℕ → ℕ
counter_at p pc zero = get_or p.base_predictor (slot p pc zero) 0
counter_at p pc (suc t) = (entry_at p (suc t) (slot p pc (suc t))).counter

-- The provider says taken above 3; a table that is the alternate does so at 3 already.
abbrev pub alt_taken : Tage → ℕ → ℕ → Bool
alt_taken p pc zero = ltb 3 (counter_at p pc zero)
alt_taken p pc (suc t) = leb 3 (counter_at p pc (suc t))

abbrev both : Lookup → Bool
both l = is_some l.provider && is_some l.alt

take_hits : Tage → ℕ → List ℕ → Lookup → Lookup
take_hits p pc [] l = l
take_hits p pc (t ∷ ts) l = if both l then l else take_hits p pc ts (hit p pc t l)

take_hits_full :
    (p : Tage) (pc : ℕ) (ts : List ℕ) (l : Lookup) → both l ≡ true → take_hits p pc ts l ≡ l
unfolding take_hits
take_hits_full p pc [] l h = refl
take_hits_full p pc (t ∷ ts) l h = rw h

scan-take_hits : (p : Tage) (pc n : ℕ) (l : Lookup) → scan p pc n l ≡ take_hits p pc (hits p pc n) l
unfolding scan take_hits
scan-take_hits p pc zero l = refl
scan-take_hits p pc (suc t) l = elim (Bool-cases (both l)) [
  | inl full ↦ rw full (sym (take_hits_full p pc (hits p pc (suc t)) l full))
  | inr open_ ↦ ground (arith, scan-take_hits p pc t (hit p pc (suc t) l), scan-take_hits p pc t l)
]

-- What a lookup reports when the tables `ts` match.
pub record IsOf (p : Tage) (pc : ℕ) (ts : List ℕ) (l : Lookup) : Type 0 where
  pub provider : l.provider ≡ some (first ts)
  pub alt : l.alt ≡ some (second ts)
  pub index : l.pred_index ≡ slot p pc (first ts)
  pub pred : l.pred ≡ ltb 3 (counter_at p pc (first ts))
  pub alt_pred : l.alt_pred ≡ alt_taken p pc (second ts)

from_hits :
    (p : Tage) (pc : ℕ) (ts : List ℕ)
    → All (λ t. 0 < t) ts
    → IsOf p pc ts (fall_back p pc (take_hits p pc ts (start p)))
unfolding take_hits hit fall_back start
from_hits p pc [] h = record {
  provider = refl;
  alt = refl;
  index = refl;
  pred = refl;
  alt_pred = refl;
}
from_hits p pc (zero ∷ ts) h = absurd (omega arith)
from_hits p pc (suc t ∷ []) h = record {
  provider = refl;
  alt = refl;
  index = refl;
  pred = refl;
  alt_pred = refl;
}
from_hits p pc (suc t ∷ zero ∷ ts) h = absurd (omega arith)
from_hits p pc (suc t ∷ suc u ∷ []) h = record {
  provider = refl;
  alt = refl;
  index = refl;
  pred = refl;
  alt_pred = refl;
}
from_hits p pc (suc t ∷ suc u ∷ v ∷ ts) h = record {
  provider = refl;
  alt = refl;
  index = refl;
  pred = refl;
  alt_pred = refl;
}

hits_pos : (p : Tage) (pc n : ℕ) → All (λ t. 0 < t) (hits p pc n)
hits_pos p pc zero = tt
hits_pos p pc (suc t) = ground (arith, hits_pos p pc t)

-- A lookup finds the component with the longest history whose tag matches as the provider, the next
-- one as the alternate, the base predictor where there is none, and reads both predictions there:
-- a counter above 3 says taken, and in a table that is the alternate 3 says so too.
pub get_tage_predictions-IsOf :
    (p : Tage) (pc : ℕ) → IsOf p pc (hits p pc p.table_num) (get_tage_predictions p pc)
unfolding get_tage_predictions
get_tage_predictions-IsOf p pc =
    rw (scan-take_hits p pc p.table_num (start p))
      (from_hits p pc (hits p pc p.table_num) (hits_pos p pc p.table_num))
