-- ===== src/Legos/DelayLine.antt =====
-- The circular arrays of src/legos.h: a write at `idx` and a step of `idx` that wraps at the size.
-- The slot under `idx` holds the value written `sz` writes ago.
use native.Mathlib.Nat.{mod-eq_of_lt, mod-eq-sub-mod}
use me_mo_tracer.Base.{
  ℕ, suc, ◌+◌, ◌-◌, ◌%◌, ◌^◌, ◌<◌, ◌≡◌, ◌≢◌, ap, ◌∙◌, List, [], ◌∷◌, if◌then◌else◌, ◌==◌, add32,
  get_or, set, length, replicate, length-set, length-replicate, get_or-set_self, get_or-set_ne,
  get_or-replicate, arith, dec_lt,
}

-- `idx++; if (idx == SZ) idx = 0;`
abbrev pub bump : ℕ → ℕ → ℕ
bump idx sz = if add32 idx 1 == sz then 0 else add32 idx 1

-- The array `buf` under `idx` holds the last `sz` values of `hist`, whose newest stands first.
pub record Holds (buf : List ℕ) (idx sz : ℕ) (hist : List ℕ) : Type 0 where
  pub size : length buf ≡ sz
  pub small : sz < 2 ^ 32
  pub in_range : idx < sz
  pub slots : (k : ℕ) → k < sz → get_or buf ((idx + k) % sz) 0 ≡ get_or hist (sz - 1 - k) 0

pub replicate-Holds : (sz : ℕ) → 0 < sz → sz < 2 ^ 32 → Holds (replicate sz 0) 0 sz []
replicate-Holds sz pos small = record {
  size = length-replicate sz 0;
  small = small;
  in_range = pos;
  slots = λ k h. get_or-replicate sz 0 ((0 + k) % sz);
}

-- The oldest value is the one under `idx`.
pub Holds-oldest :
    {buf : List ℕ} {idx sz : ℕ} {hist : List ℕ}
    → Holds buf idx sz hist
    → get_or buf idx 0 ≡ get_or hist (sz - 1) 0
Holds-oldest {buf} {idx} {sz} {hist} h =
    ap (λ i. get_or buf i 0) start
    ∙ h.slots 0 (omega arith)
    ∙ ap (λ i. get_or hist i 0) (let e : sz - 1 - 0 ≡ sz - 1 = omega arith in e)
  where
    start : idx ≡ (idx + 0) % sz
    start = omega (arith, mod-eq_of_lt {n = idx + 0} {m = sz} (omega (arith, h.in_range)))

step_slot :
    (idx sz k : ℕ)
    → idx < sz
    → sz < 2 ^ 32
    → suc k < sz
    → (bump idx sz + k) % sz ≡ (idx + suc k) % sz
step_slot idx sz k a b c = elim (dec_lt (suc idx) sz) [
  | yes p ↦ ap (λ i. i % sz) (ground arith)
  | no p ↦ ground (
    arith,
    mod-eq_of_lt {n = k} {m = sz},
    mod-eq-sub-mod {n = idx + suc k} {m = sz},
    mod-eq_of_lt {n = idx + suc k - sz} {m = sz},
  )
]

ring-ne : (idx sz k : ℕ) → idx < sz → suc k < sz → idx ≢ (idx + suc k) % sz
ring-ne idx sz k h hk = elim (dec_lt (idx + suc k) sz) [
  | yes p ↦ omega (arith, mod-eq_of_lt p)
  | no p ↦ omega (
    arith,
    mod-eq-sub-mod {n = idx + suc k} {m = sz} (omega arith),
    mod-eq_of_lt {n = idx + suc k - sz} {m = sz} (omega arith),
  )
]

last_slot : (idx sz k : ℕ) → idx < sz → sz < 2 ^ 32 → suc k ≡ sz → (bump idx sz + k) % sz ≡ idx
last_slot idx sz k a b c = ground (
  arith,
  mod-eq_of_lt {n = k} {m = sz},
  mod-eq-sub-mod {n = suc idx + k} {m = sz},
  mod-eq_of_lt {n = idx} {m = sz},
)

pub set-Holds :
    {buf : List ℕ} {idx sz : ℕ} {hist : List ℕ} (v : ℕ)
    → Holds buf idx sz hist
    → Holds (set buf idx v) (bump idx sz) sz (v ∷ hist)
set-Holds {buf} {idx} {sz} {hist} v h = record {
  size = length-set buf idx v ∙ h.size;
  small = h.small;
  in_range = ground (arith, h.in_range);
  slots = slot;
}
  where
    slot :
        (k : ℕ)
        → k < sz
        → get_or (set buf idx v) ((bump idx sz + k) % sz) 0 ≡ get_or (v ∷ hist) (sz - 1 - k) 0
    slot k lt = elim (dec_lt (suc k) sz) [
      | yes p ↦ rw (step_slot idx sz k h.in_range h.small p) (
          get_or-set_ne buf idx ((idx + suc k) % sz) v 0 (ring-ne idx sz k h.in_range p)
          ∙ h.slots (suc k) p
          ∙ ap (λ i. get_or (v ∷ hist) i 0)
              (let e : suc (sz - 1 - suc k) ≡ sz - 1 - k = omega arith in e))
      | no p ↦ rw (last_slot idx sz k h.in_range h.small (omega arith)) (
          get_or-set_self buf idx v 0 (omega (arith, h.size, h.in_range))
          ∙ ap (λ i. get_or (v ∷ hist) i 0) (let e : 0 ≡ sz - 1 - k = omega arith in e))
    ]
