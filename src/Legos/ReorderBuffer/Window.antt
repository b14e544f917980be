-- ===== src/Legos/ReorderBuffer/Window.antt =====
-- `ReorderBuffer` as a window over the in-order stream of retirements.
use me_mo_tracer.Base.{ℕ, ◌-◌, ◌^◌, ◌<◌, ◌≡◌, refl, ◌∙◌, List, [], ◌∷◌, get_or, set, ap, arith}
use me_mo_tracer.Legos.DelayLine.{bump, Holds, replicate-Holds, Holds-oldest, set-Holds}
use me_mo_tracer.Legos.ReorderBuffer.{ReorderBuffer, init, min_alloc_cycle, bundle, mark_retire}

-- Retire uops in the order of the list.
abbrev pub mark_all : ReorderBuffer → List ℕ → ReorderBuffer
mark_all r [] = r
mark_all r (m ∷ ms) = mark_all (mark_retire r m) ms

-- The cycles at which they retire, the last one first, before those of `hist`.
abbrev pub retired : ReorderBuffer → List ℕ → List ℕ → List ℕ
retired r [] hist = hist
retired r (m ∷ ms) hist = retired (mark_retire r m) ms ((mark_retire r m).cur_retire_cycle ∷ hist)

same_slots :
    (r : ReorderBuffer) (m : ℕ)
    → ((bundle r m).buf ≡ r.buf) × ((bundle r m).idx ≡ r.idx) × ((bundle r m).sz ≡ r.sz)
unfolding bundle
same_slots r m = ground arith

abbrev HoldsRetired : ReorderBuffer → List ℕ → Type 0
HoldsRetired r hist = Holds r.buf r.idx r.sz hist

mark_retire-Holds :
    (r : ReorderBuffer) (m : ℕ) (hist : List ℕ)
    → HoldsRetired r hist
    → HoldsRetired (mark_retire r m) ((mark_retire r m).cur_retire_cycle ∷ hist)
unfolding mark_retire
mark_retire-Holds r m hist h = keep (bundle r m) (same_slots r m)
  where
    keep :
        (q : ReorderBuffer)
        → (q.buf ≡ r.buf) × (q.idx ≡ r.idx) × (q.sz ≡ r.sz)
        → Holds
            (set q.buf q.idx q.cur_retire_cycle)
            (bump q.idx q.sz)
            q.sz
            (q.cur_retire_cycle ∷ hist)
    keep q (b, i, s) = rw (b, i, s) (set-Holds q.cur_retire_cycle h)

mark_all-Holds :
    (r : ReorderBuffer) (ms hist : List ℕ)
    → HoldsRetired r hist
    → HoldsRetired (mark_all r ms) (retired r ms hist)
mark_all-Holds r [] hist h = h
mark_all-Holds r (m ∷ ms) hist h =
    mark_all-Holds (mark_retire r m) ms _ (mark_retire-Holds r m hist h)

sz-mark_all : (r : ReorderBuffer) (ms : List ℕ) → (mark_all r ms).sz ≡ r.sz
unfolding mark_retire
sz-mark_all r [] = refl
sz-mark_all r (m ∷ ms) = sz-mark_all (mark_retire r m) ms ∙ (same_slots r m).2

-- A new reorder buffer of `sz` entries, after any uops, makes the next uop wait for the retirement
-- of the uop `sz` places before it, and for cycle 0 while fewer than `sz` have retired.
pub min_alloc_cycle-mark_all :
    (sz w : ℕ) (ms : List ℕ)
    → 0 < sz
    → sz < 2 ^ 32
    → min_alloc_cycle (mark_all (init sz w) ms) ≡ get_or (retired (init sz w) ms []) (sz - 1) 0
unfolding min_alloc_cycle init
min_alloc_cycle-mark_all sz w ms pos small =
    Holds-oldest (mark_all-Holds (init sz w) ms [] (replicate-Holds sz pos small))
    ∙ ap (λ n. get_or (retired (init sz w) ms []) (n - 1) 0) (sz-mark_all (init sz w) ms)
