-- ===== src/Legos/ReorderBuffer/Bandwidth.antt =====
-- How many uops `ReorderBuffer` retires in one cycle, and in what order.
use mathlib.Core.List.{append-nil}
use me_mo_tracer.Base.{
  ℕ, zero, suc, ◌+◌, ◌^◌, ◌≤◌, ◌<◌, ◌≡◌, refl, ap, ◌∙◌, List, [], ◌∷◌, ◌++◌, count, replicate,
  length, All, arith,
}
use me_mo_tracer.Legos.ReorderBuffer.{ReorderBuffer, init, bundle, mark_retire}
use me_mo_tracer.Legos.ReorderBuffer.Window.{retired}

-- The cycles of `hist` lie at or before the current one, and no cycle has more than `w + 1`.
record IsPaced (r : ReorderBuffer) (hist : List ℕ) : Type 0 where
  width : (0 < r.w) × (r.w < 2 ^ 32)
  counted : r.cur_cycle_retires ≤ r.w
  now : count r.cur_retire_cycle hist ≤ r.cur_cycle_retires + 1
  past : (c : ℕ) → count c hist ≤ r.w + 1
  ahead : (c : ℕ) → r.cur_retire_cycle < c → count c hist ≡ 0

mark_retire-IsPaced :
    (r : ReorderBuffer) (m n : ℕ) (hist : List ℕ)
    → IsPaced r hist
    → r.cur_retire_cycle ≤ n
    → m ≤ n
    → n + 1 < 2 ^ 64
    → IsPaced (mark_retire r m) ((mark_retire r m).cur_retire_cycle ∷ hist)
unfolding mark_retire bundle
mark_retire-IsPaced r m n hist p a b c = record {
  width = ground (arith, p.width);
  counted = ground (arith, p.counted, p.width);
  now = ground (arith, p.now, p.counted, p.width, p.ahead m, p.ahead (r.cur_retire_cycle + 1));
  past = λ d.
      ground
        (arith, p.now, p.counted, p.width, p.past d, p.ahead m, p.ahead (r.cur_retire_cycle + 1));
  ahead = λ d h. ground (arith, p.ahead d);
}

w-mark_retire : (r : ReorderBuffer) (m : ℕ) → (mark_retire r m).w ≡ r.w
unfolding mark_retire bundle
w-mark_retire r m = ground arith

joins :
    (q : ReorderBuffer) (m : ℕ)
    → q.cur_cycle_retires < q.w
    → q.w < 2 ^ 32
    → m ≤ q.cur_retire_cycle
    → ((mark_retire q m).cur_cycle_retires ≡ q.cur_cycle_retires + 1)
      × ((mark_retire q m).cur_retire_cycle ≡ q.cur_retire_cycle)
unfolding mark_retire bundle
joins q m a b c = ground arith

overflows :
    (q : ReorderBuffer) (m : ℕ)
    → q.cur_cycle_retires ≡ q.w
    → q.cur_retire_cycle + 1 < 2 ^ 64
    → m ≤ q.cur_retire_cycle
    → ((mark_retire q m).cur_cycle_retires ≡ 0)
      × ((mark_retire q m).cur_retire_cycle ≡ q.cur_retire_cycle + 1)
unfolding mark_retire bundle
overflows q m a b c = ground arith

cur-mark_retire :
    (r : ReorderBuffer) (m n : ℕ)
    → r.cur_retire_cycle ≤ n
    → m ≤ n
    → n + 1 < 2 ^ 64
    → (r.cur_retire_cycle ≤ (mark_retire r m).cur_retire_cycle)
      × (m ≤ (mark_retire r m).cur_retire_cycle)
      × ((mark_retire r m).cur_retire_cycle ≤ n + 1)
unfolding mark_retire bundle
cur-mark_retire r m n a b c = ground arith

All-mono : (a b : ℕ) (xs : List ℕ) → a ≤ b → All (λ x. x ≤ a) xs → All (λ x. x ≤ b) xs
All-mono a b [] h k = tt
All-mono a b (x ∷ xs) h k = (omega arith, All-mono a b xs h k.1)

retired-past :
    (r : ReorderBuffer) (ms : List ℕ) (n : ℕ) (hist : List ℕ)
    → IsPaced r hist
    → r.cur_retire_cycle ≤ n
    → All (λ m. m ≤ n) ms
    → n + length ms < 2 ^ 64
    → (c : ℕ) → count c (retired r ms hist) ≤ r.w + 1
retired-past r [] n hist p a b f c = p.past c
retired-past r (m ∷ ms) n hist p a b f c = omega (
  arith,
  w-mark_retire r m,
  retired-past (mark_retire r m) ms (n + 1) _ (mark_retire-IsPaced r m n hist p a b.0 (omega arith))
      (cur-mark_retire r m n a b.0 (omega arith)).2 (All-mono n (n + 1) ms (omega arith) b.1)
      (omega arith) c,
)

-- While the cycle counter does not wrap, a new reorder buffer of width `w` retires at most `w + 1`
-- uops in any one cycle.
pub retired_in_cycle-le :
    (sz w n : ℕ) (ms : List ℕ) (c : ℕ)
    → 0 < w
    → w < 2 ^ 32
    → All (λ m. m ≤ n) ms
    → n + length ms < 2 ^ 64
    → count c (retired (init sz w) ms []) ≤ w + 1
unfolding init
retired_in_cycle-le sz w n ms c pos small le fits =
    retired-past (init sz w) ms n []
      (record {
        width = (pos, small);
        counted = pos;
        now = omega arith;
        past = λ d. omega arith;
        ahead = λ d h. refl;
      })
      (omega arith) le fits c

replicate-snoc :
    (k c : ℕ) (hist : List ℕ) → replicate k c ++ (c ∷ hist) ≡ replicate (suc k) c ++ hist
replicate-snoc zero c hist = refl
replicate-snoc (suc k) c hist = ap (◌∷◌ c) (replicate-snoc k c hist)

fill :
    (q : ReorderBuffer) (ms : List ℕ) (c : ℕ) (hist : List ℕ)
    → q.cur_cycle_retires + length ms ≤ q.w
    → q.w < 2 ^ 32
    → q.cur_retire_cycle ≡ c
    → All (λ m. m ≤ c) ms
    → retired q ms hist ≡ replicate (length ms) c ++ hist
fill q [] c hist a b e h = refl
fill q (m ∷ ms) c hist a b e h =
    fill (mark_retire q m) ms c _ (omega (arith, j, w-mark_retire q m))
      (omega (arith, w-mark_retire q m)) (j.1 ∙ e) h.1
    ∙ (rw (j.1, e) (replicate-snoc (length ms) c hist))
  where
    j :
        ((mark_retire q m).cur_cycle_retires ≡ q.cur_cycle_retires + 1)
        × ((mark_retire q m).cur_retire_cycle ≡ q.cur_retire_cycle)
    j = joins q m (omega arith) b (omega arith)

-- A full bundle lets one uop too many through: where `w` uops have retired in the current cycle,
-- the next `w + 1` uops that are ready all retire in the one cycle after it.
pub retired_after_full_bundle :
    (r : ReorderBuffer) (m : ℕ) (ms : List ℕ)
    → r.cur_cycle_retires ≡ r.w
    → length ms ≡ r.w
    → m ≤ r.cur_retire_cycle
    → All (λ k. k ≤ r.cur_retire_cycle) ms
    → r.cur_retire_cycle + 1 < 2 ^ 64
    → r.w < 2 ^ 32
    → retired r (m ∷ ms) [] ≡ replicate (r.w + 1) (r.cur_retire_cycle + 1)
retired_after_full_bundle r m ms full len le les fits small =
    fill (mark_retire r m) ms (r.cur_retire_cycle + 1) _ (omega (arith, o, w-mark_retire r m))
      (omega (arith, w-mark_retire r m)) o.1
      (All-mono r.cur_retire_cycle (r.cur_retire_cycle + 1) ms (omega arith) les)
    ∙ rw (o.1, len)
        (replicate-snoc r.w (r.cur_retire_cycle + 1) []
          ∙ rw append-nil (
              ap (λ k. replicate k (r.cur_retire_cycle + 1))
                (let e : suc r.w ≡ r.w + 1 = omega arith in e)))
  where
    o :
        ((mark_retire r m).cur_cycle_retires ≡ 0)
        × ((mark_retire r m).cur_retire_cycle ≡ r.cur_retire_cycle + 1)
    o = overflows r m full fits le
