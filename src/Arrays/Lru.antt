-- ===== src/Arrays/Lru.antt =====
-- `LRUReplPolicy` of src/repl_policies.h. The controller answers how many sharers a line has, and
-- whether it is valid.
use me_mo_tracer.Base.{
  ℕ, ◌+◌, ◌-◌, ◌*◌, ◌%◌, ◌^◌, ◌≤◌, ◌≡◌, refl, sym, subst, ◌⊎◌, inl, inr, Bool, true, List, [], ◌∷◌,
  if◌then◌else◌, ltb, min, add64, u32, get_or, set, All, Bool-cases, arith,
}

pub record Lru : Type 0 where
  pub timestamp : ℕ
  pub array : List ℕ

unfoldable pub update : Lru → ℕ → Lru
update l id = record { timestamp = add64 l.timestamp 1; array = set l.array id l.timestamp }

unfoldable pub replaced : Lru → ℕ → Lru
replaced l id = record l { array = set l.array id 0 }

-- What the policy asks the controller.
pub record Controller : Type 0 where
  pub num_sharers : ℕ → ℕ
  pub is_valid : ℕ → Bool

-- The loop of `rank` over the scores.
unfoldable pub rank_loop : (ℕ → ℕ) → List ℕ → ℕ → ℕ → ℕ
rank_loop key [] best_cand best_score = best_cand
rank_loop key (c ∷ cands) best_cand best_score =
    rank_loop key cands (if ltb (key c) best_score then c else best_cand) (min (key c) best_score)

module _ (sharers_aware : Bool) (ctrl : Controller) (l : Lru) where
  unfoldable pub score : ℕ → ℕ
  score id =
      ((if sharers_aware then ctrl.num_sharers id else 0) * l.timestamp
        + get_or l.array id 0 * (if ctrl.is_valid id then 1 else 0))
      % 2 ^ 64

  -- The score goes through a `uint32_t`.
  abbrev pub low_score : ℕ → ℕ
  low_score id = u32 (score id)

  unfoldable pub rank : List ℕ → ℕ
  rank cands = rank_loop low_score cands (2 ^ 32 - 1) (2 ^ 64 - 1)

-- One of the list.
abbrev pub IsAmong : ℕ → List ℕ → Type 0
IsAmong a [] = ⊥
IsAmong a (x ∷ xs) = (a ≡ x) ⊎ IsAmong a xs

All-IsAmong :
    (c : ℕ) (cs xs : List ℕ) → All (λ x. IsAmong x cs) xs → All (λ x. IsAmong x (c ∷ cs)) xs
All-IsAmong c cs [] a = tt
All-IsAmong c cs (x ∷ xs) a = (inr a.0, All-IsAmong c cs xs a.1)

-- Each element of a list is among it.
pub each-IsAmong : (cs : List ℕ) → All (λ x. IsAmong x cs) cs
each-IsAmong [] = tt
each-IsAmong (c ∷ cs) = (inl refl, All-IsAmong c cs cs (each-IsAmong cs))

record IsLeast (key : ℕ → ℕ) (first : ℕ) (cands : List ℕ) (r : ℕ) : Type 0 where
  among : (r ≡ first) ⊎ IsAmong r cands
  below : key r ≤ key first
  all : All (λ c. key r ≤ key c) cands

rank_loop-IsLeast :
    (key : ℕ → ℕ) (cands : List ℕ) (best s : ℕ)
    → s ≡ key best
    → IsLeast key best cands (rank_loop key cands best s)
unfolding rank_loop
rank_loop-IsLeast key [] best s e = record { among = inl refl; below = omega arith; all = tt }
rank_loop-IsLeast key (c ∷ cands) best s e = elim (Bool-cases (ltb (key c) s)) [
  | inl y ↦
      let ih = rank_loop-IsLeast key cands c (min (key c) s) (ground arith) in
      rw y (record {
        among = inr ih.among;
        below = ground (arith, ih.below);
        all = (ih.below, ih.all);
      })
  | inr y ↦
      let ih = rank_loop-IsLeast key cands best (min (key c) s) (ground arith) in
      rw y (record {
        among = elim ih.among [ inl z ↦ inl z | inr z ↦ inr (inr z) ];
        below = ih.below;
        all = (ground (arith, ih.below), ih.all);
      })
]

rank-cons :
    (sharers_aware : Bool) (ctrl : Controller) (l : Lru) (c : ℕ) (cands : List ℕ)
    → rank sharers_aware ctrl l (c ∷ cands)
      ≡ rank_loop
          (low_score sharers_aware ctrl l)
          cands
          c
          (min (low_score sharers_aware ctrl l c) (2 ^ 64 - 1))
unfolding rank rank_loop
rank-cons sharers_aware ctrl l c cands =
    let t : ltb (low_score sharers_aware ctrl l c) (2 ^ 64 - 1) ≡ true = ground arith in rw t refl

-- `rank` gives one of its candidates, and no candidate has a lower score in its low 32 bits.
pub rank_lem :
    (sharers_aware : Bool) (ctrl : Controller) (l : Lru) (c : ℕ) (cands : List ℕ)
    → IsAmong (rank sharers_aware ctrl l (c ∷ cands)) (c ∷ cands)
      × All
          (λ d.
            low_score sharers_aware ctrl l (rank sharers_aware ctrl l (c ∷ cands))
            ≤ low_score sharers_aware ctrl l d)
          (c ∷ cands)
rank_lem sharers_aware ctrl l c cands =
    let key = low_score sharers_aware ctrl l in
    let m : min (key c) (2 ^ 64 - 1) ≡ key c = ground arith in
    let h = rank_loop-IsLeast key cands c (min (key c) (2 ^ 64 - 1)) m in
    subst (λ r. IsAmong r (c ∷ cands) × All (λ d. key r ≤ key d) (c ∷ cands))
      (sym (rank-cons sharers_aware ctrl l c cands)) (h.among, (h.below, h.all))
