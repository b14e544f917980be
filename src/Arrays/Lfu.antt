-- ===== src/Arrays/Lfu.antt =====
-- `LFUReplPolicy` of src/repl_policies.h.
use me_mo_tracer.Base.{
  ℕ, ◌+◌, ◌*◌, ◌/◌, ◌≤◌, ◌≡◌, ◌∙◌, inl, inr, refl, subst, ap, Bool, true, false, not, ◌&&◌, same,
  List, [], ◌∷◌, Option, some, none, if◌then◌else◌, ltb, ◌==◌, add64, sub64, get_or, set, All,
  Bool-cases, if-true, if-false, arith,
}
use me_mo_tracer.Arrays.Lru.{Controller, IsAmong, each-IsAmong}

pub record LfuInfo : Type 0 where
  pub ts : ℕ
  pub acc : ℕ

pub record Rank : Type 0 where
  pub lfu_info : LfuInfo
  pub sharers : ℕ
  pub valid : Bool

pub record Lfu : Type 0 where
  pub timestamp : ℕ
  pub best_candidate : Option ℕ
  pub infos : List LfuInfo
  pub best_rank : Rank

abbrev pub no_info : LfuInfo
no_info = record { ts = 0; acc = 0 }

abbrev pub reset_rank : Rank
reset_rank = record { lfu_info = no_info; sharers = 0; valid = false }

-- The comparison of the inverse frequencies, for ranks that are alike in the rest.
unfoldable pub rarer : Rank → Rank → ℕ → Bool
rarer own other cur_ts =
    let a = own.lfu_info in
    let b = other.lfu_info in
    if a.acc == 0
    then true
    else if b.acc == 0
    then false
    else ltb (sub64 cur_ts b.ts / b.acc) (sub64 cur_ts a.ts / a.acc)

unfoldable pub less_than : Rank → Rank → ℕ → Bool
less_than own other cur_ts =
    if not own.valid && other.valid
    then true
    else if same own.valid other.valid
    then if own.sharers == 0 && ltb 0 other.sharers
      then true
      else if ltb 0 own.sharers && (other.sharers == 0)
      then false
      else rarer own other cur_ts
    else false

unfoldable pub update_lfu : Lfu → ℕ → Lfu
update_lfu l id =
    let info = get_or l.infos id no_info in
    let mean = add64 (info.acc * info.ts) l.timestamp / add64 info.acc 1 in
    record l {
      infos = set l.infos id (record { ts = mean; acc = add64 info.acc 1 });
      timestamp = add64 l.timestamp 1000;
    }

module _ (ctrl : Controller) where
  abbrev pub rank_of : Lfu → ℕ → Rank
  rank_of l id = record {
    lfu_info = get_or l.infos id no_info;
    sharers = ctrl.num_sharers id;
    valid = ctrl.is_valid id;
  }

  unfoldable pub record_lfu : ℕ → Lfu → Lfu
  record_lfu id l = elim l.best_candidate [
    | none ↦ record l { best_rank = rank_of l id; best_candidate = some id }
    | some b ↦
        if less_than (rank_of l id) l.best_rank l.timestamp
        then record l { best_rank = rank_of l id; best_candidate = some id }
        else l
  ]

  -- The loop of `LegacyReplPolicy::rank`, whose result is the best candidate.
  unfoldable pub rank_lfu : List ℕ → Lfu → Option ℕ
  rank_lfu [] l = l.best_candidate
  rank_lfu (c ∷ cs) l = rank_lfu cs (record_lfu c l)

unfoldable pub replaced_lfu : Lfu → ℕ → Lfu
replaced_lfu l id = record l {
  best_candidate = none;
  best_rank = reset_rank;
  infos = set l.infos id (record (get_or l.infos id no_info) { acc = 0 });
}

-- Lines that are not valid come first, and then those without sharers.
abbrev pub cost : Rank → ℕ
cost r = (if r.valid then 2 else 0) + (if ltb 0 r.sharers then 1 else 0)

less_than-cost : (a b : Rank) (t : ℕ) → less_than a b t ≡ true → cost a ≤ cost b
unfolding less_than
less_than-cost a b t h = ground (arith, h)

cost-less_than : (a b : Rank) (t : ℕ) → less_than a b t ≡ false → cost b ≤ cost a
unfolding less_than
cost-less_than a b t h = ground (arith, h)

module _ (ctrl : Controller) where
  abbrev pub cost_of : ℕ → ℕ
  cost_of c = (if ctrl.is_valid c then 2 else 0) + (if ltb 0 (ctrl.num_sharers c) then 1 else 0)

  -- A second candidate is compared with the best one.
  turn :
      (c b : ℕ) (l : Lfu)
      → l.best_candidate ≡ some b
      → record_lfu ctrl c l ≡ (
          if less_than (rank_of ctrl l c) l.best_rank l.timestamp
          then record l { best_rank = rank_of ctrl l c; best_candidate = some c }
          else l)
  unfolding record_lfu
  turn c b l e =
      ap
        (λ (o : Option ℕ). elim o [
          | none ↦ record l { best_rank = rank_of ctrl l c; best_candidate = some c }
          | some x ↦
              if less_than (rank_of ctrl l c) l.best_rank l.timestamp
              then record l { best_rank = rank_of ctrl l c; best_candidate = some c }
              else l
        ])
        e

  stays :
      (c b : ℕ) (l : Lfu)
      → l.best_candidate ≡ some b
      → less_than (rank_of ctrl l c) l.best_rank l.timestamp ≡ false
      → record_lfu ctrl c l ≡ l
  stays c b l e n = turn c b l e ∙ if-false _ _ _ n

  record IsCheapest (from : List ℕ) (b : ℕ) (r : Option ℕ) (cs : List ℕ) : Type 0 where
    best : ℕ
    found : r ≡ some best
    among : IsAmong best from
    below : cost_of best ≤ cost_of b
    least : All (λ c. cost_of best ≤ cost_of c) cs

  rank_lfu-IsCheapest :
      (from cs : List ℕ) (b : ℕ) (l : Lfu)
      → l.best_candidate ≡ some b
      → l.best_rank ≡ rank_of ctrl l b
      → IsAmong b from
      → All (λ c. IsAmong c from) cs
      → IsCheapest from b (rank_lfu ctrl cs l) cs
  unfolding rank_lfu record_lfu
  rank_lfu-IsCheapest from [] b l e r m a = record {
    best = b;
    found = e;
    among = m;
    below = omega arith;
    least = tt;
  }
  rank_lfu-IsCheapest from (c ∷ cs) b l e r m a =
      let mine = rank_of ctrl l c in
      elim (Bool-cases (less_than mine l.best_rank l.timestamp)) [
        | inl y ↦
            let next = record l { best_rank = mine; best_candidate = some c } in
            let k = rank_lfu-IsCheapest from cs c next refl refl a.0 a.1 in
            let w : cost mine ≤ cost (rank_of ctrl l b) =
              subst (λ x. cost mine ≤ cost x) r (less_than-cost mine l.best_rank l.timestamp y) in
            let step : record_lfu ctrl c l ≡ next = turn c b l e ∙ if-true _ _ _ y in
            record {
              best = k.best;
              found = ap (rank_lfu ctrl cs) step ∙ k.found;
              among = k.among;
              below = omega (arith, k.below, w);
              least = (k.below, k.least);
            }
        | inr n ↦
            let k = rank_lfu-IsCheapest from cs b l e r m a.1 in
            let w : cost (rank_of ctrl l b) ≤ cost mine =
              subst (λ x. cost x ≤ cost mine) r (cost-less_than mine l.best_rank l.timestamp n) in
            let step : record_lfu ctrl c l ≡ l = stays c b l e n in
            record {
              best = k.best;
              found = ap (rank_lfu ctrl cs) step ∙ k.found;
              among = k.among;
              below = k.below;
              least = (omega (arith, k.below, w), k.least);
            }
      ]

  -- After a reset the policy returns a line of the list, for every list that is not empty: one that is
  -- not valid if there is one, else one that no child shares if there is one.
  pub rank_lfu-least :
      (c : ℕ) (cs : List ℕ) (l : Lfu)
      → l.best_candidate ≡ none
      → (r : ℕ) × (rank_lfu ctrl (c ∷ cs) l ≡ some r)
        × IsAmong r (c ∷ cs)
        × All (λ x. cost_of r ≤ cost_of x) (c ∷ cs)
  unfolding rank_lfu record_lfu
  rank_lfu-least c cs l e =
      let from = c ∷ cs in
      let next = record l { best_rank = rank_of ctrl l c; best_candidate = some c } in
      let a = each-IsAmong from in
      let k = rank_lfu-IsCheapest from cs c next refl refl a.0 a.1 in
      let step : record_lfu ctrl c l ≡ next = rw (record_lfu, e) refl in
      (k.best, ap (rank_lfu ctrl cs) step ∙ k.found, k.among, (k.below, k.least))
