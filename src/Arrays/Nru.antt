-- ===== src/Arrays/Nru.antt =====
-- `NRUReplPolicy` of src/repl_policies.h, with two bits for each line.
use me_mo_tracer.Base.{
  ℕ, ◌+◌, ◌/◌, ◌%◌, ◌^◌, ◌≤◌, ◌<◌, ◌≡◌, inl, inr, refl, sym, subst, ap, true, List, [], ◌∷◌, Option,
  some, map, if◌then◌else◌, ltb, leb, ◌==◌, add32, sub32, get_or, set, length, All, assert, ◌>>◌,
  Bool-cases, length-set, get_or-set_self, get_or-set_ne, ltb→lt, ==→eq, ℕ_discrete, arith,
}
use me_mo_tracer.Arrays.Lru.{IsAmong, each-IsAmong}

pub record Nru : Type 0 where
  pub num_lines : ℕ
  pub array : List ℕ
  pub cand_array : List ℕ
  pub young_lines : ℕ
  pub cand_val : ℕ
  pub cand_idx : ℕ

abbrev pub value : Nru → ℕ → ℕ
value n id = get_or n.array id 0

-- `|= 0x2` on a value.
abbrev pub set_young : ℕ → ℕ
set_young v = if v / 2 % 2 == 1 then v else v + 2

unfoldable pub update : Nru → ℕ → Nru
update n id =
    let young = sub32 (add32 n.young_lines 1) (value n id / 2) in
    let marked = set n.array id (set_young (value n id)) in
    if leb (n.num_lines / 2) young
    then record n { young_lines = 0; array = map (λ v. v / 2) marked }
    else record n { young_lines = young; array = marked }

unfoldable pub record_candidate : Nru → ℕ → Nru
record_candidate n id =
    let v = value n id in
    if ltb v n.cand_val
    then record n { cand_val = v; cand_array = set n.cand_array 0 id; cand_idx = 1 }
    else if v == n.cand_val
    then record n { cand_array = set n.cand_array n.cand_idx id; cand_idx = n.cand_idx + 1 }
    else n

unfoldable pub get_best_candidate : Nru → Option ℕ
get_best_candidate n =
    assert (ltb 0 n.cand_idx) >> some (get_or n.cand_array (n.young_lines % n.cand_idx) 0)

-- The loop of `LegacyReplPolicy::rank`.
unfoldable pub record_all : List ℕ → Nru → Nru
record_all [] n = n
record_all (c ∷ cs) n = record_all cs (record_candidate n c)

unfoldable pub rank_legacy : List ℕ → Nru → Option ℕ
rank_legacy cs n = get_best_candidate (record_all cs n)

unfoldable pub replaced_line : Nru → ℕ → Nru
replaced_line n id = record n { cand_val = 2 ^ 20; cand_idx = 0; array = set n.array id 0 }

-- The candidates recorded are of the list, and have the least value that was seen.
record IsSeen (from : List ℕ) (a : List ℕ) (n : Nru) : Type 0 where
  same : n.array ≡ a
  roomy : n.cand_idx ≤ length n.cand_array
  fresh :
      (i : ℕ)
      → i < n.cand_idx
      → IsAmong (get_or n.cand_array i 0) from × (get_or a (get_or n.cand_array i 0) 0 ≡ n.cand_val)

-- What one candidate does.
record IsNoted (from a : List ℕ) (n : Nru) (c : ℕ) (r : Nru) : Type 0 where
  seen : IsSeen from a r
  same_length : length r.cand_array ≡ length n.cand_array
  lower : r.cand_val ≤ n.cand_val
  bound : r.cand_val ≤ get_or a c 0
  step : r.cand_idx ≤ n.cand_idx + 1
  some_new : get_or a c 0 < n.cand_val → 0 < r.cand_idx
  some_old : 0 < n.cand_idx → 0 < r.cand_idx

module _ (from a : List ℕ) (n : Nru) (c : ℕ) (k : IsSeen from a n) (m : IsAmong c from)
    (lt : n.cand_idx < length n.cand_array) where
  first_best :
      get_or a c 0 < n.cand_val
      → IsNoted from a n c
          (record n { cand_val = get_or a c 0; cand_array = set n.cand_array 0 c; cand_idx = 1 })
  first_best y = record {
    seen = record {
      same = k.same;
      roomy = omega (arith, length-set n.cand_array 0 c);
      fresh = λ i l.
          let z : i ≡ 0 = omega arith in
          let e : get_or (set n.cand_array 0 c) i 0 ≡ c =
            subst (λ j. get_or (set n.cand_array 0 c) j 0 ≡ c) (sym z)
              (get_or-set_self n.cand_array 0 c 0 (omega arith)) in
          rw e (m, refl);
    };
    same_length = length-set n.cand_array 0 c;
    lower = omega arith;
    bound = omega arith;
    step = omega arith;
    some_new = λ h. omega arith;
    some_old = λ h. omega arith;
  }

  next_best :
      get_or a c 0 ≡ n.cand_val
      → IsNoted from a n c
          (record n { cand_array = set n.cand_array n.cand_idx c; cand_idx = n.cand_idx + 1 })
  next_best y = record {
    seen = record {
      same = k.same;
      roomy = omega (arith, length-set n.cand_array n.cand_idx c);
      fresh = λ i l. elim (ℕ_discrete i n.cand_idx) [
        | yes z ↦
            let e : get_or (set n.cand_array n.cand_idx c) i 0 ≡ c =
              subst (λ j. get_or (set n.cand_array n.cand_idx c) j 0 ≡ c) (sym z)
                (get_or-set_self n.cand_array n.cand_idx c 0 lt) in
            rw e (m, y)
        | no ne ↦
            let e = get_or-set_ne n.cand_array n.cand_idx i c 0 (λ x. ne (sym x)) in
            rw e (k.fresh i (omega (arith, ne)))
      ];
    };
    same_length = length-set n.cand_array n.cand_idx c;
    lower = omega arith;
    bound = omega (arith, y);
    step = omega arith;
    some_new = λ h. omega arith;
    some_old = λ h. omega arith;
  }

  record-IsNoted : IsNoted from a n c (record_candidate n c)
  unfolding record_candidate
  record-IsNoted =
      let e : value n c ≡ get_or a c 0 = ap (λ x. get_or x c 0) k.same in
      elim (Bool-cases (ltb (get_or a c 0) n.cand_val)) [
        | inl y ↦ rw (record_candidate, e, y) (first_best (ltb→lt (get_or a c 0) n.cand_val y))
        | inr o ↦ elim (Bool-cases (get_or a c 0 == n.cand_val)) [
          | inl y ↦ rw (record_candidate, e, o, y) (next_best (==→eq (get_or a c 0) n.cand_val y))
          | inr x ↦
              rw (record_candidate, e, o, x)
                (record {
                  seen = k;
                  same_length = refl;
                  lower = omega arith;
                  bound = ground (arith, o);
                  step = omega arith;
                  some_new = λ h. ground (arith, h, o);
                  some_old = λ h. h;
                })
        ]
      ]

-- What the loop does.
record IsRanked (from a cs : List ℕ) (n r : Nru) : Type 0 where
  seen : IsSeen from a r
  lower : r.cand_val ≤ n.cand_val
  least : All (λ c. r.cand_val ≤ get_or a c 0) cs
  some_old : 0 < n.cand_idx → 0 < r.cand_idx

record_all-IsRanked :
    (from a cs : List ℕ) (n : Nru)
    → IsSeen from a n
    → All (λ c. IsAmong c from) cs
    → n.cand_idx + length cs ≤ length n.cand_array
    → IsRanked from a cs n (record_all cs n)
unfolding record_all
record_all-IsRanked from a [] n k m l = record {
  seen = k;
  lower = omega arith;
  least = tt;
  some_old = λ h. h;
}
record_all-IsRanked from a (c ∷ cs) n k m l =
    let q = record-IsNoted from a n c k m.0 (omega arith) in
    let next = record_candidate n c in
    let r = record_all-IsRanked from a cs next q.seen m.1 (omega (arith, q.step, q.same_length)) in
    record {
      seen = r.seen;
      lower = omega (arith, q.lower, r.lower);
      least = (omega (arith, q.bound, r.lower), r.least);
      some_old = λ h. r.some_old (q.some_old h);
    }

-- The candidate that the policy returns for a list that is not empty and fits the array of candidates
-- is one of the list, and no line of the list has a lower value, if the policy was reset before and
-- the first value is below the reset value.
pub rank_legacy-least :
    (c : ℕ) (cs : List ℕ) (n : Nru)
    → n.cand_idx ≡ 0
    → n.cand_val ≡ 2 ^ 20
    → value n c < 2 ^ 20
    → length (c ∷ cs) ≤ length n.cand_array
    → (r : ℕ) × (rank_legacy (c ∷ cs) n ≡ some r)
      × IsAmong r (c ∷ cs)
      × All (λ x. value n r ≤ value n x) (c ∷ cs)
unfolding rank_legacy record_all get_best_candidate
rank_legacy-least c cs n z b lt len =
    let from = c ∷ cs in
    let a = n.array in
    let k : IsSeen from a n = record {
      same = refl;
      roomy = omega (arith, z);
      fresh = λ i l. absurd (omega (arith, z));
    } in
    let m = each-IsAmong from in
    let q = record-IsNoted from a n c k m.0 (omega (arith, z)) in
    let next = record_candidate n c in
    let r =
      record_all-IsRanked from a cs next q.seen m.1 (omega (arith, q.step, q.same_length, z)) in
    let e = record_all cs next in
    let pos : 0 < e.cand_idx = r.some_old (q.some_new (omega (arith, b))) in
    let i = e.young_lines % e.cand_idx in
    let f = (r.seen).fresh i (omega arith) in
    let ok : ltb 0 e.cand_idx ≡ true = ground (arith, pos) in
    (
      get_or e.cand_array i 0,
      rw (rank_legacy, get_best_candidate, ok) refl,
      f.0,
      subst (λ v. All (λ x. v ≤ value n x) (c ∷ cs)) (sym f.1)
          (omega (arith, q.bound, r.lower), r.least),
    )
