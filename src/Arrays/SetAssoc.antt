-- ===== src/Arrays/SetAssoc.antt =====
-- `SetAssocArray` of src/cache_arrays.cpp over an LRU policy. The hash family is a parameter.
use me_mo_tracer.Base.{
  ℕ, zero, suc, ◌+◌, ◌*◌, ◌≤◌, ◌<◌, ◌≡◌, ◌≢◌, refl, ap, ◌∙◌, inl, inr, Bool, List, [], ◌∷◌, Option,
  none, some, if◌then◌else◌, ◌==◌, get_or, set, length, get_or-set_self, Bool-cases, arith,
}
use Prim.Native.Nat.{bit_and}
use me_mo_tracer.Arrays.Lru.{Lru, update, replaced, Controller, rank, rank_lem, IsAmong}

pub record SetAssocArray : Type 0 where
  pub array : List ℕ
  pub assoc : ℕ
  pub set_mask : ℕ
  pub rp : Lru

-- The candidates from `first`, `n` of them.
abbrev pub cands_from : ℕ → ℕ → List ℕ
cands_from first zero = []
cands_from first (suc n) = first ∷ cands_from (first + 1) n

-- The loop of `lookup`, from `id`, over `n` ways.
unfoldable pub find : List ℕ → ℕ → ℕ → ℕ → Option ℕ
find array line_addr id zero = none
find array line_addr id (suc n) =
    if get_or array id 0 == line_addr then some id else find array line_addr (id + 1) n

module _ (hash : ℕ → ℕ → ℕ) (sharers_aware : Bool) where
  -- The first line of the address's set.
  unfoldable pub first_of : SetAssocArray → ℕ → ℕ
  first_of a line_addr = bit_and (hash 0 line_addr) a.set_mask * a.assoc

  unfoldable pub lookup : SetAssocArray → ℕ → Bool → SetAssocArray × Option ℕ
  lookup a line_addr update_replacement =
      elim (find a.array line_addr (first_of a line_addr) a.assoc) [
        | none ↦ (a, none)
        | some id ↦ (if update_replacement then (record a { rp = update a.rp id }) else a, some id)
      ]

  -- The line to replace, and the address that it holds.
  unfoldable pub preinsert : Controller → SetAssocArray → ℕ → ℕ × ℕ
  preinsert ctrl a line_addr =
      let candidate = rank sharers_aware ctrl a.rp (cands_from (first_of a line_addr) a.assoc) in
      (candidate, get_or a.array candidate 0)

unfoldable pub postinsert : SetAssocArray → ℕ → ℕ → SetAssocArray
postinsert a line_addr candidate = record a {
  array = set a.array candidate line_addr;
  rp = update (replaced a.rp candidate) candidate;
}

in_set : (r first n : ℕ) → IsAmong r (cands_from first n) → (first ≤ r) × (r < first + n)
in_set r first zero m = absurd m
in_set r first (suc n) (inl e) = (omega arith, omega arith)
in_set r first (suc n) (inr m) =
    let h = in_set r (first + 1) n m in (omega (arith, h.0), omega (arith, h.1))

find-some :
    (array : List ℕ) (line_addr id n r : ℕ)
    → id ≤ r
    → r < id + n
    → get_or array r 0 ≡ line_addr
    → (k : ℕ) × (find array line_addr id n ≡ some k)
      × (get_or array k 0 ≡ line_addr)
      × (id ≤ k)
      × (k < id + n)
unfolding find
find-some array line_addr id zero r a b e = absurd (omega arith)
find-some array line_addr id (suc n) r a b e = elim (Bool-cases (get_or array id 0 == line_addr)) [
  | inl y ↦ (id, rw y refl, ground arith, omega arith, omega arith)
  | inr y ↦
      let ne : id ≢ r = λ z.
        (let w : get_or array id 0 ≡ line_addr = ap (λ k. get_or array k 0) z ∙ e in
          ground arith) in
      let h = find-some array line_addr (id + 1) n r (omega arith) (omega arith) e in
      (h.0, rw y h.1, h.2, omega (arith, h.3), omega (arith, h.4))
]

rank-in_set :
    (sharers_aware : Bool) (ctrl : Controller) (l : Lru) (first n : ℕ)
    → 0 < n
    → let r = rank sharers_aware ctrl l (cands_from first n) in (first ≤ r) × (r < first + n)
rank-in_set sharers_aware ctrl l first zero pos = absurd (omega arith)
rank-in_set sharers_aware ctrl l first (suc n) pos =
    in_set _ first (suc n) (rank_lem sharers_aware ctrl l first (cands_from (first + 1) n)).0

-- A miss fills a way of the address's set: the line that `preinsert` gives lies in the set, and after
-- `postinsert` a lookup finds the address there, if the array is large enough for the set.
pub lookup-postinsert :
    (hash : ℕ → ℕ → ℕ) (sharers_aware : Bool) (ctrl : Controller) (a : SetAssocArray)
    (line_addr : ℕ) (touch : Bool)
    → 0 < a.assoc
    → first_of hash sharers_aware a line_addr + a.assoc ≤ length a.array
    → let first = first_of hash sharers_aware a line_addr in
      let candidate = (preinsert hash sharers_aware ctrl a line_addr).0 in
      let b = postinsert a line_addr candidate in
      (first ≤ candidate)
      × (candidate < first + a.assoc)
      × ((k : ℕ) × ((lookup hash sharers_aware b line_addr touch).1 ≡ some k)
          × (get_or b.array k 0 ≡ line_addr)
          × (first ≤ k)
          × (k < first + a.assoc))
unfolding lookup preinsert postinsert first_of
lookup-postinsert hash sharers_aware ctrl a line_addr touch pos room =
    let first = bit_and (hash 0 line_addr) a.set_mask * a.assoc in
    let c = rank sharers_aware ctrl a.rp (cands_from first a.assoc) in
    let h = rank-in_set sharers_aware ctrl a.rp first a.assoc pos in
    let f =
      find-some (set a.array c line_addr) line_addr first a.assoc c h.0 h.1
        (get_or-set_self a.array c line_addr 0 (omega (arith, h.1))) in
    (h.0, h.1, (f.0, rw (lookup, f.1) refl, f.2, f.3, f.4))
