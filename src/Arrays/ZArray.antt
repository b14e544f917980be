-- ===== src/Arrays/ZArray.antt =====
-- `ZArray` of src/cache_arrays.cpp over an LRU policy: a line may stand at one place for each way,
-- and `lookup_array` says which line stands at a place. The hash family is a parameter; the index of
-- the last candidate, which serves the timing of accesses, is left out.
pub mod Swaps
use me_mo_tracer.Base.{
  ℕ, zero, suc, ◌+◌, ◌-◌, ◌*◌, ◌/◌, ◌%◌, ◌≡◌, Bool, true, false, not, ◌&&◌, ◌||◌, List, [], ◌∷◌,
  ◌++◌, Option, map, none, some, if◌then◌else◌, ltb, leb, ◌==◌, get_or, set, length, replicate,
  ◌>>=◌, ◌>>◌, assert,
}
use Prim.Native.Nat.{bit_and}
use me_mo_tracer.Arrays.Lru.{Lru, update, replaced, Controller, rank}

pub record ZArray : Type 0 where
  pub array : List ℕ
  pub lookup_array : List ℕ
  pub swap_array : List ℕ
  pub ways : ℕ
  pub cands : ℕ
  pub num_sets : ℕ
  pub set_mask : ℕ
  pub swaps : ℕ
  pub rp : Lru

-- A place, the line there, and the candidate that it was reached from.
pub record ZWalkInfo : Type 0 where
  pub pos : ℕ
  pub line_id : ℕ
  pub parent_idx : Option ℕ

abbrev pub nobody : ZWalkInfo
nobody = record { pos = 0; line_id = 0; parent_idx = none }

abbrev pub ids_from : ℕ → ℕ → List ℕ
ids_from first zero = []
ids_from first (suc n) = first ∷ ids_from (first + 1) n

unfoldable pub init : ℕ → ℕ → ℕ → Lru → Option ZArray
init num_lines ways cands rp = do
  assert (ltb 1 ways)
  assert (leb ways cands)
  assert (num_lines % ways == 0)
  assert (not (num_lines / ways == 0) && bit_and (num_lines / ways) (num_lines / ways - 1) == 0)
  some (record {
    array = replicate num_lines 0;
    lookup_array = ids_from 0 num_lines;
    swap_array = [];
    ways = ways;
    cands = cands;
    num_sets = num_lines / ways;
    set_mask = num_lines / ways - 1;
    swaps = 0;
    rp = rp;
  })

abbrev pub all_set : List ℕ → List ZWalkInfo → Bool
all_set array [] = true
all_set array (c ∷ cs) = not (get_or array c.line_id 0 == 0) && all_set array cs

-- The least index of a line among the candidates.
abbrev pub min_idx : ℕ → List ZWalkInfo → Option ℕ
min_idx best [] = none
min_idx best (c ∷ cs) = if best == c.line_id then some 0 else min_idx best cs >>= λ i. some (i + 1)

abbrev pub first_n : ℕ → List ZWalkInfo → List ZWalkInfo
first_n zero cs = []
first_n (suc n) [] = []
first_n (suc n) (c ∷ cs) = c ∷ first_n n cs

-- The places from a candidate up to its seed; each parent stands before it.
unfoldable pub chain : ℕ → List ZWalkInfo → Option ℕ → List ℕ
chain n cs none = []
chain zero cs (some idx) = []
chain (suc n) cs (some idx) =
    (get_or cs idx nobody).pos ∷ chain n cs (get_or cs idx nobody).parent_idx

module _ (hash : ℕ → ℕ → ℕ) (sharers_aware : Bool) where
  -- Where the way `w` keeps a line.
  unfoldable pub pos_of : ZArray → ℕ → ℕ → ℕ
  pos_of a w line_addr = w * a.num_sets + bit_and (hash w line_addr) a.set_mask

  unfoldable pub find_way : ZArray → ℕ → ℕ → ℕ → Option ℕ
  unfolding pos_of
  find_way a line_addr w zero = none
  find_way a line_addr w (suc n) =
      let id = get_or a.lookup_array (pos_of a w line_addr) 0 in
      if get_or a.array id 0 == line_addr then some id else find_way a line_addr (w + 1) n

  -- `none` is the panic at line 0.
  unfoldable pub lookup : ZArray → ℕ → Bool → Option (ZArray × Option ℕ)
  unfolding find_way
  lookup a line_addr update_replacement =
      assert (not (line_addr == 0))
      >> some (elim (find_way a line_addr 0 a.ways) [
        | none ↦ (a, none)
        | some id ↦ (if update_replacement then (record a { rp = update a.rp id }) else a, some id)
      ])

  -- The places of a line from the way `w` on, reached from `parent`.
  unfoldable pub walk : ZArray → ℕ → Option ℕ → ℕ → ℕ → List ZWalkInfo
  unfolding pos_of
  walk a line_addr parent w zero = []
  walk a line_addr parent w (suc n) =
      let pos = pos_of a w line_addr in
      record { pos = pos; line_id = get_or a.lookup_array pos 0; parent_idx = parent }
      ∷ walk a line_addr parent (w + 1) n

  abbrev pub others : ℕ → List ZWalkInfo → List ZWalkInfo
  others id [] = []
  others id (c ∷ cs) = if c.line_id == id then others id cs else c ∷ others id cs

  -- The fringe grows while there are too few candidates and all hold a line, for `n` rounds at most.
  unfoldable pub expand : ℕ → ZArray → ℕ → List ZWalkInfo → Bool → Option (List ZWalkInfo × Bool)
  unfolding walk
  expand zero a fringe_start cs all_valid = some (cs, all_valid)
  expand (suc n) a fringe_start cs all_valid =
      let fringe_id = (get_or cs fringe_start nobody).line_id in
      let fringe_addr = get_or a.array fringe_id 0 in
      let next = walk a fringe_addr (some fringe_start) 0 a.ways in
      let grown =
        assert (not (fringe_addr == 0))
        >> expand n a (fringe_start + 1) (cs ++ others fringe_id next) (all_set a.array next) in
      if ltb (length cs) a.cands && all_valid then grown else some (cs, all_valid)

  -- The array with its swaps, the line to replace, and the address that it holds.
  unfoldable pub preinsert : Controller → ZArray → ℕ → Option (ZArray × ℕ × ℕ)
  unfolding expand chain
  preinsert ctrl a line_addr = do
    let seeds = walk a line_addr none 0 a.ways
    grown ← expand a.cands a 0 seeds (all_set a.array seeds)
    assert (not grown.1 || leb a.cands (length grown.0))
    let cs = first_n a.cands grown.0
    let best = rank sharers_aware ctrl a.rp (map ZWalkInfo.line_id cs)
    assert (ltb best (length a.array))
    idx ← min_idx best cs
    some (record a { swap_array = chain (idx + 1) cs (some idx) }, best, get_or a.array best 0)

-- The loop of `postinsert`, and the write after it.
unfoldable pub shift : List ℕ → List ℕ → ℕ → List ℕ
shift [] lookup_array candidate = lookup_array
shift (p ∷ []) lookup_array candidate = set lookup_array p candidate
shift (p ∷ q ∷ ps) lookup_array candidate =
    shift (q ∷ ps) (set lookup_array p (get_or lookup_array q 0)) candidate

unfoldable pub postinsert : ZArray → ℕ → ℕ → Option ZArray
unfolding shift
postinsert a line_addr candidate = do
  assert (get_or a.lookup_array (get_or a.swap_array 0 0) 0 == candidate)
  some (record a {
    lookup_array = shift a.swap_array a.lookup_array candidate;
    array = set a.array candidate line_addr;
    rp = update (replaced a.rp candidate) candidate;
    swaps = a.swaps + (length a.swap_array - 1);
  })
