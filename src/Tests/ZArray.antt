-- ===== src/Tests/ZArray.antt =====
-- A Z array of two ways and two sets, in which the oldest line is found over a swap.
use me_mo_tracer.Base.{ℕ, ◌/◌, ◌^◌, ◌≡◌, refl, true, false, [], ◌∷◌, some, count, get_or, arith}
use me_mo_tracer.Arrays.Lru.{Controller, rank, rank_loop, score}
use me_mo_tracer.Arrays.ZArray.{ZArray, pos_of, walk, expand, chain, preinsert, postinsert, lookup}
use me_mo_tracer.Arrays.ZArray.Swaps.{postinsert-lookup}

abbrev controller : Controller
controller = record { num_sharers = λ id. 0; is_valid = λ id. true }

abbrev hash : ℕ → ℕ → ℕ
hash w line_addr = line_addr / 2 ^ w

abbrev lines : ZArray
lines = record {
  array = 6 ∷ 5 ∷ 8 ∷ 10 ∷ [];
  lookup_array = 0 ∷ 1 ∷ 2 ∷ 3 ∷ [];
  swap_array = [];
  ways = 2;
  cands = 4;
  num_sets = 2;
  set_mask = 1;
  swaps = 0;
  rp = record { timestamp = 9; array = 5 ∷ 8 ∷ 7 ∷ 2 ∷ [] };
}

abbrev walked : ZArray
walked = record lines { swap_array = 3 ∷ 0 ∷ [] }

walk_to_oldest : preinsert hash true controller lines 12 ≡ some (walked, 3, 10)
unfolding preinsert expand walk pos_of chain rank rank_loop score
walk_to_oldest = refl

postinsert-lookup_example :
    (b : ZArray) × (postinsert walked 12 3 ≡ some b)
    × ((id : ℕ) → count id b.lookup_array ≡ count id walked.lookup_array)
    × ((c : ZArray) × (k : ℕ) × (lookup hash true b 12 false ≡ some (c, some k))
        × (get_or b.array k 0 ≡ 12))
unfolding pos_of
postinsert-lookup_example =
    postinsert-lookup hash true walked 12 3 3 0 (0 ∷ []) false refl (omega arith, (omega arith, tt))
      refl (omega arith) refl (omega arith) (omega arith)
