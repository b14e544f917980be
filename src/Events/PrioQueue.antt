-- ===== src/Events/PrioQueue.antt =====
-- `PrioQueue` of src/prio_queue.h: blocks of 64 cycles in a circular array, and a map of the
-- elements that lie farther ahead. An element is a number; the list that its `next` pointers make is
-- a list here, so an element is put in while it is in no other list. A block number is a cycle
-- divided by 64, so that it does not wrap.
pub mod Blocks
pub mod Bag
pub mod Window
pub mod Least
pub mod First
use me_mo_tracer.Base.{
  ℕ, zero, suc, ◌+◌, ◌-◌, ◌*◌, ◌/◌, ◌%◌, ◌^◌, Bool, true, false, not, ◌&&◌, ◌||◌, List, [], ◌∷◌,
  Option, none, some, if◌then◌else◌, ltb, leb, ◌==◌, add64, sub64, get_or, set, replicate, ◌>>=◌,
  ◌>>◌, assert, min, first_bit, any,
}
use me_mo_tracer.Events.Multimap.{insert}

-- `PQBlock`: the lists, and the mask of those that hold something, bit 0 first.
pub record Block : Type 0 where
  pub array : List (List ℕ)
  pub occ : List Bool

abbrev pub blank : Block
blank = record { array = replicate 64 []; occ = replicate 64 false }

pub record PrioQueue : Type 0 where
  pub blocks : List Block
  pub size : ℕ
  pub fe_map : List (ℕ × ℕ)
  pub cur_block : ℕ
  pub elems : ℕ

abbrev pub is_empty {ℓ} : {A : Type ℓ} → List A → Bool
is_empty [] = true
is_empty (x ∷ xs) = false

-- That the element is in no queue yet is asserted in the source, and left to the caller here.
unfoldable pub put_in : Block → ℕ → ℕ → Block
put_in b obj pos = record {
  array = set b.array pos (obj ∷ get_or b.array pos []);
  occ = set b.occ pos true;
}

-- The list at `pos` less its first element.
unfoldable pub pop : Block → ℕ → List ℕ → Option (Block × ℕ × ℕ)
pop b pos [] = none
pop b pos (obj ∷ next) = some (
  record {
    array = set b.array pos next;
    occ = if is_empty next then set b.occ pos (not (get_or b.occ pos false)) else b.occ;
  },
  obj,
  pos,
)

-- The element, and its offset.
unfoldable pub take_out : Block → Option (Block × ℕ × ℕ)
unfolding pop
take_out b = do pos ← first_bit b.occ; pop b pos (get_or b.array pos [])

unfoldable pub init : ℕ → PrioQueue
init size = record {
  blocks = replicate size blank;
  size = size;
  fe_map = [];
  cur_block = 0;
  elems = 0;
}

abbrev pub block_at : PrioQueue → ℕ → Block
block_at q i = get_or q.blocks i blank

-- Into the block of the cycle.
unfoldable pub put_near : PrioQueue → ℕ → ℕ → PrioQueue
put_near q obj cycle =
    let i = cycle / 64 % q.size in
    record q { blocks = set q.blocks i (put_in (block_at q i) obj (cycle % 64)) }

unfoldable pub enqueue : PrioQueue → ℕ → ℕ → Option PrioQueue
enqueue q obj cycle = do
  assert (leb q.cur_block (cycle / 64))
  let near = put_near q obj cycle
  let far = record q { fe_map = insert cycle obj q.fe_map }
  let r = if ltb (cycle / 64) (q.cur_block + q.size) then near else far
  some (record r { elems = add64 r.elems 1 })

-- The loop over the far elements: those before the top cycle move into the blocks.
unfoldable pub move_near : ℕ → List (ℕ × ℕ) → PrioQueue → Option PrioQueue
move_near top_cycle [] q = some (record q { fe_map = [] })
move_near top_cycle (e ∷ es) q =
    let moved =
      assert (leb q.cur_block (e.0 / 64) && ltb (e.0 / 64) (q.cur_block + q.size))
      >> move_near top_cycle es (put_near q e.1 e.0) in
    if ltb e.0 top_cycle then moved else some (record q { fe_map = e ∷ es })

-- One round of the loop that looks for a populated block.
unfoldable pub next_block : PrioQueue → Option PrioQueue
unfolding move_near
next_block q =
    let r = record q { cur_block = q.cur_block + 1 } in
    let refilled = move_near ((r.cur_block + q.size) * 64 % 2 ^ 64) q.fe_map r in
    if r.cur_block % (q.size / 2) == 0 && not (is_empty q.fe_map) then refilled else some r

-- The loop, with the number of rounds at most; `none` when they run out.
abbrev pub is_populated : PrioQueue → Bool
is_populated q = any (block_at q (q.cur_block % q.size)).occ

unfoldable pub find_block : ℕ → PrioQueue → Option PrioQueue
find_block zero q = if is_populated q then some q else none
find_block (suc n) q = elim (is_populated q) [
  | true ↦ some q
  | false ↦ next_block q >>= find_block n
]

-- The rounds that suffice: the blocks, and those before the first far element.
abbrev pub first_far : List (ℕ × ℕ) → ℕ
first_far [] = 0
first_far (e ∷ es) = e.0

abbrev pub rounds_for : PrioQueue → ℕ
rounds_for q = q.size + first_far q.fe_map / 64

-- The element and its cycle.
unfoldable pub dequeue : PrioQueue → Option (PrioQueue × ℕ × ℕ)
unfolding find_block
dequeue q = do
  assert (not (q.elems == 0))
  r ← find_block (rounds_for q) q
  let i = r.cur_block % r.size
  t ← take_out (block_at r i)
  some (
    record r { blocks = set r.blocks i t.0; elems = sub64 r.elems 1 },
    t.1,
    (r.cur_block * 64 + t.2) % 2 ^ 64,
  )

-- The first cycle that something waits for in the `n` blocks from the `i`th on.
unfoldable pub first_from : ℕ → ℕ → PrioQueue → Option ℕ
first_from zero i q = none
first_from (suc n) i q =
    let occ = (block_at q ((q.cur_block + i) % q.size)).occ in
    elim (any occ) [
      | true ↦ first_bit occ >>= λ pos. some (((q.cur_block + i) * 64 + pos) % 2 ^ 64)
      | false ↦ first_from n (i + 1) q
    ]

-- `feMap.begin()->first`, which has no value when the map is empty.
abbrev pub far_begin : List (ℕ × ℕ) → Option ℕ
far_begin [] = none
far_begin (e ∷ es) = some e.0

abbrev pub with_far : PrioQueue → Option ℕ → Option ℕ
with_far q none = far_begin q.fe_map
with_far q (some cycle) =
    if is_empty q.fe_map then some cycle else some (min cycle (first_far q.fe_map))

abbrev pub or_else : Option ℕ → Option ℕ → Option ℕ
or_else none o = o
or_else (some cycle) o = some cycle

unfoldable pub first_cycle : PrioQueue → Option ℕ
unfolding first_from
first_cycle q = do
  assert (not (q.elems == 0))
  or_else (first_from (q.size / 2) 0 q)
      (with_far q (first_from (q.size - q.size / 2) (q.size / 2) q))
