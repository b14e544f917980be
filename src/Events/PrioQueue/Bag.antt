-- ===== src/Events/PrioQueue/Bag.antt =====
-- What a queue holds: how often an element waits for a cycle, and that `enqueue` adds to it.
use native.Mathlib.Nat.{mod-eq_of_lt, mod-eq-sub-mod, mod-add-mod, mod-lt}
use me_mo_tracer.Base.{
  ℕ, ◌+◌, ◌-◌, ◌/◌, ◌%◌, ◌^◌, ◌≤◌, ◌<◌, ◌≡◌, ◌≢◌, refl, sym, ap, ◌∙◌, inl, inr, Bool, true, ◌&&◌,
  List, [], ◌∷◌, some, if◌then◌else◌, ltb, leb, ◌==◌, add64, length, length-set, length-replicate,
  get_or-replicate, get_or-set_self, get_or-set_ne, All, count, Bool-cases, arith, ℕ_discrete,
  dec_lt,
}
use me_mo_tracer.Events.PrioQueue.{blank, PrioQueue, block_at, put_in, put_near, enqueue, init}
use me_mo_tracer.Events.Multimap.{insert, IsSorted, All-insert, insert-IsSorted}
use me_mo_tracer.Events.PrioQueue.Blocks.{
  chain, IsRight, blank-IsRight, chain-put_in, put_in-IsRight,
}

abbrev pub in_window : PrioQueue → ℕ → Bool
in_window q c = leb q.cur_block (c / 64) && ltb (c / 64) (q.cur_block + q.size)

-- The list of the cycle's place.
abbrev pub place : PrioQueue → ℕ → List ℕ
place q c = chain (block_at q (c / 64 % q.size)) (c % 64)

abbrev pub near : PrioQueue → ℕ → ℕ → ℕ
near q c x = if in_window q c then count x (place q c) else 0

abbrev pub far : List (ℕ × ℕ) → ℕ → ℕ → ℕ
far [] c x = 0
far (e ∷ es) c x = (if e.0 == c && e.1 == x then 1 else 0) + far es c x

-- How often the element `x` waits for the cycle `c`.
abbrev pub occurrences : PrioQueue → ℕ → ℕ → ℕ
occurrences q c x = near q c x + far q.fe_map c x

-- Beyond the window as it was when the far elements were last looked at.
abbrev pub IsFar : PrioQueue → ℕ × ℕ → Type 0
IsFar q e = q.cur_block + q.size ≤ e.0 / 64 + q.cur_block % (q.size / 2)

pub record IsValid (q : PrioQueue) : Type 0 where
  pub large : 2 ≤ q.size
  pub small : q.size < 2 ^ 32
  pub sized : length q.blocks ≡ q.size
  pub right : (i : ℕ) → IsRight (block_at q i)
  pub sorted : IsSorted q.fe_map
  pub beyond : All (IsFar q) q.fe_map

pub init-IsValid : (size : ℕ) → 2 ≤ size → size < 2 ^ 32 → IsValid (init size)
unfolding init
init-IsValid size large small = record {
  large = large;
  small = small;
  sized = length-replicate size blank;
  right = λ i. rw (get_or-replicate size blank i) blank-IsRight;
  sorted = tt;
  beyond = tt;
}

-- Two numbers of a stretch as long as the divisor have different remainders.
same_slot_le : (n a d : ℕ) → 0 < n → d < n → (a + d) % n ≡ a % n → d ≡ 0
same_slot_le n a d pos lt e =
    let h : (a % n + d) % n ≡ a % n = mod-add-mod a n d ∙ e in
    let r = mod-lt a pos in
    elim (dec_lt (a % n + d) n) [
      | yes l ↦ omega (arith, mod-eq_of_lt l)
      | no g ↦ omega (
        arith,
        mod-eq-sub-mod {n = a % n + d} {m = n} (omega arith),
        mod-eq_of_lt {n = a % n + d - n} {m = n} (omega arith),
      )
    ]

pub same_slot : (k n a b : ℕ) → k ≤ a → a < k + n → k ≤ b → b < k + n → a % n ≡ b % n → a ≡ b
same_slot k n a b ka an kb bn e = elim (dec_lt a b) [
  | yes l ↦
      let s : (a + (b - a)) % n ≡ a % n =
        ap (λ i. i % n) (let t : a + (b - a) ≡ b = omega arith in t) ∙ sym e in
      omega (arith, same_slot_le n a (b - a) (omega arith) (omega arith) s)
  | no g ↦
      let s : (b + (a - b)) % n ≡ b % n =
        ap (λ i. i % n) (let t : b + (a - b) ≡ a = omega arith in t) ∙ e in
      omega (arith, same_slot_le n b (a - b) (omega arith) (omega arith) s)
]

pub put_near-occurrences :
    (q : PrioQueue) (obj cycle c x : ℕ)
    → length q.blocks ≡ q.size
    → 0 < q.size
    → ((i : ℕ) → IsRight (block_at q i))
    → in_window q cycle ≡ true
    → near (put_near q obj cycle) c x ≡ near q c x + (if cycle == c && obj == x then 1 else 0)
unfolding put_near
put_near-occurrences q obj cycle c x sized pos right w =
    let i = cycle / 64 % q.size in
    let lt : i < length q.blocks = omega (arith, mod-lt (cycle / 64) pos) in
    elim (Bool-cases (in_window q c)) [
      | inr e ↦ rw e (ground (arith, w))
      | inl e ↦ elim (ℕ_discrete (c / 64) (cycle / 64)) [
        | yes s ↦
            rw
              (
                e,
                s,
                get_or-set_self q.blocks i (put_in (block_at q i) obj (cycle % 64)) blank lt,
                chain-put_in (block_at q i) obj (cycle % 64) (c % 64) (right i) (omega arith),
              )
              (ground arith)
        | no ne ↦
            let apart : i ≢ c / 64 % q.size = λ t. ne (
              same_slot q.cur_block q.size (c / 64) (cycle / 64) (ground arith) (ground arith)
                (ground arith) (ground arith) (sym t)) in
            rw
              (
                e,
                get_or-set_ne q.blocks i (c / 64 % q.size) (put_in (block_at q i) obj (cycle % 64))
                    blank apart,
              )
              (ground arith)
      ]
    ]

pub length-put_near :
    (q : PrioQueue) (obj cycle : ℕ)
    → length q.blocks ≡ q.size
    → length (put_near q obj cycle).blocks ≡ q.size
unfolding put_near
length-put_near q obj cycle sized = length-set q.blocks _ _ ∙ sized

pub put_near-IsRight :
    (q : PrioQueue) (obj cycle : ℕ)
    → length q.blocks ≡ q.size
    → 0 < q.size
    → ((i : ℕ) → IsRight (block_at q i))
    → (i : ℕ) → IsRight (block_at (put_near q obj cycle) i)
unfolding put_near
put_near-IsRight q obj cycle sized pos right i =
    let k = cycle / 64 % q.size in
    let lt : k < length q.blocks = omega (arith, mod-lt (cycle / 64) pos) in
    elim (ℕ_discrete i k) [
      | yes e ↦
          rw (e, get_or-set_self q.blocks k (put_in (block_at q k) obj (cycle % 64)) blank lt)
            (put_in-IsRight (block_at q k) obj (cycle % 64) (right k) (omega arith))
      | no ne ↦
          rw
            (get_or-set_ne q.blocks k i (put_in (block_at q k) obj (cycle % 64)) blank
              (λ e. ne (sym e)))
            (right i)
    ]

far-insert :
    (key obj : ℕ) (es : List (ℕ × ℕ)) (c x : ℕ)
    → far (insert key obj es) c x ≡ far es c x + (if key == c && obj == x then 1 else 0)
unfolding insert
far-insert key obj [] c x = omega arith
far-insert key obj (e ∷ es) c x = ground (arith, far-insert key obj es c x)

enqueue_any :
    (q : PrioQueue) (obj cycle : ℕ)
    → IsValid q
    → q.cur_block ≤ cycle / 64
    → (r : PrioQueue) × (enqueue q obj cycle ≡ some r)
      × IsValid r
      × ((c x : ℕ)
          → occurrences r c x ≡ occurrences q c x + (if cycle == c && obj == x then 1 else 0))
unfolding enqueue put_near
enqueue_any q obj cycle v le = elim (Bool-cases (ltb (cycle / 64) (q.cur_block + q.size))) [
  | inl w ↦
      let b : leb q.cur_block (cycle / 64) ≡ true = ground arith in
      (
        record (put_near q obj cycle) { elems = add64 q.elems 1 },
        rw (b, w) refl,
        record {
          large = v.large;
          small = v.small;
          sized = length-set q.blocks _ _ ∙ v.sized;
          right = put_near-IsRight q obj cycle v.sized (omega (arith, v.large)) v.right;
          sorted = v.sorted;
          beyond = v.beyond;
        },
        λ c x. omega (
          arith,
          put_near-occurrences q obj cycle c x v.sized (omega (arith, v.large)) v.right
              (rw (b, w) refl),
        ),
      )
  | inr w ↦
      let b : leb q.cur_block (cycle / 64) ≡ true = ground arith in
      (
        record q { fe_map = insert cycle obj q.fe_map; elems = add64 q.elems 1 },
        rw (b, w) refl,
        record {
          large = v.large;
          small = v.small;
          sized = v.sized;
          right = v.right;
          sorted = insert-IsSorted cycle obj q.fe_map v.sorted;
          beyond = All-insert (IsFar q) cycle obj q.fe_map (ground arith) v.beyond;
        },
        λ c x. omega (arith, far-insert cycle obj q.fe_map c x),
      )
]

-- `enqueue` of an element that is not in the queue succeeds at a cycle that is not before the current
-- block, and adds its one occurrence, at its cycle, to what the queue holds, in the window and
-- beyond it: it is there once, at that cycle, and the other elements are where they were.
pub enqueue-occurrences :
    (q : PrioQueue) (obj cycle : ℕ)
    → IsValid q
    → ((c : ℕ) → occurrences q c obj ≡ 0)
    → q.cur_block ≤ cycle / 64
    → (r : PrioQueue) × (enqueue q obj cycle ≡ some r)
      × IsValid r
      × ((c : ℕ) → occurrences r c obj ≡ (if cycle == c then 1 else 0))
      × ((c x : ℕ) → x ≢ obj → occurrences r c x ≡ occurrences q c x)
enqueue-occurrences q obj cycle v new le =
    let r = enqueue_any q obj cycle v le in
    (r.0, r.1, r.2, λ c. ground (arith, r.3 c obj, new c), λ c x n. ground (arith, r.3 c x, n))
