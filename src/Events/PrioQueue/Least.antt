-- ===== src/Events/PrioQueue/Least.antt =====
-- The element that `dequeue` gives is one of the least cycle.
use native.Mathlib.Nat.{mod-eq_of_lt, mod-lt}
use me_mo_tracer.Base.{
  ℕ, ◌+◌, ◌*◌, ◌/◌, ◌%◌, ◌^◌, ◌≤◌, ◌<◌, ◌≡◌, ◌≢◌, refl, sym, ◌∙◌, inl, inr, true, false, ◌&&◌, List,
  [], ◌∷◌, some, if◌then◌else◌, ◌==◌, sub64, length, set, length-set, get_or-set_self,
  get_or-set_ne, Bool-cases, arith, ℕ_discrete, dec_lt,
}
use me_mo_tracer.Events.PrioQueue.{
  Block, blank, PrioQueue, block_at, is_populated, find_block, rounds_for, dequeue, first_far,
}
use me_mo_tracer.Events.PrioQueue.Blocks.{IsRight, Taken, take_out-Taken}
use me_mo_tracer.Events.PrioQueue.Bag.{in_window, near, far, occurrences, IsValid, same_slot}
use me_mo_tracer.Events.Multimap.{IsSorted}
use me_mo_tracer.Events.PrioQueue.Window.{
  Kept, far_has, far-beyond, occurrences-in_reach, find_block-Kept,
}

-- The queue less the element that its current block gives.
module _ (q : PrioQueue) (v : IsValid q) (b : Block) (obj pos : ℕ) (next : List ℕ)
    (t : Taken (block_at q (q.cur_block % q.size)) b obj pos next) where
  abbrev less : PrioQueue
  less = record q { blocks = set q.blocks (q.cur_block % q.size) b; elems = sub64 q.elems 1 }

  slot-lt : q.cur_block % q.size < length q.blocks
  slot-lt =
      omega (arith, mod-lt q.cur_block (let h : 0 < q.size = omega (arith, v.large) in h), v.sized)

  less-IsRight : (i : ℕ) → IsRight (block_at less i)
  less-IsRight i = elim (ℕ_discrete i (q.cur_block % q.size)) [
    | yes e ↦ rw (e, get_or-set_self q.blocks (q.cur_block % q.size) b blank slot-lt) t.right
    | no ne ↦
        rw (get_or-set_ne q.blocks (q.cur_block % q.size) i b blank (λ e. ne (sym e))) (v.right i)
  ]

  less-IsValid : IsValid less
  less-IsValid = record {
    large = v.large;
    small = v.small;
    right = less-IsRight;
    sorted = v.sorted;
    beyond = v.beyond;
    sized = length-set q.blocks _ _ ∙ v.sized;
  }

  -- The list of each cycle in the window, the cycle taken out excepted.
  less-near :
      (c x : ℕ)
      → near q c x ≡ near less c x + (if q.cur_block * 64 + pos == c && obj == x then 1 else 0)
  less-near c x = elim (Bool-cases (in_window q c)) [
    | inr e ↦ rw e (ground (arith, t.in_range, v.large))
    | inl e ↦ elim (ℕ_discrete (c / 64) q.cur_block) [
      | yes s ↦
          rw
            (e, s, get_or-set_self q.blocks (q.cur_block % q.size) b blank slot-lt, t.rest (c % 64))
            (elim (ℕ_discrete (c % 64) pos) [
              | yes d ↦ rw (d, t.head) (ground (arith, d, s))
              | no nd ↦ ground (arith, nd, s, t.in_range)
            ])
      | no ns ↦
          let apart : q.cur_block % q.size ≢ c / 64 % q.size = λ u. ns (
            same_slot q.cur_block q.size (c / 64) q.cur_block (ground arith) (ground arith)
              (ground arith) (omega (arith, v.large)) (sym u)) in
          rw (e, get_or-set_ne q.blocks (q.cur_block % q.size) (c / 64 % q.size) b blank apart)
            (ground (arith, ns, t.in_range))
    ]
  ]

  -- Nothing waits for an earlier cycle.
  least : (c x : ℕ) → c < q.cur_block * 64 + pos → occurrences q c x ≡ 0
  least c x lt = elim (dec_lt 0 (occurrences q c x)) [
    | no g ↦ omega arith
    | yes h ↦
        let e : c / 64 ≡ q.cur_block = omega (arith, occurrences-in_reach q v c x h, t.in_range) in
        let none_near : near q c x ≡ 0 =
          rw (e, t.first (c % 64) (omega (arith, t.in_range))) (ground arith) in
        absurd (omega (arith, e, far-beyond q v c x (omega (arith, none_near, h))))
  ]

pub head-waits :
    (q : PrioQueue) (c x : ℕ)
    → IsValid q
    → 0 < far q.fe_map c x
    → (d : ℕ) × (y : ℕ) × (d ≡ first_far q.fe_map) × (d ≤ c) × (0 < far q.fe_map d y)
head-waits q c x v h = from_first q.fe_map v.sorted h
  where
    from_first :
        (es : List (ℕ × ℕ))
        → IsSorted es
        → 0 < far es c x
        → (d : ℕ) × (y : ℕ) × (d ≡ first_far es) × (d ≤ c) × (0 < far es d y)
    from_first [] s f = absurd (omega arith)
    from_first (e ∷ es) s f = (e.0, e.1, refl, first_le, ground arith)
      where
        first_le : e.0 ≤ c
        first_le = elim (ℕ_discrete e.0 c) [
          | yes i ↦ omega (arith, i)
          | no ni ↦ far_has (λ k. e.0 ≤ k) es c x s.0 (ground (arith, ni))
        ]

-- The rounds that `dequeue` allows are enough.
found :
    (q : PrioQueue) (c x : ℕ)
    → IsValid q
    → 0 < occurrences q c x
    → c < 2 ^ 63
    → (r : PrioQueue) × (find_block (rounds_for q) q ≡ some r) × Kept q r × (is_populated r ≡ true)
found q c x v h lt = elim (dec_lt 0 (far q.fe_map c x)) [
  | yes f ↦
      let w = head-waits q c x v f in
      find_block-Kept (rounds_for q) q w.0 w.1 v (omega (arith, w.4)) (omega (arith, w.3))
        (omega (arith, w.2))
  | no g ↦
      let n : 0 < near q c x = omega arith in
      let i : in_window q c ≡ true = ground arith in
      find_block-Kept (rounds_for q) q c x v h lt (ground arith)
]

-- When some element waits, for a cycle below 2 ^ 63, `dequeue` gives an element and its cycle; the
-- queue stays well-formed and holds one occurrence of that element at that cycle less, and
-- nothing was waiting for an earlier cycle.
pub dequeue-least :
    (q : PrioQueue) (c x : ℕ)
    → IsValid q
    → q.elems ≢ 0
    → 0 < occurrences q c x
    → c < 2 ^ 63
    → (r : PrioQueue) × (obj : ℕ) × (cycle : ℕ) × (dequeue q ≡ some (r, obj, cycle))
      × IsValid r
      × ((d y : ℕ)
          → occurrences q d y ≡ occurrences r d y + (if cycle == d && obj == y then 1 else 0))
      × ((d y : ℕ) → d < cycle → occurrences q d y ≡ 0)
unfolding dequeue
dequeue-least q c x v ne h lt =
    let f = found q c x v h lt in
    let r = f.0 in
    let k = f.2 in
    let o = take_out-Taken (block_at r (r.cur_block % r.size)) (k.valid.right _) f.3 in
    let t = o.5 in
    let e : (q.elems == 0) ≡ false = ground (arith, ne) in
    let small : (r.cur_block * 64 + o.2) % 2 ^ 64 ≡ r.cur_block * 64 + o.2 = mod-eq_of_lt (
      omega
        (arith, occurrences-in_reach r k.valid c x (omega (arith, k.same c x, h)), t.in_range)) in
    (
      less r k.valid (o.0) (o.1) (o.2) (o.3) t,
      o.1,
      r.cur_block * 64 + o.2,
      rw e (rw (f.1) (rw (o.4) (rw small refl))),
      less-IsValid r k.valid (o.0) (o.1) (o.2) (o.3) t,
      λ d y. omega (arith, k.same d y, less-near r k.valid (o.0) (o.1) (o.2) (o.3) t d y),
      λ d y l. sym (k.same d y) ∙ least r k.valid (o.0) (o.1) (o.2) (o.3) t d y l,
    )
