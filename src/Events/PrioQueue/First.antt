-- ===== src/Events/PrioQueue/First.antt =====
-- `firstCycle` gives the least cycle that something waits for.
use native.Mathlib.Nat.{mod-eq_of_lt, mod-lt}
use me_mo_tracer.Base.{
  any, ℕ, zero, suc, ◌+◌, ◌-◌, ◌*◌, ◌/◌, ◌%◌, ◌^◌, ◌≤◌, ◌<◌, ◌≡◌, ◌≢◌, ◌⊎◌, refl, ap, ◌∙◌, inl, inr,
  true, false, List, [], ◌∷◌, none, some, ◌==◌, min, map_some, count, Bool-cases, arith, ℕ_discrete,
  dec_lt,
}
use me_mo_tracer.Events.PrioQueue.{
  PrioQueue, block_at, is_empty, first_from, far_begin, first_far, with_far, first_cycle, dequeue,
}
use me_mo_tracer.Events.PrioQueue.Blocks.{empty-chain, first_bit-chain}
use me_mo_tracer.Events.PrioQueue.Bag.{in_window, place, near, far, occurrences, IsValid}
use me_mo_tracer.Events.PrioQueue.Window.{far_has, occurrences-in_reach}
use me_mo_tracer.Events.PrioQueue.Least.{head-waits, dequeue-least}

-- The least cycle that something waits for among those of the blocks `i` to `i + n`.
record First (q : PrioQueue) (i n c : ℕ) : Type 0 where
  low : q.cur_block + i ≤ c / 64
  high : c / 64 < q.cur_block + i + n
  waits : (x : ℕ) × (0 < count x (place q c))
  least : (d x : ℕ) → q.cur_block + i ≤ d / 64 → d < c → count x (place q d) ≡ 0

module _ (q : PrioQueue) (v : IsValid q) (room : (q.cur_block + q.size) * 64 < 2 ^ 64) where
  first_from-First :
      (n i : ℕ)
      → i + n ≤ q.size
      → ((c : ℕ) × (first_from n i q ≡ some c) × First q i n c)
        ⊎ ((first_from n i q ≡ none)
            × ((d x : ℕ)
                → q.cur_block + i ≤ d / 64
                → d / 64 < q.cur_block + i + n
                → count x (place q d) ≡ 0))
  unfolding first_from
  first_from-First zero i le = inr (refl, λ d x l h. absurd (omega arith))
  first_from-First (suc n) i le =
      let b = block_at q ((q.cur_block + i) % q.size) in
      elim (Bool-cases (any b.occ)) [
        | inl t ↦
            let f = first_bit-chain b (v.right _) t in
            let c = (q.cur_block + i) * 64 + f.0 in
            let block : c / 64 ≡ q.cur_block + i = omega (arith, f.2) in
            let offset : c % 64 ≡ f.0 = omega (arith, f.2) in
            inl (
              c,
              rw (first_from, t, f.1, mod-eq_of_lt (let w : c < 2 ^ 64 = omega (arith, f.2) in w))
                  refl,
              record {
                low = omega (arith, block);
                high = omega (arith, block);
                waits = (f.3.0, rw (block, offset) f.3.1);
                least = λ d x l h.
                    let same : d / 64 ≡ q.cur_block + i = omega (arith, f.2) in
                    rw (same, f.4 (d % 64) (omega (arith, f.2))) refl;
              },
            )
        | inr f ↦ elim (first_from-First n (i + 1) (omega arith)) [
          | inl r ↦ inl (
            r.0,
            rw (first_from, f) r.1,
            record {
              low = omega (arith, r.2.low);
              high = omega (arith, r.2.high);
              waits = r.2.waits;
              least = λ d x l h. elim (ℕ_discrete (d / 64) (q.cur_block + i)) [
                | yes s ↦ rw (s, empty-chain b (d % 64) (v.right _) f) refl
                | no ns ↦ r.2.least d x (omega arith) h
              ];
            },
          )
          | inr r ↦ inr (
            rw (first_from, f) r.0,
            λ d x l h. elim (ℕ_discrete (d / 64) (q.cur_block + i)) [
              | yes s ↦ rw (s, empty-chain b (d % 64) (v.right _) f) refl
              | no ns ↦ r.1 d x (omega arith) (omega arith)
            ],
          )
        ]
      ]

record IsLeast (q : PrioQueue) (c : ℕ) : Type 0 where
  waits : (x : ℕ) × (0 < occurrences q c x)
  least : (d x : ℕ) → d < c → occurrences q d x ≡ 0

IsLeast-unique : (q : PrioQueue) (a b : ℕ) → IsLeast q a → IsLeast q b → a ≡ b
IsLeast-unique q a b k l = elim (dec_lt a b) [
  | yes h ↦ absurd (omega (arith, k.waits.1, l.least a k.waits.0 h))
  | no g ↦ elim (dec_lt b a) [
    | yes h ↦ absurd (omega (arith, l.waits.1, k.least b l.waits.0 h))
    | no f ↦ omega arith
  ]
]

no_far : (es : List (ℕ × ℕ)) (d x : ℕ) → is_empty es ≡ true → far es d x ≡ 0
no_far [] d x e = refl
no_far (a ∷ es) d x e = absurd (cc)

begin_waits :
    (es : List (ℕ × ℕ))
    → is_empty es ≡ false
    → (y : ℕ) × (0 < far es (first_far es) y) × (far_begin es ≡ some (first_far es))
begin_waits [] e = absurd (cc)
begin_waits (a ∷ es) e = (a.1, ground arith, refl)

module _ (q : PrioQueue) (v : IsValid q) where
  -- The far elements lie beyond the first half of the window.
  far_deep : (d x : ℕ) → 0 < far q.fe_map d x → q.cur_block + q.size / 2 ≤ d / 64
  far_deep d x f =
      let pos : 0 < q.size / 2 = omega (arith, v.large) in
      omega (
        arith,
        mod-lt q.cur_block pos,
        far_has (λ k. q.cur_block + q.size ≤ k / 64 + q.cur_block % (q.size / 2)) q.fe_map d x
            v.beyond f,
      )

  far_least : (d x : ℕ) → d < first_far q.fe_map → far q.fe_map d x ≡ 0
  far_least d x l = elim (dec_lt 0 (far q.fe_map d x)) [
    | no g ↦ omega arith
    | yes f ↦ let w = head-waits q d x v f in absurd (omega (arith, w.2, w.3))
  ]

  -- In the first half.
  early-IsLeast : (c : ℕ) → First q 0 (q.size / 2) c → IsLeast q c
  early-IsLeast c f = record {
    waits = (f.waits.0, ground (arith, f.low, f.high, f.waits.1));
    least = λ d x l. elim (dec_lt 0 (far q.fe_map d x)) [
      | yes h ↦ absurd (omega (arith, far_deep d x h, f.high))
      | no g ↦ elim (Bool-cases (in_window q d)) [
        | inl w ↦ rw (w, f.least d x (ground arith) l) (omega arith)
        | inr w ↦ rw w (omega arith)
      ]
    ];
  }

  module _
      (clear : (d x : ℕ)
        → q.cur_block + 0 ≤ d / 64
        → d / 64 < q.cur_block + 0 + q.size / 2
        → count x (place q d) ≡ 0) where
    near_before :
        (c : ℕ)
        → ((d x : ℕ)
            → q.cur_block + q.size / 2 ≤ d / 64
            → d / 64 < q.cur_block + q.size
            → d < c
            → count x (place q d) ≡ 0)
        → (d x : ℕ) → d < c
        → near q d x ≡ 0
    near_before c h d x l = elim (Bool-cases (in_window q d)) [
      | inr w ↦ rw w refl
      | inl w ↦ rw w (elim (dec_lt (d / 64) (q.cur_block + q.size / 2)) [
        | yes k ↦ clear d x (ground arith) (omega arith)
        | no k ↦ h d x (omega arith) (ground arith) l
      ])
    ]

    -- In the second half, where a far element may come first.
    late-IsLeast :
        (c : ℕ)
        → First q (q.size / 2) (q.size - q.size / 2) c
        → (m : ℕ) × (with_far q (some c) ≡ some m) × IsLeast q m
    late-IsLeast c f =
        let before = near_before c (λ d x l h k. f.least d x l k) in
        elim (Bool-cases (is_empty q.fe_map)) [
          | inl e ↦ (
            c,
            rw e refl,
            record {
              waits = (f.waits.0, ground (arith, f.low, f.high, f.waits.1, v.large));
              least = λ d x l. omega (arith, before d x l, no_far q.fe_map d x e);
            },
          )
          | inr e ↦
              let b = begin_waits q.fe_map e in
              (
                min c (first_far q.fe_map),
                rw e refl,
                record {
                  waits = elim (dec_lt c (first_far q.fe_map)) [
                    | yes l ↦
                        let s : min c (first_far q.fe_map) ≡ c = omega arith in
                        rw s (f.waits.0, ground (arith, f.low, f.high, f.waits.1, v.large))
                    | no l ↦
                        let s : min c (first_far q.fe_map) ≡ first_far q.fe_map = omega arith in
                        rw s (b.0, omega (arith, b.1))
                  ];
                  least =
                      λ d x l. omega (arith, before d x (omega arith), far_least d x (omega arith));
                },
              )
        ]

    module _
        (none_late : (d x : ℕ)
          → q.cur_block + q.size / 2 ≤ d / 64
          → d / 64 < q.cur_block + q.size / 2 + (q.size - q.size / 2)
          → count x (place q d) ≡ 0) where
      none_near : (d x : ℕ) → near q d x ≡ 0
      none_near d x =
          near_before (suc d) (λ a y l h k. none_late a y l (omega arith)) d x (omega arith)

      only_far-IsLeast :
          (c x : ℕ) → 0 < occurrences q c x → (m : ℕ) × (with_far q none ≡ some m) × IsLeast q m
      only_far-IsLeast c x h = elim (Bool-cases (is_empty q.fe_map)) [
        | inl e ↦ absurd (omega (arith, none_near c x, no_far q.fe_map c x e, h))
        | inr e ↦
            let b = begin_waits q.fe_map e in
            (
              first_far q.fe_map,
              b.2,
              record {
                waits = (b.0, omega (arith, b.1));
                least = λ d y l. omega (arith, none_near d y, far_least d y l);
              },
            )
      ]

first_cycle-IsLeast :
    (q : PrioQueue) (c x : ℕ)
    → IsValid q
    → q.elems ≢ 0
    → 0 < occurrences q c x
    → c < 2 ^ 63
    → (m : ℕ) × (first_cycle q ≡ some m) × IsLeast q m
unfolding first_cycle
first_cycle-IsLeast q c x v ne h lt =
    let room : (q.cur_block + q.size) * 64 < 2 ^ 64 =
      omega (arith, occurrences-in_reach q v c x h, v.small) in
    let e : (q.elems == 0) ≡ false = ground (arith, ne) in
    elim (first_from-First q v room (q.size / 2) 0 (omega arith)) [
      | inl f ↦ (f.0, rw (e, f.1) refl, early-IsLeast q v f.0 f.2)
      | inr f ↦ elim (first_from-First q v room (q.size - q.size / 2) (q.size / 2) (omega arith)) [
        | inl g ↦ let m = late-IsLeast q v f.1 g.0 g.2 in (m.0, rw (e, f.0, g.1) m.1, m.2)
        | inr g ↦ let m = only_far-IsLeast q v f.1 g.1 c x h in (m.0, rw (e, f.0, g.0) m.1, m.2)
      ]
    ]

-- `firstCycle` gives the cycle of the element that `dequeue` would take out, when some element waits
-- for a cycle below 2 ^ 63.
pub first_cycle-dequeue :
    (q : PrioQueue) (c x : ℕ)
    → IsValid q
    → q.elems ≢ 0
    → 0 < occurrences q c x
    → c < 2 ^ 63
    → (cycle : ℕ) × (first_cycle q ≡ some cycle) × (map_some (λ r. r.2) (dequeue q) ≡ some cycle)
first_cycle-dequeue q c x v ne h lt =
    let m = first_cycle-IsLeast q c x v ne h lt in
    let d = dequeue-least q c x v ne h lt in
    let least : IsLeast q (d.2) = record {
      waits = (d.1, ground (arith, d.5 (d.2) (d.1)));
      least = d.6;
    } in
    (m.0, m.1, ap (map_some (λ r. r.2)) (d.3) ∙ ap some (IsLeast-unique q (d.2) (m.0) least m.2))
