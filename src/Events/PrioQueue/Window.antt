-- ===== src/Events/PrioQueue/Window.antt =====
-- The window of the queue moves on: no element is lost, and a populated block is found.
use native.Mathlib.Nat.{mod-eq_of_lt, add-mod_right, mod-add-mod, mod-lt, mod_self}
use me_mo_tracer.Base.{
  ℕ, zero, suc, ◌⊎◌, subst, ◌+◌, ◌*◌, ◌/◌, ◌%◌, ◌^◌, ◌≤◌, ◌<◌, ◌≡◌, refl, sym, ap, ◌∙◌, inl, inr,
  true, false, not, ◌&&◌, List, [], ◌∷◌, some, ltb, ◌==◌, length, All, Bool-cases, arith,
  ℕ_discrete, dec_lt,
}
use me_mo_tracer.Events.PrioQueue.{
  PrioQueue, block_at, is_empty, put_near, move_near, next_block, is_populated, find_block,
}
use me_mo_tracer.Events.PrioQueue.Blocks.{IsRight, empty-chain}
use me_mo_tracer.Events.PrioQueue.Bag.{
  in_window, place, near, far, occurrences, IsValid, put_near-occurrences, put_near-IsRight,
  length-put_near,
}
use me_mo_tracer.Events.Multimap.{IsSorted}

-- The far elements before the end of the window have moved into it.
record Moved (q : PrioQueue) (es : List (ℕ × ℕ)) (r : PrioQueue) : Type 0 where
  sized : length r.blocks ≡ r.size
  right : (i : ℕ) → IsRight (block_at r i)
  size : r.size ≡ q.size
  cur : r.cur_block ≡ q.cur_block
  elems : r.elems ≡ q.elems
  sorted : IsSorted r.fe_map
  beyond : All (λ e. q.cur_block + q.size ≤ e.0 / 64) r.fe_map
  same : (c x : ℕ) → occurrences r c x ≡ near q c x + far es c x

All-beyond :
    (k n : ℕ) (es : List (ℕ × ℕ)) → k * 64 ≤ n → All (λ d. n ≤ d.0) es → All (λ e. k ≤ e.0 / 64) es
All-beyond k n [] h a = tt
All-beyond k n (e ∷ es) h a = (omega arith, All-beyond k n es h a.1)

move_near-Moved :
    (top : ℕ) (es : List (ℕ × ℕ)) (q : PrioQueue)
    → top ≡ (q.cur_block + q.size) * 64
    → length q.blocks ≡ q.size
    → 0 < q.size
    → ((i : ℕ) → IsRight (block_at q i))
    → IsSorted es
    → All (λ e. q.cur_block ≤ e.0 / 64) es
    → (r : PrioQueue) × (move_near top es q ≡ some r) × Moved q es r
unfolding move_near put_near
move_near-Moved top [] q t sized pos right s a = (
  record q { fe_map = [] },
  refl,
  record {
    sized = sized;
    right = right;
    size = refl;
    cur = refl;
    elems = refl;
    sorted = tt;
    beyond = tt;
    same = λ c x. refl;
  },
)
move_near-Moved top (e ∷ es) q t sized pos right s a = elim (Bool-cases (ltb e.0 top)) [
  | inl l ↦
      let w : in_window q e.0 ≡ true = ground arith in
      let n = put_near q e.1 e.0 in
      let h =
        move_near-Moved top es n t (length-put_near q e.1 e.0 sized) pos
          (put_near-IsRight q e.1 e.0 sized pos right) s.1 a.1 in
      (
        h.0,
        rw (l, w) h.1,
        record {
          sized = h.2.sized;
          right = h.2.right;
          size = h.2.size;
          cur = h.2.cur;
          elems = h.2.elems;
          sorted = h.2.sorted;
          beyond = h.2.beyond;
          same = λ c x.
              omega (arith, h.2.same c x, put_near-occurrences q e.1 e.0 c x sized pos right w);
        },
      )
  | inr l ↦ (
    record q { fe_map = e ∷ es },
    rw l refl,
    record {
      sized = sized;
      right = right;
      size = refl;
      cur = refl;
      elems = refl;
      sorted = s;
      beyond = All-beyond (q.cur_block + q.size) e.0 (e ∷ es) (ground arith) (omega arith, s.0);
      same = λ c x. refl;
    },
  )
]

next_mod : (k n : ℕ) → 0 < n → ((k + 1) % n ≡ 0) ⊎ ((k + 1) % n ≡ k % n + 1)
next_mod k n pos = elim (dec_lt (k % n + 1) n) [
  | yes l ↦ inr (sym (mod-add-mod k n 1) ∙ mod-eq_of_lt l)
  | no g ↦
      let e : k % n + 1 ≡ n = omega (arith, mod-lt k pos) in
      inl (sym (mod-add-mod k n 1) ∙ ap (λ i. i % n) e ∙ mod_self n)
]

-- What a property of the cycles says of a cycle that some far element waits for.
module _ (P : ℕ → Type 0) where
  pub far_has : (es : List (ℕ × ℕ)) (c x : ℕ) → All (λ e. P e.0) es → 0 < far es c x → P c
  far_has [] c x a h = absurd (omega arith)
  far_has (e ∷ es) c x a h = elim (ℕ_discrete e.0 c) [
    | yes s ↦ subst P s a.0
    | no ne ↦ far_has es c x a.1 (ground (arith, ne))
  ]

-- Nothing waits for a cycle before the current block, and the search goes on only past empty blocks.
module _ (q : PrioQueue) (v : IsValid q) where
  half-lt : q.cur_block % (q.size / 2) < q.size
  half-lt =
      let h : 0 < q.size / 2 = omega (arith, v.large) in
      omega (arith, mod-lt q.cur_block h, v.large)

  pub far-beyond : (c x : ℕ) → 0 < far q.fe_map c x → q.cur_block + 1 ≤ c / 64
  far-beyond c x f = omega (
    arith,
    half-lt,
    far_has (λ k. q.cur_block + q.size ≤ k / 64 + q.cur_block % (q.size / 2)) q.fe_map c x v.beyond
        f,
  )

  pub occurrences-in_reach : (c x : ℕ) → 0 < occurrences q c x → q.cur_block ≤ c / 64
  occurrences-in_reach c x h = elim (Bool-cases (in_window q c)) [
    | inl w ↦ ground arith
    | inr w ↦ let f : 0 < far q.fe_map c x = ground arith in omega (arith, far-beyond c x f)
  ]

  module _ (unset : is_populated q ≡ false) where
    empty_place : (c : ℕ) → c / 64 % q.size ≡ q.cur_block % q.size → place q c ≡ []
    empty_place c e =
        rw e (empty-chain (block_at q (q.cur_block % q.size)) (c % 64) (v.right _) unset)

    pub occurrences-past : (c x : ℕ) → 0 < occurrences q c x → q.cur_block + 1 ≤ c / 64
    occurrences-past c x h = elim (ℕ_discrete (c / 64) q.cur_block) [
      | no ne ↦ omega (arith, occurrences-in_reach c x h, ne)
      | yes e ↦
          let p = empty_place c (ap (λ i. i % q.size) e) in
          let w : in_window q c ≡ true = ground (arith, v.large) in
          let n : near q c x ≡ 0 = rw (w, p) refl in far-beyond c x (omega (arith, n, h))
    ]

    near-next : (c x : ℕ) → near (record q { cur_block = q.cur_block + 1 }) c x ≡ near q c x
    near-next c x = elim (ℕ_discrete (c / 64) q.cur_block) [
      | yes e ↦ rw (empty_place c (ap (λ i. i % q.size) e)) (ground arith)
      | no ne ↦ elim (ℕ_discrete (c / 64) (q.cur_block + q.size)) [
        | yes e ↦
            rw (empty_place c (ap (λ i. i % q.size) e ∙ add-mod_right q.cur_block q.size))
              (ground arith)
        | no nf ↦ ground (arith, ne, nf)
      ]
    ]

-- The queue holds the same after a step.
pub record Kept (q r : PrioQueue) : Type 0 where
  pub valid : IsValid r
  pub size : r.size ≡ q.size
  pub elems : r.elems ≡ q.elems
  pub same : (c x : ℕ) → occurrences r c x ≡ occurrences q c x

module _ {ℓ κ} {A : Type ℓ} {P Q : A → Type κ} (imp : (a : A) → P a → Q a) where
  All-map : (xs : List A) → All P xs → All Q xs
  All-map [] h = tt
  All-map (x ∷ xs) h = (imp x h.0, All-map xs h.1)

next_block-stays :
    (q : PrioQueue)
    → IsValid q
    → is_populated q ≡ false
    → ((q.cur_block + 1) % (q.size / 2) ≡ q.cur_block % (q.size / 2) + 1) ⊎ (q.fe_map ≡ [])
    → Kept q (record q { cur_block = q.cur_block + 1 })
next_block-stays q v unset h = record {
  valid = record {
    large = v.large;
    small = v.small;
    sized = v.sized;
    right = v.right;
    sorted = v.sorted;
    beyond = elim h [
      | inl e ↦ All-map (λ d f. omega (arith, e, f)) q.fe_map v.beyond
      | inr e ↦ rw e tt
    ];
  };
  size = refl;
  elems = refl;
  same = λ c x. ap (λ n. n + far q.fe_map c x) (near-next q v unset c x);
}

no_far : (es : List (ℕ × ℕ)) → not (is_empty es) ≡ false → es ≡ []
no_far [] h = refl
no_far (e ∷ es) h = absurd (cc)

no_refill :
    (q : PrioQueue)
    → IsValid q
    → ((q.cur_block + 1) % (q.size / 2) == 0 && not (is_empty q.fe_map)) ≡ false
    → ((q.cur_block + 1) % (q.size / 2) ≡ q.cur_block % (q.size / 2) + 1) ⊎ (q.fe_map ≡ [])
no_refill q v f = elim (next_mod q.cur_block (q.size / 2) (omega (arith, v.large))) [
  | inr e ↦ inl e
  | inl z ↦ inr (no_far q.fe_map (ground (arith, z)))
]

next_block-Kept :
    (q : PrioQueue)
    → IsValid q
    → is_populated q ≡ false
    → (q.cur_block + 1 + q.size) * 64 < 2 ^ 64
    → (r : PrioQueue) × (next_block q ≡ some r) × Kept q r × (r.cur_block ≡ q.cur_block + 1)
unfolding next_block
next_block-Kept q v unset room =
    elim (Bool-cases ((q.cur_block + 1) % (q.size / 2) == 0 && not (is_empty q.fe_map))) [
      | inr f ↦ (
        record q { cur_block = q.cur_block + 1 },
        rw f refl,
        next_block-stays q v unset (no_refill q v f),
        refl,
      )
      | inl t ↦
          let s = record q { cur_block = q.cur_block + 1 } in
          let m =
            move_near-Moved ((q.cur_block + 1 + q.size) * 64 % 2 ^ 64) q.fe_map s
              (mod-eq_of_lt room) v.sized (omega (arith, v.large)) v.right v.sorted
              (All-map (λ d f. omega (arith, f, half-lt q v, v.large)) q.fe_map v.beyond) in
          (
            m.0,
            rw t m.1,
            record {
              valid = record {
                large = subst (λ n. 2 ≤ n) (sym m.2.size) v.large;
                small = subst (λ n. n < 2 ^ 32) (sym m.2.size) v.small;
                sized = m.2.sized;
                right = m.2.right;
                sorted = m.2.sorted;
                beyond =
                    All-map (λ d f. omega (arith, f, m.2.size, m.2.cur)) (m.0).fe_map m.2.beyond;
              };
              size = m.2.size;
              elems = m.2.elems;
              same = λ c x. omega (arith, m.2.same c x, near-next q v unset c x);
            },
            m.2.cur,
          )
    ]

-- The search ends when some element waits for a cycle within the rounds.
pub find_block-Kept :
    (n : ℕ) (q : PrioQueue) (c x : ℕ)
    → IsValid q
    → 0 < occurrences q c x
    → c < 2 ^ 63
    → c / 64 ≤ q.cur_block + n
    → (r : PrioQueue) × (find_block n q ≡ some r) × Kept q r × (is_populated r ≡ true)
unfolding find_block
find_block-Kept zero q c x v h lt le = elim (Bool-cases (is_populated q)) [
  | inl t ↦ (q, rw t refl, record { valid = v; size = refl; elems = refl; same = λ d y. refl }, t)
  | inr f ↦ absurd (omega (arith, occurrences-past q v f c x h))
]
find_block-Kept (suc n) q c x v h lt le = elim (Bool-cases (is_populated q)) [
  | inl t ↦ (
    q,
    rw (find_block, t) refl,
    record { valid = v; size = refl; elems = refl; same = λ d y. refl },
    t,
  )
  | inr f ↦
      let past = occurrences-past q v f c x h in
      let m = next_block-Kept q v f (omega (arith, v.small)) in
      let r =
        find_block-Kept n m.0 c x m.2.valid (omega (arith, m.2.same c x)) lt (omega (arith, m.3)) in
      (
        r.0,
        rw (find_block, f) (rw m.1 r.1),
        record {
          valid = r.2.valid;
          size = r.2.size ∙ m.2.size;
          elems = r.2.elems ∙ m.2.elems;
          same = λ d y. r.2.same d y ∙ m.2.same d y;
        },
        r.3,
      )
]
