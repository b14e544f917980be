-- ===== src/Events/PrioQueue/Blocks.antt =====
-- One block of the queue: the mask says which lists hold something.
use me_mo_tracer.Base.{
  any-false, first_bit-some, first_bit, any, ℕ, ◌<◌, ◌≡◌, refl, sym, ◌∙◌, true, false, not, List,
  [], ◌∷◌, some, if◌then◌else◌, ◌==◌, length, get_or, set, length-set, get_or-set, get_or-replicate,
  arith, count,
}
use me_mo_tracer.Events.PrioQueue.{Block, blank, is_empty, put_in, pop, take_out}

abbrev pub chain : Block → ℕ → List ℕ
chain b i = get_or b.array i []

pub record IsRight (b : Block) : Type 0 where
  pub lists : length b.array ≡ 64
  pub bits : length b.occ ≡ 64
  pub agree : (i : ℕ) → get_or b.occ i false ≡ not (is_empty (chain b i))

pub blank-IsRight : IsRight blank
blank-IsRight = record {
  lists = refl;
  bits = refl;
  agree = λ i. rw (get_or-replicate 64 false i, get_or-replicate {A = List ℕ} 64 [] i) refl;
}

pub chain-put_in :
    (b : Block) (obj pos i : ℕ)
    → IsRight b
    → pos < 64
    → chain (put_in b obj pos) i ≡ (if i == pos then obj ∷ chain b pos else chain b i)
unfolding put_in
chain-put_in b obj pos i r lt =
    get_or-set b.array pos i (obj ∷ chain b pos) [] (omega (arith, r.lists))

pub put_in-IsRight : (b : Block) (obj pos : ℕ) → IsRight b → pos < 64 → IsRight (put_in b obj pos)
unfolding put_in
put_in-IsRight b obj pos r lt = record {
  lists = length-set b.array pos _ ∙ r.lists;
  bits = length-set b.occ pos true ∙ r.bits;
  agree = λ i.
      rw
        (
          get_or-set b.occ pos i true false (omega (arith, r.bits)),
          get_or-set b.array pos i (obj ∷ chain b pos) [] (omega (arith, r.lists)),
        )
        (ground (arith, r.agree i));
}

-- What a populated block gives: the first element of its first list.
pub record Taken (b c : Block) (obj pos : ℕ) (next : List ℕ) : Type 0 where
  pub in_range : pos < 64
  pub right : IsRight c
  pub head : chain b pos ≡ obj ∷ next
  pub rest : (i : ℕ) → chain c i ≡ (if i == pos then next else chain b i)
  pub first : (i : ℕ) → i < pos → chain b i ≡ []

no_chain : (xs : List ℕ) → false ≡ not (is_empty xs) → xs ≡ []
no_chain [] e = refl
no_chain (x ∷ xs) e = cc

some_chain : (xs : List ℕ) → true ≡ not (is_empty xs) → (x : ℕ) × (next : List ℕ) × (xs ≡ x ∷ next)
some_chain [] e = cc
some_chain (x ∷ xs) e = (x, xs, refl)

pub empty-chain : (b : Block) (i : ℕ) → IsRight b → any b.occ ≡ false → chain b i ≡ []
empty-chain b i r h = no_chain (chain b i) (sym (any-false b.occ i h) ∙ r.agree i)

popped : Block → ℕ → List ℕ → Block
popped b pos next = record {
  array = set b.array pos next;
  occ = if is_empty next then set b.occ pos (not (get_or b.occ pos false)) else b.occ;
}

popped-IsRight :
    (b : Block) (pos : ℕ) (next : List ℕ)
    → IsRight b
    → pos < 64
    → get_or b.occ pos false ≡ true
    → IsRight (popped b pos next)
unfolding popped
popped-IsRight b pos [] r lt e = record {
  lists = length-set b.array pos [] ∙ r.lists;
  bits = length-set b.occ pos _ ∙ r.bits;
  agree = λ i.
      rw
        (
          e,
          get_or-set b.occ pos i false false (omega (arith, r.bits)),
          get_or-set b.array pos i [] [] (omega (arith, r.lists)),
        )
        (ground (arith, r.agree i));
}
popped-IsRight b pos (x ∷ xs) r lt e = record {
  lists = length-set b.array pos (x ∷ xs) ∙ r.lists;
  bits = r.bits;
  agree = λ i.
      rw (get_or-set b.array pos i (x ∷ xs) [] (omega (arith, r.lists)))
        (ground (arith, r.agree i, e));
}

pub take_out-Taken :
    (b : Block)
    → IsRight b
    → any b.occ ≡ true
    → (c : Block) × (obj : ℕ) × (pos : ℕ) × (next : List ℕ) × (take_out b ≡ some (c, obj, pos))
      × Taken b c obj pos next
unfolding take_out pop popped
take_out-Taken b r h =
    let f = first_bit-some b.occ h in
    let s = some_chain (chain b f.0) (sym f.3 ∙ r.agree f.0) in
    let lt : f.0 < 64 = omega (arith, f.2, r.bits) in
    (
      popped b f.0 s.1,
      s.0,
      f.0,
      s.1,
      rw (f.1) (rw (s.2) refl),
      record {
        in_range = lt;
        right = popped-IsRight b f.0 s.1 r lt f.3;
        head = s.2;
        rest = λ i. get_or-set b.array f.0 i s.1 [] (omega (arith, r.lists));
        first = λ i l. no_chain (chain b i) (sym (f.4 i l) ∙ r.agree i);
      },
    )

pub first_bit-chain :
    (b : Block)
    → IsRight b
    → any b.occ ≡ true
    → (p : ℕ) × (first_bit b.occ ≡ some p)
      × (p < 64)
      × ((x : ℕ) × (0 < count x (chain b p)))
      × ((i : ℕ) → i < p → chain b i ≡ [])
first_bit-chain b r h =
    let f = first_bit-some b.occ h in
    let s = some_chain (chain b f.0) (sym f.3 ∙ r.agree f.0) in
    (
      f.0,
      f.1,
      omega (arith, f.2, r.bits),
      (s.0, rw (s.2) (ground arith)),
      λ i l. no_chain (chain b i) (sym (f.4 i l) ∙ r.agree i),
    )
