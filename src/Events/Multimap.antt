-- ===== src/Events/Multimap.antt =====
-- `g_multimap`, a `std::multimap` with 64-bit keys, as the list of its elements in order.
use me_mo_tracer.Base.{ℕ, ◌≤◌, inl, inr, List, [], ◌∷◌, if◌then◌else◌, ltb, Bool-cases, All, arith}

-- `insert`: after the keys that are not greater.
unfoldable pub insert : {A : Type 0} → ℕ → A → List (ℕ × A) → List (ℕ × A)
insert key obj [] = (key, obj) ∷ []
insert key obj (e ∷ es) = if ltb key e.0 then (key, obj) ∷ e ∷ es else e ∷ insert key obj es

abbrev pub IsSorted : {A : Type 0} → List (ℕ × A) → Type 0
IsSorted [] = Unit {0}
IsSorted (e ∷ es) = All (λ d. e.0 ≤ d.0) es × IsSorted es

module _ {A : Type 0} where
  pub All-insert :
      (P : ℕ × A → Type 0) (key : ℕ) (obj : A) (es : List (ℕ × A))
      → P (key, obj)
      → All P es
      → All P (insert key obj es)
  unfolding insert
  All-insert P key obj [] p h = (p, tt)
  All-insert P key obj (e ∷ es) p h = elim (Bool-cases (ltb key e.0)) [
    | inl l ↦ rw l (p, h)
    | inr l ↦ rw l (h.0, All-insert P key obj es p h.1)
  ]

  All-above : (a b : ℕ) (es : List (ℕ × A)) → a ≤ b → All (λ d. b ≤ d.0) es → All (λ d. a ≤ d.0) es
  All-above a b [] h k = tt
  All-above a b (e ∷ es) h k = (omega arith, All-above a b es h k.1)

  pub insert-IsSorted :
      (key : ℕ) (obj : A) (es : List (ℕ × A)) → IsSorted es → IsSorted (insert key obj es)
  unfolding insert
  insert-IsSorted key obj [] s = (tt, tt)
  insert-IsSorted key obj (e ∷ es) s = elim (Bool-cases (ltb key e.0)) [
    | inl l ↦ rw l ((ground arith, All-above key e.0 es (ground arith) s.0), s)
    | inr l ↦
        rw l (
          All-insert (λ d. e.0 ≤ d.0) key obj es (ground arith) s.0,
          insert-IsSorted key obj es s.1,
        )
  ]
