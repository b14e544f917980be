-- ===== src/Arrays/ZArray/Swaps.antt =====
-- The swaps of `postinsert` keep the lines, and put the new one where a lookup finds it.
use me_mo_tracer.Base.{
  ◌-◌, ==→eq, ==→ne, set-get_or, ℕ, zero, suc, ◌+◌, ◌≤◌, ◌<◌, ◌≡◌, ◌≢◌, refl, sym, ap, ◌∙◌, inl,
  inr, Bool, true, false, List, [], ◌∷◌, some, if◌then◌else◌, ◌==◌, get_or, set, length, length-set,
  get_or-set, get_or-set_self, All, count, Bool-cases, arith,
}
use me_mo_tracer.Arrays.ZArray.{ZArray, shift, postinsert, pos_of, find_way, lookup}
use me_mo_tracer.Arrays.Lru.{update, replaced}

count-set :
    (xs : List ℕ) (i v x : ℕ)
    → i < length xs
    → count x (set xs i v) + (if get_or xs i 0 == x then 1 else 0)
      ≡ count x xs + (if v == x then 1 else 0)
count-set [] i v x lt = absurd (omega arith)
count-set (y ∷ ys) zero v x lt = ground arith
count-set (y ∷ ys) (suc i) v x lt = ground (arith, count-set ys i v x (omega arith))

-- One swap moves the place that waits for the candidate, and no line else.
count_swap :
    (xs : List ℕ) (p q c x : ℕ)
    → p < length xs
    → q < length xs
    → count x (set (set xs p (get_or xs q 0)) q c) ≡ count x (set xs p c)
count_swap xs p q c x lp lq =
    let a = count-set xs p (get_or xs q 0) x lp in
    let b =
      count-set (set xs p (get_or xs q 0)) q c x (omega (arith, length-set xs p (get_or xs q 0))) in
    let d = count-set xs p c x lp in
    let e : get_or (set xs p (get_or xs q 0)) q 0 ≡ get_or xs q 0 =
      get_or-set xs p q (get_or xs q 0) 0 lp ∙ either (q == p) (get_or xs q 0) in
    let f = rw e at b in omega (arith, a, f, d)
  where
    either : (b : Bool) (n : ℕ) → (if b then n else n) ≡ n
    either true n = refl
    either false n = refl

-- The last of the places.
abbrev pub last_of : ℕ → List ℕ → ℕ
last_of p [] = p
last_of p (q ∷ ps) = last_of q ps

-- The places, in the array.
abbrev pub InRange : List ℕ → ℕ → List ℕ → Type 0
InRange xs p ps = (p < length xs) × All (λ q. q < length xs) ps

in_range-set :
    (xs : List ℕ) (i v : ℕ) (ps : List ℕ)
    → All (λ q. q < length xs) ps
    → All (λ q. q < length (set xs i v)) ps
in_range-set xs i v [] h = tt
in_range-set xs i v (p ∷ ps) h = (omega (arith, h.0, length-set xs i v), in_range-set xs i v ps h.1)

count-shift :
    (ps : List ℕ) (p c x : ℕ) (xs : List ℕ)
    → InRange xs p ps
    → count x (shift (p ∷ ps) xs c) ≡ count x (set xs p c)
unfolding shift
count-shift [] p c x xs h = refl
count-shift (q ∷ ps) p c x xs h =
    let ys = set xs p (get_or xs q 0) in
    count-shift ps q c x ys (in_range-set xs p (get_or xs q 0) (q ∷ ps) h.1)
    ∙ count_swap xs p q c x h.0 h.1.0

shift-last :
    (ps : List ℕ) (p c : ℕ) (xs : List ℕ)
    → InRange xs p ps
    → get_or (shift (p ∷ ps) xs c) (last_of p ps) 0 ≡ c
unfolding shift
shift-last [] p c xs h = get_or-set_self xs p c 0 h.0
shift-last (q ∷ ps) p c xs h =
    shift-last ps q c (set xs p (get_or xs q 0)) (in_range-set xs p (get_or xs q 0) (q ∷ ps) h.1)

module _ (hash : ℕ → ℕ → ℕ) (sharers_aware : Bool) where
  find_way-some :
      (a : ZArray) (line_addr v n w : ℕ)
      → v ≤ w
      → w < v + n
      → get_or a.array (get_or a.lookup_array (pos_of hash sharers_aware a w line_addr) 0) 0
        ≡ line_addr
      → (k : ℕ) × (find_way hash sharers_aware a line_addr v n ≡ some k)
        × (get_or a.array k 0 ≡ line_addr)
  unfolding find_way
  find_way-some a line_addr v zero w l h e = absurd (omega arith)
  find_way-some a line_addr v (suc n) w l h e =
      let id = get_or a.lookup_array (pos_of hash sharers_aware a v line_addr) 0 in
      elim (Bool-cases (get_or a.array id 0 == line_addr)) [
        | inl t ↦ (id, rw t refl, ==→eq _ _ t)
        | inr f ↦
            let ne : v ≢ w = λ q. ==→ne _ _ f (rw q e) in
            let r = find_way-some a line_addr (v + 1) n w (omega (arith, ne)) (omega arith) e in
            (r.0, rw f r.1, r.2)
      ]

  lookup-found :
      (a : ZArray) (line_addr k : ℕ) (u : Bool)
      → line_addr ≢ 0
      → find_way hash sharers_aware a line_addr 0 a.ways ≡ some k
      → (b : ZArray) × (lookup hash sharers_aware a line_addr u ≡ some (b, some k))
  unfolding lookup
  lookup-found a line_addr k u ne f =
      let g : (line_addr == 0) ≡ false = ground (arith, ne) in
      (if u then record a { rp = update a.rp k } else a, rw (g, lookup, f) refl)

  -- After a walk whose places lie in the array, start at the candidate's and end at a place of
  -- the line, `postinsert` succeeds; every line stands at as many places as before, so that no line
  -- is lost or doubled by the swaps, and a lookup of the new line finds it.
  pub postinsert-lookup :
      (a : ZArray) (line_addr candidate p w : ℕ) (ps : List ℕ) (u : Bool)
      → a.swap_array ≡ p ∷ ps
      → InRange a.lookup_array p ps
      → get_or a.lookup_array p 0 ≡ candidate
      → candidate < length a.array
      → last_of p ps ≡ pos_of hash sharers_aware a w line_addr
      → w < a.ways
      → line_addr ≢ 0
      → (b : ZArray) × (postinsert a line_addr candidate ≡ some b)
        × ((id : ℕ) → count id b.lookup_array ≡ count id a.lookup_array)
        × ((c : ZArray) × (k : ℕ) × (lookup hash sharers_aware b line_addr u ≡ some (c, some k))
            × (get_or b.array k 0 ≡ line_addr))
  unfolding postinsert pos_of
  postinsert-lookup a line_addr candidate p w ps u walk range here lt end way ne =
      let b = record a {
        lookup_array = shift (p ∷ ps) a.lookup_array candidate;
        array = set a.array candidate line_addr;
        rp = update (replaced a.rp candidate) candidate;
        swaps = a.swaps + (length (p ∷ ps) - 1);
      } in
      let t : (candidate == candidate) ≡ true = ground arith in
      let at : get_or b.lookup_array (pos_of hash sharers_aware a w line_addr) 0 ≡ candidate =
        ap (λ i. get_or b.lookup_array i 0) (sym end)
        ∙ shift-last ps p candidate a.lookup_array range in
      let f =
        find_way-some b line_addr 0 a.ways w (omega arith) (omega arith)
          (ap (λ i. get_or b.array i 0) at ∙ get_or-set_self a.array candidate line_addr 0 lt) in
      let l = lookup-found b line_addr f.0 u ne f.1 in
      (
        b,
        rw (walk, here, t) refl,
        λ id.
            count-shift ps p candidate id a.lookup_array range
            ∙ ap (count id) (ap (set a.lookup_array p) (sym here) ∙ set-get_or a.lookup_array p 0),
        (l.0, f.0, l.1, f.2),
      )
