-- ===== src/Mesi/Level/Sharing.antt =====
-- The directory and the children agree: who holds the line, and in which state.
use me_mo_tracer.Base.{
  ℕ, zero, suc, ◌+◌, ◌^◌, ◌≤◌, ◌<◌, ◌≡◌, ◌≢◌, refl, ap, Bool, true, false, List, [], ◌∷◌, length,
  get_or, set, ℕ_discrete, arith,
}
use me_mo_tracer.Mesi.States.{MesiState, shared, is_state, is_exclusive, is_valid}
use me_mo_tracer.Mesi.Directory.{Kid, out, Below, entry_is_exclusive}

-- What a sharer holds: E or M if it is the exclusive one, else S.
abbrev pub Owns : Bool → MesiState → Type 0
Owns true s = is_exclusive s ≡ true
Owns false s = is_state s shared ≡ true

-- A child against its bit in the directory; its latency is a 32-bit number.
abbrev pub Fits : Bool → Bool → Kid → Type 0
Fits x true k = Owns x k.state × (k.lat < 2 ^ 32)
Fits x false k = (is_valid k.state ≡ false) × (k.lat < 2 ^ 32)

abbrev pub Agree : Bool → List Bool → List Kid → Type 0
Agree x [] [] = Unit {0}
Agree x [] (k ∷ ks) = ⊥
Agree x (b ∷ bs) [] = ⊥
Agree x (b ∷ bs) (k ∷ ks) = Fits x b k × Agree x bs ks

abbrev pub count_true : List Bool → ℕ
count_true [] = 0
count_true (true ∷ bs) = suc (count_true bs)
count_true (false ∷ bs) = count_true bs

-- The directory entry is right about the children.
pub record IsRight (l : Below) : Type 0 where
  pub agree : Agree (entry_is_exclusive l.entry) l.entry.sharers l.kids
  pub counted : l.entry.num_sharers ≡ count_true l.entry.sharers
  pub single : l.entry.excl ≡ true → l.entry.num_sharers ≤ 1
  pub few : length l.entry.sharers ≤ 256

pub count_true-le : (bs : List Bool) → count_true bs ≤ length bs
count_true-le [] = omega arith
count_true-le (true ∷ bs) = omega (arith, count_true-le bs)
count_true-le (false ∷ bs) = omega (arith, count_true-le bs)

-- With no sharer it does not matter what a sharer would hold.
pub Agree-none :
    (x y : Bool) (bs : List Bool) (ks : List Kid)
    → count_true bs ≡ 0
    → Agree x bs ks
    → Agree y bs ks
Agree-none x y [] [] e a = tt
Agree-none x y [] (k ∷ ks) e a = a
Agree-none x y (b ∷ bs) [] e a = a
Agree-none x y (true ∷ bs) (k ∷ ks) e a = absurd (omega arith)
Agree-none x y (false ∷ bs) (k ∷ ks) e a = (a.0, Agree-none x y bs ks e a.1)

pub Agree-set :
    (x : Bool) (bs : List Bool) (ks : List Kid) (c : ℕ) (b : Bool) (k : Kid)
    → Fits x b k
    → Agree x bs ks
    → Agree x (set bs c b) (set ks c k)
Agree-set x [] [] c b k f a = a
Agree-set x [] (j ∷ ks) c b k f a = absurd a
Agree-set x (d ∷ bs) [] c b k f a = absurd a
Agree-set x (d ∷ bs) (j ∷ ks) zero b k f a = (f, a.1)
Agree-set x (d ∷ bs) (j ∷ ks) (suc c) b k f a = (a.0, Agree-set x bs ks c b k f a.1)

pub Agree-get :
    (x : Bool) (bs : List Bool) (ks : List Kid) (c : ℕ)
    → Agree x bs ks
    → Fits x (get_or bs c false) (get_or ks c out)
Agree-get x [] [] c a = (refl, omega arith)
Agree-get x [] (j ∷ ks) c a = absurd a
Agree-get x (d ∷ bs) [] c a = absurd a
Agree-get x (d ∷ bs) (j ∷ ks) zero a = a.0
Agree-get x (d ∷ bs) (j ∷ ks) (suc c) a = Agree-get x bs ks c a.1

pub count_true-drop :
    (bs : List Bool) (c : ℕ)
    → get_or bs c false ≡ true
    → count_true (set bs c false) + 1 ≡ count_true bs
count_true-drop [] c h = absurd (cc)
count_true-drop (d ∷ bs) zero h = ground arith
count_true-drop (true ∷ bs) (suc c) h = omega (arith, count_true-drop bs c h)
count_true-drop (false ∷ bs) (suc c) h = count_true-drop bs c h

pub count_true-add :
    (bs : List Bool) (c : ℕ)
    → c < length bs
    → get_or bs c false ≡ false
    → count_true (set bs c true) ≡ count_true bs + 1
count_true-add [] c lt h = absurd (omega arith)
count_true-add (d ∷ bs) zero lt h = ground arith
count_true-add (true ∷ bs) (suc c) lt h = omega (arith, count_true-add bs c (omega arith) h)
count_true-add (false ∷ bs) (suc c) lt h = count_true-add bs c (omega arith) h

pub count_true_pos : (bs : List Bool) (c : ℕ) → get_or bs c false ≡ true → 0 < count_true bs
count_true_pos [] c h = absurd (cc)
count_true_pos (d ∷ bs) zero h = ground arith
count_true_pos (true ∷ bs) (suc c) h = omega arith
count_true_pos (false ∷ bs) (suc c) h = count_true_pos bs c h

-- Two sharers are counted as two.
pub count_true_two :
    (bs : List Bool) (c d : ℕ)
    → c ≢ d
    → get_or bs c false ≡ true
    → get_or bs d false ≡ true
    → 2 ≤ count_true bs
count_true_two [] c d n h k = absurd (cc)
count_true_two (b ∷ bs) zero zero n h k = absurd (n refl)
count_true_two (b ∷ bs) zero (suc d) n h k = ground (arith, count_true_pos bs d k)
count_true_two (b ∷ bs) (suc c) zero n h k = ground (arith, count_true_pos bs c h)
count_true_two (true ∷ bs) (suc c) (suc d) n h k = omega (arith, count_true_pos bs c h)
count_true_two (false ∷ bs) (suc c) (suc d) n h k = count_true_two bs c d (λ e. n (ap suc e)) h k

pub Agree-length :
    (x : Bool) (bs : List Bool) (ks : List Kid) → Agree x bs ks → length bs ≡ length ks
Agree-length x [] [] a = refl
Agree-length x [] (k ∷ ks) a = absurd a
Agree-length x (b ∷ bs) [] a = absurd a
Agree-length x (b ∷ bs) (k ∷ ks) a = ap suc (Agree-length x bs ks a.1)

-- What a sharer holds matters only where there is one.
pub Agree-to :
    (x y : Bool) (bs : List Bool) (ks : List Kid)
    → (count_true bs ≢ 0 → x ≡ y)
    → Agree x bs ks
    → Agree y bs ks
Agree-to x y bs ks e a = elim (ℕ_discrete (count_true bs) 0) [
  | yes z ↦ Agree-none x y bs ks z a
  | no n ↦ rw (e n) at a
]

-- What the state of a child says about the directory.
pub not_in : (x b : Bool) (k : Kid) → Fits x b k → is_valid k.state ≡ false → b ≡ false
not_in x false k f e = refl
not_in true true k f e = ground (arith, f.0)
not_in false true k f e = ground (arith, f.0)

pub is_in : (x b : Bool) (k : Kid) → Fits x b k → is_valid k.state ≡ true → b ≡ true
is_in x true k f e = refl
is_in x false k f e = ground (arith, f.0)

pub not_owner :
    (x b : Bool) (k : Kid) → Fits x b k → b ≡ true → is_exclusive k.state ≡ false → x ≡ false
not_owner false b k f h e = refl
not_owner true true k f h e = ground (arith, f.0)
not_owner true false k f h e = cc

pub is_owner : (x b : Bool) (k : Kid) → Fits x b k → is_exclusive k.state ≡ true → x ≡ true
is_owner true b k f e = refl
is_owner false true k f e = ground (arith, f.0)
is_owner false false k f e = ground (arith, f.0)
