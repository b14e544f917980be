-- ===== src/Mesi/Level/Grants.antt =====
-- What `MESITopCC::processAccess` gives to a child, and that the directory stays right.
use me_mo_tracer.Base.{
  ℕ, ◌+◌, ◌^◌, ◌≤◌, ◌<◌, ◌≡◌, refl, sym, ◌∙◌, ap, inl, inr, Bool, true, false, List, some, length,
  get_or, set, length-set, get_or-set_self, add32, sub32, Bool-cases, arith,
}
use me_mo_tracer.Mesi.States.{MesiState, invalid, shared, exclusive, modified, is_exclusive}
use me_mo_tracer.Mesi.Directory.{Kid, out, Below, Reply, entry_is_exclusive}
use me_mo_tracer.Mesi.Top.{give, shares, put_back, give_shared, only_copy}
use me_mo_tracer.Mesi.Level.Sharing.{
  Fits, Agree, count_true, IsRight, count_true-le, Agree-none, Agree-set, Agree-get, Agree-to,
  Agree-length, count_true-drop, count_true-add, count_true_pos,
}
use me_mo_tracer.Mesi.Level.Messages.{IsCounted, send_inv-Gone, send_invx-Lowered}

-- The directory is right again, the child has the state `s`, and dirty data came up only from an
-- exclusive sharer.
pub record Granted (l : Below) (child cycle : ℕ) (s : MesiState) (r : Reply) : Type 0 where
  pub right : IsRight r.below
  pub state : (get_or r.below.kids child out).state ≡ s
  pub dirty : r.writeback ≡ true → entry_is_exclusive l.entry ≡ true
  pub size : length r.below.entry.sharers ≡ length l.entry.sharers
  pub late : cycle + 2 ^ 32 < 2 ^ 64 → r.cycle ≤ cycle + 2 ^ 32
  pub mark : entry_is_exclusive r.below.entry ≡ true → is_exclusive s ≡ true

pub given_state :
    (x : Bool) (l : Below) (child : ℕ) (s : MesiState)
    → Agree x l.entry.sharers l.kids
    → child < length l.entry.sharers
    → (get_or (set l.kids child (record (get_or l.kids child out) { state = s })) child out).state
      ≡ s
given_state x l child s a lt =
    ap (λ (k : Kid). k.state)
      (get_or-set_self l.kids child _ out (omega (arith, Agree-length x l.entry.sharers l.kids a)))

kid_lat-lt : (x b : Bool) (k : Kid) → Fits x b k → k.lat < 2 ^ 32
kid_lat-lt x true k f = f.1
kid_lat-lt x false k f = f.1

pub lat_of :
    (x : Bool) (l : Below) (child : ℕ)
    → Agree x l.entry.sharers l.kids
    → (get_or l.kids child out).lat < 2 ^ 32
lat_of x l child a =
    kid_lat-lt x (get_or l.entry.sharers child false) _ (Agree-get x l.entry.sharers l.kids child a)

pub put_back-Granted :
    (l : Below) (child cycle : ℕ)
    → IsRight l
    → shares l child ≡ true
    → child < length l.entry.sharers
    → (r : Reply) × (put_back l child cycle ≡ some r) × Granted l child cycle invalid r
unfolding put_back
put_back-Granted l child cycle h s lt =
    let x = entry_is_exclusive l.entry in
    let drop = count_true-drop l.entry.sharers child s in
    let few = count_true-le l.entry.sharers in
    (
      record {
        below = give l child false (sub32 l.entry.num_sharers 1) l.entry.excl invalid;
        writeback = false;
        cycle = cycle;
      },
      rw s refl,
      record {
        right = record {
          agree =
              Agree-to x _ _ _ (λ n. ground (arith, drop, few, h.counted, h.single, h.few))
                (Agree-set x l.entry.sharers l.kids child false _ (refl, lat_of x l child h.agree)
                  h.agree);
          counted = omega (arith, drop, few, h.counted, h.few);
          single = λ e. omega (arith, h.single e, drop, few, h.counted, h.few);
          few = omega (arith, length-set l.entry.sharers child false, h.few);
        };
        state = given_state x l child invalid h.agree lt;
        dirty = λ d. cc;
        size = length-set l.entry.sharers child false;
        late = λ d. omega arith;
        mark = λ d. ground (arith, h.single);
      },
    )

-- A sharer is added to sharers in S.
add_sharer :
    (l : Below) (child : ℕ)
    → Agree false l.entry.sharers l.kids
    → l.entry.num_sharers ≡ count_true l.entry.sharers
    → length l.entry.sharers ≤ 256
    → shares l child ≡ false
    → child < length l.entry.sharers
    → IsRight (give l child true (add32 l.entry.num_sharers 1) false shared)
add_sharer l child a n few s lt =
    let more = count_true-add l.entry.sharers child lt s in
    record {
      agree =
          Agree-to false _ _ _ (λ p. ground arith)
            (Agree-set false l.entry.sharers l.kids child true _ (refl, lat_of false l child a) a);
      counted = omega (arith, more, n, count_true-le l.entry.sharers);
      single = λ e. cc;
      few = omega (arith, length-set l.entry.sharers child true);
    }

-- A child gets the only copy.
pub only_sharer :
    (l : Below) (child : ℕ) (s : MesiState)
    → Agree false l.entry.sharers l.kids
    → count_true l.entry.sharers ≡ 0
    → length l.entry.sharers ≤ 256
    → child < length l.entry.sharers
    → is_exclusive s ≡ true
    → IsRight (give l child true 1 true s)
only_sharer l child s a z few lt x =
    let e : shares l child ≡ false = elim (Bool-cases (shares l child)) [
      | inl y ↦ absurd (omega (arith, count_true_pos l.entry.sharers child y))
      | inr y ↦ y
    ] in
    let more = count_true-add l.entry.sharers child lt e in
    let a' = Agree-none false true l.entry.sharers l.kids z a in
    record {
      agree = Agree-set true l.entry.sharers l.kids child true _ (x, lat_of false l child a) a';
      counted = omega (arith, more);
      single = λ y. omega arith;
      few = omega (arith, length-set l.entry.sharers child true);
    }

-- The first sharer gets the line in E.
pub give_first-Granted :
    (l : Below) (child cycle : ℕ)
    → IsRight l
    → l.entry.num_sharers ≡ 0
    → child < length l.entry.sharers
    → Granted l child cycle exclusive
        (record { below = give l child true 1 true exclusive; writeback = false; cycle = cycle })
give_first-Granted l child cycle h z lt =
    let none_left : count_true l.entry.sharers ≡ 0 = omega (arith, h.counted) in
    let a = Agree-none _ false l.entry.sharers l.kids none_left h.agree in
    record {
      right = only_sharer l child exclusive a none_left h.few lt refl;
      state = given_state (entry_is_exclusive l.entry) l child exclusive h.agree lt;
      dirty = λ d. cc;
      size = length-set l.entry.sharers child true;
      late = λ d. omega arith;
      mark = λ d. refl;
    }

-- A further sharer gets the line in S, once nobody is exclusive.
pub give_shared-Granted :
    (l : Below) (child cycle : ℕ)
    → IsRight l
    → shares l child ≡ false
    → child < length l.entry.sharers
    → (r : Reply) × (give_shared l child cycle ≡ some r) × Granted l child cycle shared r
unfolding give_shared
give_shared-Granted l child cycle h s lt = elim (Bool-cases (entry_is_exclusive l.entry)) [
  | inl e ↦
      let d = send_invx-Lowered l cycle h e in
      let b = d.0.below in
      let s' : shares b child ≡ false =
        ap (λ (bs : List Bool). get_or bs child false) d.2.same ∙ s in
      let size : length b.entry.sharers ≡ length l.entry.sharers =
        ap (λ (bs : List Bool). length bs) d.2.same in
      let n : b.entry.num_sharers ≡ count_true b.entry.sharers =
        d.2.same_count ∙ h.counted ∙ sym (ap (λ (bs : List Bool). count_true bs) d.2.same) in
      (
        record (d.0) { below = give b child true (add32 b.entry.num_sharers 1) false shared },
        rw (s, e, d.1, d.2.unmarked) (ground arith),
        record {
          right =
              add_sharer b child d.2.agree n (omega (arith, size, h.few)) s' (omega (arith, size));
          state = given_state false b child shared d.2.agree (omega (arith, size));
          dirty = λ y. e;
          size = length-set b.entry.sharers child true ∙ size;
          late = d.2.late;
          mark = λ y. ground arith;
        },
      )
  | inr e ↦ (
    record {
      below = give l child true (add32 l.entry.num_sharers 1) false shared;
      writeback = false;
      cycle = cycle;
    },
    rw (s, e) (rw e refl),
    record {
      right = add_sharer l child (rw e at h.agree) h.counted h.few s lt;
      state = given_state (entry_is_exclusive l.entry) l child shared h.agree lt;
      dirty = λ y. cc;
      size = length-set l.entry.sharers child true;
      late = λ y. omega arith;
      mark = λ y. ground arith;
    },
  )
]

pub only_copy-Granted :
    (x : Bool) (l : Below) (child cycle : ℕ)
    → IsCounted x l
    → child < length l.entry.sharers
    → (r : Reply) × (only_copy l child cycle ≡ some r) × Granted l child cycle modified r
unfolding only_copy
only_copy-Granted x l child cycle h lt =
    let g = send_inv-Gone x l cycle h in
    let b = g.0.below in
    let lt' : child < length b.entry.sharers = omega (arith, g.2.size) in
    let few : length b.entry.sharers ≤ 256 = omega (arith, g.2.size, h.few) in
    (
      record (g.0) { below = give b child true (add32 b.entry.num_sharers 1) true modified },
      rw (g.1) (rw (g.2.zero_count) refl),
      record {
        right =
            rw (g.2.zero_count) (only_sharer b child modified g.2.agree g.2.none_left few lt' refl);
        state = given_state false b child modified g.2.agree lt';
        dirty = g.2.dirty;
        size = length-set b.entry.sharers child true ∙ g.2.size;
        late = g.2.late;
        mark = λ y. refl;
      },
    )
