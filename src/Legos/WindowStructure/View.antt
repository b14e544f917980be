-- ===== src/Legos/WindowStructure/View.antt =====
-- What a window holds at a cycle ahead.
use me_mo_tracer.Base.{
  ◌≢◌, sym, set, get_or-set_self, get_or-set_ne, ℕ_discrete, dec_lt, ℕ, ◌+◌, ◌-◌, ◌*◌, ◌^◌, ◌≤◌,
  ◌<◌, ◌≡◌, refl, true, false, List, [], ◌∷◌, if◌then◌else◌, ltb, ◌==◌, length, length-replicate,
  get_or, All, arith,
}
use me_mo_tracer.Legos.WindowStructure.{WinCycle, blank, WindowStructure, init}

abbrev pub lookup_or : WinCycle → List (ℕ × WinCycle) → ℕ → WinCycle
lookup_or d [] c = d
lookup_or d (e ∷ es) c = if e.0 == c then e.1 else lookup_or d es c

abbrev pub at_offset : WindowStructure → ℕ → ℕ → WinCycle
at_offset w d c =
    if ltb d w.h
    then get_or w.cur_win d blank
    else (if ltb d (2 * w.h) then get_or w.next_win (d - w.h) blank else lookup_or blank w.ub_win c)

-- The cycle `c`, when `cur` is the current one.
abbrev pub view : WindowStructure → ℕ → ℕ → WinCycle
view w cur c = at_offset w (w.cur_pos + (c - cur)) c

abbrev pub IsSorted : List (ℕ × WinCycle) → Type 0
IsSorted [] = Unit {0}
IsSorted (e ∷ es) = All (λ d. e.0 < d.0) es × IsSorted es

pub record IsValid (w : WindowStructure) (cur : ℕ) : Type 0 where
  pub pos : w.cur_pos < w.h
  pub small : w.h < 2 ^ 31
  pub cur_sized : length w.cur_win ≡ w.h
  pub next_sized : length w.next_win ≡ w.h
  pub past : (i : ℕ) → i < w.cur_pos → get_or w.cur_win i blank ≡ blank
  pub sorted : IsSorted w.ub_win
  pub beyond : All (λ e. cur + 2 * w.h ≤ e.0 + w.cur_pos) w.ub_win

pub lookup_or-above :
    (d : WinCycle) (es : List (ℕ × WinCycle)) (c : ℕ) → All (λ e. c < e.0) es → lookup_or d es c ≡ d
lookup_or-above d [] c h = refl
lookup_or-above d (e ∷ es) c h = ground (arith, lookup_or-above d es c h.1, h.0)

module _ {P Q : ℕ × WinCycle → Type 0} (imp : (e : ℕ × WinCycle) → P e → Q e) where
  pub weaken : (es : List (ℕ × WinCycle)) → All P es → All Q es
  weaken [] h = tt
  weaken (e ∷ es) h = (imp e h.0, weaken es h.1)

-- The view in each of the three stretches, `d` cycles from the start of the first array.
module _ (w : WindowStructure) (cur c d : ℕ) (at : d ≡ w.cur_pos + (c - cur)) where
  pub view-cur_win : d < w.h → view w cur c ≡ get_or w.cur_win d blank
  view-cur_win l = let t : ltb d w.h ≡ true = ground (arith, l) in rw (← at, t) refl

  pub view-next_win : w.h ≤ d → d < 2 * w.h → view w cur c ≡ get_or w.next_win (d - w.h) blank
  view-next_win g l =
      let f : ltb d w.h ≡ false = ground (arith, g) in
      let t : ltb d (2 * w.h) ≡ true = ground (arith, l) in rw (← at, f, t) refl

  pub view-ub_win : 2 * w.h ≤ d → view w cur c ≡ lookup_or blank w.ub_win c
  view-ub_win g =
      let f : ltb d w.h ≡ false = ground (arith, g) in
      let t : ltb d (2 * w.h) ≡ false = ground (arith, g) in rw (← at, f, t) refl

pub init-IsValid : (h wsz cur : ℕ) → 0 < h → h < 2 ^ 31 → IsValid (init h wsz) cur
unfolding init
init-IsValid h wsz cur pos small = record {
  pos = pos;
  small = small;
  cur_sized = length-replicate h blank;
  next_sized = length-replicate h blank;
  past = λ i l. absurd (omega arith);
  sorted = tt;
  beyond = tt;
}

-- The view after a write to an array.
module _ (w : WindowStructure) (cur i : ℕ) (x : WinCycle) (c : ℕ) (l : cur ≤ c) (lt : i < w.h) where
  pub view-set_cur_win :
      length w.cur_win ≡ w.h
      → w.cur_pos ≤ i
      → view (record w { cur_win = set w.cur_win i x }) cur c
        ≡ (if c == cur + (i - w.cur_pos) then x else view w cur c)
  view-set_cur_win sized ge = elim (ℕ_discrete (w.cur_pos + (c - cur)) i) [
    | yes e ↦
        let b : (c == cur + (i - w.cur_pos)) ≡ true = ground arith in
        let t : ltb i w.h ≡ true = ground arith in
        rw (b, e, t, get_or-set_self w.cur_win i x blank (omega arith)) refl
    | no ne ↦
        let b : (c == cur + (i - w.cur_pos)) ≡ false = ground arith in
        rw (b, get_or-set_ne w.cur_win i (w.cur_pos + (c - cur)) x blank (λ e. ne (sym e))) refl
  ]

  pub view-set_next_win :
      length w.next_win ≡ w.h
      → w.cur_pos ≤ w.h
      → view (record w { next_win = set w.next_win i x }) cur c
        ≡ (if c == cur + (i + w.h - w.cur_pos) then x else view w cur c)
  view-set_next_win sized ge = elim (ℕ_discrete (w.cur_pos + (c - cur)) (w.h + i)) [
    | yes e ↦
        let b : (c == cur + (i + w.h - w.cur_pos)) ≡ true = ground arith in
        let f : ltb (w.h + i) w.h ≡ false = ground arith in
        let t : ltb (w.h + i) (2 * w.h) ≡ true = ground arith in
        let d : w.h + i - w.h ≡ i = omega arith in
        rw (b, e, f, t, d, get_or-set_self w.next_win i x blank (omega arith)) refl
    | no ne ↦
        let b : (c == cur + (i + w.h - w.cur_pos)) ≡ false = ground arith in
        elim (dec_lt (w.cur_pos + (c - cur)) w.h) [
          | yes k ↦ let t : ltb (w.cur_pos + (c - cur)) w.h ≡ true = ground arith in rw (b, t) refl
          | no g ↦
              let apart : i ≢ w.cur_pos + (c - cur) - w.h = λ e. ne (omega (arith, e)) in
              rw (b, get_or-set_ne w.next_win i (w.cur_pos + (c - cur) - w.h) x blank apart) refl
        ]
  ]

pub view-set_ub_win :
    (w : WindowStructure) (cur : ℕ) (fs : List (ℕ × WinCycle)) (c : ℕ)
    → w.cur_pos + (c - cur) < 2 * w.h
    → view (record w { ub_win = fs }) cur c ≡ view w cur c
view-set_ub_win w cur fs c lt =
    let t : ltb (w.cur_pos + (c - cur)) (2 * w.h) ≡ true = ground arith in rw t refl
