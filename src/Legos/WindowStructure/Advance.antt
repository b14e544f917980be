-- ===== src/Legos/WindowStructure/Advance.antt =====
-- The current cycle moves on: the cycles ahead stay as they are.
use me_mo_tracer.Base.{
  ℕ, zero, suc, ◌+◌, ◌-◌, ◌*◌, ◌^◌, ◌≤◌, ◌<◌, ◌≡◌, ◌≢◌, refl, sym, ap, ◌∙◌, true, false, List, [],
  ◌∷◌, some, ltb, ◌==◌, sub32, add64, length, get_or, set, length-set, get_or-set_self,
  get_or-set_ne, All, ℕ_discrete, dec_lt, arith,
}
use me_mo_tracer.Legos.WindowStructure.{
  WinCycle, blank, WindowStructure, move_in, rebase, advance_pos,
}
use me_mo_tracer.Legos.WindowStructure.View.{
  view, IsValid, view-cur_win, view-next_win, view-ub_win, weaken,
}
use me_mo_tracer.Legos.WindowStructure.Rebase.{Filled, move_in-Filled}

get_or_past : (xs : List WinCycle) (i : ℕ) → length xs ≤ i → get_or xs i blank ≡ blank
get_or_past [] i h = refl
get_or_past (x ∷ xs) zero h = absurd (omega arith)
get_or_past (x ∷ xs) (suc i) h = get_or_past xs i (omega arith)

-- After the last position the array is empty.
all_blank :
    (w : WindowStructure) (cur : ℕ)
    → IsValid w cur
    → w.cur_pos + 1 ≡ w.h
    → (i : ℕ) → get_or (set w.cur_win w.cur_pos blank) i blank ≡ blank
all_blank w cur v e i = elim (ℕ_discrete i w.cur_pos) [
  | yes s ↦
      rw (s, get_or-set_self w.cur_win w.cur_pos blank blank (omega (arith, v.pos, v.cur_sized)))
        refl
  | no ns ↦
      rw (get_or-set_ne w.cur_win w.cur_pos i blank blank (λ s. ns (sym s)))
        (elim (dec_lt i w.cur_pos) [
          | yes l ↦ v.past i l
          | no g ↦ get_or_past w.cur_win i (omega (arith, v.cur_sized))
        ])
]

-- One step: the window is valid at the next cycle, which later cycles do not notice.
pub record Stepped (w : WindowStructure) (cur : ℕ) (v : WindowStructure) : Type 0 where
  pub valid : IsValid v (cur + 1)
  pub same : (c : ℕ) → cur + 1 ≤ c → view v (cur + 1) c ≡ view w cur c
  pub occupancy : v.occupancy ≡ sub32 w.occupancy (view w cur cur).count
  pub h : v.h ≡ w.h
  pub wsz : v.wsz ≡ w.wsz
  pub keys : (b : ℕ) → All (λ e. e.0 < b) w.ub_win → All (λ e. e.0 < b) v.ub_win

view_now :
    (w : WindowStructure) (cur : ℕ)
    → IsValid w cur
    → view w cur cur ≡ get_or w.cur_win w.cur_pos blank
view_now w cur v =
    let d : w.cur_pos + (cur - cur) ≡ w.cur_pos = omega arith in
    let l : ltb w.cur_pos w.h ≡ true = ground (arith, v.pos) in rw (d, l) refl

moved-Stepped :
    (w : WindowStructure) (cur : ℕ)
    → IsValid w cur
    → w.cur_pos + 1 < w.h
    → Stepped w cur (record w {
      occupancy = sub32 w.occupancy (get_or w.cur_win w.cur_pos blank).count;
      cur_win = set w.cur_win w.cur_pos blank;
      cur_pos = w.cur_pos + 1;
    })
moved-Stepped w cur v lt = record {
  valid = record {
    pos = lt;
    small = v.small;
    cur_sized = length-set w.cur_win w.cur_pos blank ∙ v.cur_sized;
    next_sized = v.next_sized;
    past = λ i l. elim (ℕ_discrete i w.cur_pos) [
      | yes s ↦
          rw
            (s, get_or-set_self w.cur_win w.cur_pos blank blank (omega (arith, v.pos, v.cur_sized)))
            refl
      | no ns ↦
          rw (get_or-set_ne w.cur_win w.cur_pos i blank blank (λ s. ns (sym s)))
            (v.past i (omega arith))
    ];
    sorted = v.sorted;
    beyond = weaken (λ e b. omega (arith, b)) w.ub_win v.beyond;
  };
  same = λ c l.
      let d : w.cur_pos + 1 + (c - (cur + 1)) ≡ w.cur_pos + (c - cur) = omega arith in
      rw
        (
          d,
          get_or-set_ne w.cur_win w.cur_pos (w.cur_pos + (c - cur)) blank blank
              (let ne : w.cur_pos ≢ w.cur_pos + (c - cur) = omega arith in ne),
        )
        refl;
  occupancy = ap (λ a. sub32 w.occupancy (WinCycle.count a)) (sym (view_now w cur v));
  h = refl;
  wsz = refl;
  keys = λ b a. a;
}

-- The window after the two arrays are swapped.
abbrev swapped : WindowStructure → List (ℕ × WinCycle) → List WinCycle → WindowStructure
swapped w fs filled = record w {
  occupancy = sub32 w.occupancy (get_or w.cur_win w.cur_pos blank).count;
  cur_win = w.next_win;
  next_win = filled;
  ub_win = fs;
  cur_pos = 0;
}

swapped-view :
    (w : WindowStructure) (cur : ℕ) (fs : List (ℕ × WinCycle)) (filled : List WinCycle)
    → IsValid w cur
    → w.cur_pos + 1 ≡ w.h
    → Filled (cur + 1 + 2 * w.h) w.h (cur + 1) w.ub_win (set w.cur_win w.cur_pos blank) fs filled
    → (c : ℕ) → cur + 1 ≤ c
    → view (swapped w fs filled) (cur + 1) c ≡ view w cur c
swapped-view w cur fs filled v e f c l =
    let s = swapped w fs filled in
    let k = c - (cur + 1) in
    let old : w.h + k ≡ w.cur_pos + (c - cur) = omega arith in
    let new : k ≡ 0 + (c - (cur + 1)) = omega arith in
    elim (dec_lt k w.h) [
      | yes a ↦
          view-cur_win s (cur + 1) c k new a
          ∙ ap (λ i. get_or w.next_win i blank) (let i : k ≡ w.h + k - w.h = omega arith in i)
          ∙ sym (view-next_win w cur c (w.h + k) old (omega arith) (omega arith))
      | no g ↦ elim (dec_lt k (2 * w.h)) [
        | yes a ↦
            let at : cur + 1 + w.h + (k - w.h) ≡ c = omega arith in
            view-next_win s (cur + 1) c k new (omega arith) a
            ∙ f.near (k - w.h) (omega arith)
            ∙ rw (all_blank w cur v e (k - w.h), at) refl
            ∙ sym (view-ub_win w cur c (w.h + k) old (omega arith))
        | no b ↦
            view-ub_win s (cur + 1) c k new (omega arith)
            ∙ f.far c (omega arith)
            ∙ sym (view-ub_win w cur c (w.h + k) old (omega arith))
      ]
    ]

swapped-Stepped :
    (w : WindowStructure) (cur : ℕ) (fs : List (ℕ × WinCycle)) (filled : List WinCycle)
    → IsValid w cur
    → w.cur_pos + 1 ≡ w.h
    → Filled (cur + 1 + 2 * w.h) w.h (cur + 1) w.ub_win (set w.cur_win w.cur_pos blank) fs filled
    → Stepped w cur (swapped w fs filled)
swapped-Stepped w cur fs filled v e f = record {
  valid = record {
    pos = omega (arith, v.pos);
    small = v.small;
    cur_sized = v.next_sized;
    next_sized = f.sized;
    past = λ i l. absurd (omega arith);
    sorted = f.sorted;
    beyond = weaken (λ d b. omega (arith, b)) fs f.beyond;
  };
  same = λ c l. swapped-view w cur fs filled v e f c l;
  occupancy = ap (λ a. sub32 w.occupancy (WinCycle.count a)) (sym (view_now w cur v));
  h = refl;
  wsz = refl;
  keys = f.keys;
}

advance_pos_over :
    (w : WindowStructure) (cur : ℕ) (fs : List (ℕ × WinCycle)) (filled : List WinCycle)
    → IsValid w cur
    → cur < 2 ^ 63
    → w.cur_pos + 1 ≡ w.h
    → move_in (cur + 1 + 2 * w.h) w.h (cur + 1) w.ub_win (set w.cur_win w.cur_pos blank)
      ≡ some (fs, filled)
    → advance_pos w cur ≡ some (swapped w fs filled, cur + 1)
unfolding advance_pos rebase
advance_pos_over w cur fs filled v lt e m =
    let t : (w.cur_pos + 1 == w.h) ≡ true = ground (arith, e) in
    let next : add64 cur 1 ≡ cur + 1 = omega arith in
    let horizon : add64 (cur + 1) (2 * w.h) ≡ cur + 1 + 2 * w.h = omega (arith, v.small) in
    rw (t, next) (rw (horizon, m) refl)

-- The window moves on by one cycle: it stays valid, gives up the uops of the cycle that is over, and
-- holds the same at every later cycle.
pub advance_pos-Stepped :
    (w : WindowStructure) (cur : ℕ)
    → IsValid w cur
    → cur < 2 ^ 63
    → (v : WindowStructure) × (advance_pos w cur ≡ some (v, cur + 1)) × Stepped w cur v
unfolding advance_pos rebase
advance_pos-Stepped w cur v lt = elim (ℕ_discrete (w.cur_pos + 1) w.h) [
  | no ne ↦
      let f : (w.cur_pos + 1 == w.h) ≡ false = ground (arith, ne) in
      let next : add64 cur 1 ≡ cur + 1 = omega arith in
      (_, rw (f, next) refl, moved-Stepped w cur v (omega (arith, v.pos, ne)))
  | yes e ↦
      let m =
        move_in-Filled (cur + 1 + 2 * w.h) w.h (cur + 1) w.ub_win (set w.cur_win w.cur_pos blank)
          refl (omega (arith, v.small)) v.small (length-set w.cur_win w.cur_pos blank ∙ v.cur_sized)
          v.sorted (weaken (λ d b. omega (arith, b)) w.ub_win v.beyond) in
      (
        swapped w m.0 m.1,
        advance_pos_over w cur m.0 m.1 v lt e m.2,
        swapped-Stepped w cur m.0 m.1 v e m.3,
      )
]
