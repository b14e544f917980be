-- ===== src/Legos/WindowStructure/Slots.antt =====
-- What taking a port in each of the three stretches leaves.
use me_mo_tracer.Base.{
  ℕ, suc, ◌+◌, ◌-◌, ◌*◌, ◌≤◌, ◌<◌, ◌≡◌, ◌≢◌, refl, sym, ap, ◌∙◌, Bool, false, List, none, some,
  if◌then◌else◌, ◌==◌, max, All, length-set, get_or, set, get_or-set_ne, dec_lt, arith,
}
use me_mo_tracer.Legos.WindowStructure.{WinCycle, blank, WindowStructure}
use me_mo_tracer.Legos.WindowStructure.Scan.{free_port, taken, Hit}
use me_mo_tracer.Legos.WindowStructure.Far.{FarHit}
use me_mo_tracer.Legos.WindowStructure.View.{
  view, lookup_or, IsValid, view-cur_win, view-set_cur_win, view-set_next_win, view-set_ub_win,
  view-next_win, view-ub_win, weaken,
}

-- The window `v` is `w` with a port taken at `s`, the first cycle from `first` on that has one.
pub record Placed (touch : Bool) (ports : List Bool) (w : WindowStructure) (cur first : ℕ)
    (v : WindowStructure) (s port : ℕ) : Type 0 where
  pub valid : IsValid v cur
  pub late : first ≤ s
  pub free : free_port ports (view w cur s) ≡ some port
  pub full : (j : ℕ) → first ≤ j → j < s → free_port ports (view w cur j) ≡ none
  pub after :
      (c : ℕ)
      → cur ≤ c
      → view v cur c ≡ (if c == s then taken touch ports (view w cur s) else view w cur c)
  pub occupancy : v.occupancy ≡ w.occupancy
  pub h : v.h ≡ w.h
  pub wsz : v.wsz ≡ w.wsz
  pub keys :
      (b : ℕ)
      → max cur first + 2 * w.h ≤ b
      → All (λ e. e.0 < b) w.ub_win
      → All (λ e. e.0 < suc b) v.ub_win

module _ (touch : Bool) (ports : List Bool) (w : WindowStructure) (cur first start : ℕ)
    (v : IsValid w cur) (le : cur ≤ first) (at : start ≡ w.cur_pos + (first - cur)) where
  -- In the first array.
  module _ (i port : ℕ) (hit : Hit touch ports start (w.h - start) w.cur_win i port) where
    unfoldable pub in_cur : WindowStructure
    in_cur = record w { cur_win = set w.cur_win i (taken touch ports (get_or w.cur_win i blank)) }

    pub in_cur-Placed : Placed touch ports w cur first in_cur (cur + (i - w.cur_pos)) port
    unfolding in_cur
    in_cur-Placed =
        let s = cur + (i - w.cur_pos) in
        let lt : i < w.h = omega (arith, hit.low, hit.high) in
        let d : i ≡ w.cur_pos + (s - cur) = omega (arith, hit.low) in
        let there = view-cur_win w cur s i d lt in
        record {
          valid = record {
            pos = v.pos;
            small = v.small;
            next_sized = v.next_sized;
            sorted = v.sorted;
            beyond = v.beyond;
            cur_sized = length-set w.cur_win i _ ∙ v.cur_sized;
            past = λ k l.
                get_or-set_ne w.cur_win i k _ blank (let ne : i ≢ k = omega (arith, hit.low) in ne)
                ∙ v.past k l;
          };
          late = omega (arith, hit.low);
          free = ap (free_port ports) there ∙ hit.free;
          full = λ j l k.
              ap (free_port ports) (view-cur_win w cur j (w.cur_pos + (j - cur)) refl (omega arith))
              ∙ hit.full (w.cur_pos + (j - cur)) (omega arith) (omega arith);
          after = λ c l.
              view-set_cur_win w cur i _ c l lt v.cur_sized (omega (arith, hit.low))
              ∙ ap (λ x. if c == s then taken touch ports x else view w cur c) (sym there);
          occupancy = refl;
          h = refl;
          wsz = refl;
          keys = λ b l k. weaken (λ e m. omega arith) w.ub_win k;
        }

  -- What the first array has no port for.
  module _
      (none_cur : (j : ℕ)
        → start ≤ j
        → j < start + (w.h - start)
        → free_port ports (get_or w.cur_win j blank) ≡ none) where
    full_cur :
        (j : ℕ) → first ≤ j → w.cur_pos + (j - cur) < w.h → free_port ports (view w cur j) ≡ none
    full_cur j l lt =
        ap (free_port ports) (view-cur_win w cur j (w.cur_pos + (j - cur)) refl lt)
        ∙ none_cur (w.cur_pos + (j - cur)) (omega arith) (omega arith)

    -- In the second array.
    module _ (pos : ℕ) (from : pos ≡ max start w.h - w.h) where
      module _ (i port : ℕ) (hit : Hit touch ports pos (w.h - pos) w.next_win i port) where
        unfoldable pub in_next : WindowStructure
        in_next = record w {
          next_win = set w.next_win i (taken touch ports (get_or w.next_win i blank));
        }

        pub in_next-Placed :
            Placed touch ports w cur first in_next (cur + (i + w.h - w.cur_pos)) port
        unfolding in_next
        in_next-Placed =
            let s = cur + (i + w.h - w.cur_pos) in
            let p = v.pos in
            let lt : i < w.h = omega (arith, hit.low, hit.high) in
            let d : w.h + i ≡ w.cur_pos + (s - cur) = omega arith in
            let there : view w cur s ≡ get_or w.next_win i blank =
              view-next_win w cur s (w.h + i) d (omega arith) (omega arith)
              ∙ ap (λ k. get_or w.next_win k blank)
                  (let e : w.h + i - w.h ≡ i = omega arith in e) in
            record {
              valid = record {
                pos = v.pos;
                small = v.small;
                cur_sized = v.cur_sized;
                past = v.past;
                sorted = v.sorted;
                beyond = v.beyond;
                next_sized = length-set w.next_win i _ ∙ v.next_sized;
              };
              late = omega (arith, hit.low);
              free = ap (free_port ports) there ∙ hit.free;
              full = λ j l k. elim (dec_lt (w.cur_pos + (j - cur)) w.h) [
                | yes a ↦ full_cur j l a
                | no g ↦
                    ap (free_port ports) (
                      view-next_win w cur j (w.cur_pos + (j - cur)) refl (omega arith)
                        (omega arith))
                    ∙ hit.full (w.cur_pos + (j - cur) - w.h) (omega arith) (omega arith)
              ];
              after = λ c l.
                  view-set_next_win w cur i _ c l lt v.next_sized (omega arith)
                  ∙ ap (λ x. if c == s then taken touch ports x else view w cur c) (sym there);
              occupancy = refl;
              h = refl;
              wsz = refl;
              keys = λ b l k. weaken (λ e m. omega arith) w.ub_win k;
            }

      -- In the map.
      module _
          (none_next : (j : ℕ)
            → pos ≤ j
            → j < pos + (w.h - pos)
            → free_port ports (get_or w.next_win j blank) ≡ none)
          (sched : ℕ) (to : sched ≡ cur + (max pos w.h + w.h - w.cur_pos))
          (fs : List (ℕ × WinCycle)) (s port : ℕ)
          (hit : FarHit touch ports sched w.ub_win fs s port) where
        unfoldable pub in_map : WindowStructure
        in_map = record w { ub_win = fs }

        far_view :
            (j : ℕ)
            → cur ≤ j
            → w.cur_pos + (s - cur) ≤ w.cur_pos + (j - cur)
            → view w cur j ≡ lookup_or blank w.ub_win j
        far_view j l k =
            view-ub_win w cur j (w.cur_pos + (j - cur)) refl (omega (arith, hit.late, v.pos))

        pub in_map-Placed : Placed touch ports w cur first in_map s port
        unfolding in_map
        in_map-Placed =
            let p = v.pos in
            let b = hit.late in
            let there = far_view s (omega arith) (omega arith) in
            record {
              valid = record {
                pos = v.pos;
                small = v.small;
                cur_sized = v.cur_sized;
                next_sized = v.next_sized;
                past = v.past;
                sorted = hit.sorted;
                beyond =
                    weaken (λ e k. omega (arith, k)) fs
                      (hit.keys (cur + 2 * w.h - w.cur_pos) (omega arith)
                        (weaken (λ e k. omega (arith, k)) w.ub_win v.beyond));
              };
              late = omega arith;
              free = ap (free_port ports) there ∙ hit.free;
              full = λ j l k. elim (dec_lt (w.cur_pos + (j - cur)) w.h) [
                | yes a ↦ full_cur j l a
                | no g ↦ elim (dec_lt (w.cur_pos + (j - cur)) (2 * w.h)) [
                  | yes a ↦
                      ap (free_port ports)
                        (view-next_win w cur j (w.cur_pos + (j - cur)) refl (omega arith) a)
                      ∙ none_next (w.cur_pos + (j - cur) - w.h) (omega arith) (omega arith)
                  | no f ↦
                      ap (free_port ports)
                        (view-ub_win w cur j (w.cur_pos + (j - cur)) refl (omega arith))
                      ∙ hit.full j (omega arith) k
                ]
              ];
              after = λ c l. elim (dec_lt (w.cur_pos + (c - cur)) (2 * w.h)) [
                | yes a ↦
                    let apart : (c == s) ≡ false = ground arith in
                    rw apart (view-set_ub_win w cur fs c a)
                | no g ↦
                    let d = w.cur_pos + (c - cur) in
                    view-ub_win in_map cur c d refl (omega arith)
                    ∙ hit.after c
                    ∙ rw (there, view-ub_win w cur c d refl (omega arith)) refl
              ];
              occupancy = refl;
              h = refl;
              wsz = refl;
              keys = λ b l k. hit.upper b (omega arith) k;
            }
