-- ===== src/Legos/WindowStructure/Drain.antt =====
-- A full window drains, and then takes a uop.
use me_mo_tracer.Base.{
  ℕ, zero, suc, ◌+◌, ◌^◌, ◌≤◌, ◌<◌, ◌≡◌, ◌≢◌, refl, sym, ap, ◌∙◌, subst, true, false, Option, some,
  ◌==◌, All, ℕ_discrete, arith,
}
use me_mo_tracer.Legos.WindowStructure.{WinCycle, WindowStructure, advance_pos}
use me_mo_tracer.Legos.WindowStructure.Schedule.{drain}
use me_mo_tracer.Legos.WindowStructure.Advance.{Stepped, advance_pos-Stepped}
use me_mo_tracer.Legos.WindowStructure.View.{view, IsValid}

-- The window `v` at `to` is `w` at `cur`, moved on until it is no longer full.
pub record Drained (w : WindowStructure) (cur : ℕ) (v : WindowStructure) (to : ℕ) : Type 0 where
  pub valid : IsValid v to
  pub later : cur ≤ to
  pub same : (c : ℕ) → to ≤ c → view v to c ≡ view w cur c
  pub room : v.occupancy ≢ w.wsz
  pub h : v.h ≡ w.h
  pub wsz : v.wsz ≡ w.wsz
  pub keys : (b : ℕ) → All (λ e. e.0 < b) w.ub_win → All (λ e. e.0 < b) v.ub_win

pub drain_done :
    (n : ℕ) (w : WindowStructure) (cur : ℕ) → w.occupancy ≢ w.wsz → drain n w cur ≡ some (w, cur)
unfolding drain
drain_done zero w cur ne = let f : (w.occupancy == w.wsz) ≡ false = ground (arith, ne) in rw f refl
drain_done (suc n) w cur ne =
    let f : (w.occupancy == w.wsz) ≡ false = ground (arith, ne) in rw f refl

drain_step :
    (n : ℕ) (w v : WindowStructure) (cur : ℕ) (r : Option (WindowStructure × ℕ))
    → w.occupancy ≡ w.wsz
    → advance_pos w cur ≡ some (v, cur + 1)
    → drain n v (cur + 1) ≡ r
    → drain (suc n) w cur ≡ r
unfolding drain
drain_step n w v cur r e a d =
    let t : (w.occupancy == w.wsz) ≡ true = ground (arith, e) in rw (t, a) d

pub stay_Drained :
    (w : WindowStructure) (cur : ℕ) → IsValid w cur → w.occupancy ≢ w.wsz → Drained w cur w cur
stay_Drained w cur v ne = record {
  valid = v;
  later = omega arith;
  same = λ c l. refl;
  room = ne;
  h = refl;
  wsz = refl;
  keys = λ b a. a;
}

step_Drained :
    (w v u : WindowStructure) (cur to : ℕ)
    → Stepped w cur v
    → Drained v (cur + 1) u to
    → Drained w cur u to
step_Drained w v u cur to s d = record {
  valid = d.valid;
  later = omega (arith, d.later);
  same = λ c l. d.same c l ∙ s.same c (omega (arith, d.later));
  room = λ e. d.room (e ∙ sym s.wsz);
  h = d.h ∙ s.h;
  wsz = d.wsz ∙ s.wsz;
  keys = λ b a. d.keys b (s.keys b a);
}

-- The rounds suffice when a cycle within them holds a uop.
pub drain-Drained :
    (n : ℕ) (w : WindowStructure) (cur c : ℕ)
    → IsValid w cur
    → cur ≤ c
    → c < cur + n
    → c < 2 ^ 62
    → w.occupancy < 2 ^ 32
    → 0 < (view w cur c).count
    → (view w cur c).count < 2 ^ 8
    → (v : WindowStructure) × (to : ℕ) × (drain n w cur ≡ some (v, to))
      × (to ≤ c + 1)
      × Drained w cur v to
drain-Drained zero w cur c v le lt small occ pos byte = absurd (omega arith)
drain-Drained (suc n) w cur c v le lt small occ pos byte = elim (ℕ_discrete w.occupancy w.wsz) [
  | no ne ↦ (w, cur, drain_done (suc n) w cur ne, omega arith, stay_Drained w cur v ne)
  | yes e ↦
      let a = advance_pos-Stepped w cur v (omega arith) in
      elim (ℕ_discrete c cur) [
        | yes here ↦
            let k : (view w cur cur).count ≡ (view w cur c).count =
              ap (λ i. (view w cur i).count) (sym here) in
            let ne : (a.0).occupancy ≢ (a.0).wsz =
              λ f. omega (arith, f, a.2.occupancy, a.2.wsz, k, e) in
            (
              a.0,
              cur + 1,
              drain_step n w a.0 cur _ e a.1 (drain_done n a.0 (cur + 1) ne),
              omega arith,
              step_Drained w a.0 a.0 cur (cur + 1) a.2 (stay_Drained a.0 (cur + 1) a.2.valid ne),
            )
        | no ahead ↦
            let k = a.2.same c (omega (arith, ahead)) in
            let r =
              drain-Drained n a.0 (cur + 1) c a.2.valid (omega (arith, ahead)) (omega arith) small
                (omega (arith, a.2.occupancy)) (subst (λ b. 0 < WinCycle.count b) (sym k) pos)
                (subst (λ b. WinCycle.count b < 2 ^ 8) (sym k) byte) in
            (
              r.0,
              r.1,
              drain_step n w a.0 cur _ e a.1 r.2,
              omega (arith, r.3),
              step_Drained w a.0 r.0 cur r.1 a.2 r.4,
            )
      ]
]
