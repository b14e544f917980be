-- ===== src/Legos/WindowStructure/Jump.antt =====
-- `longAdvance` reaches its target.
use me_mo_tracer.Base.{
  ℕ, zero, suc, ◌+◌, ◌-◌, ◌^◌, ◌≤◌, ◌<◌, ◌≡◌, ◌≢◌, ◌⊎◌, refl, ◌∙◌, inl, inr, true, false, not, ◌&&◌,
  some, ltb, leb, ◌==◌, ℕ_discrete, subst, arith,
}
use me_mo_tracer.Legos.WindowStructure.{WindowStructure}
use me_mo_tracer.Legos.WindowStructure.Schedule.{drain_until, long_advance}
use me_mo_tracer.Legos.WindowStructure.Advance.{advance_pos-Stepped}
use me_mo_tracer.Legos.WindowStructure.View.{view, IsValid}

-- The window has moved from `cur` on to `to`.
pub record Moved (w : WindowStructure) (cur : ℕ) (v : WindowStructure) (to : ℕ) : Type 0 where
  pub valid : IsValid v to
  pub same : (c : ℕ) → to ≤ c → view v to c ≡ view w cur c

drain_until-Moved :
    (n target : ℕ) (w : WindowStructure) (cur : ℕ)
    → IsValid w cur
    → cur + n ≡ target
    → target < 2 ^ 63
    → (v : WindowStructure) × (to : ℕ) × (drain_until n target w cur ≡ some (v, to))
      × (cur ≤ to)
      × (to ≤ target)
      × ((v.occupancy ≡ 0) ⊎ (to ≡ target))
      × Moved w cur v to
unfolding drain_until
drain_until-Moved zero target w cur v e lt = (
  w,
  cur,
  refl,
  omega arith,
  omega arith,
  inr (omega arith),
  record { valid = v; same = λ c l. refl },
)
drain_until-Moved (suc n) target w cur v e lt = elim (ℕ_discrete w.occupancy 0) [
  | yes z ↦
      let f : (not (w.occupancy == 0) && ltb cur target) ≡ false = ground (arith, z) in
      (w, cur, rw f refl, omega arith, omega arith, inl z, record { valid = v; same = λ c l. refl })
  | no nz ↦
      let t : (not (w.occupancy == 0) && ltb cur target) ≡ true = ground (arith, nz, e) in
      let a = advance_pos-Stepped w cur v (omega arith) in
      let r = drain_until-Moved n target a.0 (cur + 1) a.2.valid (omega arith) lt in
      (
        r.0,
        r.1,
        rw (t, a.1) r.2,
        omega (arith, r.3),
        r.4,
        r.5,
        record { valid = r.6.valid; same = λ c l. r.6.same c l ∙ a.2.same c (omega (arith, r.3)) },
      )
]

-- `longAdvance` to a cycle that is not past ends there, and none of its assertions fails. If uops
-- are left, the window is valid at the target and holds what it held for the cycles from there on.
pub long_advance-Moved :
    (w : WindowStructure) (cur target : ℕ)
    → IsValid w cur
    → cur ≤ target
    → target < 2 ^ 63
    → (v : WindowStructure) × (long_advance w cur target ≡ some (v, target))
      × (v.occupancy ≢ 0 → Moved w cur v target)
unfolding long_advance
long_advance-Moved w cur target v le lt =
    let d = drain_until-Moved (target - cur) target w cur v (omega arith) lt in
    let first : leb cur target ≡ true = ground arith in
    elim (ℕ_discrete (d.0).occupancy 0) [
      | yes z ↦
          let t : ((d.0).occupancy == 0) ≡ true = ground (arith, z) in
          let last : leb d.1 target ≡ true = ground (arith, d.4) in
          (d.0, rw (first, d.2, t, last) refl, λ nz. absurd (nz z))
      | no nz ↦
          let f : ((d.0).occupancy == 0) ≡ false = ground (arith, nz) in
          let at : d.1 ≡ target = elim d.5 [ inl z ↦ absurd (nz z) | inr e ↦ e ] in
          let last : (target == target) ≡ true = ground arith in
          (d.0, rw (first, d.2, f, at, last) refl, λ _. subst (Moved w cur d.0) at d.6)
    ]
