-- ===== src/Events/EventQueue/Adaptive.antt =====
-- An adaptive event fires in time.
use me_mo_tracer.Base.{
  ℕ, ◌+◌, ◌-◌, ◌*◌, ◌/◌, ◌≤◌, ◌<◌, ◌≡◌, ◌⊎◌, refl, inl, inr, true, false, some, leb, ◌==◌,
  Bool-cases, dec_le, arith,
}
use native.Mathlib.Nat.{mul-div-le}
use me_mo_tracer.Events.EventQueue.{AdaptiveEvent, next_period, adapt}

-- The period never reaches over the target by more than the rate.
reach : (distance max_rate : ℕ) → max_rate * next_period distance max_rate ≤ distance + max_rate
reach distance max_rate = elim (Bool-cases (distance / max_rate == 0)) [
  | inl t ↦ rw t (omega arith)
  | inr f ↦ rw f (omega (arith, mul-div-le distance max_rate))
]

-- An adaptive event whose period was set at the progress `seen`, not past its target, is called next
-- when the progress is at most its rate times that period further. Before the target it sets its
-- period anew. At the target it fires, no more than the rate past it, and is disposed of; the
-- assertion on that does not fail.
pub adapt_on_time :
    (ev : AdaptiveEvent) (seen cur : ℕ)
    → seen ≤ ev.target
    → ev.period ≡ next_period (ev.target - seen) ev.max_rate
    → cur ≤ seen + ev.max_rate * ev.period
    → ((cur < ev.target)
        × (adapt ev cur
            ≡ some (record ev { period = next_period (ev.target - cur) ev.max_rate }, false)))
      ⊎ ((ev.target ≤ cur)
          × (cur ≤ ev.target + ev.max_rate)
          × (adapt ev cur ≡ some (record ev { period = 0 }, true)))
unfolding adapt
adapt_on_time ev seen cur before set progress =
    let bound : ev.max_rate * ev.period ≤ ev.target - seen + ev.max_rate =
      rw set (reach (ev.target - seen) ev.max_rate) in
    elim (dec_le ev.target cur) [
      | yes l ↦
          let t : leb ev.target cur ≡ true = ground arith in
          let a : leb (cur - ev.target) ev.max_rate ≡ true =
            ground (arith, bound, progress, before) in
          inr (l, omega (arith, bound, progress), rw (t, a) refl)
      | no g ↦ let f : leb ev.target cur ≡ false = ground arith in inl (omega arith, rw f refl)
    ]
