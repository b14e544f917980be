-- ===== src/Mesi/Level/Invalidations.antt =====
-- Invalidations and downgrades that come from above: `MESICC::processInv` of src/coherence_ctrls.h.
use me_mo_tracer.Base.{
  ℕ, ◌≡◌, refl, sym, ◌∙◌, ap, inl, inr, Bool, true, false, ◌||◌, some, Bool-cases, List, get_or,
  arith,
}
use me_mo_tracer.Mesi.States.{
  invalid, shared, modified, inv, invx, is_state, is_exclusive, is_valid,
}
use me_mo_tracer.Mesi.Directory.{out, Below, Reply, entry_is_exclusive, send_invalidates}
use me_mo_tracer.Mesi.Bottom
use me_mo_tracer.Mesi.Top
use me_mo_tracer.Mesi.Top.{shares}
use me_mo_tracer.Mesi.Level.{Level, child_state, invalidate}
use me_mo_tracer.Mesi.Level.Sharing.{count_true, IsRight, is_owner}
use me_mo_tracer.Mesi.Level.Messages.{IsCounted, send_inv-Gone, send_invx-Lowered}
use me_mo_tracer.Mesi.Level.Coherence.{IsCoherent, fits}
use me_mo_tracer.Mesi.Level.Evictions.{Gone-IsCoherent, nobody}

-- An INV on a line that the cache has succeeds: neither the cache nor a child has a copy after it,
-- the level is coherent, and dirty data goes up if the cache had the line in M.
pub invalidate-inv :
    (cycle : ℕ) (l : Level)
    → IsCoherent l
    → is_valid l.own ≡ true
    → (m : Level) × (w : Bool) × (invalidate inv cycle l ≡ some (m, w))
      × IsCoherent m
      × (m.own ≡ invalid)
      × ((child : ℕ) → is_valid (child_state m child) ≡ false)
      × (l.own ≡ modified → w ≡ true)
unfolding invalidate Top.process_inval Bottom.process_inval
invalidate-inv cycle l c v =
    let k : IsCounted (entry_is_exclusive l.below.entry) l.below = record {
      agree = c.right.agree;
      counted = c.right.counted;
      few = c.right.few;
      marked = λ y. y;
    } in
    let g = send_inv-Gone (entry_is_exclusive l.below.entry) l.below cycle k in
    (
      record { own = invalid; below = g.0.below },
      g.0.writeback || is_state l.own modified,
      rw (g.1, v) refl,
      Gone-IsCoherent l cycle g.0 c g.2,
      refl,
      λ child. nobody g.0.below child g.2.agree g.2.none_left,
      λ e. rw e (ground arith),
    )

-- A downgrade keeps the directory right, and nobody is exclusive after it.
downgrade :
    (b : Below) (cycle : ℕ)
    → IsRight b
    → (r : Reply) × (send_invalidates invx b cycle ≡ some r)
      × IsRight r.below
      × (entry_is_exclusive r.below.entry ≡ false)
unfolding send_invalidates
downgrade b cycle h = elim (Bool-cases (entry_is_exclusive b.entry)) [
  | inl e ↦
      let d = send_invx-Lowered b cycle h e in
      let n : entry_is_exclusive d.0.below.entry ≡ false = rw d.2.unmarked (ground arith) in
      (
        d.0,
        d.1,
        record {
          agree = rw n d.2.agree;
          counted =
              d.2.same_count ∙ h.counted ∙ sym (ap (λ (bs : List Bool). count_true bs) d.2.same);
          single = λ y. ground (arith, d.2.unmarked);
          few = rw d.2.same h.few;
        },
        n,
      )
  | inr e ↦ (record { below = b; writeback = false; cycle = cycle }, rw e refl, h, e)
]

unowned :
    (l : Level) (child : ℕ)
    → IsCoherent l
    → entry_is_exclusive l.below.entry ≡ false
    → is_exclusive (child_state l child) ≡ false
unowned l child c n = elim (Bool-cases (is_exclusive (child_state l child))) [
  | inl y ↦
      let x =
        is_owner (entry_is_exclusive l.below.entry) (shares l.below child)
          (get_or l.below.kids child out) (fits l child c) y in
      cc
  | inr y ↦ y
]

-- An INVX on a line that the cache has in E or M succeeds: the cache has it in S after it, no child
-- has E or M, the level is coherent, and dirty data goes up if the cache had the line in M.
pub invalidate-invx :
    (cycle : ℕ) (l : Level)
    → IsCoherent l
    → is_exclusive l.own ≡ true
    → (m : Level) × (w : Bool) × (invalidate invx cycle l ≡ some (m, w))
      × IsCoherent m
      × (m.own ≡ shared)
      × ((child : ℕ) → is_exclusive (child_state m child) ≡ false)
      × (l.own ≡ modified → w ≡ true)
unfolding invalidate Top.process_inval Bottom.process_inval
invalidate-invx cycle l c v =
    let d = downgrade l.below cycle c.right in
    let k : IsCoherent (record { own = shared; below = d.0.below }) = record {
      right = d.2;
      inclusive = λ n. refl;
      above = λ e. ground (arith, d.3);
    } in
    (
      record { own = shared; below = d.0.below },
      d.0.writeback || is_state l.own modified,
      rw (d.1, v) refl,
      k,
      refl,
      λ child. unowned _ child k d.3,
      λ e. rw e (ground arith),
    )
