-- ===== src/Legos/WindowStructure/Uops.antt =====
-- A uop is scheduled at the first cycle that has a port for it.
use me_mo_tracer.Base.{
  ℕ, ◌+◌, ◌-◌, ◌*◌, ◌^◌, ◌≤◌, ◌<◌, ◌≡◌, ◌≢◌, refl, sym, ap, ◌∙◌, subst, Bool, true, false, List, [],
  ◌∷◌, some, none, if◌then◌else◌, ◌==◌, add32, max, All, ℕ_discrete, dec_lt, arith,
}
use me_mo_tracer.Legos.WindowStructure.{WinCycle, blank, WindowStructure}
use me_mo_tracer.Legos.WindowStructure.Schedule.{drain, rounds_for, last_far, schedule_internal}
use me_mo_tracer.Legos.WindowStructure.Place.{place}
use me_mo_tracer.Legos.WindowStructure.View.{view, lookup_or, IsValid, view-ub_win}
use me_mo_tracer.Legos.WindowStructure.Scan.{free_port, taken}
use me_mo_tracer.Legos.WindowStructure.Search.{place-Placed}
use me_mo_tracer.Legos.WindowStructure.Drain.{Drained, drain_done, stay_Drained, drain-Drained}

lookup_or-last :
    (es : List (ℕ × WinCycle)) (c : ℕ) → 0 < (lookup_or blank es c).count → c ≤ last_far es
lookup_or-last [] c h = absurd (omega arith)
lookup_or-last (e ∷ es) c h = elim (ℕ_discrete e.0 c) [
  | yes s ↦ omega (arith, s)
  | no ns ↦
      let f : (e.0 == c) ≡ false = ground (arith, ns) in
      let k : lookup_or blank (e ∷ es) c ≡ lookup_or blank es c = rw f refl in
      omega (arith, lookup_or-last es c (subst (λ b. 0 < WinCycle.count b) k h))
]

uop-in_reach :
    (w : WindowStructure) (cur c : ℕ)
    → cur ≤ c
    → 0 < (view w cur c).count
    → c < cur + rounds_for w cur
uop-in_reach w cur c le h = elim (dec_lt (w.cur_pos + (c - cur)) (2 * w.h)) [
  | yes l ↦ omega arith
  | no g ↦
      let k = view-ub_win w cur c (w.cur_pos + (c - cur)) refl (omega arith) in
      omega (arith, lookup_or-last w.ub_win c (subst (λ b. 0 < WinCycle.count b) k h))
]

-- What a scheduled uop leaves, in terms of the window before, which drains first if it is full.
pub record Scheduled (keep : Bool) (ports : List Bool) (w : WindowStructure) (cur sched : ℕ)
    (v : WindowStructure) (to s : ℕ) : Type 0 where
  pub valid : IsValid v to
  pub later : cur ≤ to
  pub late : max to sched ≤ s
  pub drained :
      (u : WindowStructure) × (drain (rounds_for w cur) w cur ≡ some (u, to))
      × Drained w cur u to
      × (v.occupancy ≡ add32 u.occupancy 1)
  pub free :
      (port : ℕ) × (free_port ports (view w cur s) ≡ some port) × (keep ≡ true → v.last_port ≡ port)
  pub full : (j : ℕ) → max to sched ≤ j → j < s → free_port ports (view w cur j) ≡ none
  pub after :
      (c : ℕ)
      → to ≤ c
      → view v to c ≡ (if c == s then taken true ports (view w cur s) else view w cur c)

-- A full window holds a uop.
abbrev pub HasUop : WindowStructure → ℕ → Type 0
HasUop w cur =
    w.occupancy ≡ w.wsz
    → (c : ℕ) × (cur ≤ c)
      × (c < 2 ^ 61)
      × (0 < (view w cur c).count)
      × ((view w cur c).count < 2 ^ 8)

drained :
    (w : WindowStructure) (cur : ℕ)
    → IsValid w cur
    → cur < 2 ^ 61
    → w.occupancy < 2 ^ 32
    → HasUop w cur
    → (v : WindowStructure) × (to : ℕ) × (drain (rounds_for w cur) w cur ≡ some (v, to))
      × (to ≤ 2 ^ 61)
      × (w.occupancy ≢ w.wsz → to ≡ cur)
      × Drained w cur v to
drained w cur v lt occ has = elim (ℕ_discrete w.occupancy w.wsz) [
  | no ne ↦ (
    w,
    cur,
    drain_done (rounds_for w cur) w cur ne,
    omega arith,
    (λ _. refl),
    stay_Drained w cur v ne,
  )
  | yes e ↦
      let u = has e in
      let d =
        drain-Drained (rounds_for w cur) w cur u.0 v u.1 (uop-in_reach w cur u.0 u.1 u.3)
          (omega (arith, u.2)) occ u.3 u.4 in
      (d.0, d.1, d.2, omega (arith, d.3, u.2), (λ ne. absurd (ne e)), d.4)
]

schedule_internal_from :
    (keep : Bool) (ports : List Bool) (w u v : WindowStructure) (cur to sched s port : ℕ)
    → drain (rounds_for w cur) w cur ≡ some (u, to)
    → place true ports to sched u ≡ some (v, s, port)
    → schedule_internal true keep ports w cur sched
      ≡ some (
        record (if keep then record v { last_port = port } else v) {
          occupancy = add32 (if keep then record v { last_port = port } else v).occupancy 1;
        },
        to,
        s,
      )
unfolding schedule_internal
schedule_internal_from keep ports w u v cur to sched s port d p = rw (d, p) refl

kept :
    (keep : Bool) (v : WindowStructure) (to port n : ℕ)
    → IsValid v to
    → IsValid (record (if keep then record v { last_port = port } else v) { occupancy = n }) to
kept true v to port n h = record {
  pos = h.pos;
  small = h.small;
  cur_sized = h.cur_sized;
  next_sized = h.next_sized;
  past = h.past;
  sorted = h.sorted;
  beyond = h.beyond;
}
kept false v to port n h = record {
  pos = h.pos;
  small = h.small;
  cur_sized = h.cur_sized;
  next_sized = h.next_sized;
  past = h.past;
  sorted = h.sorted;
  beyond = h.beyond;
}

kept-occupancy :
    (keep : Bool) (v : WindowStructure) (port : ℕ)
    → (if keep then record v { last_port = port } else v).occupancy ≡ v.occupancy
kept-occupancy true v port = refl
kept-occupancy false v port = refl

kept-port :
    (keep : Bool) (v : WindowStructure) (port n : ℕ)
    → keep ≡ true
    → WindowStructure.last_port
        (record (if keep then record v { last_port = port } else v) { occupancy = n })
      ≡ port
kept-port true v port n e = refl
kept-port false v port n e = cc

kept-view :
    (keep : Bool) (v : WindowStructure) (to port n c : ℕ)
    → view (record (if keep then record v { last_port = port } else v) { occupancy = n }) to c
      ≡ view v to c
kept-view true v to port n c = refl
kept-view false v to port n c = refl

-- A uop is scheduled if some port serves it, the cycles are below 2 ^ 61, the wanted one is less than
-- 2 ^ 31 ahead, and a full window holds some uop. A full window moves on until it has room, another
-- one does not move; then the uop counts in the occupancy and takes a port at the first cycle, no
-- earlier than wanted and not past, that has one free, which is the only cycle that changes. The
-- window stays valid, and the port is recorded if it is to be.
pub schedule_internal-Scheduled :
    (keep : Bool) (ports : List Bool) (w : WindowStructure) (cur sched p : ℕ)
    → IsValid w cur
    → free_port ports blank ≡ some p
    → cur < 2 ^ 61
    → sched < 2 ^ 61
    → sched < cur + 2 ^ 31
    → w.occupancy < 2 ^ 32
    → All (λ e. e.0 < 2 ^ 63) w.ub_win
    → HasUop w cur
    → (v : WindowStructure) × (to : ℕ) × (s : ℕ) × (schedule_internal true keep ports w cur sched
        ≡ some (v, to, s))
      × (w.occupancy ≢ w.wsz → to ≡ cur)
      × Scheduled keep ports w cur sched v to s
schedule_internal-Scheduled keep ports w cur sched p v some_port lt slt near occ keys has =
    let d = drained w cur v lt occ has in
    let r =
      place-Placed true ports d.0 d.1 sched p d.5.valid some_port (omega (arith, d.3)) (omega arith)
        (omega (arith, d.5.later)) (d.5.keys (2 ^ 63) keys) in
    let s = r.1 in
    let q = r.4 in
    let back : (c : ℕ) → d.1 ≤ c → view d.0 d.1 c ≡ view w cur c = d.5.same in
    (
      _,
      d.1,
      s,
      schedule_internal_from keep ports w d.0 r.0 cur d.1 sched s r.2 d.2 r.3,
      d.4,
      record {
        valid = kept keep r.0 d.1 r.2 _ q.valid;
        later = d.5.later;
        late = q.late;
        drained = (d.0, d.2, d.5, ap (λ n. add32 n 1) (kept-occupancy keep r.0 r.2 ∙ q.occupancy));
        free = (
          r.2,
          ap (free_port ports) (sym (back s (omega (arith, q.late)))) ∙ q.free,
          kept-port keep r.0 r.2
              (add32 (if keep then record r.0 { last_port = r.2 } else r.0).occupancy 1),
        );
        full = λ j l k. ap (free_port ports) (sym (back j (omega arith))) ∙ q.full j l k;
        after = λ c l.
            kept-view keep r.0 d.1 r.2
              (add32 (if keep then record r.0 { last_port = r.2 } else r.0).occupancy 1) c
            ∙ q.after c l
            ∙ rw (back s (omega (arith, q.late)), back c l) refl;
      },
    )
