-- ===== src/Mesi/Level/Messages.antt =====
-- `sendInvalidates` over a directory that is right.
use me_mo_tracer.Base.{
  ℕ, suc, ◌+◌, ◌^◌, ℕ_discrete, ◌≤◌, ◌<◌, ◌≡◌, refl, ap, Bool, true, false, ◌&&◌, ◌||◌, List, [],
  ◌∷◌, some, length, arith, add32, add64, max,
}
use me_mo_tracer.Mesi.States.{
  MesiState, invalid, shared, modified, inv, invx, is_state, is_exclusive,
}
use me_mo_tracer.Mesi.Bottom.{process_inval}
use me_mo_tracer.Mesi.Directory.{
  Kid, Below, Sent, Reply, send_loop, close_entry, send_invalidates, entry_is_exclusive,
}
use me_mo_tracer.Mesi.Level.Sharing.{Owns, Agree, count_true, IsRight, count_true-le, Agree-none}

-- All copies are gone.
pub record Cleared (x : Bool) (cycle : ℕ) (bs : List Bool) (r : Sent) : Type 0 where
  pub agree : Agree false r.sharers r.kids
  pub none_left : count_true r.sharers ≡ 0
  pub size : length r.sharers ≡ length bs
  pub count : r.count ≡ count_true bs
  pub dirty : r.writeback ≡ true → x ≡ true
  pub late : cycle + 2 ^ 32 < 2 ^ 64 → r.max_cycle ≤ cycle + 2 ^ 32

inv_one :
    (x : Bool) (s : MesiState)
    → Owns x s
    → (w : Bool) × (process_inval s inv ≡ some (invalid, w)) × (w ≡ true → x ≡ true)
unfolding process_inval
inv_one x s o = (is_state s modified, ground arith, ground arith)

pub send_loop-Cleared :
    (x : Bool) (cycle : ℕ) (bs : List Bool) (ks : List Kid)
    → Agree x bs ks
    → length bs ≤ 256
    → (r : Sent) × (send_loop inv cycle bs ks ≡ some r) × Cleared x cycle bs r
unfolding send_loop
send_loop-Cleared x cycle [] [] a f = (
  record { sharers = []; kids = []; writeback = false; max_cycle = cycle; count = 0 },
  refl,
  record {
    agree = tt;
    none_left = refl;
    size = refl;
    count = refl;
    dirty = λ h. cc;
    late = λ h. omega arith;
  },
)
send_loop-Cleared x cycle [] (k ∷ ks) a f = absurd a
send_loop-Cleared x cycle (b ∷ bs) [] a f = absurd a
send_loop-Cleared x cycle (false ∷ bs) (k ∷ ks) a f =
    let ih = send_loop-Cleared x cycle bs ks a.1 (omega arith) in
    (
      record (ih.0) { sharers = false ∷ ih.0.sharers; kids = k ∷ ih.0.kids },
      rw (ih.1) refl,
      record {
        agree = (a.0, ih.2.agree);
        none_left = ih.2.none_left;
        size = ap suc ih.2.size;
        count = ih.2.count;
        dirty = ih.2.dirty;
        late = ih.2.late;
      },
    )
send_loop-Cleared x cycle (true ∷ bs) (k ∷ ks) a f =
    let one = inv_one x k.state a.0.0 in
    let ih = send_loop-Cleared x cycle bs ks a.1 (omega arith) in
    (
      record {
        sharers = false ∷ ih.0.sharers;
        kids = record k { state = invalid } ∷ ih.0.kids;
        writeback = one.0 || ih.0.writeback;
        max_cycle = max (add64 cycle k.lat) ih.0.max_cycle;
        count = add32 ih.0.count 1;
      },
      rw (one.1, ih.1) refl,
      record {
        agree = ((refl, a.0.1), ih.2.agree);
        none_left = ih.2.none_left;
        size = ap suc ih.2.size;
        count = omega (arith, ih.2.count, count_true-le bs);
        dirty = λ h. ground (arith, one.2, ih.2.dirty);
        late = λ h. omega (arith, ih.2.late h, a.0.1);
      },
    )

-- The exclusive copy is an S copy now.
pub record Downgraded (cycle : ℕ) (bs : List Bool) (r : Sent) : Type 0 where
  pub agree : Agree false r.sharers r.kids
  pub same : r.sharers ≡ bs
  pub count : r.count ≡ count_true bs
  pub late : cycle + 2 ^ 32 < 2 ^ 64 → r.max_cycle ≤ cycle + 2 ^ 32

invx_one :
    (s : MesiState) → is_exclusive s ≡ true → (w : Bool) × (process_inval s invx ≡ some (shared, w))
unfolding process_inval
invx_one s o = (is_state s modified, ground arith)

pub send_loop-Downgraded :
    (cycle : ℕ) (bs : List Bool) (ks : List Kid)
    → Agree true bs ks
    → length bs ≤ 256
    → (r : Sent) × (send_loop invx cycle bs ks ≡ some r) × Downgraded cycle bs r
unfolding send_loop
send_loop-Downgraded cycle [] [] a f = (
  record { sharers = []; kids = []; writeback = false; max_cycle = cycle; count = 0 },
  refl,
  record { agree = tt; same = refl; count = refl; late = λ h. omega arith },
)
send_loop-Downgraded cycle [] (k ∷ ks) a f = absurd a
send_loop-Downgraded cycle (b ∷ bs) [] a f = absurd a
send_loop-Downgraded cycle (false ∷ bs) (k ∷ ks) a f =
    let ih = send_loop-Downgraded cycle bs ks a.1 (omega arith) in
    (
      record (ih.0) { sharers = false ∷ ih.0.sharers; kids = k ∷ ih.0.kids },
      rw (ih.1) refl,
      record {
        agree = (a.0, ih.2.agree);
        same = ap (◌∷◌ false) ih.2.same;
        count = ih.2.count;
        late = ih.2.late;
      },
    )
send_loop-Downgraded cycle (true ∷ bs) (k ∷ ks) a f =
    let one = invx_one k.state a.0.0 in
    let ih = send_loop-Downgraded cycle bs ks a.1 (omega arith) in
    (
      record {
        sharers = true ∷ ih.0.sharers;
        kids = record k { state = shared } ∷ ih.0.kids;
        writeback = one.0 || ih.0.writeback;
        max_cycle = max (add64 cycle k.lat) ih.0.max_cycle;
        count = add32 ih.0.count 1;
      },
      rw (one.1, ih.1) refl,
      record {
        agree = ((refl, a.0.1), ih.2.agree);
        same = ap (◌∷◌ true) ih.2.same;
        count = omega (arith, ih.2.count, count_true-le bs);
        late = λ h. omega (arith, ih.2.late h, a.0.1);
      },
    )

-- What an invalidation of all copies leaves.
pub record Gone (l : Below) (cycle : ℕ) (r : Reply) : Type 0 where
  pub agree : Agree false r.below.entry.sharers r.below.kids
  pub none_left : count_true r.below.entry.sharers ≡ 0
  pub zero_count : r.below.entry.num_sharers ≡ 0
  pub size : length r.below.entry.sharers ≡ length l.entry.sharers
  pub dirty : r.writeback ≡ true → entry_is_exclusive l.entry ≡ true
  pub late : cycle + 2 ^ 32 < 2 ^ 64 → r.cycle ≤ cycle + 2 ^ 32

-- The count and the copies of an entry with the line taken out of it, or of a right one.
pub record IsCounted (x : Bool) (l : Below) : Type 0 where
  pub agree : Agree x l.entry.sharers l.kids
  pub counted : l.entry.num_sharers ≡ count_true l.entry.sharers
  pub few : length l.entry.sharers ≤ 256
  pub marked : x ≡ true → entry_is_exclusive l.entry ≡ true

pub send_inv-Gone :
    (x : Bool) (l : Below) (cycle : ℕ)
    → IsCounted x l
    → (r : Reply) × (send_invalidates inv l cycle ≡ some r) × Gone l cycle r
unfolding send_invalidates close_entry
send_inv-Gone x l cycle h = elim (ℕ_discrete l.entry.num_sharers 0) [
  | yes e ↦ (
    record { below = l; writeback = false; cycle = cycle },
    ground arith,
    record {
      agree = Agree-none x false l.entry.sharers l.kids (omega (arith, h.counted)) h.agree;
      none_left = omega (arith, h.counted);
      zero_count = e;
      size = refl;
      dirty = λ d. cc;
      late = λ d. omega arith;
    },
  )
  | no ne ↦
      let s = send_loop-Cleared x cycle l.entry.sharers l.kids h.agree h.few in
      (
        record {
          below = record {
            entry = record { num_sharers = 0; sharers = s.0.sharers; excl = l.entry.excl && true };
            kids = s.0.kids;
          };
          writeback = s.0.writeback;
          cycle = s.0.max_cycle;
        },
        ground (arith, s.1, s.2.count, h.counted),
        record {
          agree = s.2.agree;
          none_left = s.2.none_left;
          zero_count = refl;
          size = s.2.size;
          dirty = λ d. h.marked (s.2.dirty d);
          late = s.2.late;
        },
      )
]

-- What a downgrade leaves.
pub record Lowered (l : Below) (cycle : ℕ) (r : Reply) : Type 0 where
  pub agree : Agree false r.below.entry.sharers r.below.kids
  pub same : r.below.entry.sharers ≡ l.entry.sharers
  pub same_count : r.below.entry.num_sharers ≡ l.entry.num_sharers
  pub unmarked : r.below.entry.excl ≡ false
  pub late : cycle + 2 ^ 32 < 2 ^ 64 → r.cycle ≤ cycle + 2 ^ 32

pub send_invx-Lowered :
    (l : Below) (cycle : ℕ)
    → IsRight l
    → entry_is_exclusive l.entry ≡ true
    → (r : Reply) × (send_invalidates invx l cycle ≡ some r) × Lowered l cycle r
unfolding send_invalidates close_entry
send_invx-Lowered l cycle h e =
    let s = send_loop-Downgraded cycle l.entry.sharers l.kids (rw e at h.agree) h.few in
    (
      record {
        below = record {
          entry = record {
            num_sharers = l.entry.num_sharers;
            sharers = s.0.sharers;
            excl = l.entry.excl && false;
          };
          kids = s.0.kids;
        };
        writeback = s.0.writeback;
        cycle = s.0.max_cycle;
      },
      ground (arith, s.1, s.2.count, h.counted),
      record {
        agree = s.2.agree;
        same = s.2.same;
        same_count = refl;
        unmarked = ground arith;
        late = s.2.late;
      },
    )
