-- ===== src/Mesi/Level/Upgrade.antt =====
-- The upgrade of a sharer in `MESITopCC::processAccess`: its copy is taken out of the list first, and
-- the other copies are invalidated around it.
use me_mo_tracer.Base.{
  ℕ, suc, ◌<◌, ◌≡◌, refl, sym, ◌∙◌, ap, inl, inr, Bool, true, false, List, [], ◌∷◌, Option, none,
  some, zero, subst, ◌==◌, length, get_or, set, length-set, get_or-set_self, set-get_or, Bool-cases,
  Option-cases, map_some, arith,
}
use me_mo_tracer.Mesi.States.{MesiState, invalid, modified, InvType, inv}
use me_mo_tracer.Mesi.Directory.{
  Sent, send_loop, close_entry, Kid, out, Below, Reply, is_empty, entry_is_exclusive,
  send_invalidates,
}
use me_mo_tracer.Mesi.Bottom.{process_inval}
use me_mo_tracer.Mesi.Top.{give, shares, take_out, only_copy, give_modified}
use me_mo_tracer.Mesi.Level.Sharing.{
  IsRight, count_true-le, Agree-set, Agree-length, count_true-drop,
}
use me_mo_tracer.Mesi.Level.Grants.{Granted, lat_of, only_sharer, only_copy-Granted}
use me_mo_tracer.Mesi.Level.Messages.{Gone, IsCounted, send_inv-Gone}

set-set {ℓ} : {A : Type ℓ} (xs : List A) (i : ℕ) (a b : A) → set (set xs i a) i b ≡ set xs i b
set-set [] i a b = refl
set-set (x ∷ xs) zero a b = refl
set-set (x ∷ xs) (suc i) a b = ap (◌∷◌ x) (set-set xs i a b)

-- Nothing is sent to a child that is not in the list, whatever its state.
put_kid : ℕ → Kid → Sent → Sent
put_kid c k r = record r { kids = set r.kids c k }

send_loop-set :
    (t : InvType) (cycle : ℕ) (bs : List Bool) (ks : List Kid) (c : ℕ) (k : Kid)
    → get_or bs c false ≡ false
    → c < length bs
    → send_loop t cycle bs (set ks c k) ≡ map_some (put_kid c k) (send_loop t cycle bs ks)
unfolding send_loop put_kid
send_loop-set t cycle [] ks c k n lt = absurd (omega arith)
send_loop-set t cycle (b ∷ bs) [] c k n lt = refl
send_loop-set t cycle (true ∷ bs) (j ∷ ks) zero k n lt = absurd (cc)
send_loop-set t cycle (false ∷ bs) (j ∷ ks) zero k n lt =
    elim (Option-cases (send_loop t cycle bs ks)) [ inl f ↦ rw f refl | inr (r, f) ↦ rw f refl ]
send_loop-set t cycle (true ∷ bs) (j ∷ ks) (suc c) k n lt =
    rw (send_loop-set t cycle bs ks c k n (omega arith))
      (elim (Option-cases (process_inval j.state t)) [
        | inl e ↦ rw e refl
        | inr (a, e) ↦ rw e (elim (Option-cases (send_loop t cycle bs ks)) [
          | inl f ↦ rw f refl
          | inr (r, f) ↦ rw f refl
        ])
      ])
send_loop-set t cycle (false ∷ bs) (j ∷ ks) (suc c) k n lt =
    rw (send_loop-set t cycle bs ks c k n (omega arith))
      (elim (Option-cases (send_loop t cycle bs ks)) [ inl f ↦ rw f refl | inr (r, f) ↦ rw f refl ])

send_invalidates-set :
    (l : Below) (cycle c : ℕ) (k : Kid)
    → shares l c ≡ false
    → c < length l.entry.sharers
    → send_invalidates inv (record l { kids = set l.kids c k }) cycle
      ≡ map_some
          (λ (r : Reply). record r { below = record (r.below) { kids = set r.below.kids c k } })
          (send_invalidates inv l cycle)
unfolding send_invalidates close_entry put_kid
send_invalidates-set l cycle c k n lt =
    rw (send_loop-set inv cycle l.entry.sharers l.kids c k n lt)
      (elim (Bool-cases (is_empty l.entry)) [
        | inl e ↦ rw e refl
        | inr e ↦ rw e (elim (Option-cases (send_loop inv cycle l.entry.sharers l.kids)) [
          | inl f ↦ rw f refl
          | inr (r, f) ↦ rw f (elim (Bool-cases (r.count == l.entry.num_sharers)) [
            | inl g ↦ rw g refl
            | inr g ↦ rw g refl
          ])
        ])
      ])

-- The list without the child, and the child as if it had lost the line.
abbrev lost : Below → ℕ → Below
lost l child = record (take_out l child) {
  kids = set l.kids child (record (get_or l.kids child out) { state = invalid });
}

lost-IsCounted :
    (l : Below) (child : ℕ)
    → IsRight l
    → shares l child ≡ true
    → entry_is_exclusive l.entry ≡ false
    → IsCounted false (lost l child)
lost-IsCounted l child h s e =
    let drop = count_true-drop l.entry.sharers child s in
    record {
      agree =
          Agree-set false l.entry.sharers l.kids child false _ (refl, lat_of _ l child h.agree)
            (rw e at h.agree);
      counted = omega (arith, drop, count_true-le l.entry.sharers, h.counted, h.few);
      few = omega (arith, length-set l.entry.sharers child false, h.few);
      marked = λ y. cc;
    }

some_eq {ℓ} : {A : Type ℓ} {a b : A} → some a ≡ some b → a ≡ b
some_eq e = cc

some_map {ℓ κ} :
    {A : Type ℓ} {B : Type κ} (f : A → B) (o : Option A) (b : B)
    → map_some f o ≡ some b
    → (a : A) × (o ≡ some a) × (f a ≡ b)
some_map f none b e = cc
some_map f (some a) b e = (a, refl, cc)

abbrev with_kid : ℕ → Kid → Reply → Reply
with_kid c k r = record r { below = record (r.below) { kids = set r.below.kids c k } }

-- Two writes to the child's place, with the latency it had, make one.
same_kid :
    (ks : List Kid) (c : ℕ) (orig : Kid) (s : MesiState)
    → c < length ks
    → get_or ks c out ≡ orig
    → let dead = set ks c (record orig { state = invalid }) in
      set dead c (record (get_or dead c out) { state = s })
      ≡ set ks c (record (get_or ks c out) { state = s })
same_kid ks c orig s lt e =
    set-set ks c _ _
    ∙ ap (λ (k : Kid). set ks c (record k { state = s })) (get_or-set_self ks c _ out lt)
    ∙ sym (ap (λ (k : Kid). set ks c (record k { state = s })) e)

upgrade_end :
    (l : Below) (child cycle : ℕ) (orig : Kid) (r : Reply)
    → IsCounted false (lost l child)
    → child < length l.entry.sharers
    → Gone (lost l child) cycle (with_kid child (record orig { state = invalid }) r)
    → get_or r.below.kids child out ≡ orig
    → child < length r.below.kids
    → (entry_is_exclusive (take_out l child).entry ≡ true → entry_is_exclusive l.entry ≡ true)
    → Granted l child cycle modified (record r { below = give r.below child true 1 true modified })
upgrade_end l child cycle orig r h lt g kept lk dirty =
    let size : length r.below.entry.sharers ≡ length l.entry.sharers =
      g.size ∙ length-set l.entry.sharers child false in
    let right =
      only_sharer (with_kid child (record orig { state = invalid }) r).below child modified g.agree
        g.none_left (omega (arith, g.size, h.few)) (omega (arith, size)) refl in
    record {
      right =
          subst
            (λ (ks : List Kid).
              IsRight (record (give r.below child true 1 true modified) { kids = ks }))
            (same_kid r.below.kids child orig modified lk kept) right;
      state = ap (λ (k : Kid). k.state) (get_or-set_self r.below.kids child _ out lk);
      dirty = λ d. dirty (g.dirty d);
      size = length-set r.below.entry.sharers child true ∙ size;
      late = g.late;
      mark = λ y. refl;
    }

only_copy-upgrade :
    (l : Below) (child cycle : ℕ)
    → IsRight l
    → shares l child ≡ true
    → entry_is_exclusive l.entry ≡ false
    → child < length l.entry.sharers
    → (r : Reply) × (only_copy (take_out l child) child cycle ≡ some r)
      × Granted l child cycle modified r
unfolding only_copy
only_copy-upgrade l child cycle h s e lt =
    let l1 = take_out l child in
    let orig = get_or l.kids child out in
    let counted = lost-IsCounted l child h s e in
    let g = send_inv-Gone false (lost l child) cycle counted in
    let out_of_list : shares l1 child ≡ false =
      get_or-set_self l.entry.sharers child false false lt in
    let lt1 : child < length l1.entry.sharers =
      omega (arith, length-set l.entry.sharers child false) in
    let r0 =
      some_map (with_kid child (record orig { state = invalid })) (send_invalidates inv l1 cycle)
        (g.0) (sym (send_invalidates-set l1 cycle child _ out_of_list lt1) ∙ g.1) in
    let gone = subst (λ q. Gone (lost l child) cycle q) (sym r0.2) g.2 in
    let lk : child < length r0.0.below.kids = omega (
      arith,
      length-set r0.0.below.kids child (record orig { state = invalid }),
      Agree-length false _ _ gone.agree,
      gone.size,
      length-set l.entry.sharers child false,
    ) in
    let again : some r0.0 ≡ some (with_kid child orig r0.0) =
      sym r0.1
      ∙ ap (λ ks. send_invalidates inv (record l1 { kids = ks }) cycle)
          (sym (set-get_or l.kids child out))
      ∙ send_invalidates-set l1 cycle child orig out_of_list lt1
      ∙ ap (λ o. map_some (with_kid child orig) o) r0.1 in
    let kept : get_or r0.0.below.kids child out ≡ orig =
      ap (λ (q : Reply). get_or q.below.kids child out) (some_eq again)
      ∙ get_or-set_self r0.0.below.kids child orig out lk in
    (
      record (r0.0) { below = give r0.0.below child true 1 true modified },
      rw (r0.1) (rw (gone.zero_count) refl),
      upgrade_end l child cycle orig r0.0 counted lt gone kept lk (λ y. ground (arith, h.single)),
    )

-- The writer gets the line in M, and every other copy is gone.
pub give_modified-Granted :
    (l : Below) (child cycle : ℕ)
    → IsRight l
    → (shares l child ≡ true → entry_is_exclusive l.entry ≡ false)
    → child < length l.entry.sharers
    → (r : Reply) × (give_modified l child cycle ≡ some r) × Granted l child cycle modified r
unfolding give_modified
give_modified-Granted l child cycle h s lt = elim (Bool-cases (shares l child)) [
  | inl e ↦ let u = only_copy-upgrade l child cycle h e (s e) lt in (u.0, rw (e, s e) (u.1), u.2)
  | inr e ↦
      let u =
        only_copy-Granted (entry_is_exclusive l.entry) l child cycle
          (record { agree = h.agree; counted = h.counted; few = h.few; marked = λ y. y }) lt in
      (u.0, rw e (u.1), u.2)
]
