-- ===== src/Tage/Predictor/Invariant.antt =====
-- The representation of the predictor: counters and tags in their ranges, tables of their sizes.
use me_mo_tracer.Base.{
  ℕ, zero, suc, ◌+◌, ◌-◌, ◌^◌, ◌≤◌, ◌<◌, ◌≡◌, refl, ◌∙◌, Bool, true, false, List, [], ◌∷◌, Option,
  none, some, length, get_or, set, replicate, length-set, length-replicate, All, All-set,
  All-get_or, All-replicate, arith, same, if-keep, u32,
}
use me_mo_tracer.Tage.Entry.{Tage, Entry, blank, init, entry_at, put_entry}
use me_mo_tracer.Tage.Hash.{get_tage_index, get_tage_tag}
use me_mo_tracer.Tage.Hash.Range.{get_tage_tag-lt, length-shift_in}
use me_mo_tracer.Tage.Predictor.{
  get_prediction, move_counter, update_provider_counter, allocate, allocate_new_entries, set_u,
  update_useful, update_history, update_predictor, predict, next_table,
}

abbrev pub Fits : Entry → Type 0
Fits e = (e.counter ≤ 7) × (e.tag < 2 ^ 14)

pub record IsValid (p : Tage) : Type 0 where
  pub history : length p.history_buffer ≡ 64
  pub trust : p.use_alt_on_na ≤ 7
  pub bases : length p.base_predictor ≡ 128
  pub base_counters : All (λ c. c ≤ 7) p.base_predictor
  pub tables : length p.tage ≡ p.table_num + 1
  pub entries : All (All Fits) p.tage
  pub sizes : (t : ℕ) → 0 < t → t ≤ p.table_num → length (get_or p.tage t []) ≡ 2 ^ p.index_size

sizes-set :
    (xs : List (List Entry)) (t i : ℕ) (e : Entry) (u : ℕ)
    → length (get_or (set xs t (set (get_or xs t []) i e)) u []) ≡ length (get_or xs u [])
sizes-set [] t i e u = refl
sizes-set (x ∷ xs) zero i e zero = length-set x i e
sizes-set (x ∷ xs) zero i e (suc u) = refl
sizes-set (x ∷ xs) (suc t) i e zero = refl
sizes-set (x ∷ xs) (suc t) i e (suc u) = sizes-set xs t i e u

put_entry-IsValid :
    (p : Tage) (t i : ℕ) (e : Entry) → Fits e → IsValid p → IsValid (put_entry p t i e)
unfolding put_entry
put_entry-IsValid p t i e f v = record {
  history = v.history;
  trust = v.trust;
  bases = v.bases;
  base_counters = v.base_counters;
  tables = length-set p.tage t _ ∙ v.tables;
  entries =
      All-set (All Fits) p.tage t _
        (All-set Fits (get_or p.tage t []) i e f (All-get_or (All Fits) p.tage t [] tt v.entries))
        v.entries;
  sizes = λ u a b. sizes-set p.tage t i e u ∙ v.sizes u a b;
}

entry_at-Fits : (p : Tage) (t i : ℕ) → IsValid p → Fits (entry_at p t i)
unfolding entry_at
entry_at-Fits p t i v =
    All-get_or Fits (get_or p.tage t []) i blank (omega arith)
      (All-get_or (All Fits) p.tage t [] tt v.entries)

move_counter-le : (b : Bool) (c : ℕ) → c ≤ 7 → move_counter b c ≤ 7
unfolding move_counter
move_counter-le b c h = ground arith

base-IsValid :
    (p : Tage) (i c : ℕ)
    → c ≤ 7
    → IsValid p
    → IsValid (record p { base_predictor = set p.base_predictor i c })
base-IsValid p i c h v = record {
  history = v.history;
  trust = v.trust;
  bases = length-set p.base_predictor i c ∙ v.bases;
  base_counters = All-set (λ x. x ≤ 7) p.base_predictor i c h v.base_counters;
  tables = v.tables;
  entries = v.entries;
  sizes = v.sizes;
}

update_provider_counter-IsValid :
    (p : Tage) (o : Option ℕ) (b : Bool)
    → p.provider_index ≡ o
    → IsValid p
    → IsValid (update_provider_counter p b)
unfolding update_provider_counter
update_provider_counter-IsValid p none b e v = rw (e, update_provider_counter) v
update_provider_counter-IsValid p (some zero) b e v =
    rw (e, update_provider_counter)
      (base-IsValid p p.provider_pred_index _
        (move_counter-le b _ (
          All-get_or (λ x. x ≤ 7) p.base_predictor p.provider_pred_index 0 (omega arith)
            v.base_counters))
        v)
update_provider_counter-IsValid p (some (suc t)) b e v =
    rw (e, update_provider_counter)
      (put_entry-IsValid p (suc t) p.provider_pred_index _
        (
          move_counter-le b _ (entry_at-Fits p (suc t) p.provider_pred_index v).0,
          (entry_at-Fits p (suc t) p.provider_pred_index v).1,
        )
        v)

set_u-IsValid :
    (p : Tage) (o : Option ℕ) (b : Bool) → p.provider_index ≡ o → IsValid p → IsValid (set_u p b)
unfolding set_u
set_u-IsValid p none b e v = rw (e, set_u) v
set_u-IsValid p (some zero) b e v = rw (e, set_u) v
set_u-IsValid p (some (suc t)) b e v =
    rw (e, set_u)
      (put_entry-IsValid p (suc t) p.provider_pred_index _
        (entry_at-Fits p (suc t) p.provider_pred_index v) v)

allocate-IsValid :
    (pc n table count : ℕ) (p : Tage) → IsValid p → IsValid (allocate pc n table count p)
unfolding allocate
allocate-IsValid pc zero table count p v = v
allocate-IsValid pc (suc n) table count p v =
    let i = u32 (get_tage_index p pc table) in
    let f = entry_at-Fits p table i v in
    let tag : u32 (get_tage_tag p pc table) < 2 ^ 14 = omega (arith, get_tage_tag-lt p pc table) in
    ground (
      arith,
      v,
      allocate-IsValid pc n (table + 1) (count + 1) _ (
          put_entry-IsValid p table i
            (record { counter = 3; tag = u32 (get_tage_tag p pc table); useful = false })
            (omega arith, tag) v),
      allocate-IsValid pc n (table + 1) count _
          (put_entry-IsValid p table i (record (entry_at p table i) { useful = false }) f v),
    )

trust-IsValid : (p : Tage) (k : ℕ) → k ≤ 7 → IsValid p → IsValid (record p { use_alt_on_na = k })
trust-IsValid p k h v = record {
  history = v.history;
  trust = h;
  bases = v.bases;
  base_counters = v.base_counters;
  tables = v.tables;
  entries = v.entries;
  sizes = v.sizes;
}

update_history-IsValid : (p : Tage) (b : Bool) → IsValid p → IsValid (update_history p b)
unfolding update_history
update_history-IsValid p b v = record {
  history = length-shift_in b p.history_buffer ∙ v.history;
  trust = v.trust;
  bases = v.bases;
  base_counters = v.base_counters;
  tables = v.tables;
  entries = v.entries;
  sizes = v.sizes;
}

update_useful-IsValid : (p : Tage) (b : Bool) → IsValid p → IsValid (update_useful p b)
unfolding update_useful
update_useful-IsValid p b v = if-keep IsValid (same p.alt_provider_pred p.provider_pred) v (
    if-keep IsValid (same p.alt_provider_pred b)
      (trust-IsValid (set_u p false) _ (ground (arith, v.trust))
        (set_u-IsValid p p.provider_index false refl v))
      (trust-IsValid (set_u p true) _ (ground (arith, v.trust))
        (set_u-IsValid p p.provider_index true refl v)))

get_prediction-IsValid : (p : Tage) (pc : ℕ) → IsValid p → IsValid (get_prediction p pc).0
unfolding get_prediction
get_prediction-IsValid p pc v = record {
  history = v.history;
  trust = v.trust;
  bases = v.bases;
  base_counters = v.base_counters;
  tables = v.tables;
  entries = v.entries;
  sizes = v.sizes;
}

update_predictor-IsValid :
    (p : Tage) (pc : ℕ) (taken pred : Bool) → IsValid p → IsValid (update_predictor p pc taken pred)
unfolding update_predictor allocate_new_entries
update_predictor-IsValid p pc taken pred v =
    let c = update_provider_counter-IsValid p p.provider_index taken refl v in
    let q = update_provider_counter p taken in
    let a =
      allocate-IsValid pc (q.table_num + 1 - next_table q.provider_index)
        (next_table q.provider_index) 0 q c in
    update_history-IsValid _ taken
      (update_useful-IsValid _ taken (if-keep IsValid (same taken pred) c a))

-- A prediction keeps every counter within 0 to 7, every tag within 14 bits, the trust in the
-- alternate within 0 to 7, and the sizes of the tables and of the history.
pub predict-IsValid :
    (p : Tage) (pc : ℕ) (taken : Bool) → IsValid p → IsValid (predict p pc taken).0
unfolding predict
predict-IsValid p pc taken v = update_predictor-IsValid _ pc taken _ (get_prediction-IsValid p pc v)

sized :
    (n k t : ℕ)
    → 0 < t
    → t ≤ n
    → length (get_or ([] ∷ replicate n (replicate (2 ^ k) blank)) t []) ≡ 2 ^ k
sized n k zero a b = absurd (omega arith)
sized zero k (suc t) a b = absurd (omega arith)
sized (suc n) k (suc zero) a b = length-replicate (2 ^ k) blank
sized (suc n) k (suc (suc t)) a b = sized n k (suc t) (omega arith) (omega arith)

-- The constructor leaves counters, tags, trust and sizes in the ranges that a prediction keeps.
pub init-IsValid : (table_num index_size : ℕ) → IsValid (init table_num index_size)
unfolding init
init-IsValid n k = record {
  history = refl;
  trust = omega arith;
  bases = refl;
  base_counters = All-replicate (λ c. c ≤ 7) 128 3 (omega arith);
  tables = omega (arith, length-replicate n (replicate (2 ^ k) blank));
  entries = (tt, All-replicate (All Fits) n _ (All-replicate Fits (2 ^ k) blank (omega arith)));
  sizes = sized n k;
}
