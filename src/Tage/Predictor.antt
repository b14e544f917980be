-- ===== src/Tage/Predictor.antt =====
-- The prediction and the update of `BranchPredictorTage` (src/tage.cpp).
pub mod Providers
pub mod Invariant
use me_mo_tracer.Base.{
  ℕ, zero, suc, ◌+◌, ◌-◌, ◌/◌, ◌%◌, Bool, true, false, not, ◌&&◌, Option, none, some, if◌then◌else◌,
  ltb, leb, ◌==◌, same, get_or, set, u32,
}
use me_mo_tracer.Tage.BitSet.{shift_in}
use me_mo_tracer.Tage.Entry.{
  Tage, Entry, t0_counter_max, ti_counter_max, use_alt_counter_max, base_predictor_size,
  max_allocations, entry_at, put_entry,
}
use me_mo_tracer.Tage.Hash.{get_tage_index, get_tage_tag}

-- The members that `GetTagePredictions` writes, with its `*usefulBitNull`.
pub record Lookup : Type 0 where
  pub provider : Option ℕ
  pub alt : Option ℕ
  pub pred_index : ℕ
  pub pred : Bool
  pub alt_pred : Bool
  pub useful_null : Bool

-- The body of its loop, where the tag of the table matches.
unfoldable pub hit : Tage → ℕ → ℕ → Lookup → Lookup
hit p pc table l =
    let idx = u32 (get_tage_index p pc table) in
    let e = entry_at p table idx in
    elim l.provider [
      | none ↦ record l {
        provider = some table;
        pred_index = idx;
        pred = ltb (ti_counter_max / 2) e.counter;
        useful_null = not e.useful;
      }
      | some _ ↦ record l { alt = some table; alt_pred = leb (ti_counter_max / 2) e.counter }
    ]

unfoldable pub matches : Tage → ℕ → ℕ → Bool
matches p pc table =
    (entry_at p table (u32 (get_tage_index p pc table))).tag == u32 (get_tage_tag p pc table)

abbrev pub is_some {ℓ} : {A : Type ℓ} → Option A → Bool
is_some none = false
is_some (some _) = true

-- The loop, from the table with the longest history down.
unfoldable pub scan : Tage → ℕ → ℕ → Lookup → Lookup
scan p pc zero l = l
scan p pc (suc t) l =
    let rest = scan p pc t (if matches p pc (suc t) then hit p pc (suc t) l else l) in
    if is_some l.provider && is_some l.alt then l else rest

-- The base predictor stands in for what the tables do not give.
unfoldable pub fall_back : Tage → ℕ → Lookup → Lookup
fall_back p pc l =
    let i = pc % base_predictor_size in
    let taken = ltb (t0_counter_max / 2) (get_or p.base_predictor i 0) in
    let l' =
      if is_some l.provider
      then l
      else (record l { provider = some 0; pred_index = i; pred = taken }) in
    if is_some l'.alt then l' else (record l' { alt = some 0; alt_pred = taken })

-- The members when the loop begins.
unfoldable pub start : Tage → Lookup
start p = record {
  provider = none;
  alt = none;
  pred_index = 999999;
  pred = p.provider_pred;
  alt_pred = p.alt_provider_pred;
  useful_null = false;
}

unfoldable pub get_tage_predictions : Tage → ℕ → Lookup
get_tage_predictions p pc = fall_back p pc (scan p pc p.table_num (start p))

unfoldable pub get_prediction : Tage → ℕ → Tage × Bool
get_prediction p pc =
    let l = get_tage_predictions p pc in
    (
      record p {
        provider_index = l.provider;
        alt_provider_index = l.alt;
        provider_pred_index = l.pred_index;
        provider_pred = l.pred;
        alt_provider_pred = l.alt_pred;
      },
      if l.useful_null && ltb (use_alt_counter_max / 2) p.use_alt_on_na then l.alt_pred else l.pred,
    )

-- A saturating counter moves towards the outcome.
unfoldable pub move_counter : Bool → ℕ → ℕ
move_counter resolve_dir counter =
    if not resolve_dir && ltb 0 counter
    then counter - 1
    else if resolve_dir && ltb counter t0_counter_max
    then counter + 1
    else counter

-- There is no provider before the first lookup only.
unfoldable pub update_provider_counter : Tage → Bool → Tage
update_provider_counter p resolve_dir = elim p.provider_index [
  | none ↦ p
  | some zero ↦ record p {
    base_predictor =
        set p.base_predictor p.provider_pred_index
          (move_counter resolve_dir (get_or p.base_predictor p.provider_pred_index 0));
  }
  | some (suc t) ↦
      let e = entry_at p (suc t) p.provider_pred_index in
      put_entry p (suc t) p.provider_pred_index
        (record e { counter = move_counter resolve_dir e.counter })
]

-- The loop of `AllocateNewEntries` over the `n` tables from `table` on.
unfoldable pub allocate : ℕ → ℕ → ℕ → ℕ → Tage → Tage
allocate pc zero table count p = p
allocate pc (suc n) table count p =
    let idx = u32 (get_tage_index p pc table) in
    let e = entry_at p table idx in
    let fresh : Entry = record {
      counter = ti_counter_max / 2;
      tag = u32 (get_tage_tag p pc table);
      useful = false;
    } in
    let free = allocate pc n (table + 1) (count + 1) (put_entry p table idx fresh) in
    let busy =
      allocate pc n (table + 1) count (put_entry p table idx (record e { useful = false })) in
    if leb max_allocations count then p else if e.useful then busy else free

-- `providerIndex + 1`, the first table of that loop.
abbrev pub next_table : Option ℕ → ℕ
next_table none = 0
next_table (some t) = t + 1

unfoldable pub allocate_new_entries : Tage → ℕ → Tage
allocate_new_entries p pc =
    let first = next_table p.provider_index in allocate pc (p.table_num + 1 - first) first 0 p

unfoldable pub set_u : Tage → Bool → Tage
set_u p truth_value = elim p.provider_index [
  | none ↦ p
  | some zero ↦ p
  | some (suc t) ↦
      let e = entry_at p (suc t) p.provider_pred_index in
      put_entry p (suc t) p.provider_pred_index (record e { useful = truth_value })
]

unfoldable pub update_history : Tage → Bool → Tage
update_history p resolve_dir = record p { history_buffer = shift_in resolve_dir p.history_buffer }

-- The useful bit and the trust in the alternate prediction, where the two predictions differ.
unfoldable pub update_useful : Tage → Bool → Tage
update_useful p resolve_dir =
    if same p.alt_provider_pred p.provider_pred
    then p
    else (let use_alt = p.use_alt_on_na in
        if same p.alt_provider_pred resolve_dir
        then record (set_u p false) {
          use_alt_on_na = if ltb use_alt use_alt_counter_max then use_alt + 1 else use_alt;
        }
        else record (set_u p true) {
          use_alt_on_na = if ltb 0 use_alt then use_alt - 1 else use_alt;
        })

unfoldable pub update_predictor : Tage → ℕ → Bool → Bool → Tage
update_predictor p pc resolve_dir pred_dir =
    let counted = update_provider_counter p resolve_dir in
    let allocated =
      if same resolve_dir pred_dir then counted else allocate_new_entries counted pc in
    update_history (update_useful allocated resolve_dir) resolve_dir

-- `predict`: whether the prediction was right.
unfoldable pub predict : Tage → ℕ → Bool → Tage × Bool
predict p branch_pc taken =
    let (q, pred) = get_prediction p branch_pc in
    (update_predictor q branch_pc taken pred, same taken pred)
