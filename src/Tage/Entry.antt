-- ===== src/Tage/Entry.antt =====
-- The state of `BranchPredictorTage` (src/tage.h) and its construction.
use me_mo_tracer.Base.{
  ℕ, ◌/◌, ◌*◌, ◌^◌, Bool, false, List, [], ◌∷◌, Option, none, replicate, get_or, set,
}

-- `TageEntry`.
pub record Entry : Type 0 where
  pub counter : ℕ
  pub tag : ℕ
  pub useful : Bool

abbrev pub blank : Entry
blank = record { counter = 0; tag = 0; useful = false }

-- `BranchPredictorTage`; an index that is -1 in the source is `none`.
pub record Tage : Type 0 where
  pub history_buffer : List Bool
  pub provider_index : Option ℕ
  pub alt_provider_index : Option ℕ
  pub use_alt_on_na : ℕ
  pub provider_pred_index : ℕ
  pub provider_pred : Bool
  pub alt_provider_pred : Bool
  pub table_num : ℕ
  pub index_size : ℕ
  pub base_predictor : List ℕ
  pub tage : List (List Entry)

abbrev pub t0_counter_max : ℕ
t0_counter_max = 7

abbrev pub ti_counter_max : ℕ
ti_counter_max = 7

abbrev pub use_alt_counter_max : ℕ
use_alt_counter_max = 7

abbrev pub base_predictor_size : ℕ
base_predictor_size = 128

abbrev pub tage_tag_size : ℕ
tage_tag_size = 14

abbrev pub hist_buffer_size : ℕ
hist_buffer_size = 64

abbrev pub max_allocations : ℕ
max_allocations = 1

-- `hist_lengths`: 0, 8, 16, ..., 64.
abbrev pub hist_length : ℕ → ℕ
hist_length table = 8 * table

-- The constructor asserts that there are at most 8 tables, which is left to the caller.
unfoldable pub init : ℕ → ℕ → Tage
init table_num index_size = record {
  history_buffer = replicate hist_buffer_size false;
  provider_index = none;
  alt_provider_index = none;
  use_alt_on_na = 0;
  provider_pred_index = 99999;
  provider_pred = false;
  alt_provider_pred = false;
  table_num = table_num;
  index_size = index_size;
  base_predictor = replicate base_predictor_size (t0_counter_max / 2);
  tage = [] ∷ replicate table_num (replicate (2 ^ index_size) blank);
}

-- `tage[table][idx]`.
unfoldable pub entry_at : Tage → ℕ → ℕ → Entry
entry_at p table idx = get_or (get_or p.tage table []) idx blank

-- `tage[table][idx] = e`.
unfoldable pub put_entry : Tage → ℕ → ℕ → Entry → Tage
put_entry p table idx e = record p { tage = set p.tage table (set (get_or p.tage table []) idx e) }
