-- ===== src/Tage/Hash.antt =====
-- `GetTageIndex` and `GetTageTag` of src/tage.cpp. They are called for tables 1 to 8.
pub mod Range
pub mod Blind
use Prim.Native.Nat.{bit_xor}
use mathlib.Core.Bool.{xor}
use me_mo_tracer.Base.{
  ℕ, ◌+◌, ◌-◌, ◌*◌, ◌/◌, ◌%◌, ◌^◌, Bool, true, false, List, get_or, set, replicate, rounds,
}
use me_mo_tracer.Tage.BitSet.{
  MyBitSet, empty, get, set_bit, shift_left, to_ulong, shift_in, bits_to_ulong,
}
use me_mo_tracer.Tage.Entry.{Tage, hist_length, tage_tag_size}

-- One round of the folding loop of `GetTageIndex`.
unfoldable pub fold_index : ℕ → List Bool → ℕ → ℕ → MyBitSet → MyBitSet
fold_index index_size history lg sm sub_history =
    let last_val = get sub_history (index_size - 1) in
    let mid_val = get sub_history (index_size / 2 - 1) in
    let shifted = shift_left sub_history 1 in
    let low = set_bit shifted 0 (xor last_val (get_or history sm false)) in
    set_bit low (index_size / 2) (xor mid_val (get_or history lg false))

-- The loop runs while `sm <= lg`, with `lg` at `len - 1 - sm`: `len / 2` rounds, since `len` is even.
-- The assertion that `index_size` is at most 64 is left to the caller.
unfoldable pub get_tage_index : Tage → ℕ → ℕ → ℕ
get_tage_index p pc table_num =
    let len = hist_length table_num in
    let sub_history =
      rounds
        (λ (sm : ℕ) (s : MyBitSet). fold_index p.index_size p.history_buffer (len - 1 - sm) sm s) 0
        (len / 2) (empty p.index_size) in
    bit_xor (to_ulong sub_history) (pc % 2 ^ p.index_size)

-- One round of the folding loop of `GetTageTag`.
unfoldable pub fold_tag : List Bool → ℕ → ℕ → List Bool → List Bool
fold_tag history lg sm sub_history =
    let last_val = get_or sub_history (tage_tag_size - 1) false in
    let mid_val = get_or sub_history (tage_tag_size / 2 - 1) false in
    let low = shift_in (xor last_val (get_or history sm false)) sub_history in
    set low (tage_tag_size / 2) (xor mid_val (get_or history lg false))

unfoldable pub get_tage_tag : Tage → ℕ → ℕ → ℕ
get_tage_tag p pc table_num =
    let len = hist_length table_num in
    let sub_history =
      rounds (λ (sm : ℕ) (s : List Bool). fold_tag p.history_buffer (len - 1 - sm) sm s) 0 (len / 2)
        (replicate tage_tag_size false) in
    bit_xor (bits_to_ulong sub_history) (pc % 2 ^ tage_tag_size)
