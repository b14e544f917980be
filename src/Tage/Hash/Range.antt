-- ===== src/Tage/Hash/Range.antt =====
-- The hashes of src/tage.cpp fit the tables and the tags.
use native.Mathlib.Nat.{one-le-pow, mod-lt, pow-suc}
use me_mo_tracer.Base.{
  ℕ, ◌-◌, ◌/◌, ◌%◌, ◌^◌, ◌<◌, ◌≡◌, refl, sym, subst, ◌∙◌, Bool, false, List, [], ◌∷◌, length,
  replicate, length-set, rounds, rounds_same, bit_xor-lt, arith,
}
use me_mo_tracer.Tage.BitSet.{
  MyBitSet, empty, set_bit, shift_left, to_ulong, shift_in, bits_to_ulong,
}
use me_mo_tracer.Tage.Entry.{Tage, hist_length}
use me_mo_tracer.Tage.Hash.{fold_index, get_tage_index, fold_tag, get_tage_tag}

-- `GetTageIndex` gives a slot of a table with `1 << index_size` entries.
pub get_tage_index-lt : (p : Tage) (pc table : ℕ) → get_tage_index p pc table < 2 ^ p.index_size
unfolding get_tage_index to_ulong fold_index set_bit shift_left empty
get_tage_index-lt p pc table =
    bit_xor-lt p.index_size (to_ulong folded) (pc % 2 ^ p.index_size)
      (subst (λ k. folded.word % 2 ^ k < 2 ^ p.index_size) (sym sized)
        (mod-lt _ (one-le-pow p.index_size 2 (omega arith))))
      (mod-lt _ (one-le-pow p.index_size 2 (omega arith)))
  where
    round : ℕ → MyBitSet → MyBitSet
    round sm s = fold_index p.index_size p.history_buffer (hist_length table - 1 - sm) sm s

    folded : MyBitSet
    folded = rounds round 0 (hist_length table / 2) (empty p.index_size)

    sized : folded.len ≡ p.index_size
    sized =
        rounds_same (λ (s : MyBitSet). s.len) round (λ sm s. refl) 0 (hist_length table / 2)
          (empty p.index_size)

pub length-shift_in : (b : Bool) (xs : List Bool) → length (shift_in b xs) ≡ length xs
length-shift_in b [] = refl
length-shift_in b (x ∷ xs) = omega (arith, length-shift_in x xs)

bits_to_ulong-lt : (bs : List Bool) → bits_to_ulong bs < 2 ^ length bs
unfolding bits_to_ulong
bits_to_ulong-lt [] = omega arith
bits_to_ulong-lt (b ∷ bs) = ground (arith, bits_to_ulong-lt bs, pow-suc 2 (length bs))

length-fold_tag :
    (history : List Bool) (lg sm : ℕ) (s : List Bool) → length (fold_tag history lg sm s) ≡ length s
unfolding fold_tag
length-fold_tag history lg sm s = length-set _ _ _ ∙ length-shift_in _ s

-- `GetTageTag` gives a tag of 14 bits.
pub get_tage_tag-lt : (p : Tage) (pc table : ℕ) → get_tage_tag p pc table < 2 ^ 14
unfolding get_tage_tag
get_tage_tag-lt p pc table =
    bit_xor-lt 14 (bits_to_ulong folded) (pc % 2 ^ 14)
      (subst (λ k. bits_to_ulong folded < 2 ^ k) sized (bits_to_ulong-lt folded)) (omega arith)
  where
    round : ℕ → List Bool → List Bool
    round sm s = fold_tag p.history_buffer (hist_length table - 1 - sm) sm s

    folded : List Bool
    folded = rounds round 0 (hist_length table / 2) (replicate 14 false)

    sized : length folded ≡ 14
    sized =
        rounds_same (λ (s : List Bool). length s) round
          (λ sm s. length-fold_tag p.history_buffer (hist_length table - 1 - sm) sm s) 0
          (hist_length table / 2) (replicate 14 false)
