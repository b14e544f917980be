-- ===== src/Tage/BitSet.antt =====
-- src/mybitset.h (`MyBitSet`, a word with a length), and the `std::bitset` of src/tage.cpp as the
-- list of its bits, bit 0 first.
use Prim.Native.Nat.{bit_and, bit_or}
use me_mo_tracer.Base.{ℕ, ◌+◌, ◌-◌, ◌*◌, ◌%◌, ◌^◌, Bool, true, false, not, List, [], ◌∷◌, ◌==◌}

pub record MyBitSet : Type 0 where
  pub len : ℕ
  pub word : ℕ

unfoldable pub empty : ℕ → MyBitSet
empty len = record { len = len; word = 0 }

unfoldable pub bit_mask : ℕ → ℕ
bit_mask pos = 2 ^ pos % 2 ^ 64

unfoldable pub get : MyBitSet → ℕ → Bool
unfolding bit_mask
get s pos = not (bit_and s.word (bit_mask pos) == 0)

-- The value that the caller passes is not read.
unfoldable pub set_bit : MyBitSet → ℕ → Bool → MyBitSet
unfolding bit_mask
set_bit s pos val = record s {
  word = bit_or (bit_and s.word (2 ^ 64 - 1 - bit_mask pos)) (bit_mask pos);
}

unfoldable pub shift_left : MyBitSet → ℕ → MyBitSet
shift_left s shift = record s { word = s.word * 2 ^ shift % 2 ^ 64 }

-- `data & ((1 << len) - 1)`.
unfoldable pub to_ulong : MyBitSet → ℕ
to_ulong s = s.word % 2 ^ s.len

-- `bits <<= 1; bits[0] = b`: the last bit falls out.
abbrev pub shift_in : Bool → List Bool → List Bool
shift_in b [] = []
shift_in b (x ∷ xs) = b ∷ shift_in x xs

abbrev pub bit_value : Bool → ℕ
bit_value true = 1
bit_value false = 0

unfoldable pub bits_to_ulong : List Bool → ℕ
bits_to_ulong [] = 0
bits_to_ulong (b ∷ bs) = bit_value b + 2 * bits_to_ulong bs
