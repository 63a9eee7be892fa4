-- ===== src/Common/Words.antt =====
-- `word_t`, `addr_t`, `u32`: 32-bit unsigned numbers with their wrap-around (include/types.h).
use Prim.Native.Nat.{ℕ, ◌+◌, ◌-◌, ◌%◌, ◌^◌, ◌<◌, ◌≤◌, bit_and}
use mathlib.Core.Path.{◌≡◌}
use native.Mathlib.Omega.{arith}

abbrev pub word_size : ℕ
word_size = 2 ^ 32

unfoldable pub add_word : ℕ → ℕ → ℕ
add_word a b = (a + b) % word_size

unfoldable pub sub_word : ℕ → ℕ → ℕ
sub_word a b = (a + word_size - b) % word_size

-- `~(align - 1)` is `2 ^ 32 - align`.
unfoldable pub align_down : ℕ → ℕ → ℕ
align_down arg align = bit_and arg (word_size - align)

unfoldable pub align_up : ℕ → ℕ → ℕ
unfolding add_word align_down
align_up arg align = align_down (add_word arg (align - 1)) align

pub add_word-small : (a b : ℕ) → a + b < word_size → add_word a b ≡ a + b
unfolding add_word
add_word-small a b h = omega arith

pub sub_word-small : (a b : ℕ) → a < word_size → b ≤ a → sub_word a b ≡ a - b
unfolding sub_word
sub_word-small a b h l = omega arith
