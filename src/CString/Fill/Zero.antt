-- ===== src/CString/Fill/Zero.antt =====
-- zero_block of kernel/src/arch/powerpc/string.cpp: bytes up to a word, words up to a cache line,
-- lines, and back again.
pub mod Strides
pub mod Blocks
use power_pc_demo_os.Common.{
  ℕ, zero, suc, ◌+◌, ◌-◌, ◌*◌, ◌/◌, ◌%◌, ◌^◌, ◌≤◌, ◌<◌, ◌≡◌, ◌≢◌, ◌⊎◌, ◌↔◌, inl, inr, refl, sym, ap,
  ap₂, ◌∙◌, Bool, true, false, not, ◌&&◌, ◌||◌, Option, none, some, ◌==◌, ==_iff, ltb, leb,
  if◌then◌else◌, arith, update, ◌>>=◌, bind_some, Bool-cases, min, word_size, add_word, sub_word,
  add_word-small, sub_word-small, align_up, align_down, align_down_four, align_down_line,
  align_up_four, align_up_line,
}
use power_pc_demo_os.CString.{Bytes, within}
use power_pc_demo_os.CString.Fill.{store_word, filled, filled_add, Filled}
use native.Mathlib.Nat.{mul-suc}

-- `for(; start < tmp; start += stride)`, with what the loop writes at an address.
unfoldable pub clear_loop : ℕ → (Bytes → ℕ → Bytes) → ℕ → Bytes → ℕ → ℕ → Option (Bytes × ℕ)
clear_loop zero write stride m start tmp = none
clear_loop (suc fuel) write stride m start tmp =
    let rest = clear_loop fuel write stride (write m start) (add_word start stride) tmp in
    if ltb start tmp then rest else some (m, start)

abbrev pub clear_byte : Bytes → ℕ → Bytes
clear_byte m a = update m a 0

abbrev pub clear_word : Bytes → ℕ → Bytes
clear_word m a = store_word m a 0

-- The label `byte1`: up to `last`, and the byte there.
unfoldable pub zero_bytes : ℕ → Bytes → ℕ → ℕ → Option Bytes
unfolding clear_loop
zero_bytes fuel m start last = do
  (m', start') ← clear_loop fuel clear_byte 1 m start last
  some (update m' start' 0)

-- The label `word4`.
unfoldable pub zero_words : ℕ → Bytes → ℕ → ℕ → Option Bytes
unfolding clear_loop zero_bytes
zero_words fuel m start last = do
  (m', start') ← clear_loop fuel clear_word 4 m start (align_down last 4)
  zero_bytes fuel m' start' last

-- From a word's address on. `zero_line` is the instruction dcbz of cacheZeroBlock.
unfoldable pub zero_aligned : (Bytes → ℕ → Bytes) → ℕ → Bytes → ℕ → ℕ → Option Bytes
unfolding clear_loop zero_bytes zero_words
zero_aligned zero_line fuel m start last =
    let line = align_up start 32 in
    let by_lines = do
      (m2, s2) ← clear_loop fuel clear_word 4 m start line
      (m3, s3) ← clear_loop fuel zero_line 32 m2 s2 (align_down last 32)
      zero_words fuel m3 s3 last
    in if leb last line then zero_words fuel m start last else by_lines

unfoldable pub zero_to : (Bytes → ℕ → Bytes) → ℕ → Bytes → ℕ → ℕ → Option Bytes
unfolding clear_loop zero_bytes zero_aligned
zero_to zero_line fuel m start last =
    let word = align_up start 4 in
    let by_words = do
      (m1, s1) ← clear_loop fuel clear_byte 1 m start word
      zero_aligned zero_line fuel m1 s1 last
    in if leb last word then zero_bytes fuel m start last else by_words

unfoldable pub zero_block : (Bytes → ℕ → Bytes) → ℕ → Bytes → ℕ → ℕ → Option Bytes
unfolding clear_loop zero_bytes zero_words zero_aligned zero_to
zero_block zero_line fuel m dst size = zero_to zero_line fuel m dst (add_word dst (sub_word size 1))
