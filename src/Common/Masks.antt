-- ===== src/Common/Masks.antt =====
-- `alignUp` and `alignDown` of include/types.h as arithmetic, for the alignments of a word and of a
-- cache line: the mask keeps the high digits of a word.
use Prim.Native.Nat.{
  ℕ, zero, suc, ◌+◌, ◌-◌, ◌*◌, ◌/◌, ◌%◌, ◌^◌, ◌<◌, ◌≤◌, digits, min, bit_and-bitwise,
}
use mathlib.Core.Path.{◌≡◌, refl, ◌∙◌}
use native.Mathlib.Omega.{arith}
use native.Mathlib.Nat.{pow-zero, pow-suc}
use power_pc_demo_os.Common.Words.{word_size, align_down, align_up, add_word}

abbrev masked : ℕ → ℕ → ℕ → ℕ
masked fuel a b = digits (λ b. zero) min fuel a b

-- A mask of `n` ones keeps a number of `n` digits.
masked_ones : (n fuel a : ℕ) → a ≤ fuel → a < 2 ^ n → masked fuel a (2 ^ n - 1) ≡ a
masked_ones n zero zero l h = refl
masked_ones n zero (suc a) l h = absurd (omega arith)
masked_ones n (suc fuel) zero l h = refl
masked_ones zero (suc fuel) (suc a) l h = absurd (omega (arith, pow-zero 2))
masked_ones (suc n) (suc fuel) (suc a) l h =
    let p = pow-suc 2 n in
    let half : (2 ^ suc n - 1) / 2 ≡ 2 ^ n - 1 = omega (arith, p) in
    let odd : (2 ^ suc n - 1) % 2 ≡ 1 = omega (arith, p) in
    let ih = masked_ones n fuel (suc a / 2) (omega arith) (omega (arith, p)) in
    rw (half, odd, ih) (omega arith)

-- `b` behind `k` zeros, and a number without its lowest `k` digits.
abbrev shifted : ℕ → ℕ → ℕ
shifted zero b = b
shifted (suc k) b = shifted k b * 2

abbrev cut : ℕ → ℕ → ℕ
cut zero a = a
cut (suc k) a = cut k (a / 2) * 2

abbrev Fits : ℕ → ℕ → ℕ → Type 0
Fits zero n a = a < 2 ^ n
Fits (suc k) n a = Fits k n (a / 2)

cut_zero : (k : ℕ) → cut k 0 ≡ 0
cut_zero zero = refl
cut_zero (suc k) = let ih = cut_zero k in omega arith

masked_high :
    (k n fuel a : ℕ) → a ≤ fuel → Fits k n a → masked fuel a (shifted k (2 ^ n - 1)) ≡ cut k a
masked_high zero n fuel a l h = masked_ones n fuel a l h
masked_high (suc k) n zero zero l h = omega (arith, cut_zero k)
masked_high (suc k) n zero (suc a) l h = absurd (omega arith)
masked_high (suc k) n (suc fuel) zero l h = omega (arith, cut_zero k)
masked_high (suc k) n (suc fuel) (suc a) l h =
    let ones = shifted k (2 ^ n - 1) in
    let half : ones * 2 / 2 ≡ ones = omega arith in
    let even : ones * 2 % 2 ≡ 0 = omega arith in
    let ih = masked_high k n fuel (suc a / 2) (omega arith) h in rw (half, even, ih) (omega arith)

pub align_down_four : (a : ℕ) → a < word_size → align_down a 4 ≡ a - a % 4
unfolding align_down
align_down_four a h =
    bit_and-bitwise a (word_size - 4)
    ∙ masked_high 2 30 a a (omega arith) (omega arith)
    ∙ (omega arith)

pub align_down_line : (a : ℕ) → a < word_size → align_down a 32 ≡ a - a % 32
unfolding align_down
align_down_line a h =
    bit_and-bitwise a (word_size - 32)
    ∙ masked_high 5 27 a a (omega arith) (omega arith)
    ∙ (omega arith)

pub align_up_four : (a : ℕ) → a + 3 < word_size → align_up a 4 ≡ a + 3 - (a + 3) % 4
unfolding align_up add_word
align_up_four a h =
    let e : (a + 3) % word_size ≡ a + 3 = omega arith in rw e (align_down_four (a + 3) h)

pub align_up_line : (a : ℕ) → a + 31 < word_size → align_up a 32 ≡ a + 31 - (a + 31) % 32
unfolding align_up add_word
align_up_line a h =
    let e : (a + 31) % word_size ≡ a + 31 = omega arith in rw e (align_down_line (a + 31) h)
