-- ===== src/Common/Int.antt =====
-- `sint`, `s32`: signed numbers, as counters use them. A counter that stays within a machine word is
-- an integer; `minus` is the difference of two numbers.
use Prim.Native.Nat.{ℕ, zero, suc, ◌+◌, ◌<◌}
use mathlib.Core.Path.{◌≡◌, refl}
use mathlib.Core.Bool.{Bool, true, false}
use native.Mathlib.Omega.{arith}
use power_pc_demo_os.Common.Tests.{ltb}

pub data ℤ : Type 0 where
  pos negsuc : ℕ → ℤ

unfoldable pub inc : ℤ → ℤ
inc (pos n) = pos (suc n)
inc (negsuc zero) = pos zero
inc (negsuc (suc n)) = negsuc n

unfoldable pub dec : ℤ → ℤ
dec (pos zero) = negsuc zero
dec (pos (suc n)) = pos n
dec (negsuc n) = negsuc (suc n)

unfoldable pub is_negative : ℤ → Bool
is_negative (pos n) = false
is_negative (negsuc n) = true

unfoldable pub is_positive : ℤ → Bool
is_positive (pos zero) = false
is_positive (pos (suc n)) = true
is_positive (negsuc n) = false

unfoldable pub minus : ℕ → ℕ → ℤ
minus a zero = pos a
minus zero (suc b) = negsuc b
minus (suc a) (suc b) = minus a b

pub minus-zero : (a : ℕ) → minus a zero ≡ pos a
unfolding minus
minus-zero a = refl

pub inc-minus : (a b : ℕ) → inc (minus a b) ≡ minus (suc a) b
unfolding inc minus
inc-minus a zero = refl
inc-minus zero (suc zero) = refl
inc-minus zero (suc (suc b)) = refl
inc-minus (suc a) (suc b) = inc-minus a b

pub inc-minus-suc : (a b : ℕ) → inc (minus a (suc b)) ≡ minus a b
unfolding inc minus
inc-minus-suc zero zero = refl
inc-minus-suc zero (suc b) = refl
inc-minus-suc (suc a) b = inc-minus a b

pub dec-minus : (a b : ℕ) → dec (minus a b) ≡ minus a (suc b)
unfolding dec minus
dec-minus zero zero = refl
dec-minus (suc a) zero = refl
dec-minus zero (suc b) = refl
dec-minus (suc a) (suc b) = dec-minus a b

pub is_negative-minus : (a b : ℕ) → is_negative (minus a b) ≡ ltb a b
unfolding is_negative minus
is_negative-minus a zero = ground arith
is_negative-minus zero (suc b) = ground arith
is_negative-minus (suc a) (suc b) = ground (arith, is_negative-minus a b)

pub is_positive-minus : (a b : ℕ) → is_positive (minus a b) ≡ ltb b a
unfolding is_positive minus
is_positive-minus zero zero = ground arith
is_positive-minus (suc a) zero = ground arith
is_positive-minus zero (suc b) = ground arith
is_positive-minus (suc a) (suc b) = ground (arith, is_positive-minus a b)

unfoldable pub is_zero : ℤ → Bool
is_zero (pos zero) = true
is_zero (pos (suc n)) = false
is_zero (negsuc n) = false

-- `z < n`
unfoldable pub is_below : ℤ → ℕ → Bool
is_below (pos m) n = ltb m n
is_below (negsuc m) n = true

pub is_below-minus : (a b n : ℕ) → a < n + b → is_below (minus a b) n ≡ true
unfolding is_below minus
is_below-minus a zero n h = ground arith
is_below-minus zero (suc b) n h = refl
is_below-minus (suc a) (suc b) n h = is_below-minus a b n (omega arith)

pub dec-inc : (n : ℕ) → dec (inc (pos n)) ≡ pos n
unfolding inc dec
dec-inc n = refl

pub inc-pos : (n : ℕ) → inc (pos n) ≡ pos (suc n)
unfolding inc
inc-pos n = refl

pub dec-pos : (n : ℕ) → dec (pos (suc n)) ≡ pos n
unfolding dec
dec-pos n = refl

pub is_zero-pos : (n : ℕ) → is_zero (pos n) ≡ true → n ≡ zero
unfolding is_zero
is_zero-pos zero e = refl
is_zero-pos (suc n) e = absurd (ground arith)

pub is_zero-pos_not : (n : ℕ) → is_zero (pos n) ≡ false → zero < n
unfolding is_zero
is_zero-pos_not zero e = absurd (ground arith)
is_zero-pos_not (suc n) e = omega arith

pub is_zero-zero : is_zero (pos zero) ≡ true
unfolding is_zero
is_zero-zero = refl

pub is_positive-pos : (n : ℕ) → is_positive (pos (suc n)) ≡ true
unfolding is_positive
is_positive-pos n = refl
