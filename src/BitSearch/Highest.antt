-- ===== src/BitSearch/Highest.antt =====
-- `findMostSignificantBit32` and its 64-bit version against powers of two.
use power_pc_demo_os.Common.{
  ℕ, zero, suc, ◌+◌, ◌-◌, ◌*◌, ◌/◌, ◌%◌, ◌^◌, ◌≤◌, ◌<◌, ◌≡◌, refl, Bool, true, false, ◌&&◌, ◌||◌,
  arith, ltb, leb, ◌==◌, ==_iff, Bool-cases, inl, inr,
}
use power_pc_demo_os.BitSearch.{highest_of, find_highest32, find_highest64}
use native.Mathlib.Nat.{pow-zero, pow-suc, mul_assoc, mul-le-mul_right}

unfoldable pub all_below : ℕ → (ℕ → Bool) → Bool
all_below zero p = true
all_below (suc n) p = p n && all_below n p

pub all_below_at : (n : ℕ) (p : ℕ → Bool) (k : ℕ) → all_below n p ≡ true → k < n → p k ≡ true
unfolding all_below
all_below_at zero p k a h = absurd (omega arith)
all_below_at (suc n) p k a h = elim (Bool-cases (k == n)) [
  | inl same ↦ let e = (==_iff k n).0 same in rw e (ground arith)
  | inr other ↦ all_below_at n p k (ground arith) (ground arith)
]

abbrev is_right : ℕ → Bool
is_right b = (b == 0) || (leb (2 ^ highest_of b) b && ltb b (2 ^ (highest_of b + 1)))

table_right : all_below 256 is_right ≡ true
unfolding all_below
table_right = refl

-- The table's entry of a byte that is not zero is the number of its highest bit, from 0 on.
byte_right : (b : ℕ) → 0 < b → b < 256 → (2 ^ highest_of b ≤ b) × (b < 2 ^ (highest_of b + 1))
byte_right b pos h =
    let at = all_below_at 256 is_right b table_right h in
    go (2 ^ highest_of b) (2 ^ (highest_of b + 1)) at
  where
    go : (lo hi : ℕ) → ((b == 0) || (leb lo b && ltb b hi)) ≡ true → (lo ≤ b) × (b < hi)
    go lo hi e = ground arith

pub pow_add : (a s : ℕ) → 2 ^ (a + s) ≡ 2 ^ a * 2 ^ s
pow_add a zero = let e : a + 0 ≡ a = omega arith in rw (e, pow-zero 2) (omega arith)
pow_add a (suc s) =
    let e : a + suc s ≡ suc (a + s) = omega arith in
    rw (e, pow-suc 2 (a + s), pow-suc 2 s, pow_add a s) (mul_assoc (2 ^ a) (2 ^ s) 2)

-- `r` is the number of the highest set bit of `val`, from 1 on.
abbrev pub IsHighest : ℕ → ℕ → Type 0
IsHighest val r = (0 < r) × (2 ^ (r - 1) ≤ val) × (val < 2 ^ r)

lift :
    (val b s : ℕ)
    → 0 < b
    → b < 256
    → b * 2 ^ s ≤ val
    → val < (b + 1) * 2 ^ s
    → IsHighest val (highest_of b + s + 1)
lift val b s pos h lo hi =
    let t = highest_of b in
    let r = byte_right b pos h in
    let down = mul-le-mul_right (2 ^ s) r.0 in
    let up = mul-le-mul_right (2 ^ s) r.1 in
    let back : t + s + 1 - 1 ≡ t + s = omega arith in
    let next : t + s + 1 ≡ t + 1 + s = omega arith in
    (
      omega arith,
      rw (back, pow_add t s) (bound down lo),
      rw (next, pow_add (t + 1) s) (bound_lt hi (suc_le up)),
    )
  where
    bound : {a b c : ℕ} → a ≤ b → b ≤ c → a ≤ c
    bound p q = omega arith

    bound_lt : {a b c : ℕ} → a < b → b ≤ c → a < c
    bound_lt p q = omega arith

    suc_le : {c : ℕ} → suc b * 2 ^ s ≤ c → (b + 1) * 2 ^ s ≤ c
    suc_le p = let e : suc b ≡ b + 1 = omega arith in rw e at p

-- `findMostSignificantBit32` of a 32-bit word that is not zero is the number of its highest set bit,
-- from 1 on.
pub find_highest32-IsHighest :
    (val : ℕ) → 0 < val → val < 2 ^ 32 → IsHighest val (find_highest32 val)
unfolding find_highest32
find_highest32-IsHighest val pos h = elim (Bool-cases (val / 2 ^ 16 == 0)) [
  | inr upper ↦ elim (Bool-cases (val / 2 ^ 24 == 0)) [
    | inr top ↦
        rw (upper, top)
          (lift val (val / 2 ^ 24) 24 (ground arith) (omega arith) (omega arith) (omega arith))
    | inl low ↦
        rw (upper, low)
          (lift val ((val / 2 ^ 16) % 256) 16 (ground arith) (omega arith) (ground arith)
            (ground arith))
  ]
  | inl lower ↦ elim (Bool-cases ((val / 2 ^ 8) % 256 == 0)) [
    | inr top ↦
        rw (lower, top)
          (lift val ((val / 2 ^ 8) % 256) 8 (ground arith) (omega arith) (ground arith)
            (ground arith))
    | inl low ↦
        let some_bit : (val == 0) ≡ false = ground arith in
        let small : val % 256 ≡ val = ground arith in
        let l = lift val (val % 256) 0 (omega arith) (omega arith) (omega arith) (omega arith) in
        let e : highest_of (val % 256) + 0 + 1 ≡ highest_of (val % 256) + 1 = omega arith in
        rw (lower, low, some_bit) (rw e at l)
  ]
]

-- `findMostSignificantBit64` of a 64-bit word that is not zero is the number of its highest set bit,
-- from 1 on.
pub find_highest64-IsHighest :
    (val : ℕ) → 0 < val → val < 2 ^ 64 → IsHighest val (find_highest64 val)
unfolding find_highest64
find_highest64-IsHighest val pos h = elim (Bool-cases (val / 2 ^ 32 == 0)) [
  | inr upper ↦
      let w = find_highest32-IsHighest (val / 2 ^ 32) (ground arith) (omega arith) in
      rw upper (raise (find_highest32 (val / 2 ^ 32)) w)
  | inl lower ↦
      let small : val % 2 ^ 32 ≡ val = ground arith in
      rw (lower, small) (find_highest32-IsHighest val pos (ground arith))
]
  where
    scaled : (x : ℕ) → x ≤ val / 2 ^ 32 → x * 2 ^ 32 ≤ val
    scaled x i = omega arith

    scaled_lt : (x : ℕ) → val / 2 ^ 32 < x → val < x * 2 ^ 32
    scaled_lt x i = omega arith

    raise : (r : ℕ) → IsHighest (val / 2 ^ 32) r → IsHighest val (r + 32)
    raise r w =
        let back : r + 32 - 1 ≡ r - 1 + 32 = omega (arith, w.0) in
        let p = pow_add (r - 1) 32 in
        let q = pow_add r 32 in
        (omega arith, rw (back, p) (scaled (2 ^ (r - 1)) w.1), rw q (scaled_lt (2 ^ r) w.2))
