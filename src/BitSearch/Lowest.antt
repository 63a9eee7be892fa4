-- ===== src/BitSearch/Lowest.antt =====
-- `findLeastSignificantBit32` and its 64-bit version against powers of two.
use power_pc_demo_os.Common.{
  ℕ, zero, suc, ◌+◌, ◌-◌, ◌*◌, ◌/◌, ◌%◌, ◌^◌, ◌<◌, ◌≡◌, refl, sym, Bool, true, false, ◌&&◌, ◌||◌,
  arith, ==_iff, ◌==◌, Bool-cases, inl, inr, ap, ◌∙◌, leb,
}
use native.Mathlib.Nat.{pow-zero, pow-suc}
use power_pc_demo_os.BitSearch.{lowest_of, find_lowest32, find_lowest64}
use power_pc_demo_os.BitSearch.Highest.{all_below, all_below_at, pow_add}

-- `r` is the number of the lowest set bit of `val`, from 1 on: `val` is an odd multiple of the power.
abbrev pub IsLowest : ℕ → ℕ → Type 0
IsLowest val r = (0 < r) × (k : ℕ) × (val ≡ (2 * k + 1) * 2 ^ (r - 1))

abbrev is_right : ℕ → Bool
is_right b =
    (b == 0)
    || ((b == (2 * (b / 2 ^ (lowest_of b + 1)) + 1) * 2 ^ lowest_of b)
        && (2 ^ (7 - lowest_of b) * 2 * 2 ^ lowest_of b == 256))

table_right : all_below 256 is_right ≡ true
unfolding all_below
table_right = refl

-- The table's entry of a byte that is not zero: the byte is an odd multiple of its power, which divides
-- 128.
byte_right :
    (b : ℕ)
    → 0 < b
    → b < 256
    → (k half : ℕ) × (b ≡ (2 * k + 1) * 2 ^ lowest_of b) × (half * 2 * 2 ^ lowest_of b ≡ 256)
byte_right b pos h =
    let at = all_below_at 256 is_right b table_right h in
    let k = b / 2 ^ (lowest_of b + 1) in
    let half = 2 ^ (7 - lowest_of b) in
    let (odd, whole) = go ((2 * k + 1) * 2 ^ lowest_of b) (half * 2 * 2 ^ lowest_of b) at in
    (k, half, odd, whole)
  where
    go : (lo hi : ℕ) → ((b == 0) || ((b == lo) && (hi == 256))) ≡ true → (b ≡ lo) × (hi ≡ 256)
    go lo hi e = ground arith

odd_multiple :
    (val b q s k half p ps : ℕ)
    → b ≡ (2 * k + 1) * p
    → half * 2 * p ≡ 256
    → val ≡ (q * 256 + b) * s
    → ps ≡ p * s
    → val ≡ (2 * (q * half + k) + 1) * ps
odd_multiple val b q s k half p ps odd whole v e =
    rw (v, odd, e) (omega (arith, ap (λ (t : ℕ). q * t * s) whole))

pow_pos : (n : ℕ) → 0 < 2 ^ n
pow_pos zero = rw (pow-zero 2) (omega arith)
pow_pos (suc n) = let some_below = pow_pos n in rw (pow-suc 2 n) (omega arith)

pow_sum : (n a b : ℕ) → n ≡ a + b → 2 ^ n ≡ 2 ^ a * 2 ^ b
pow_sum n a b e = rw e (pow_add a b)

pow_word : (a b : ℕ) → a + 1 + b ≡ 32 → 2 ^ a * 2 * 2 ^ b ≡ 2 ^ 32
pow_word a b e =
    let shift : 2 ^ (a + 1) ≡ 2 ^ a * 2 = pow_add a 1 in
    let whole : 2 ^ 32 ≡ 2 ^ (a + 1) * 2 ^ b = pow_sum 32 (a + 1) b (sym e) in
    sym (rw shift at whole)

lift :
    (val b q s : ℕ)
    → 0 < b
    → b < 256
    → val ≡ (q * 256 + b) * 2 ^ s
    → IsLowest val (lowest_of b + s + 1)
lift val b q s pos h v =
    let t = lowest_of b in
    let (k, half, odd, whole) = byte_right b pos h in
    let back : t + s + 1 - 1 ≡ t + s = omega arith in
    (
      omega arith,
      q * half + k,
      rw back (odd_multiple val b q (2 ^ s) k half (2 ^ t) (2 ^ (t + s)) odd whole v (pow_add t s)),
    )

-- `findLeastSignificantBit32` of a 32-bit word that is not zero is the number of its lowest set bit,
-- from 1 on.
pub find_lowest32-IsLowest : (val : ℕ) → 0 < val → val < 2 ^ 32 → IsLowest val (find_lowest32 val)
unfolding find_lowest32
find_lowest32-IsLowest val pos h = elim (Bool-cases (val % 2 ^ 16 == 0)) [
  | inr lower ↦ elim (Bool-cases (val % 256 == 0)) [
    | inr last ↦
        let l = lift val (val % 256) (val / 256) 0 (ground arith) (omega arith) (omega arith) in
        let e : lowest_of (val % 256) + 0 + 1 ≡ lowest_of (val % 256) + 1 = omega arith in
        rw (lower, last) (rw e at l)
    | inl none_last ↦
        rw (lower, none_last)
          (lift val ((val / 2 ^ 8) % 256) (val / 2 ^ 16) 8 (ground arith) (omega arith)
            (ground arith))
  ]
  | inl upper ↦ elim (Bool-cases ((val / 2 ^ 16) % 256 == 0)) [
    | inr mid ↦
        rw (upper, mid)
          (lift val ((val / 2 ^ 16) % 256) (val / 2 ^ 24) 16 (ground arith) (omega arith)
            (ground arith))
    | inl none_mid ↦
        let some_bit : (val == 0) ≡ false = ground arith in
        let l = lift val (val / 2 ^ 24) 0 24 (ground arith) (omega arith) (ground arith) in
        let e : lowest_of (val / 2 ^ 24) + 24 + 1 ≡ lowest_of (val / 2 ^ 24) + (24 + 1) =
          omega arith in
        rw (upper, none_mid, some_bit) (rw e at l)
  ]
]

-- `findLeastSignificantBit64` of a 64-bit word that is not zero is the number of its lowest set bit,
-- from 1 on.
pub find_lowest64-IsLowest : (val : ℕ) → 0 < val → val < 2 ^ 64 → IsLowest val (find_lowest64 val)
unfolding find_lowest64
find_lowest64-IsLowest val pos h = elim (Bool-cases (val % 2 ^ 32 == 0)) [
  | inr lower ↦
      let w = find_lowest32-IsLowest (val % 2 ^ 32) (ground arith) (omega arith) in
      rw lower (with_high (find_lowest32 (val % 2 ^ 32)) w)
  | inl upper ↦
      let some_bit : (val == 0) ≡ false = ground arith in
      let w = find_lowest32-IsLowest (val / 2 ^ 32) (ground arith) (omega arith) in
      rw (upper, some_bit) (raise (find_lowest32 (val / 2 ^ 32)) ((==_iff _ _).0 upper) w)
]
  where
    scaled :
        (x p k : ℕ)
        → val % 2 ^ 32 ≡ 0
        → val / 2 ^ 32 ≡ x
        → x ≡ (2 * k + 1) * p
        → val ≡ (2 * k + 1) * (p * 2 ^ 32)
    scaled x p k upper e g =
        let whole : val ≡ x * 2 ^ 32 = omega (arith, upper, e) in rw (whole, g) (omega arith)

    raise : (r : ℕ) → val % 2 ^ 32 ≡ 0 → IsLowest (val / 2 ^ 32) r → IsLowest val (r + 32)
    raise r upper (some_bit, k, e) =
        let back : r + 32 - 1 ≡ r - 1 + 32 = omega (arith, some_bit) in
        (
          omega arith,
          k,
          rw (back, pow_add (r - 1) 32)
              (scaled ((2 * k + 1) * 2 ^ (r - 1)) (2 ^ (r - 1)) k upper e refl),
        )

    too_high : (p d k : ℕ) → val % 2 ^ 32 ≡ (2 * k + 1) * p → 0 < d → p ≡ d * 2 ^ 32 → ⊥
    too_high p d k e pos g = omega (arith, rw g at e)

    joined :
        (p half k : ℕ)
        → val % 2 ^ 32 ≡ (2 * k + 1) * p
        → half * 2 * p ≡ 2 ^ 32
        → val ≡ (2 * (val / 2 ^ 32 * half + k) + 1) * p
    joined p half k e whole =
        let all : val ≡ val / 2 ^ 32 * 2 ^ 32 + val % 2 ^ 32 = omega arith in
        let w = ap (λ (t : ℕ). val / 2 ^ 32 * t) whole in all ∙ omega (arith, e, w)

    with_high : (r : ℕ) → IsLowest (val % 2 ^ 32) r → IsLowest val r
    with_high r (some_bit, k, e) = elim (Bool-cases (leb 33 r)) [
      | inl high ↦ absurd (
          too_high (2 ^ (r - 1)) (2 ^ (r - 1 - 32)) k e (pow_pos (r - 1 - 32))
            (pow_sum (r - 1) (r - 1 - 32) 32 (ground arith)))
      | inr low ↦
          let split : 32 - r + 1 + (r - 1) ≡ 32 = ground arith in
          let half = 2 ^ (32 - r) in
          (
            some_bit,
            val / 2 ^ 32 * half + k,
            joined (2 ^ (r - 1)) half k e (pow_word (32 - r) (r - 1) split),
          )
    ]
