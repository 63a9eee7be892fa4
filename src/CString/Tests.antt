-- ===== src/CString/Tests.antt =====
-- Runs of the C library's string functions.
use power_pc_demo_os.Common.{
  ℕ, ◌+◌, ◌-◌, ◌%◌, ◌≤◌, ◌≡◌, refl, inr, true, not, some, arith, pos, [], ◌∷◌, get_or, ◌==◌, min,
}
use power_pc_demo_os.BitSearch.Highest.{all_below, all_below_at}
use power_pc_demo_os.CString.{Bytes, IsString}
use power_pc_demo_os.CString.Length.{strlen, strnlen}
use power_pc_demo_os.CString.Compare.{strcmp, strcmp_lem, IsBytes, Stops, sign}
use power_pc_demo_os.CString.Copy.{strcpy}
use power_pc_demo_os.CString.Bounded.{strlcpy, strlcpy_lem, terminated}
use power_pc_demo_os.CString.Search.{strstr, Occurs}
use power_pc_demo_os.CString.RoundTrip.{strcpy-strcmp}
use power_pc_demo_os.CString.Fill.{memset, memset_lem, filled}
use power_pc_demo_os.CString.Fill.Zero.{zero_block}
use power_pc_demo_os.CString.Fill.Zero.Blocks.{zero_block_lem}

-- "aaab" at 0, "aab" at 8, "ab" at 16.
abbrev memory : Bytes
memory p = text p % 256
  where
    text : ℕ → ℕ
    text p =
        get_or
          (b'a' ∷ b'a' ∷ b'a' ∷ b'b' ∷ 0 ∷ 0 ∷ 0 ∷ 0 ∷ b'a' ∷ b'a' ∷ b'b' ∷ 0 ∷ 0 ∷ 0 ∷ 0 ∷ 0 ∷ b'a'
            ∷ b'b' ∷ [])
          p 0

IsString-by :
    (s n : ℕ)
    → memory (s + n) ≡ 0
    → all_below n (λ i. not (memory (s + i) == 0)) ≡ true
    → IsString memory s n
IsString-by s n e a =
    (e, λ i lt z. ground (arith, all_below_at n (λ i. not (memory (s + i) == 0)) i a lt))

aaab : IsString memory 0 4
unfolding all_below
aaab = IsString-by 0 4 refl refl

aab : IsString memory 8 3
unfolding all_below
aab = IsString-by 8 3 refl refl

ab : IsString memory 16 2
unfolding all_below
ab = IsString-by 16 2 refl refl

memory-IsBytes : IsBytes memory
memory-IsBytes p = omega arith

strcmp_lem_example :
    (i : ℕ) × (i ≤ 4)
    × Stops memory 0 8 i
    × (strcmp 9 memory 0 8 ≡ some (sign (memory (0 + i)) (memory (8 + i))))
strcmp_lem_example = strcmp_lem 9 memory 0 8 4 memory-IsBytes aaab (omega arith)

strcpy-strcmp_example :
    (m' : Bytes) × (strcpy 9 memory 32 8 ≡ some (m', 32)) × (strcmp 9 m' 32 8 ≡ some (pos 0))
strcpy-strcmp_example =
    strcpy-strcmp 9 memory 32 8 3 memory-IsBytes aab (inr (omega arith)) (omega arith)

strlcpy_lem_example :
    (m' : Bytes) × (strlcpy 9 memory 32 0 3 ≡ some (m', 4))
    × ((p : ℕ) → m' p ≡ terminated memory 32 0 (min 4 (3 - 1)) p)
strlcpy_lem_example =
    strlcpy_lem 9 memory 32 0 3 4 aaab (omega arith) (inr (omega arith)) (omega arith)

memset_lem_example :
    (m' : Bytes) × (memset 20 memory 5 0x141 11 ≡ some m')
    × ((p : ℕ) → m' p ≡ filled memory 5 11 (0x141 % 256) p)
memset_lem_example = memset_lem 20 memory 5 0x141 11 (omega arith)

abbrev zero_line : Bytes → ℕ → Bytes
zero_line m a = filled m a 32 0

zero_block_lem_example :
    (m' : Bytes) × (zero_block zero_line 200 memory 3 100 ≡ some m')
    × ((p : ℕ) → m' p ≡ filled memory 3 100 0 p)
zero_block_lem_example =
    zero_block_lem zero_line 200 memory 3 100 (λ m a i p. refl) (omega arith) (omega arith)
      (omega arith)

-- "aab" stands in "aaab" and strstr does not find it.
overlap : (strstr 9 memory 0 8 ≡ some 0) × Occurs memory 1 8 3
unfolding strstr
overlap = (refl, λ i lt. ground (arith, all_below_at 3 (λ i. memory (1 + i) == memory (8 + i)) i))

found :
    (strstr 9 memory 0 16 ≡ some 2) × (strlen 9 memory 0 ≡ some 4) × (strnlen 9 memory 0 3 ≡ some 3)
unfolding strstr strlen strnlen
found = (refl, refl, refl)
