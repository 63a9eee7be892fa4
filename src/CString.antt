-- ===== src/CString.antt =====
-- generic/libc/string and the copying routines of kernel/src/arch/powerpc/string.cpp: the memory
-- that they read and write, one byte at each address, and what a string in it is. A `char` is
-- signed (-fsigned-char), a byte is what it is stored as.
pub mod Length
pub mod Compare
pub mod Search
pub mod RoundTrip
pub mod Copy
pub mod Block
pub mod Bounded
pub mod Cut
pub mod Fill
mod Tests
use power_pc_demo_os.Common.{
  ℕ, zero, suc, ◌+◌, ◌-◌, ◌≤◌, ◌<◌, ◌≡◌, ◌≢◌, ap, sym, ◌∙◌, Bool, ◌&&◌, ltb, leb, if◌then◌else◌,
  arith,
}

abbrev pub Bytes : Type 0
Bytes = ℕ → ℕ

-- `n` bytes that are not EOS, and EOS behind them.
abbrev pub IsString : Bytes → ℕ → ℕ → Type 0
IsString m s n = (m (s + n) ≡ 0) × ((i : ℕ) → i < n → m (s + i) ≢ 0)

-- `[a, a + n)` as a test.
abbrev pub within : ℕ → ℕ → ℕ → Bool
within a n p = leb a p && ltb p (a + n)

-- The memory in which the `n` bytes from `from` on are also at `to`.
abbrev pub copied : Bytes → ℕ → ℕ → ℕ → Bytes
copied m to from n p = if within to n p then m (from + (p - to)) else m p

-- The same at the next address.
pub step : (m : Bytes) (s i : ℕ) → m (s + 1 + i) ≡ m (s + suc i)
step m s i = ap m (omega arith)

pub start : (m : Bytes) (s : ℕ) → m (s + 0) ≡ m s
start m s = ap m (omega arith)

pub tail-IsString : (m : Bytes) (s n : ℕ) → IsString m s (suc n) → IsString m (s + 1) n
tail-IsString m s n h =
    (step m s n ∙ h.0, λ i lt e. h.1 (suc i) (omega arith) (sym (step m s i) ∙ e))

pub head_char : (m : Bytes) (s n : ℕ) → IsString m s (suc n) → m s ≢ 0
head_char m s n h e = h.1 0 (omega arith) (start m s ∙ e)
