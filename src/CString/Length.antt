-- ===== src/CString/Length.antt =====
-- strlen and strnlen.
use power_pc_demo_os.Common.{
  ℕ, zero, suc, ◌+◌, ◌-◌, ◌<◌, ◌≡◌, sym, ap, ◌∙◌, not, ◌&&◌, Option, none, some, ◌==◌, ltb,
  if◌then◌else◌, arith, min,
}
use power_pc_demo_os.CString.{Bytes, IsString, start, tail-IsString, head_char}

strlen_loop : ℕ → Bytes → ℕ → ℕ → Option ℕ
strlen_loop zero m src cnt = none
strlen_loop (suc fuel) m src cnt =
    let rest = strlen_loop fuel m src (cnt + 1) in if m (src + cnt) == 0 then some cnt else rest

unfoldable pub strlen : ℕ → Bytes → ℕ → Option ℕ
unfolding strlen_loop
strlen fuel m src = strlen_loop fuel m src 0

strnlen_loop : ℕ → Bytes → ℕ → ℕ → ℕ → Option ℕ
strnlen_loop zero m s maxlen st_len = none
strnlen_loop (suc fuel) m s maxlen st_len =
    let rest = strnlen_loop fuel m (s + 1) (maxlen - 1) (st_len + 1) in
    if not (m s == 0) && ltb 0 maxlen then rest else some st_len

unfoldable pub strnlen : ℕ → Bytes → ℕ → ℕ → Option ℕ
unfolding strnlen_loop
strnlen fuel m s maxlen = strnlen_loop fuel m s maxlen 0

strlen_loop_lem :
    (fuel : ℕ) (m : Bytes) (s cnt n : ℕ)
    → IsString m s (cnt + n)
    → n < fuel
    → strlen_loop fuel m s cnt ≡ some (cnt + n)
unfolding strlen_loop
strlen_loop_lem zero m s cnt n h f = absurd (omega arith)
strlen_loop_lem (suc fuel) m s cnt zero h f =
    let e : cnt + 0 ≡ cnt = omega arith in
    let z = ap (λ k. m (s + k)) (sym e) ∙ h.0 in rw z (ground arith)
strlen_loop_lem (suc fuel) m s cnt (suc n) h f =
    let nz = h.1 cnt (omega arith) in
    let e : cnt + 1 + n ≡ cnt + suc n = omega arith in
    let ih = strlen_loop_lem fuel m s (cnt + 1) n (rw e h) (omega arith) in ground (arith, ih)

-- With fuel above the length of a string, strlen returns it.
pub strlen_lem :
    (fuel : ℕ) (m : Bytes) (s n : ℕ) → IsString m s n → n < fuel → strlen fuel m s ≡ some n
unfolding strlen
strlen_lem fuel m s n h f =
    let e : 0 + n ≡ n = omega arith in strlen_loop_lem fuel m s 0 n (rw e h) f ∙ ap some e

strnlen_loop_lem :
    (fuel : ℕ) (m : Bytes) (s maxlen st n : ℕ)
    → IsString m s n
    → n < fuel
    → strnlen_loop fuel m s maxlen st ≡ some (st + min n maxlen)
unfolding strnlen_loop
strnlen_loop_lem zero m s maxlen st n h f = absurd (omega arith)
strnlen_loop_lem (suc fuel) m s maxlen st zero h f = let z = sym (start m s) ∙ h.0 in ground arith
strnlen_loop_lem (suc fuel) m s zero st (suc n) h f = ground arith
strnlen_loop_lem (suc fuel) m s (suc k) st (suc n) h f =
    let nz = head_char m s n h in
    let ih = strnlen_loop_lem fuel m (s + 1) k (st + 1) n (tail-IsString m s n h) (omega arith) in
    ground (arith, ih)

-- With fuel above the length of a string, strnlen returns the length or, where it is less, the limit.
pub strnlen_lem :
    (fuel : ℕ) (m : Bytes) (s maxlen n : ℕ)
    → IsString m s n
    → n < fuel
    → strnlen fuel m s maxlen ≡ some (min n maxlen)
unfolding strnlen
strnlen_lem fuel m s maxlen n h f = strnlen_loop_lem fuel m s maxlen 0 n h f ∙ ap some (omega arith)
