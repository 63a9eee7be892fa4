-- ===== src/CString/RoundTrip.antt =====
-- A copied string compares equal to the one it was copied from.
use power_pc_demo_os.Common.{ℕ, ◌+◌, ◌-◌, ◌≤◌, ◌<◌, ◌≡◌, sym, ap, ◌∙◌, some, arith, pos}
use power_pc_demo_os.CString.{Bytes, IsString, copied}
use power_pc_demo_os.CString.Copy.{strcpy, strcpy_lem, Apart}
use power_pc_demo_os.CString.Compare.{strcmp, strcmp-same, IsBytes}

copied_at : (m : Bytes) (to from n j : ℕ) → j < n → copied m to from n (to + j) ≡ m (from + j)
copied_at m to from n j lt =
    let e : from + (to + j - to) ≡ from + j = omega arith in let q = ap m e in ground arith

copied_kept :
    (m : Bytes) (to from n j : ℕ)
    → Apart to from n
    → j < n
    → copied m to from n (from + j) ≡ m (from + j)
copied_kept m to from n j a lt = ground arith

-- With fuel above its length, in a memory of bytes, a string that strcpy has copied to a place that
-- does not overlap compares equal to the original.
pub strcpy-strcmp :
    (fuel : ℕ) (m : Bytes) (to from n : ℕ)
    → IsBytes m
    → IsString m from n
    → Apart to from (n + 1)
    → n < fuel
    → (m' : Bytes) × (strcpy fuel m to from ≡ some (m', to))
      × (strcmp fuel m' to from ≡ some (pos 0))
strcpy-strcmp fuel m to from n w h a f =
    let (m', r, at) = strcpy_lem fuel m to from n h a f in
    let there : (j : ℕ) → j ≤ n → m' (to + j) ≡ m (from + j) =
      λ j le. at (to + j) ∙ copied_at m to from (n + 1) j (omega arith) in
    let here : (j : ℕ) → j ≤ n → m' (from + j) ≡ m (from + j) =
      λ j le. at (from + j) ∙ copied_kept m to from (n + 1) j a (omega arith) in
    let bytes : IsBytes m' = λ p. ground (arith, at p, w p, w (from + (p - to))) in
    let string : IsString m' to n =
      (there n (omega arith) ∙ h.0, λ i lt e. h.1 i lt (sym (there i (omega arith)) ∙ e)) in
    (m', r, strcmp-same fuel m' to from n bytes string (λ j le. there j le ∙ sym (here j le)) f)
