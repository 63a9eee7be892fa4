-- ===== src/CString/Copy.antt =====
-- strcpy and strcat.
use power_pc_demo_os.Common.{
  ℕ, zero, suc, ◌+◌, ◌-◌, ◌≤◌, ◌<◌, ◌≡◌, ◌≢◌, ◌⊎◌, inl, inr, refl, sym, ap, ◌∙◌, Option, none, some,
  ◌==◌, ltb, if◌then◌else◌, arith, update, ◌>>=◌, Bool-cases,
}
use power_pc_demo_os.CString.{Bytes, IsString, copied, within, start, tail-IsString, head_char}

pub strcpy_loop : ℕ → Bytes → ℕ → ℕ → Option Bytes
strcpy_loop zero m to from = none
strcpy_loop (suc fuel) m to from =
    let rest = strcpy_loop fuel (update m to (m from)) (to + 1) (from + 1) in
    if m from == 0 then some (update m to 0) else rest

unfoldable pub strcpy : ℕ → Bytes → ℕ → ℕ → Option (Bytes × ℕ)
unfolding strcpy_loop
strcpy fuel m to from = do m' ← strcpy_loop fuel m to from; some (m', to)

-- The `n` bytes from `a` on and those from `b` on do not meet.
abbrev pub Apart : ℕ → ℕ → ℕ → Type 0
Apart a b n = (a + n ≤ b) ⊎ (b + n ≤ a)

-- A write outside it leaves the string from `from + 1` on.
pub update-IsString :
    (m : Bytes) (to from n v : ℕ)
    → ((to ≤ from) ⊎ (from + suc n < to))
    → IsString m from (suc n)
    → IsString (update m to v) (from + 1) n
update-IsString m to from n v a h =
    let t = tail-IsString m from n h in
    (kept n (omega arith) ∙ t.0, λ i lt e. t.1 i lt (sym (kept i (omega arith)) ∙ e))
  where
    kept : (i : ℕ) → i ≤ n → update m to v (from + 1 + i) ≡ m (from + 1 + i)
    kept i le = ground arith

-- One byte copied, and then the rest.
pub copied_step :
    (m : Bytes) (to from n p : ℕ)
    → ((to ≤ from) ⊎ (from + n < to))
    → copied (update m to (m from)) (to + 1) (from + 1) n p ≡ copied m to from (suc n) p
copied_step m to from n p a = elim (Bool-cases (within (to + 1) n p)) [
  | inl in_rest ↦
      let e : from + 1 + (p - (to + 1)) ≡ from + (p - to) = ground arith in
      let q = ap m e in ground arith
  | inr out ↦ elim (Bool-cases (p == to)) [
    | inl same ↦ let e : from + (p - to) ≡ from = ground arith in let q = ap m e in ground arith
    | inr other ↦ ground arith
  ]
]

-- With fuel above the length of a string, strcpy copies it and EOS to a place that does not overlap.
pub strcpy_loop_lem :
    (fuel : ℕ) (m : Bytes) (to from n : ℕ)
    → IsString m from n
    → Apart to from (n + 1)
    → n < fuel
    → (m' : Bytes) × (strcpy_loop fuel m to from ≡ some m')
      × ((p : ℕ) → m' p ≡ copied m to from (n + 1) p)
unfolding strcpy_loop
strcpy_loop_lem zero m to from n h a f = absurd (omega arith)
strcpy_loop_lem (suc fuel) m to from zero h a f =
    let z = sym (start m from) ∙ h.0 in (update m to 0, rw z refl, λ p. last p z)
  where
    last : (p : ℕ) → m from ≡ 0 → update m to 0 p ≡ copied m to from 1 p
    last p z = elim (Bool-cases (p == to)) [
      | inl same ↦ let e : from + (p - to) ≡ from = ground arith in let q = ap m e in ground arith
      | inr other ↦ ground arith
    ]
strcpy_loop_lem (suc fuel) m to from (suc n) h a f =
    let m1 = update m to (m from) in
    let nz = head_char m from n h in
    let (m', e, at) =
      strcpy_loop_lem fuel m1 (to + 1) (from + 1) n
        (update-IsString m to from n (m from) (ground arith) h) (ground arith) (omega arith) in
    (m', ground arith, λ p. at p ∙ copied_step m to from (n + 1) p (ground arith) ∙ again p)
  where
    again : (p : ℕ) → copied m to from (suc (n + 1)) p ≡ copied m to from (suc n + 1) p
    again p = ground arith

pub strcpy_lem :
    (fuel : ℕ) (m : Bytes) (to from n : ℕ)
    → IsString m from n
    → Apart to from (n + 1)
    → n < fuel
    → (m' : Bytes) × (strcpy fuel m to from ≡ some (m', to))
      × ((p : ℕ) → m' p ≡ copied m to from (n + 1) p)
unfolding strcpy
strcpy_lem fuel m to from n h a f =
    let (m', e, at) = strcpy_loop_lem fuel m to from n h a f in (m', rw e refl, at)

-- The search for the end of `to`.
unfoldable pub strcat_end : ℕ → Bytes → ℕ → Option ℕ
strcat_end zero m tmp = none
strcat_end (suc fuel) m tmp =
    let rest = strcat_end fuel m (tmp + 1) in if m tmp == 0 then some tmp else rest

-- The second loop is strcpy's.
unfoldable pub strcat : ℕ → Bytes → ℕ → ℕ → Option (Bytes × ℕ)
unfolding strcat_end strcpy_loop
strcat fuel m to from = do
  tmp ← strcat_end fuel m to
  m' ← strcpy_loop fuel m tmp from
  some (m', to)

pub strcat_end_lem :
    (fuel : ℕ) (m : Bytes) (s n : ℕ)
    → IsString m s n
    → n < fuel
    → strcat_end fuel m s ≡ some (s + n)
unfolding strcat_end
strcat_end_lem zero m s n h f = absurd (omega arith)
strcat_end_lem (suc fuel) m s zero h f =
    let z = sym (start m s) ∙ h.0 in rw z (ap some (omega arith))
strcat_end_lem (suc fuel) m s (suc n) h f =
    let nz = head_char m s n h in
    let ih = strcat_end_lem fuel m (s + 1) n (tail-IsString m s n h) (omega arith) in
    ground (arith, ih)

-- strcat puts the string at `from` and EOS behind the one at `to`.
pub strcat_lem :
    (fuel : ℕ) (m : Bytes) (to from k n : ℕ)
    → IsString m to k
    → IsString m from n
    → Apart (to + k) from (n + 1)
    → k < fuel
    → n < fuel
    → (m' : Bytes) × (strcat fuel m to from ≡ some (m', to))
      × ((p : ℕ) → m' p ≡ copied m (to + k) from (n + 1) p)
      × IsString m' to (k + n)
unfolding strcat
strcat_lem fuel m to from k n t h a fk fn =
    let (m', e, at) = strcpy_loop_lem fuel m (to + k) from n h a fn in
    (m', rw (strcat_end_lem fuel m to k t fk, e) refl, at, joined m' at)
  where
    joined :
        (m' : Bytes) → ((p : ℕ) → m' p ≡ copied m (to + k) from (n + 1) p) → IsString m' to (k + n)
    joined m' at = (last, inner)
      where
        last : m' (to + (k + n)) ≡ 0
        last =
            let e : from + (to + (k + n) - (to + k)) ≡ from + n = omega arith in
            let q = ap m e in ground (arith, at (to + (k + n)), h.0)

        inner : (i : ℕ) → i < k + n → m' (to + i) ≢ 0
        inner i lt = elim (Bool-cases (ltb i k)) [
          | inl low ↦ let q = t.1 i (ground arith) in ground (arith, at (to + i))
          | inr high ↦
              let e : from + (to + i - (to + k)) ≡ from + (i - k) = ground arith in
              let w = ap m e in let q = h.1 (i - k) (ground arith) in ground (arith, at (to + i))
        ]
