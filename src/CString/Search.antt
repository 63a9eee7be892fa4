-- ===== src/CString/Search.antt =====
-- memchr, strchr, strrchr and strstr. NULL is 0, which is no object's address.
use power_pc_demo_os.Common.{
  ℕ, zero, suc, ◌+◌, ◌-◌, ◌%◌, ◌≤◌, ◌<◌, ◌≡◌, ◌≢◌, ◌⊎◌, inl, inr, refl, sym, ap, ◌∙◌, Bool, true,
  false, not, ◌&&◌, Option, none, some, ◌==◌, ltb, if◌then◌else◌, arith, ◌>>=◌, Bool-cases,
  word_size,
}
use power_pc_demo_os.CString.{Bytes, IsString, step, start, tail-IsString, head_char}

-- `bufPtr` is `buf + left - 1`, and the test of the loop fails below `buf`.
memchr_loop : ℕ → Bytes → ℕ → ℕ → ℕ
memchr_loop zero m buf ch = 0
memchr_loop (suc left) m buf ch =
    let rest = memchr_loop left m buf ch in if m (buf + left) == ch % 256 then buf + left else rest

unfoldable pub memchr : Bytes → ℕ → ℕ → ℕ → ℕ
unfolding memchr_loop
memchr m buf ch count = memchr_loop count m buf ch

strchr_loop : ℕ → Bytes → ℕ → ℕ → Option ℕ
strchr_loop zero m s c = none
strchr_loop (suc fuel) m s c =
    let rest = strchr_loop fuel m (s + 1) c in
    if m s == 0 then (if m s == c then some s else rest) else some 0

unfoldable pub strchr : ℕ → Bytes → ℕ → ℕ → Option ℕ
unfolding strchr_loop
strchr fuel m s c = strchr_loop fuel m s c

-- A `char` as an `int`, in the 32 bits that it has.
abbrev pub promote : ℕ → ℕ
promote c = if ltb c 128 then c else c + word_size - 256

strrchr_loop : ℕ → Bytes → ℕ → ℕ → ℕ → Option ℕ
strrchr_loop zero m str ch place = none
strrchr_loop (suc fuel) m str ch place =
    let place' = if promote (m str) == ch then str else place in
    let rest = strrchr_loop fuel m (str + 1) ch place' in if m str == 0 then some place else rest

unfoldable pub strrchr : ℕ → Bytes → ℕ → ℕ → Option ℕ
unfolding strrchr_loop
strrchr fuel m str ch = strrchr_loop fuel m str ch 0

-- `while (*sub && *srcStr == *sub)`: both pointers at its end.
strstr_match : ℕ → Bytes → ℕ → ℕ → Option (ℕ × ℕ)
strstr_match zero m src sub = none
strstr_match (suc fuel) m src sub =
    let rest = strstr_match fuel m (src + 1) (sub + 1) in
    if not (m sub == 0) && (m src == m sub) then rest else some (src, sub)

strstr_loop : ℕ → Bytes → ℕ → ℕ → Option ℕ
unfolding strstr_match
strstr_loop zero m src sub = none
strstr_loop (suc fuel) m src sub =
    let past = strstr_loop fuel m (src + 1) sub in
    let from_match = do
      (src', sub') ← strstr_match fuel m src sub
      let rest = strstr_loop fuel m src' sub
      if m sub' == 0 then some src else rest
    in if m src == 0 then some 0 else if m src == m sub then from_match else past

unfoldable pub strstr : ℕ → Bytes → ℕ → ℕ → Option ℕ
unfolding strstr_loop
strstr fuel m src sub =
    let found = strstr_loop fuel m src sub in if m sub == 0 then some src else found

-- `r` is the last of the `n` places from `s` on that `hit` is true of, or 0 if there is none.
abbrev pub IsLast : (ℕ → Bool) → ℕ → ℕ → ℕ → Type 0
IsLast hit s n r =
    ((r ≡ 0) × ((i : ℕ) → i < n → hit (s + i) ≡ false))
    ⊎ ((i : ℕ) × (i < n)
        × (r ≡ s + i)
        × (hit (s + i) ≡ true)
        × ((j : ℕ) → i < j → j < n → hit (s + j) ≡ false))

none_more :
    (hit : ℕ → Bool) (s lo n : ℕ)
    → ((j : ℕ) → lo ≤ j → j < n → hit (s + j) ≡ false)
    → hit (s + n) ≡ false
    → (j : ℕ) → lo ≤ j
    → j < suc n
    → hit (s + j) ≡ false
none_more hit s lo n before miss j l lt = elim (Bool-cases (j == n)) [
  | inl same ↦ let e : j ≡ n = ground arith in ap (λ k. hit (s + k)) e ∙ miss
  | inr other ↦ before j l (ground arith)
]

-- One place more.
IsLast-step :
    (hit : ℕ → Bool) (s n r : ℕ)
    → IsLast hit s n r
    → IsLast hit s (suc n) (if hit (s + n) then s + n else r)
IsLast-step hit s n r last = elim (Bool-cases (hit (s + n))) [
  | inl here ↦ inr (n, omega arith, rw here refl, here, λ j lo hi. absurd (omega arith))
  | inr miss ↦ elim last [
    | inl (z, before) ↦
        inl (rw miss z, λ i lt. none_more hit s 0 n (λ j l. before j) miss i (omega arith) lt)
    | inr (i, lt, e, h, after) ↦ inr (
      i,
      omega arith,
      rw miss e,
      h,
      λ j lo hi. none_more hit s (i + 1) n (λ k l. after k (omega arith)) miss j (omega arith) hi,
    )
  ]
]

-- memchr returns the last of the `count` places that hold the character, not the first, or NULL.
pub memchr_lem :
    (count : ℕ) (m : Bytes) (buf ch : ℕ)
    → IsLast (λ p. m p == ch % 256) buf count (memchr m buf ch count)
unfolding memchr memchr_loop
memchr_lem zero m buf ch = inl (refl, λ i lt. absurd (omega arith))
memchr_lem (suc left) m buf ch =
    IsLast-step (λ p. m p == ch % 256) buf left (memchr m buf ch left) (memchr_lem left m buf ch)

strrchr_loop_lem :
    (fuel : ℕ) (m : Bytes) (s i n ch place : ℕ)
    → IsString m (s + i) n
    → IsLast (λ p. promote (m p) == ch) s i place
    → n < fuel
    → (r : ℕ) × (strrchr_loop fuel m (s + i) ch place ≡ some r)
      × IsLast (λ p. promote (m p) == ch) s (i + n) r
unfolding strrchr_loop
strrchr_loop_lem zero m s i n ch place h l f = absurd (omega arith)
strrchr_loop_lem (suc fuel) m s i zero ch place h l f =
    let z = sym (start m (s + i)) ∙ h.0 in
    let e : i ≡ i + 0 = omega arith in (place, rw z refl, rw e at l)
strrchr_loop_lem (suc fuel) m s i (suc n) ch place h l f =
    let nz : (m (s + i) == 0) ≡ false = ground (arith, head_char m (s + i) n h) in
    let t = tail-IsString m (s + i) n h in
    let next : s + i + 1 ≡ s + suc i = omega arith in
    let e : suc i + n ≡ i + suc n = omega arith in
    let hit : ℕ → Bool = λ p. promote (m p) == ch in
    let (r, found, last) =
      strrchr_loop_lem fuel m s (suc i) n ch (if hit (s + i) then s + i else place) (rw next at t)
        (IsLast-step hit s i place l) (omega arith) in
    (r, rw (nz, next) found, rw e at last)

-- With fuel above the length of the string, strrchr returns the last of its characters that is `ch`,
-- or NULL.
pub strrchr_lem :
    (fuel : ℕ) (m : Bytes) (s n ch : ℕ)
    → IsString m s n
    → n < fuel
    → (r : ℕ) × (strrchr fuel m s ch ≡ some r) × IsLast (λ p. promote (m p) == ch) s n r
unfolding strrchr
strrchr_lem fuel m s n ch h f =
    let e : s + 0 ≡ s = omega arith in
    let k : 0 + n ≡ n = omega arith in
    let (r, found, last) =
      strrchr_loop_lem fuel m s 0 n ch 0 (rw e h) (inl (refl, λ i lt. absurd (omega arith))) f in
    (r, rw e at found, rw k at last)

-- strchr of a string that is not empty returns NULL, whatever it looks for.
pub strchr-null : (fuel : ℕ) (m : Bytes) (s c : ℕ) → m s ≢ 0 → 0 < fuel → strchr fuel m s c ≡ some 0
unfolding strchr strchr_loop
strchr-null zero m s c nz f = absurd (omega arith)
strchr-null (suc fuel) m s c nz f = ground arith

IsString-from : (m : Bytes) (s n j : ℕ) → IsString m s n → j ≤ n → IsString m (s + j) (n - j)
IsString-from m s n j h le =
    (ap m (omega arith) ∙ h.0, λ i lt e. h.1 (j + i) (omega arith) (ap m (omega arith) ∙ e))

-- The text at `sub` is also at `r`.
abbrev pub Occurs : Bytes → ℕ → ℕ → ℕ → Type 0
Occurs m r sub k = (i : ℕ) → i < k → m (r + i) ≡ m (sub + i)

Occurs-later :
    (m : Bytes) (r sub k : ℕ) → m r ≡ m sub → Occurs m (r + 1) (sub + 1) k → Occurs m r sub (suc k)
Occurs-later m r sub k e o zero lt = start m r ∙ e ∙ sym (start m sub)
Occurs-later m r sub k e o (suc i) lt = sym (step m r i) ∙ o i (omega arith) ∙ step m sub i

strstr_match_lem :
    (fuel : ℕ) (m : Bytes) (src sub n k : ℕ)
    → IsString m src n
    → IsString m sub k
    → k < fuel
    → (j : ℕ) × (j ≤ n)
      × (j ≤ k)
      × (strstr_match fuel m src sub ≡ some (src + j, sub + j))
      × Occurs m src sub j
      × (m src ≢ 0 → m src ≡ m sub → 0 < j)
unfolding strstr_match
strstr_match_lem zero m src sub n k h g f = absurd (omega arith)
strstr_match_lem (suc fuel) m src sub n zero h g f =
    let z = sym (start m sub) ∙ g.0 in
    (
      0,
      omega arith,
      omega arith,
      ground arith,
      λ i lt. absurd (omega arith),
      λ nz e. absurd (nz (e ∙ z)),
    )
strstr_match_lem (suc fuel) m src sub zero (suc k) h g f =
    let z = sym (start m src) ∙ h.0 in
    let nz = head_char m sub k g in
    (
      0,
      omega arith,
      omega arith,
      ground arith,
      λ i lt. absurd (omega arith),
      λ some_char e. absurd (some_char z),
    )
strstr_match_lem (suc fuel) m src sub (suc n) (suc k) h g f = elim (Bool-cases (m src == m sub)) [
  | inr differ ↦ (
    0,
    omega arith,
    omega arith,
    ground arith,
    λ i lt. absurd (omega arith),
    λ nz e. absurd (ground arith),
  )
  | inl equal ↦
      let (j, le, le', e, o, _) =
        strstr_match_lem fuel m (src + 1) (sub + 1) n k (tail-IsString m src n h)
          (tail-IsString m sub k g) (omega arith) in
      let nz = head_char m sub k g in
      (
        suc j,
        omega arith,
        omega arith,
        ground (arith, e),
        Occurs-later m src sub j (ground arith) o,
        λ c q. omega arith,
      )
]

-- A round of the search that fails goes on behind what was compared.
strstr_loop_lem :
    (fuel : ℕ) (m : Bytes) (src sub n k : ℕ)
    → IsString m src n
    → IsString m sub k
    → 0 < k
    → n + k < fuel
    → (r : ℕ) × (strstr_loop fuel m src sub ≡ some r) × ((r ≡ 0) ⊎ Occurs m r sub k)
unfolding strstr_loop
strstr_loop_lem zero m src sub n k h g p f = absurd (omega arith)
strstr_loop_lem (suc fuel) m src sub zero k h g p f =
    let z = sym (start m src) ∙ h.0 in (0, rw z refl, inl refl)
strstr_loop_lem (suc fuel) m src sub (suc n) k h g p f =
    let nz : (m src == 0) ≡ false = ground (arith, head_char m src n h) in
    elim (Bool-cases (m src == m sub)) [
      | inr differ ↦
          rw (nz, differ)
            (strstr_loop_lem fuel m (src + 1) sub n k (tail-IsString m src n h) g p (omega arith))
      | inl equal ↦
          let (j, le, le', e, o, more) =
            strstr_match_lem fuel m src sub (suc n) k h g (omega arith) in
          elim (Bool-cases (j == k)) [
            | inl whole ↦
                let all : j ≡ k = ground arith in
                let ends : (m (sub + j) == 0) ≡ true =
                  ground (arith, ap (λ x. m (sub + x)) all, g.0) in
                (src, rw (nz, equal, e, ends) refl, inr (λ i lt. o i (omega arith)))
            | inr part ↦
                let goes_on : (m (sub + j) == 0) ≡ false = ground (arith, g.1 j (ground arith)) in
                let one = more (ground arith) (ground arith) in
                rw (nz, equal, e, goes_on)
                  (strstr_loop_lem fuel m (src + j) sub (suc n - j) k
                    (IsString-from m src (suc n) j h le) g p (omega arith))
          ]
    ]

-- With fuel above both lengths, strstr of a string that is not empty returns NULL or a place at which
-- it occurs.
pub strstr_lem :
    (fuel : ℕ) (m : Bytes) (src sub n k : ℕ)
    → IsString m src n
    → IsString m sub k
    → 0 < k
    → n + k < fuel
    → (r : ℕ) × (strstr fuel m src sub ≡ some r) × ((r ≡ 0) ⊎ Occurs m r sub k)
unfolding strstr
strstr_lem fuel m src sub n k h g p f =
    let nz : (m sub == 0) ≡ false = ground (arith, start m sub, g.1 0 p) in
    rw nz (strstr_loop_lem fuel m src sub n k h g p f)
