-- ===== src/CString/Compare.antt =====
-- strcmp, strncmp and memcmp.
use power_pc_demo_os.Common.{
  ℕ, zero, suc, ◌+◌, ◌%◌, ◌≤◌, ◌<◌, ◌≡◌, ◌≢◌, inl, inr, refl, sym, ap, ap₂, ◌∙◌, not, ◌&&◌, Option,
  none, some, ◌==◌, ltb, if◌then◌else◌, arith, Bool-cases, ℤ, pos, negsuc,
}
use power_pc_demo_os.CString.{Bytes, IsString, step, start, tail-IsString, head_char}

-- The order of `signed char` on the stored bytes.
abbrev pub signed : ℕ → ℕ
signed c = (c + 128) % 256

strcmp_loop : ℕ → Bytes → ℕ → ℕ → Option ℤ
strcmp_loop zero m s1 s2 = none
strcmp_loop (suc fuel) m s1 s2 =
    let rest = strcmp_loop fuel m (s1 + 1) (s2 + 1) in
    if (m s1 == 0) && (m s2 == 0)
    then some (pos 0)
    else if ltb (signed (m s1)) (signed (m s2))
    then some (negsuc 0)
    else if ltb (signed (m s2)) (signed (m s1))
    then some (pos 1)
    else rest

unfoldable pub strcmp : ℕ → Bytes → ℕ → ℕ → Option ℤ
unfolding strcmp_loop
strcmp fuel m s1 s2 = strcmp_loop fuel m s1 s2

strncmp_loop : ℕ → Bytes → ℕ → ℕ → ℤ
strncmp_loop zero m s1 s2 = pos 0
strncmp_loop (suc len) m s1 s2 =
    let rest = strncmp_loop len m (s1 + 1) (s2 + 1) in
    if (m s1 == 0) && (m s2 == 0)
    then pos 0
    else if ltb (signed (m s1)) (signed (m s2))
    then negsuc 0
    else if ltb (signed (m s2)) (signed (m s1))
    then pos 1
    else rest

unfoldable pub strncmp : Bytes → ℕ → ℕ → ℕ → ℤ
unfolding strncmp_loop
strncmp m s1 s2 len = strncmp_loop len m s1 s2

-- The bytes are unsigned here. The loop leaves the pointers at the first difference.
memcmp_loop : ℕ → Bytes → ℕ → ℕ → ℤ
memcmp_loop zero m tmp1 tmp2 = pos 0
memcmp_loop (suc left) m tmp1 tmp2 =
    let rest = memcmp_loop left m (tmp1 + 1) (tmp2 + 1) in
    if m tmp1 == m tmp2 then rest else if ltb (m tmp2) (m tmp1) then pos 1 else negsuc 0

unfoldable pub memcmp : Bytes → ℕ → ℕ → ℕ → ℤ
unfolding memcmp_loop
memcmp m cmp1 cmp2 size = memcmp_loop size m cmp1 cmp2

abbrev pub IsBytes : Bytes → Type 0
IsBytes m = (p : ℕ) → m p < 256

-- The characters up to `i` are the same and not EOS.
abbrev pub Agree : Bytes → ℕ → ℕ → ℕ → Type 0
Agree m a b i = (j : ℕ) → j < i → (m (a + j) ≡ m (b + j)) × (m (a + j) ≢ 0)

-- And at `i` they differ, or both strings end.
abbrev pub Stops : Bytes → ℕ → ℕ → ℕ → Type 0
Stops m a b i = Agree m a b i × (m (a + i) ≡ m (b + i) → m (a + i) ≡ 0)

-- The order of two characters.
abbrev pub sign : ℕ → ℕ → ℤ
sign x y = if x == y then pos 0 else if ltb (signed x) (signed y) then negsuc 0 else pos 1

stop_here : (m : Bytes) (a b : ℕ) → (m a ≡ m b → m a ≡ 0) → Stops m a b 0
stop_here m a b h =
    (λ j lt. absurd (omega arith), λ e. start m a ∙ h (sym (start m a) ∙ e ∙ start m b))

same_later :
    (m : Bytes) (a b i : ℕ)
    → m a ≡ m b
    → ((j : ℕ) → j < i → m (a + 1 + j) ≡ m (b + 1 + j))
    → (j : ℕ) → j < suc i
    → m (a + j) ≡ m (b + j)
same_later m a b i e same zero lt = start m a ∙ e ∙ sym (start m b)
same_later m a b i e same (suc j) lt = sym (step m a j) ∙ same j (omega arith) ∙ step m b j

Agree-later :
    (m : Bytes) (a b i : ℕ) → m a ≡ m b → m a ≢ 0 → Agree m (a + 1) (b + 1) i → Agree m a b (suc i)
Agree-later m a b i e nz h j lt = (same_later m a b i e (λ k l. (h k l).0) j lt, some_char j lt)
  where
    some_char : (j : ℕ) → j < suc i → m (a + j) ≢ 0
    some_char zero lt z = nz (sym (start m a) ∙ z)
    some_char (suc j) lt z = (h j (omega arith)).1 (step m a j ∙ z)

stop_later :
    (m : Bytes) (a b i : ℕ) → m a ≡ m b → m a ≢ 0 → Stops m (a + 1) (b + 1) i → Stops m a b (suc i)
stop_later m a b i e nz h =
    (Agree-later m a b i e nz h.0, λ q. sym (step m a i) ∙ h.1 (step m a i ∙ q ∙ sym (step m b i)))

sign_step :
    (m : Bytes) (a b i : ℕ)
    → sign (m (a + 1 + i)) (m (b + 1 + i)) ≡ sign (m (a + suc i)) (m (b + suc i))
sign_step m a b i = ap₂ sign (step m a i) (step m b i)

signed_inj : (x y : ℕ) → x < 256 → y < 256 → signed x ≡ signed y → x ≡ y
signed_inj x y p q e = omega arith

strcmp_loop_lem :
    (fuel : ℕ) (m : Bytes) (a b n : ℕ)
    → IsBytes m
    → IsString m a n
    → n < fuel
    → (i : ℕ) × (i ≤ n)
      × Stops m a b i
      × (strcmp_loop fuel m a b ≡ some (sign (m (a + i)) (m (b + i))))
unfolding strcmp_loop
strcmp_loop_lem zero m a b n w h f = absurd (omega arith)
strcmp_loop_lem (suc fuel) m a b zero w h f =
    let z = sym (start m a) ∙ h.0 in
    (
      0,
      omega arith,
      stop_here m a b (λ e. z),
      rw (start m a, start m b) (ground (arith, signed_inj (m a) (m b) (w a) (w b))),
    )
strcmp_loop_lem (suc fuel) m a b (suc n) w h f = elim (Bool-cases (m a == m b)) [
  | inr differ ↦ (
    0,
    omega arith,
    stop_here m a b (λ e. ground arith),
    rw (start m a, start m b) (ground (arith, signed_inj (m a) (m b) (w a) (w b))),
  )
  | inl equal ↦
      let nz = head_char m a n h in
      let (i, le, stops, e) =
        strcmp_loop_lem fuel m (a + 1) (b + 1) n w (tail-IsString m a n h) (omega arith) in
      let same : m a ≡ m b = ground arith in
      (suc i, omega arith, stop_later m a b i same nz stops, ground (arith, e, sign_step m a b i))
]

-- In a memory of bytes, with fuel above the length of its first string, strcmp returns the order, as
-- of `signed char`, of the characters at the first place where the strings differ or both end.
pub strcmp_lem :
    (fuel : ℕ) (m : Bytes) (a b n : ℕ)
    → IsBytes m
    → IsString m a n
    → n < fuel
    → (i : ℕ) × (i ≤ n) × Stops m a b i × (strcmp fuel m a b ≡ some (sign (m (a + i)) (m (b + i))))
unfolding strcmp
strcmp_lem fuel m a b n w h f = strcmp_loop_lem fuel m a b n w h f

-- strcmp of a string with itself or a copy of it returns 0.
pub strcmp-same :
    (fuel : ℕ) (m : Bytes) (a b n : ℕ)
    → IsBytes m
    → IsString m a n
    → ((j : ℕ) → j ≤ n → m (a + j) ≡ m (b + j))
    → n < fuel
    → strcmp fuel m a b ≡ some (pos 0)
strcmp-same fuel m a b n w h same f =
    let (i, le, stops, e) = strcmp_lem fuel m a b n w h f in e ∙ ap some (ground (arith, same i le))

strncmp_loop_lem :
    (len : ℕ) (m : Bytes) (a b : ℕ)
    → IsBytes m
    → (i : ℕ) × (i ≤ len)
      × Agree m a b i
      × (i < len → m (a + i) ≡ m (b + i) → m (a + i) ≡ 0)
      × (strncmp_loop len m a b ≡ (if i == len then pos 0 else sign (m (a + i)) (m (b + i))))
unfolding strncmp_loop
strncmp_loop_lem zero m a b w =
    (0, omega arith, λ j lt. absurd (omega arith), λ lt e. absurd (omega arith), refl)
strncmp_loop_lem (suc len) m a b w = elim (Bool-cases ((m a == m b) && not (m a == 0))) [
  | inr ends ↦
      let stops = stop_here m a b (λ e. ground arith) in
      (
        0,
        omega arith,
        stops.0,
        λ lt. stops.1,
        rw (start m a, start m b) (ground (arith, signed_inj (m a) (m b) (w a) (w b))),
      )
  | inl goes_on ↦
      let (i, le, agree, at, e) = strncmp_loop_lem len m (a + 1) (b + 1) w in
      let same : m a ≡ m b = ground arith in
      let nz : m a ≢ 0 = ground arith in
      (
        suc i,
        omega arith,
        Agree-later m a b i same nz agree,
        λ lt q. sym (step m a i) ∙ at (omega arith) (step m a i ∙ q ∙ sym (step m b i)),
        ground (arith, e, sign_step m a b i),
      )
]

-- In a memory of bytes strncmp of `len` characters returns 0 when the strings agree that far, and
-- otherwise the order of the characters at the first place where they differ or both end.
pub strncmp_lem :
    (m : Bytes) (a b len : ℕ)
    → IsBytes m
    → (i : ℕ) × (i ≤ len)
      × Agree m a b i
      × (i < len → m (a + i) ≡ m (b + i) → m (a + i) ≡ 0)
      × (strncmp m a b len ≡ (if i == len then pos 0 else sign (m (a + i)) (m (b + i))))
unfolding strncmp
strncmp_lem m a b len w = strncmp_loop_lem len m a b w

-- The order of two bytes, as memcmp has it.
abbrev pub byte_sign : ℕ → ℕ → ℤ
byte_sign x y = if x == y then pos 0 else if ltb x y then negsuc 0 else pos 1

-- memcmp returns 0 when the blocks are the same, and otherwise the order of the unsigned bytes at the
-- first place where they differ.
pub memcmp_lem :
    (left : ℕ) (m : Bytes) (a b : ℕ)
    → (i : ℕ) × (i ≤ left)
      × ((j : ℕ) → j < i → m (a + j) ≡ m (b + j))
      × (i < left → m (a + i) ≢ m (b + i))
      × (memcmp m a b left ≡ (if i == left then pos 0 else byte_sign (m (a + i)) (m (b + i))))
unfolding memcmp memcmp_loop
memcmp_lem zero m a b =
    (0, omega arith, λ j lt. absurd (omega arith), λ lt e. absurd (omega arith), refl)
memcmp_lem (suc left) m a b = elim (Bool-cases (m a == m b)) [
  | inr differ ↦ (
    0,
    omega arith,
    λ j lt. absurd (omega arith),
    λ lt e. ground (arith, start m a, start m b),
    rw (start m a, start m b) (ground arith),
  )
  | inl equal ↦
      let (i, le, same, at, e) = memcmp_lem left m (a + 1) (b + 1) in
      let head : m a ≡ m b = ground arith in
      (
        suc i,
        omega arith,
        same_later m a b i head same,
        λ lt q. at (omega arith) (step m a i ∙ q ∙ sym (step m b i)),
        ground (arith, e, step m a i, step m b i),
      )
]
