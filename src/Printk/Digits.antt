-- ===== src/Printk/Digits.antt =====
-- The digits that print_ulong prints, read back.
use power_pc_demo_os.Common.{
  leb, ℕ, zero, suc, ◌+◌, ◌-◌, ◌*◌, ◌/◌, ◌%◌, ◌^◌, ◌≤◌, ◌<◌, ◌≡◌, ◌≢◌, ◌⊎◌, refl, sym, ap, ap₂, ◌∙◌,
  Bool, true, false, not, ◌&&◌, some, List, [], ◌∷◌, ◌++◌, ◌==◌, ==_iff, if◌then◌else◌, length,
  Bool-cases, inl, inr, arith, bind_some, subst,
}
use power_pc_demo_os.BitSearch.Highest.{all_below, all_below_at}
use power_pc_demo_os.Printk.{File, my_putc, put_digits, hex_char, digits_loop, print_ulong}
use power_pc_demo_os.Printk.Buffer.{
  IsValid, Wrote, my_putc-Wrote, put_digits-Wrote, chars, length-chars, AreDigits,
}

-- The value of a character as a digit, 16 for one that is none.
abbrev pub digit_of : ℕ → ℕ
digit_of c =
    if leb b'0' c && leb c b'9'
    then c - b'0'
    else if leb b'a' c && leb c b'f'
    then c - b'a' + 10
    else 16

-- The number that a text reads as, behind the digits read before it.
abbrev pub read : ℕ → ℕ → List ℕ → ℕ
read base acc [] = acc
read base acc (c ∷ cs) = read base (acc * base + digit_of c) cs

abbrev is_char : ℕ → Bool
is_char d = not (hex_char d == 0) && (digit_of (hex_char d) == d)

char_table : all_below 16 is_char ≡ true
unfolding all_below
char_table = refl

char_at : (d : ℕ) → d < 16 → is_char d ≡ true
char_at d lt = all_below_at 16 is_char d char_table lt

some_char : (d : ℕ) → d < 16 → hex_char d ≢ 0
some_char d lt = let e = char_at d lt in go (hex_char d) e
  where
    go : (c : ℕ) → (not (c == 0) && (digit_of c == d)) ≡ true → c ≢ 0
    go c e = ground arith

digit_of-hex_char : (d : ℕ) → d < 16 → digit_of (hex_char d) ≡ d
digit_of-hex_char d lt = let e = char_at d lt in go (hex_char d) e
  where
    go : (c : ℕ) → (not (c == 0) && (digit_of c == d)) ≡ true → digit_of c ≡ d
    go c e = (==_iff (digit_of c) d).0 (ground arith)

pub read-append :
    (base acc : ℕ) (s t : List ℕ) → read base acc (s ++ t) ≡ read base (read base acc s) t
read-append base acc [] t = refl
read-append base acc (c ∷ s) t = read-append base (acc * base + digit_of c) s t

-- Each character is a digit of the base.
abbrev pub AreCharsOf : ℕ → List ℕ → Type 0
AreCharsOf base [] = Unit {0}
AreCharsOf base (c ∷ cs) = (digit_of c < base) × AreCharsOf base cs

AreCharsOf-snoc :
    (base c : ℕ) (cs : List ℕ)
    → AreCharsOf base cs
    → digit_of c < base
    → AreCharsOf base (cs ++ c ∷ [])
AreCharsOf-snoc base c [] a lt = (lt, tt)
AreCharsOf-snoc base c (b ∷ cs) a lt = (a.0, AreCharsOf-snoc base c cs a.1 lt)

chars-AreCharsOf :
    (base : ℕ) (ds : List ℕ) → base ≤ 16 → AreDigits base ds → AreCharsOf base (chars ds)
chars-AreCharsOf base [] le a = tt
chars-AreCharsOf base (d ∷ ds) le a =
    let e = digit_of-hex_char d (omega (arith, a.0)) in
    AreCharsOf-snoc base (hex_char d) (chars ds) (chars-AreCharsOf base ds le a.1) (below e a.0)
  where
    below : {c : ℕ} → c ≡ d → d < base → c < base
    below e lt = omega arith

AreDigits-widen : (base : ℕ) (ds : List ℕ) → base ≤ 16 → AreDigits base ds → AreDigits 16 ds
AreDigits-widen base [] le a = tt
AreDigits-widen base (d ∷ ds) le a = (omega (arith, a.0), AreDigits-widen base ds le a.1)

-- The number that digits stand for, the lowest first.
abbrev value : ℕ → List ℕ → ℕ
value base [] = 0
value base (d ∷ ds) = value base ds * base + d

read-chars : (base : ℕ) (ds : List ℕ) → AreDigits 16 ds → read base 0 (chars ds) ≡ value base ds
read-chars base [] a = refl
read-chars base (d ∷ ds) a =
    read-append base 0 (chars ds) (hex_char d ∷ [])
    ∙ ap₂ (λ x y. x * base + y) (read-chars base ds a.1) (digit_of-hex_char d a.0)

abbrev limit : ℕ → ℕ → ℕ
limit base zero = 1
limit base (suc room) = limit base room * base

-- What the arithmetic of a base gives, for a base that is a numeral.
module _ (base : ℕ) (parts : (v : ℕ) → v / base * base + v % base ≡ v)
    (shrinks : (v k : ℕ) → v < k * base → v / base < k) (small : (v : ℕ) → v % base < base) where
  digits_by :
      (room val : ℕ)
      → val < limit base room
      → (ds : List ℕ) × (digits_loop room val base ≡ some ds)
        × AreDigits base ds
        × (value base ds ≡ val)
        × (length ds ≤ room)
  unfolding digits_loop
  digits_by zero val h =
      let z : (val == 0) ≡ true = ground arith in ([], rw z refl, tt, omega arith, omega arith)
  digits_by (suc room) val h = elim (Bool-cases (val == 0)) [
    | inl zero_left ↦ ([], rw zero_left refl, tt, ground arith, omega arith)
    | inr more ↦
        let (ds, e, a, v, l) = digits_by room (val / base) (shrinks val (limit base room) h) in
        (
          val % base ∷ ds,
          rw more (bind_some (λ x. some (val % base ∷ x)) e),
          (small val, a),
          ap (λ x. x * base + val % base) v ∙ parts val,
          omega arith,
        )
  ]

-- The digits fit their array.
abbrev Fit : ℕ → ℕ → Type 0
Fit val base =
    (ds : List ℕ) × (digits_loop 11 val base ≡ some ds)
    × AreDigits base ds
    × (value base ds ≡ val)
    × (length ds ≤ 11)

digits_of : (base val : ℕ) → ((base ≡ 10) ⊎ (base ≡ 16)) → val < 2 ^ 32 → Fit val base
digits_of base val (inl ten) h =
    subst (Fit val) (sym ten) (
      digits_by 10 (λ v. omega arith) (λ v k l. omega arith) (λ v. omega arith) 11 val
        (omega arith))
digits_of base val (inr sixteen) h =
    subst (Fit val) (sym sixteen) (
      digits_by 16 (λ v. omega arith) (λ v k l. omega arith) (λ v. omega arith) 11 val
        (omega arith))

-- print_ulong in base 10 or 16 of a 32-bit word never writes beyond its array of digits, adds to the
-- text digits of that base that read back as the word, and returns the number of characters.
pub print_ulong-read :
    (val base : ℕ) (f : File)
    → ((base ≡ 10) ⊎ (base ≡ 16))
    → val < 2 ^ 32
    → IsValid f
    → (f' : File) × (text : List ℕ) × (print_ulong val base f ≡ some (f', length text))
      × Wrote f f' text
      × (read base 0 text ≡ val)
      × AreCharsOf base text
unfolding print_ulong
print_ulong-read val base f b h v =
    let known : (not (base == 10) && not (base == 16)) ≡ false = ground arith in
    elim (Bool-cases (val == 0)) [
      | inl none_left ↦ (
        my_putc b'0' f,
        b'0' ∷ [],
        rw (known, none_left) refl,
        my_putc-Wrote f b'0' (ground arith) v,
        ground arith,
        (ground arith, tt),
      )
      | inr more ↦
          let (ds, e, own, w, _) = digits_of base val b h in
          let le : base ≤ 16 = ground arith in
          let a = AreDigits-widen base ds le own in
          (
            put_digits ds f,
            chars ds,
            rw (known, more)
                (bind_some (λ x. some (put_digits x f, length x)) e
                  ∙ ap (λ n. some (put_digits ds f, n)) (sym (length-chars ds))),
            put_digits-Wrote ds f a some_char v,
            read-chars base ds a ∙ w,
            chars-AreCharsOf base ds le own,
          )
    ]
