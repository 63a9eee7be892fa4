-- ===== src/Printk/Buffer.antt =====
-- What my_putc, print_str and the digits add to the text that printk has written.
use power_pc_demo_os.Common.{
  ℕ, ◌<◌, ◌≡◌, ◌≢◌, refl, sym, ap, ◌∙◌, false, List, [], ◌∷◌, ◌++◌, ◌==◌, length, length-append,
  has, has-append, Bool-cases, inl, inr, arith,
}
use mathlib.Core.List.{append_assoc, append-nil}
use power_pc_demo_os.Printk.{
  File, until_eos, my_fflush, my_putc, buf_size, print_str, put_digits, hex_char,
}

-- The text so far: what reached the console and what is in the buffer.
abbrev pub written : File → List ℕ
written f = f.console ++ f.buff

-- `pos` is below the size of the buffer, and no EOS is in it.
abbrev pub IsValid : File → Type 0
IsValid f = (length f.buff < buf_size) × (has 0 f.buff ≡ false)

abbrev pub Wrote : File → File → List ℕ → Type 0
Wrote f f' text = IsValid f' × (written f' ≡ written f ++ text)

pub until_eos-all : (xs : List ℕ) → has 0 xs ≡ false → until_eos xs ≡ xs
until_eos-all [] h = refl
until_eos-all (x ∷ xs) h = ground (arith, until_eos-all xs)

-- A flush moves the buffer's text to the console.
pub my_fflush-Wrote : (f : File) → IsValid f → Wrote f (my_fflush f) []
unfolding my_fflush
my_fflush-Wrote f v =
    let e = until_eos-all f.buff v.1 in ((omega arith, refl), ap (λ t. (f.console ++ t) ++ []) e)

pub my_putc-Wrote : (f : File) (c : ℕ) → c ≢ 0 → IsValid f → Wrote f (my_putc c f) (c ∷ [])
unfolding my_putc my_fflush
my_putc-Wrote f c nz v =
    let f1 = record f { buff = f.buff ++ c ∷ [] } in
    let clean : has 0 f1.buff ≡ false = ground (arith, has-append 0 f.buff (c ∷ [])) in
    let n = length-append f.buff (c ∷ []) in
    elim (Bool-cases (length f1.buff == buf_size)) [
      | inr room ↦ rw room ((ground arith, clean), sym (append_assoc f.console f.buff (c ∷ [])))
      | inl full ↦ rw full (
        (omega arith, refl),
        ap (λ t. (f.console ++ t) ++ []) (until_eos-all f1.buff clean)
            ∙ append-nil (f.console ++ f1.buff)
            ∙ sym (append_assoc f.console f.buff (c ∷ [])),
      )
    ]

pub Wrote-refl : (f : File) → IsValid f → Wrote f f []
Wrote-refl f v = (v, sym (append-nil (written f)))

pub Wrote-trans : (f g h : File) (s t : List ℕ) → Wrote f g s → Wrote g h t → Wrote f h (s ++ t)
Wrote-trans f g h s t a b = (b.0, b.1 ∙ ap (λ x. x ++ t) a.1 ∙ append_assoc (written f) s t)

pub print_str-Wrote :
    (text : List ℕ) (f : File)
    → has 0 text ≡ false
    → IsValid f
    → Wrote f (print_str text f).0 text × ((print_str text f).1 ≡ length text)
print_str-Wrote [] f h v = (Wrote-refl f v, refl)
print_str-Wrote (c ∷ cs) f h v =
    let first = my_putc-Wrote f c (ground arith) v in
    let (rest, n) = print_str-Wrote cs (my_putc c f) (ground arith) first.0 in
    (
      Wrote-trans f (my_putc c f) (print_str cs (my_putc c f)).0 (c ∷ []) cs first rest,
      ground arith,
    )

-- The characters of digits, the lowest digit first, as they are printed.
abbrev pub chars : List ℕ → List ℕ
chars [] = []
chars (d ∷ ds) = chars ds ++ hex_char d ∷ []

abbrev pub AreDigits : ℕ → List ℕ → Type 0
AreDigits base [] = Unit {0}
AreDigits base (d ∷ ds) = (d < base) × AreDigits base ds

pub length-chars : (ds : List ℕ) → length (chars ds) ≡ length ds
length-chars [] = refl
length-chars (d ∷ ds) = omega (arith, length-append (chars ds) (hex_char d ∷ []), length-chars ds)

pub put_digits-Wrote :
    (ds : List ℕ) (f : File)
    → AreDigits 16 ds
    → ((d : ℕ) → d < 16 → hex_char d ≢ 0)
    → IsValid f
    → Wrote f (put_digits ds f) (chars ds)
put_digits-Wrote [] f a some_char v = Wrote-refl f v
put_digits-Wrote (d ∷ ds) f a some_char v =
    let first = put_digits-Wrote ds f a.1 some_char v in
    let last = my_putc-Wrote (put_digits ds f) (hex_char d) (some_char d a.0) first.0 in
    Wrote-trans f (put_digits ds f) (my_putc (hex_char d) (put_digits ds f)) (chars ds)
      (hex_char d ∷ []) first last
