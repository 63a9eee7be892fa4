-- ===== src/Printk/Format/Count.antt =====
-- The number that vprintf returns is the number of characters that it adds to the console.
use power_pc_demo_os.Common.{
  ℕ, ◌+◌, ◌-◌, ◌^◌, ◌<◌, ◌≡◌, ◌≢◌, ◌⊎◌, refl, ap, ◌∙◌, false, Option, List, [], ◌∷◌, ◌==◌, leb, pos,
  negsuc, length, length-append, has, Bool-cases, inl, inr, arith,
}
use power_pc_demo_os.Printk.{File, my_putc, print_ulong, print_ullong, print_str}
use power_pc_demo_os.Printk.Buffer.{written, IsValid, Wrote, my_putc-Wrote, print_str-Wrote}
use power_pc_demo_os.Printk.Long.{Prints, print_ulong-Prints, print_ullong-Prints}
use power_pc_demo_os.Printk.Format.{
  Arg, word, long_word, text, Step, go, return, undefined, after, with_word, with_text, with_long,
  print_signed, print_pointer,
}

-- The file is sound and its text is `n` characters longer than `start`.
abbrev pub Added : ℕ → File → ℕ → Type 0
Added start f n = IsValid f × (length (written f) ≡ start + n)

-- Words are of 32 bits, `long long` words of 64, and a string holds no EOS.
abbrev pub AreSound : List Arg → Type 0
AreSound [] = Unit {0}
AreSound (word w ∷ args) = (w < 2 ^ 32) × AreSound args
AreSound (long_word w ∷ args) = (w < 2 ^ 64) × AreSound args
AreSound (text s ∷ args) = (has 0 s ≡ false) × AreSound args

abbrev pub Sound : ℕ → Step → Type 0
Sound start (go mode args f n) = AreSound args × Added start f n
Sound start (return f (pos n)) = (f.buff ≡ []) × (length f.console ≡ start + n)
Sound start (return f (negsuc n)) = IsValid f
Sound start undefined = Unit {0}

Wrote-Added :
    (start : ℕ) (f g : File) (n : ℕ) (t : List ℕ)
    → Added start f n
    → Wrote f g t
    → Added start g (n + length t)
Wrote-Added start f g n t a w =
    (w.0, ap length w.1 ∙ length-append (written f) t ∙ (omega (arith, a.1)))

pub putc-Added :
    (start : ℕ) (f : File) (n c : ℕ) → c ≢ 0 → Added start f n → Added start (my_putc c f) (n + 1)
putc-Added start f n c nz a =
    Wrote-Added start f (my_putc c f) n (c ∷ []) a (my_putc-Wrote f c nz a.0)

str-Added :
    (start : ℕ) (f : File) (n : ℕ) (s : List ℕ)
    → has 0 s ≡ false
    → Added start f n
    → Added start (print_str s f).0 (n + (print_str s f).1)
str-Added start f n s h a =
    let (w, e) = print_str-Wrote s f h a.0 in
    let b = Wrote-Added start f (print_str s f).0 n s a w in rw e b

after-Sound :
    (start : ℕ) (f : File) (n : ℕ) (args : List Arg) (r : Option (File × ℕ))
    → AreSound args
    → Added start f n
    → Prints f r
    → Sound start (after args n r)
after-Sound start f n args r s a (f', t, e, w) = rw e (s, Wrote-Added start f f' n t a w)

pub ulong-Sound :
    (start x base : ℕ) (args : List Arg) (f : File) (n : ℕ)
    → ((base ≡ 10) ⊎ (base ≡ 16))
    → x < 2 ^ 32
    → AreSound args
    → Added start f n
    → Sound start (after args n (print_ulong x base f))
ulong-Sound start x base args f n b h s a =
    after-Sound start f n args (print_ulong x base f) s a (print_ulong-Prints x base f b h a.0)

pub print_signed-Sound :
    (start x : ℕ) (args : List Arg) (f : File) (n : ℕ)
    → x < 2 ^ 32
    → AreSound args
    → Added start f n
    → Sound start (print_signed x args f n)
unfolding print_signed
print_signed-Sound start x args f n h s a = elim (Bool-cases (leb (2 ^ 31) x)) [
  | inl negative ↦ rw negative (
      ulong-Sound start (2 ^ 32 - x) 10 args (my_putc b'-' f) (n + 1) (inl refl) (ground arith) s
        (putc-Added start f n b'-' (ground arith) a))
  | inr positive ↦ rw positive (ulong-Sound start x 10 args f n (inl refl) h s a)
]

pub print_pointer-Sound :
    (start p : ℕ) (args : List Arg) (f : File) (n : ℕ)
    → p < 2 ^ 32
    → AreSound args
    → Added start f n
    → Sound start (print_pointer p args f n)
unfolding print_pointer
print_pointer-Sound start p args f n h s a = elim (Bool-cases (p == 0)) [
  | inl nil ↦ rw nil (s, str-Added start f n (b'(' ∷ b'n' ∷ b'i' ∷ b'l' ∷ b')' ∷ []) refl a)
  | inr some_place ↦
      let prefix = b'0' ∷ b'x' ∷ [] in
      rw some_place (
        ulong-Sound start p 16 args (print_str prefix f).0 (n + (print_str prefix f).1) (inr refl) h
          s (str-Added start f n prefix refl a))
]

-- A conversion of a word, if a word is there.
pub with_word-Sound :
    (start : ℕ) (args : List Arg) (k : ℕ → List Arg → Step)
    → AreSound args
    → ((x : ℕ) (rest : List Arg) → x < 2 ^ 32 → AreSound rest → Sound start (k x rest))
    → Sound start (with_word args k)
with_word-Sound start [] k s each = tt
with_word-Sound start (word w ∷ args) k s each = each w args s.0 s.1
with_word-Sound start (long_word w ∷ args) k s each = tt
with_word-Sound start (text t ∷ args) k s each = tt

pub with_text-Sound :
    (start : ℕ) (args : List Arg) (f : File) (n : ℕ)
    → AreSound args
    → Added start f n
    → Sound start (with_text args f n)
with_text-Sound start [] f n s a = tt
with_text-Sound start (word w ∷ args) f n s a = tt
with_text-Sound start (long_word w ∷ args) f n s a = tt
with_text-Sound start (text t ∷ args) f n s a = (s.1, str-Added start f n t s.0 a)

pub with_long-Sound :
    (start : ℕ) (args : List Arg) (f : File) (n : ℕ)
    → AreSound args
    → Added start f n
    → Sound start (with_long args f n)
with_long-Sound start [] f n s a = tt
with_long-Sound start (word w ∷ args) f n s a = tt
with_long-Sound start (long_word w ∷ args) f n s a =
    after-Sound start f n args (print_ullong w 16 f) s.1 a (print_ullong-Prints w f s.0 a.0)
with_long-Sound start (text t ∷ args) f n s a = tt
