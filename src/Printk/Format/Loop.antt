-- ===== src/Printk/Format/Loop.antt =====
-- The loop of vprintf: what it returns, from the soundness of each step.
use power_pc_demo_os.Common.{
  ℕ, ◌+◌, ◌≡◌, ◌≢◌, ◌⊎◌, refl, ap, ◌∙◌, Bool, true, false, Option, none, some, List, [], ◌∷◌, ◌++◌,
  ◌==◌, if◌then◌else◌, ℤ, pos, negsuc, length, has, inl, inr, arith,
}
use mathlib.Core.List.{append-nil}
use power_pc_demo_os.Printk.{File, my_fflush, print_ulong}
use power_pc_demo_os.Printk.Buffer.{IsValid, until_eos-all}
use power_pc_demo_os.Printk.Format.{
  Arg, Mode, plain, formatting, long, long_long, Step, go, return, undefined, after, with_word,
  print_signed, convert, convert_long, step, finish, vprintf_loop, vprintf,
}
use power_pc_demo_os.Printk.Format.Count.{
  Added, AreSound, Sound, putc-Added, ulong-Sound, print_signed-Sound, print_pointer-Sound,
  with_word-Sound, with_text-Sound, with_long-Sound,
}

module _ (start : ℕ) where
  if-Sound :
      (b : Bool) (x y : Step)
      → (b ≡ true → Sound start x)
      → (b ≡ false → Sound start y)
      → Sound start (if b then x else y)
  if-Sound true x y sx sy = sx refl
  if-Sound false x y sx sy = sy refl

  word-Sound :
      (base : ℕ) (args : List Arg) (f : File) (n : ℕ)
      → ((base ≡ 10) ⊎ (base ≡ 16))
      → AreSound args
      → Added start f n
      → Sound start (with_word args (λ x rest. after rest n (print_ulong x base f)))
  word-Sound base args f n b s a =
      with_word-Sound start args _ s (λ x rest h r. ulong-Sound start x base rest f n b h r a)

  signed-Sound :
      (args : List Arg) (f : File) (n : ℕ)
      → AreSound args
      → Added start f n
      → Sound start (with_word args (λ x rest. print_signed x rest f n))
  signed-Sound args f n s a =
      with_word-Sound start args _ s (λ x rest h r. print_signed-Sound start x rest f n h r a)

  convert-Sound :
      (c : ℕ) (args : List Arg) (f : File) (n : ℕ)
      → AreSound args
      → Added start f n
      → Sound start (convert c args f n)
  unfolding convert
  convert-Sound c args f n s a =
      if-Sound (c == b'%') _ _ (λ _. (s, putc-Added start f n b'%' (ground arith) a))
        λ _.
          if-Sound (c == b'd') _ _ (λ _. signed-Sound args f n s a)
            λ _.
              if-Sound (c == b'u') _ _ (λ _. word-Sound 10 args f n (inl refl) s a)
                λ _.
                  if-Sound (c == b'x') _ _ (λ _. word-Sound 16 args f n (inr refl) s a)
                    λ _.
                      if-Sound (c == b'p') _ _
                        (λ _.
                          with_word-Sound start args _ s
                            (λ x rest h r. print_pointer-Sound start x rest f n h r a))
                        λ _.
                          if-Sound (c == b's') _ _ (λ _. with_text-Sound start args f n s a)
                            λ _. if-Sound (c == b'l') _ _ (λ _. (s, a)) (λ _. a.0)

  convert_long-Sound :
      (c : ℕ) (args : List Arg) (f : File) (n : ℕ)
      → AreSound args
      → Added start f n
      → Sound start (convert_long c args f n)
  unfolding convert_long
  convert_long-Sound c args f n s a =
      if-Sound (c == b'd') _ _ (λ _. signed-Sound args f n s a)
        λ _.
          if-Sound (c == b'l') _ _ (λ _. (s, a))
            λ _.
              if-Sound (c == b'u') _ _ (λ _. word-Sound 10 args f n (inl refl) s a)
                λ _.
                  if-Sound (c == b'x') _ _ (λ _. word-Sound 16 args f n (inr refl) s a) (λ _. a.0)

  step-Sound :
      (mode : Mode) (c : ℕ) (args : List Arg) (f : File) (n : ℕ)
      → c ≢ 0
      → AreSound args
      → Added start f n
      → Sound start (step mode c args f n)
  unfolding step
  step-Sound plain c args f n nz s a =
      if-Sound (c == b'%') _ _ (λ _. (s, a)) (λ _. (s, putc-Added start f n c nz a))
  step-Sound formatting c args f n nz s a = convert-Sound c args f n s a
  step-Sound long c args f n nz s a = convert_long-Sound c args f n s a
  step-Sound long_long c args f n nz s a =
      if-Sound (c == b'x') _ _ (λ _. with_long-Sound start args f n s a) (λ _. (s, a))

  -- What a result promises: a number that is not negative counts the characters on the console.
  abbrev pub Counted : Option (File × ℤ) → Type 0
  Counted none = Unit {0}
  Counted (some (f, pos n)) = (f.buff ≡ []) × (length f.console ≡ start + n)
  Counted (some (f, negsuc n)) = IsValid f

  flushed : (f : File) (n : ℕ) → Added start f n → Counted (some (my_fflush f, pos n))
  unfolding my_fflush
  flushed f n a = (refl, ap (λ t. length (f.console ++ t)) (until_eos-all f.buff a.0.1) ∙ a.1)

  finish-Counted : (mode : Mode) (f : File) (n : ℕ) → Added start f n → Counted (finish mode f n)
  unfolding finish
  finish-Counted plain f n a = flushed f n a
  finish-Counted formatting f n a = flushed f n a
  finish-Counted long f n a = a.0
  finish-Counted long_long f n a = tt

  vprintf_loop-Counted :
      (format : List ℕ) (s : Step)
      → has 0 format ≡ false
      → Sound start s
      → Counted (vprintf_loop format s)
  unfolding vprintf_loop
  vprintf_loop-Counted [] (go mode args f n) h s = finish-Counted mode f n s.1
  vprintf_loop-Counted (c ∷ format) (go mode args f n) h s =
      vprintf_loop-Counted format (step mode c args f n) (ground arith)
        (step-Sound mode c args f n (ground arith) s.0 s.1)
  vprintf_loop-Counted format (return f (pos n)) h s = s
  vprintf_loop-Counted format (return f (negsuc n)) h s = s
  vprintf_loop-Counted format undefined h s = tt

-- The format and its strings hold no EOS, and words are words: when vprintf returns a number that is
-- not negative, it is the number of characters that it has put on the console, and none is left in
-- the buffer.
pub vprintf-Counted :
    (format : List ℕ) (args : List Arg) (console : List ℕ)
    → has 0 format ≡ false
    → AreSound args
    → Counted (length console) (vprintf format args console)
unfolding vprintf
vprintf-Counted format args console h s =
    vprintf_loop-Counted (length console) format _ h
      (s, ((omega arith, refl), ap length (append-nil console) ∙ (omega arith)))
