-- ===== src/Printk/Format.antt =====
-- vprintf, one character of the format at a time: where the source has moved `format` on inside a
-- conversion, the mode says so.
pub mod Count
pub mod Loop
use power_pc_demo_os.Common.{
  ℕ, zero, suc, ◌+◌, ◌-◌, ◌^◌, Bool, Option, none, some, List, [], ◌∷◌, ◌==◌, ltb, leb,
  if◌then◌else◌, ◌>>=◌, ℤ, pos, negsuc,
}
use power_pc_demo_os.Printk.{
  File, my_putc, my_fflush, print_ulong, print_ullong, print_str, zeros_loop, digits_loop,
}

-- What va_arg takes: a word, a `long long` or a string. `none` below is a call that takes an argument
-- that is not there or of another kind.
pub data Arg : Type 0 where
  word long_word : ℕ → Arg
  text : List ℕ → Arg

-- `formatting` is 0 in `plain`; `long` is behind `%l`, `long_long` behind `%ll`.
pub data Mode : Type 0 where
  plain formatting long long_long : Mode

-- The loop goes on, or vprintf returns, or its behaviour is undefined.
pub data Step : Type 0 where
  go : Mode → List Arg → File → ℕ → Step
  return : File → ℤ → Step
  undefined : Step

abbrev pub after : List Arg → ℕ → Option (File × ℕ) → Step
after args n none = undefined
after args n (some (f, k)) = go plain args f (n + k)

abbrev pub with_word : List Arg → (ℕ → List Arg → Step) → Step
with_word (word w ∷ args) k = k w args
with_word _ k = undefined

-- `%d` and `%ld`: the word is a signed number.
unfoldable pub print_signed : ℕ → List Arg → File → ℕ → Step
print_signed x args f n =
    if leb (2 ^ 31) x
    then after args (n + 1) (print_ulong (2 ^ 32 - x) 10 (my_putc b'-' f))
    else after args n (print_ulong x 10 f)

-- `%p`
unfoldable pub print_pointer : ℕ → List Arg → File → ℕ → Step
print_pointer p args f n =
    let (f1, k1) = print_str (b'(' ∷ b'n' ∷ b'i' ∷ b'l' ∷ b')' ∷ []) f in
    let (f2, k2) = print_str (b'0' ∷ b'x' ∷ []) f in
    if p == 0 then go plain args f1 (n + k1) else after args (n + k2) (print_ulong p 16 f2)

abbrev pub with_text : List Arg → File → ℕ → Step
with_text (text s ∷ args) f n = let (f', k) = print_str s f in go plain args f' (n + k)
with_text _ f n = undefined

abbrev pub with_long : List Arg → File → ℕ → Step
with_long (long_word w ∷ args) f n = after args n (print_ullong w 16 f)
with_long _ f n = undefined

unfoldable pub convert : ℕ → List Arg → File → ℕ → Step
convert c args f n =
    if c == b'%'
    then go plain args (my_putc b'%' f) (n + 1)
    else if c == b'd'
    then with_word args (λ x rest. print_signed x rest f n)
    else if c == b'u'
    then with_word args (λ x rest. after rest n (print_ulong x 10 f))
    else if c == b'x'
    then with_word args (λ x rest. after rest n (print_ulong x 16 f))
    else if c == b'p'
    then with_word args (λ x rest. print_pointer x rest f n)
    else if c == b's'
    then with_text args f n
    else if c == b'l'
    then go long args f n
    else return f (negsuc 0)

unfoldable pub convert_long : ℕ → List Arg → File → ℕ → Step
convert_long c args f n =
    if c == b'd'
    then with_word args (λ x rest. print_signed x rest f n)
    else if c == b'l'
    then go long_long args f n
    else if c == b'u'
    then with_word args (λ x rest. after rest n (print_ulong x 10 f))
    else if c == b'x'
    then with_word args (λ x rest. after rest n (print_ulong x 16 f))
    else return f (negsuc 0)

unfoldable pub step : Mode → ℕ → List Arg → File → ℕ → Step
step plain c args f n =
    if c == b'%' then go formatting args f n else go plain args (my_putc c f) (n + 1)
step formatting c args f n = convert c args f n
step long c args f n = convert_long c args f n
step long_long c args f n = if c == b'x' then with_long args f n else go plain args f n

-- The end of the format. Behind `%ll` the pointer has passed it.
unfoldable pub finish : Mode → File → ℕ → Option (File × ℤ)
finish long f n = some (f, negsuc 0)
finish long_long f n = none
finish _ f n = some (my_fflush f, pos n)

unfoldable pub vprintf_loop : List ℕ → Step → Option (File × ℤ)
vprintf_loop format (return f r) = some (f, r)
vprintf_loop format undefined = none
vprintf_loop [] (go mode args f n) = finish mode f n
vprintf_loop (c ∷ format) (go mode args f n) = vprintf_loop format (step mode c args f n)

-- `console` is what was printed before.
unfoldable pub vprintf : List ℕ → List Arg → List ℕ → Option (File × ℤ)
vprintf format args console =
    vprintf_loop format (go plain args (record { console = console; buff = [] }) 0)
