-- ===== src/Printk.antt =====
-- generic/libc/stdio/printk.cpp. The console is the text that reached debugConsole.puts, `buff` the
-- characters of the buffer below `pos`, which is their number; a string is the list of its characters
-- without EOS.
pub mod Buffer
pub mod Digits
pub mod Long
pub mod Format
mod Tests
use power_pc_demo_os.Common.{
  ℕ, zero, suc, ◌+◌, ◌-◌, ◌*◌, ◌/◌, ◌%◌, ◌^◌, ◌≡◌, Bool, true, false, not, ◌&&◌, ◌||◌, Option, none,
  some, List, [], ◌∷◌, ◌++◌, ◌==◌, ltb, leb, if◌then◌else◌, length, get_or, ◌>>=◌, ℤ, pos, negsuc,
}

abbrev pub buf_size : ℕ
buf_size = 64

pub record File : Type 0 where
  pub console : List ℕ
  pub buff : List ℕ

-- debugConsole.puts stops at EOS.
abbrev pub until_eos : List ℕ → List ℕ
until_eos [] = []
until_eos (c ∷ cs) = let rest = until_eos cs in if c == 0 then [] else c ∷ rest

unfoldable pub my_fflush : File → File
my_fflush f = record { console = f.console ++ until_eos f.buff; buff = [] }

unfoldable pub my_putc : ℕ → File → File
my_putc c f =
    let f1 = record f { buff = f.buff ++ c ∷ [] } in
    if length f1.buff == buf_size then my_fflush f1 else f1

abbrev pub hex_chars : List ℕ
hex_chars =
    b'0' ∷ b'1' ∷ b'2' ∷ b'3' ∷ b'4' ∷ b'5' ∷ b'6' ∷ b'7' ∷ b'8' ∷ b'9' ∷ b'a' ∷ b'b' ∷ b'c' ∷ b'd'
    ∷ b'e' ∷ b'f' ∷ []

abbrev pub hex_char : ℕ → ℕ
hex_char d = get_or hex_chars d 0

-- `while(val)`: the digits, the lowest first, in an array with room for so many; `none` is a write
-- beyond it.
unfoldable pub digits_loop : ℕ → ℕ → ℕ → Option (List ℕ)
digits_loop zero val base = if val == 0 then some [] else none
digits_loop (suc room) val base =
    let rest = digits_loop room (val / base) base in
    let all = (do ds ← rest; some (val % base ∷ ds)) in if val == 0 then some [] else all

-- From the last digit down to the first.
abbrev pub put_digits : List ℕ → File → File
put_digits [] f = f
put_digits (d ∷ ds) f = my_putc (hex_char d) (put_digits ds f)

-- `digits` has `sizeof(unsigned long) * 2 + 3` places.
unfoldable pub print_ulong : ℕ → ℕ → File → Option (File × ℕ)
print_ulong val base f =
    let digits = do ds ← digits_loop 11 val base; some (put_digits ds f, length ds)
    in if not (base == 10) && not (base == 16)
      then some (f, 0)
      else if val == 0
      then some (my_putc b'0' f, 1)
      else digits

-- At most six rounds; `mask` is the four bits from `4 * left + 8` on.
unfoldable pub zeros_loop : ℕ → ℕ → File → ℕ → File × ℕ
zeros_loop zero lower f count = (f, count)
zeros_loop (suc left) lower f count =
    let rest = zeros_loop left lower (my_putc b'0' f) (count + 1) in
    if lower / 2 ^ (4 * left + 8) % 16 == 0 then rest else (f, count)

unfoldable pub print_ullong : ℕ → ℕ → File → Option (File × ℕ)
print_ullong val base f =
    let upper = val / 2 ^ 32 in
    let lower = val % 2 ^ 32 in
    let both = do
      (f1, n1) ← print_ulong upper base f
      let (f2, n2) = zeros_loop 6 lower f1 0
      (f3, n3) ← print_ulong lower base f2
      some (f3, n1 + n2 + n3)
    in if not (base == 16)
      then some (f, 0)
      else if ltb 0 upper
      then both
      else print_ulong lower base f

abbrev pub print_str : List ℕ → File → File × ℕ
print_str [] f = (f, 0)
print_str (c ∷ cs) f = let (f', n) = print_str cs (my_putc c f) in (f', n + 1)
