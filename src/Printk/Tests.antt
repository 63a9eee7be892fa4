-- ===== src/Printk/Tests.antt =====
-- Runs of printk's parts.
use power_pc_demo_os.Common.{
  ℕ, ◌-◌, ◌^◌, ◌≡◌, refl, inr, some, List, [], ◌∷◌, pos, negsuc, length, arith,
}
use power_pc_demo_os.Printk.{
  File, my_putc, my_fflush, print_ulong, print_ullong, digits_loop, zeros_loop,
}
use power_pc_demo_os.Printk.Buffer.{Wrote}
use power_pc_demo_os.Printk.Digits.{print_ulong-read, read, AreCharsOf}
use power_pc_demo_os.Printk.Format.{
  word, text, vprintf, vprintf_loop, step, convert, print_signed, finish,
}
use power_pc_demo_os.Printk.Format.Loop.{Counted, vprintf-Counted}

abbrev fresh : File
fresh = record { console = []; buff = [] }

-- "a%d%s"
abbrev format : List ℕ
format = b'a' ∷ b'%' ∷ b'd' ∷ b'%' ∷ b's' ∷ []

print_ulong-read_example :
    (f' : File) × (t : List ℕ) × (print_ulong 40961 16 fresh ≡ some (f', length t))
    × Wrote fresh f' t
    × (read 16 0 t ≡ 40961)
    × AreCharsOf 16 t
print_ulong-read_example =
    print_ulong-read 40961 16 fresh (inr refl) (omega arith) (omega arith, refl)

vprintf-Counted_example :
    Counted 0 (vprintf format (word (2 ^ 32 - 7) ∷ text (b'b' ∷ b'c' ∷ []) ∷ []) [])
vprintf-Counted_example =
    vprintf-Counted format (word (2 ^ 32 - 7) ∷ text (b'b' ∷ b'c' ∷ []) ∷ []) [] refl
      (omega arith, (refl, tt))

printed :
    vprintf format (word (2 ^ 32 - 7) ∷ text (b'b' ∷ b'c' ∷ []) ∷ []) []
    ≡ some (record { console = b'a' ∷ b'-' ∷ b'7' ∷ b'b' ∷ b'c' ∷ []; buff = [] }, pos 5)
unfolding vprintf vprintf_loop step convert print_signed print_ulong digits_loop my_putc my_fflush
    finish
printed = refl

-- 2 ^ 32 is printed with a zero too few.
seven_zeros :
    print_ullong (2 ^ 32) 16 fresh
    ≡ some (
      record { console = []; buff = b'1' ∷ b'0' ∷ b'0' ∷ b'0' ∷ b'0' ∷ b'0' ∷ b'0' ∷ b'0' ∷ [] },
      8,
    )
unfolding print_ullong zeros_loop print_ulong digits_loop my_putc my_fflush
seven_zeros = refl

-- An unknown conversion leaves what is in the buffer.
unknown :
    vprintf (b'a' ∷ b'%' ∷ b'c' ∷ []) [] []
    ≡ some (record { console = []; buff = b'a' ∷ [] }, negsuc 0)
unfolding vprintf vprintf_loop step convert my_putc
unknown = refl
