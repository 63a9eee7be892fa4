-- ===== src/Printk/Long.antt =====
-- print_ullong: the upper word, the zeros between, the lower word.
use power_pc_demo_os.Common.{
  ℕ, zero, suc, ◌+◌, ◌*◌, ◌/◌, ◌%◌, ◌^◌, ◌≤◌, ◌<◌, ◌≡◌, ◌⊎◌, refl, ap, ◌∙◌, Option, some, List, [],
  ◌∷◌, ◌++◌, ◌==◌, ltb, length, length-append, Bool-cases, inl, inr, arith, ◌>>=◌, bind_some,
}
use power_pc_demo_os.Printk.{File, my_putc, print_ulong, zeros_loop, print_ullong}
use power_pc_demo_os.Printk.Buffer.{IsValid, Wrote, Wrote-refl, Wrote-trans, my_putc-Wrote}
use power_pc_demo_os.Printk.Digits.{print_ulong-read}

abbrev zeros : ℕ → List ℕ
zeros zero = []
zeros (suc k) = b'0' ∷ zeros k

length-zeros : (k : ℕ) → length (zeros k) ≡ k
length-zeros zero = refl
length-zeros (suc k) = ap suc (length-zeros k)

-- What the loop over `mask` adds.
zeros_loop-Wrote :
    (left lower : ℕ) (f : File) (count : ℕ)
    → IsValid f
    → (k : ℕ) × (k ≤ left)
      × Wrote f (zeros_loop left lower f count).0 (zeros k)
      × ((zeros_loop left lower f count).1 ≡ count + k)
unfolding zeros_loop
zeros_loop-Wrote zero lower f count v = (0, omega arith, Wrote-refl f v, omega arith)
zeros_loop-Wrote (suc left) lower f count v =
    elim (Bool-cases (lower / 2 ^ (4 * left + 8) % 16 == 0)) [
      | inr stop ↦ rw stop (0, omega arith, Wrote-refl f v, omega arith)
      | inl on ↦
          let first = my_putc-Wrote f b'0' (ground arith) v in
          let (k, le, rest, n) = zeros_loop-Wrote left lower (my_putc b'0' f) (count + 1) first.0 in
          rw on (
            suc k,
            omega arith,
            Wrote-trans f (my_putc b'0' f) (zeros_loop left lower (my_putc b'0' f) (count + 1)).0
                (b'0' ∷ []) (zeros k) first rest,
            omega (arith, n),
          )
    ]

-- A part of the output: the file, and the count of what it adds.
abbrev pub Prints : File → Option (File × ℕ) → Type 0
Prints f r = (f' : File) × (text : List ℕ) × (r ≡ some (f', length text)) × Wrote f f' text

pub print_ulong-Prints :
    (val base : ℕ) (f : File)
    → ((base ≡ 10) ⊎ (base ≡ 16))
    → val < 2 ^ 32
    → IsValid f
    → Prints f (print_ulong val base f)
print_ulong-Prints val base f b h v =
    let (f', t, e, w, _, _) = print_ulong-read val base f b h v in (f', t, e, w)

-- The three parts.
three :
    (upper lower : ℕ) (f : File)
    → upper < 2 ^ 32
    → lower < 2 ^ 32
    → IsValid f
    → Prints f (do
      (f1, n1) ← print_ulong upper 16 f
      let (f2, n2) = zeros_loop 6 lower f1 0
      (f3, n3) ← print_ulong lower 16 f2
      some (f3, n1 + n2 + n3))
three upper lower f hu hl v =
    let (f1, t1, e1, w1, _, _) = print_ulong-read upper 16 f (inr refl) hu v in
    let (k, le, w2, n2) = zeros_loop-Wrote 6 lower f1 0 w1.0 in
    let f2 = (zeros_loop 6 lower f1 0).0 in
    let (f3, t3, e3, w3, _, _) = print_ulong-read lower 16 f2 (inr refl) hl w2.0 in
    let z = length-zeros k in
    let n : length t1 + (zeros_loop 6 lower f1 0).1 + length t3 ≡ length (t1 ++ (zeros k ++ t3)) =
      omega (arith, n2, length-append t1 (zeros k ++ t3), length-append (zeros k) t3) in
    let last : File × ℕ → File × ℕ → Option (File × ℕ) =
      λ x y. some (y.0, x.1 + (zeros_loop 6 lower x.0 0).1 + y.1) in
    (
      f3,
      t1 ++ (zeros k ++ t3),
      bind_some (λ x. print_ulong lower 16 (zeros_loop 6 lower x.0 0).0 >>= last x) e1
          ∙ bind_some (last (f1, length t1)) e3
          ∙ ap (λ c. some (f3, c)) n,
      Wrote-trans f f1 f3 t1 (zeros k ++ t3) w1 (Wrote-trans f1 f2 f3 (zeros k) t3 w2 w3),
    )

-- print_ullong in base 16 of a 64-bit number returns the number of characters that it adds.
pub print_ullong-Prints :
    (val : ℕ) (f : File) → val < 2 ^ 64 → IsValid f → Prints f (print_ullong val 16 f)
unfolding print_ullong
print_ullong-Prints val f h v = elim (Bool-cases (ltb 0 (val / 2 ^ 32))) [
  | inl both ↦ rw both (three (val / 2 ^ 32) (val % 2 ^ 32) f (omega arith) (omega arith) v)
  | inr lower ↦ rw lower (print_ulong-Prints (val % 2 ^ 32) 16 f (inr refl) (omega arith) v)
]
