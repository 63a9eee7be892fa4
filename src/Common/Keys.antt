-- ===== src/Common/Keys.antt =====
-- Membership, distinctness and removal in lists of addresses, as Boolean tests that compute.
use Prim.Native.Nat.{ℕ, suc}
use mathlib.Core.Path.{◌≡◌, refl}
use mathlib.Core.Logic.{◌≢◌}
use mathlib.Core.Bool.{Bool, true, false, ◌||◌}
use mathlib.Core.List.{List, [], ◌∷◌, ◌++◌}
use native.Mathlib.Omega.{arith}
use power_pc_demo_os.Common.Tests.{◌==◌, if◌then◌else◌}
use power_pc_demo_os.Common.Lists.{length}

abbrev pub has : ℕ → List ℕ → Bool
has a [] = false
has a (x ∷ xs) = (a == x) || has a xs

abbrev pub IsDistinct : List ℕ → Type 0
IsDistinct [] = Unit {0}
IsDistinct (x ∷ xs) = (has x xs ≡ false) × IsDistinct xs

-- The first occurrence goes.
abbrev pub erase : ℕ → List ℕ → List ℕ
erase a [] = []
erase a (x ∷ xs) = if x == a then xs else x ∷ erase a xs

pub has-append : (a : ℕ) (xs ys : List ℕ) → has a (xs ++ ys) ≡ (has a xs || has a ys)
has-append a [] ys = refl
has-append a (x ∷ xs) ys = ground (arith, has-append a xs ys)

pub has-snoc : (a n : ℕ) (xs : List ℕ) → has a xs ≡ false → a ≢ n → has a (xs ++ n ∷ []) ≡ false
has-snoc a n xs h ne = ground (arith, has-append a xs (n ∷ []))

pub has-erase : (a d : ℕ) (xs : List ℕ) → has a xs ≡ false → has a (erase d xs) ≡ false
has-erase a d [] h = refl
has-erase a d (x ∷ xs) h = ground (arith, has-erase a d xs)

pub erase-IsDistinct : (d : ℕ) (xs : List ℕ) → IsDistinct xs → IsDistinct (erase d xs)
erase-IsDistinct d [] h = tt
erase-IsDistinct d (x ∷ xs) h = ground (arith, has-erase x d xs, erase-IsDistinct d xs)

pub snoc-IsDistinct :
    (n : ℕ) (xs : List ℕ) → IsDistinct xs → has n xs ≡ false → IsDistinct (xs ++ n ∷ [])
snoc-IsDistinct n [] h o = (refl, tt)
snoc-IsDistinct n (x ∷ xs) h o = ground (arith, has-snoc x n xs, snoc-IsDistinct n xs)

pub has-erase_self : (d : ℕ) (xs : List ℕ) → IsDistinct xs → has d (erase d xs) ≡ false
has-erase_self d [] h = refl
has-erase_self d (x ∷ xs) h = ground (arith, has-erase_self d xs)

pub length-erase : (d : ℕ) (xs : List ℕ) → has d xs ≡ true → suc (length (erase d xs)) ≡ length xs
length-erase d [] h = absurd (ground arith)
length-erase d (x ∷ xs) h = ground (arith, length-erase d xs)

pub has-erase_ne : (a d : ℕ) (xs : List ℕ) → a ≢ d → has a (erase d xs) ≡ has a xs
has-erase_ne a d [] ne = refl
has-erase_ne a d (x ∷ xs) ne = ground (arith, has-erase_ne a d xs)

pub has_of_erase : (a d : ℕ) (xs : List ℕ) → has a (erase d xs) ≡ true → has a xs ≡ true
has_of_erase a d [] h = h
has_of_erase a d (x ∷ xs) h = ground (arith, has_of_erase a d xs)

pub has-cons_two :
    (k a b : ℕ) (xs : List ℕ) → k ≢ a → k ≢ b → has k xs ≡ false → has k (a ∷ b ∷ xs) ≡ false
has-cons_two k a b xs p q o = ground arith
