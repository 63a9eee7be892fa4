-- ===== src/RingBuffer/Window.antt =====
-- The elements of a circular array from an index on.
use power_pc_demo_os.Common.{
  ℕ, zero, suc, ◌+◌, ◌-◌, ◌%◌, ◌≤◌, ◌<◌, ◌≡◌, ◌≢◌, refl, List, [], ◌∷◌, ◌++◌, arith, ltb,
  if◌then◌else◌, length, drop-get_or, get_or, set, take, drop, get_or-set_self, get_or-set_ne, ap,
  ap₂, ◌∙◌, sym,
}
use native.Mathlib.Nat.{mod-eq_of_lt, mod-eq-sub-mod, mod-add-mod}
use native.Mathlib.Decide.{dec_lt}

-- An index that is less than two rounds wraps by one subtraction at most.
pub wrap : (x cap : ℕ) → x < cap + cap → x % cap ≡ (if ltb x cap then x else x - cap)
wrap x cap h = elim (dec_lt x cap) [
  | yes p ↦ ground (arith, mod-eq_of_lt p)
  | no p ↦ ground (
    arith,
    mod-eq-sub-mod {n = x} {m = cap} (omega arith),
    mod-eq_of_lt {n = x - cap} {m = cap} (omega arith),
  )
]

-- `n` elements from index `i` on, going round at `cap`.
abbrev pub window : List ℕ → ℕ → ℕ → ℕ → List ℕ
window cells cap zero i = []
window cells cap (suc n) i = get_or cells i 0 ∷ window cells cap n ((i + 1) % cap)

-- One step round and then `m` more.
pub step_add : (i m cap : ℕ) → ((i + 1) % cap + m) % cap ≡ (i + suc m) % cap
step_add i m cap = mod-add-mod (i + 1) cap m ∙ ap (λ k. k % cap) (omega arith)

module _ (cells : List ℕ) (cap : ℕ) where
  pub length-window : (n i : ℕ) → length (window cells cap n i) ≡ n
  length-window zero i = refl
  length-window (suc n) i = ap suc (length-window n ((i + 1) % cap))

  -- The window splits into the part before an index and the part behind it.
  pub window-add :
      (m n i : ℕ)
      → i < cap
      → window cells cap (m + n) i ≡ window cells cap m i ++ window cells cap n ((i + m) % cap)
  window-add zero n i hi = ground (arith, wrap (i + 0) cap)
  window-add (suc m) n i hi =
      let e : suc m + n ≡ suc (m + n) = omega arith in
      rw (e, ← step_add i m cap)
        (ap (λ w. get_or cells i 0 ∷ w) (window-add m n ((i + 1) % cap) (omega arith)))

-- An element written just behind a window that is not full extends it.
pub window-set :
    (cells : List ℕ) (cap d n i j : ℕ)
    → cap ≤ length cells
    → i < cap
    → n < cap
    → j ≡ (i + n) % cap
    → window (set cells j d) cap (suc n) i ≡ window cells cap n i ++ d ∷ []
window-set cells cap d zero i j hl hi hn e =
    let e' : j ≡ i = ground (arith, wrap (i + 0) cap) in
    rw (e', get_or-set_self cells i d 0 (omega arith)) refl
window-set cells cap d (suc n) i j hl hi hn e =
    let ne : j ≢ i = ground (arith, wrap (i + suc n) cap) in
    ap₂ ◌∷◌ (get_or-set_ne cells j i d 0 ne) (
      window-set cells cap d n ((i + 1) % cap) j hl (omega arith) (omega arith)
        (e ∙ sym (step_add i n cap)))

-- `memcpy` from an index copies the window there, if it does not pass the end.
pub copy-window :
    (cells : List ℕ) (cap n i : ℕ)
    → cap ≤ length cells
    → i + n ≤ cap
    → take n (drop i cells) ≡ window cells cap n i
copy-window cells cap zero i hl h = refl
copy-window cells cap (suc n) i hl h =
    rw (drop-get_or cells i 0 (omega arith), copy-window cells cap n (suc i) hl (omega arith))
      (ap (λ w. get_or cells i 0 ∷ w) (next n h))
  where
    next :
        (m : ℕ) → i + suc m ≤ cap → window cells cap m (suc i) ≡ window cells cap m ((i + 1) % cap)
    next zero k = refl
    next (suc m) k = ground (arith, wrap (i + 1) cap)
