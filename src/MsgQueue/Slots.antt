-- ===== src/MsgQueue/Slots.antt =====
-- The blocks of a message queue by their numbers, and the lengths of the messages in order.
use power_pc_demo_os.Common.{
  ℕ, zero, suc, ◌+◌, ◌-◌, ◌*◌, ◌%◌, ◌<◌, ◌≡◌, ◌≢◌, ◌∙◌, refl, sym, ap, ap₂, true, false, List, [],
  ◌∷◌, ◌++◌, arith, ◌==◌, leb, ==_iff, ==_refl, if◌then◌else◌, update, Bool-cases, inl, inr,
}
use power_pc_demo_os.RingBuffer.Window.{wrap, step_add}
use native.Mathlib.Nat.{eq_of_mul-eq-mul_right, mod-lt, mod-eq_of_lt, mul-lt-mul_of_pos_right}

abbrev pub slot : ℕ → ℕ → ℕ → ℕ
slot low block i = low + i * block

pub slot_ne : (low block i j : ℕ) → 0 < block → i ≢ j → slot low block i ≢ slot low block j
slot_ne low block i j pos ne e = ne (eq_of_mul-eq-mul_right block pos i j (omega arith))

suc_mul : (i block : ℕ) → (i + 1) * block ≡ i * block + block
suc_mul i block = omega arith

-- The pointer behind a block, taken back to the start at the end.
pub next-slot :
    (low block cap i : ℕ)
    → 0 < block
    → i < cap
    → (if leb (low + cap * block) (slot low block i + block) then low else slot low block i + block)
      ≡ slot low block ((i + 1) % cap)
next-slot low block cap i pos h = elim (Bool-cases (i + 1 == cap)) [
  | inl last ↦
      let e = (==_iff (i + 1) cap).0 last in
      let size : cap * block ≡ i * block + block = ap (λ k. k * block) (sym e) ∙ suc_mul i block in
      let turn : (i + 1) % cap ≡ 0 = ground (arith, wrap (i + 1) cap) in
      let over : leb (low + cap * block) (low + i * block + block) ≡ true = ground arith in
      rw (over, turn) (omega arith)
  | inr inner ↦
      let more : i + 1 < cap = ground arith in
      let size = mul-lt-mul_of_pos_right more pos in
      let step = suc_mul i block in
      let turn : (i + 1) % cap ≡ i + 1 = mod-eq_of_lt more in
      let under : leb (low + cap * block) (low + i * block + block) ≡ false = ground arith in
      rw (under, turn) (omega arith)
]

-- The pointer before a block, taken to the end at the start.
pub prev-slot :
    (low block cap i : ℕ)
    → 0 < block
    → i < cap
    → (if leb (slot low block i) low then low + cap * block else slot low block i) - block
      ≡ slot low block (if i == 0 then cap - 1 else i - 1)
prev-slot low block cap i pos h = elim (Bool-cases (i == 0)) [
  | inl first ↦
      let e = (==_iff i 0).0 first in
      let at : i * block ≡ 0 = ap (λ k. k * block) e ∙ (omega arith) in
      let last : cap - 1 + 1 ≡ cap = omega arith in
      let size : cap * block ≡ (cap - 1) * block + block =
        ap (λ k. k * block) (sym last) ∙ suc_mul (cap - 1) block in
      let low_end : leb (low + i * block) low ≡ true = ground arith in
      rw (low_end, first) (omega arith)
  | inr inner ↦
      let before : i - 1 + 1 ≡ i = ground arith in
      let size : i * block ≡ (i - 1) * block + block =
        ap (λ k. k * block) (sym before) ∙ suc_mul (i - 1) block in
      let high_up : leb (low + i * block) low ≡ false = ground arith in
      rw (high_up, inner) (omega arith)
]

-- The lengths of `n` messages from block `r` on, going round at `cap`.
unfoldable pub lens : (ℕ → ℕ) → ℕ → ℕ → ℕ → ℕ → ℕ → List ℕ
lens len low block cap zero r = []
lens len low block cap (suc n) r = len (slot low block r) ∷ lens len low block cap n ((r + 1) % cap)

module _ (len : ℕ → ℕ) (low block cap : ℕ) (pos : 0 < block) where
  -- A block outside of the window changes.
  pub lens-other :
      (n r w v : ℕ)
      → ((i : ℕ) → i < n → (r + i) % cap ≢ w)
      → r < cap
      → lens (update len (slot low block w) v) low block cap n r ≡ lens len low block cap n r
  unfolding lens
  lens-other zero r w v out h = refl
  lens-other (suc n) r w v out h =
      let first : r ≢ w = λ e. out 0 (omega arith) (at_start r h ∙ e) in
      let apart : (slot low block r == slot low block w) ≡ false =
        differs (slot_ne low block r w pos first) in
      rw apart (
        ap (λ ls. len (slot low block r) ∷ ls)
          (lens-other n ((r + 1) % cap) w v
            (λ i hi e. out (suc i) (omega arith) (sym (step_add r i cap) ∙ e))
            (mod-lt (r + 1) (omega arith))))
    where
      at_start : (r : ℕ) → r < cap → (r + 0) % cap ≡ r
      at_start r h = ground (arith, mod-eq_of_lt h)

      differs : {a b : ℕ} → a ≢ b → (a == b) ≡ false
      differs ne = ground arith

-- The last of the messages.
lens-last :
    (len : ℕ → ℕ) (low block cap n r : ℕ)
    → r < cap
    → lens len low block cap (suc n) r
      ≡ lens len low block cap n r ++ len (slot low block ((r + n) % cap)) ∷ []
unfolding lens
lens-last len low block cap zero r h =
    let e : (r + 0) % cap ≡ r = ground (arith, mod-eq_of_lt h) in rw e refl
lens-last len low block cap (suc n) r h = rw (← step_add r n cap) (
    ap (λ ls. len (slot low block r) ∷ ls)
      (lens-last len low block cap n ((r + 1) % cap) (mod-lt (r + 1) (omega arith))))

not_yet : (cap r n i : ℕ) → r < cap → n < cap → i < n → (r + i) % cap ≢ (r + n) % cap
not_yet cap r n i h room lo = ground (arith, wrap (r + i) cap, wrap (r + n) cap)

-- A message whose length is written behind `n` others is the last.
pub lens-snoc :
    (len : ℕ → ℕ) (low block cap n r v : ℕ)
    → 0 < block
    → r < cap
    → n < cap
    → lens (update len (slot low block ((r + n) % cap)) v) low block cap (suc n) r
      ≡ lens len low block cap n r ++ v ∷ []
lens-snoc len low block cap n r v pos h room =
    let w = (r + n) % cap in
    let len' = update len (slot low block w) v in
    lens-last len' low block cap n r h
    ∙ ap₂ (λ ls x. ls ++ x ∷ [])
        (lens-other len low block cap pos n r w v (λ i lo. not_yet cap r n i h room lo) h)
        (rw (==_refl (slot low block w)) refl)

-- A message whose length is written before `n` others is the first.
pub lens-cons :
    (len : ℕ → ℕ) (low block cap n r w v : ℕ)
    → 0 < block
    → r < cap
    → n < cap
    → w ≡ (if r == 0 then cap - 1 else r - 1)
    → lens (update len (slot low block w) v) low block cap (suc n) w
      ≡ v ∷ lens len low block cap n r
unfolding lens
lens-cons len low block cap n r w v pos h room e =
    let back : (w + 1) % cap ≡ r = ground (arith, wrap (w + 1) cap) in
    rw (==_refl (slot low block w), back)
      (ap (λ ls. v ∷ ls) (lens-other len low block cap pos n r w v (λ i lo. not_back i lo) h))
  where
    not_back : (i : ℕ) → i < n → (r + i) % cap ≢ w
    not_back i lo = ground (arith, wrap (r + i) cap)

pub lens-uncons :
    (len : ℕ → ℕ) (low block cap n r x : ℕ) (xs : List ℕ)
    → lens len low block cap n r ≡ x ∷ xs
    → (0 < n) × (len (slot low block r) ≡ x) × (lens len low block cap (n - 1) ((r + 1) % cap) ≡ xs)
unfolding lens
lens-uncons len low block cap zero r x xs e = absurd (ground (arith, e))
lens-uncons len low block cap (suc n) r x xs e =
    let back : suc n - 1 ≡ n = omega arith in (omega arith, (cons_eq e).0, rw back (cons_eq e).1)
  where
    cons_eq : {a b : ℕ} {ks ls : List ℕ} → (a ∷ ks) ≡ (b ∷ ls) → (a ≡ b) × (ks ≡ ls)
    cons_eq e = ground arith

pub lens-nil : (len : ℕ → ℕ) (low block cap n r : ℕ) → lens len low block cap n r ≡ [] → n ≡ 0
unfolding lens
lens-nil len low block cap zero r e = refl
lens-nil len low block cap (suc n) r e = absurd (ground (arith, e))
