-- ===== src/RingList/Links.antt =====
-- Chains of a store: from `a` through the nodes `xs` to `b`, forwards and backwards.
use power_pc_demo_os.Common.{ℕ, ◌≡◌, ◌∙◌, true, List, [], ◌∷◌, ◌++◌, arith, has}
use power_pc_demo_os.RingList.{Store}

abbrev pub Links : Store → ℕ → List ℕ → ℕ → Type 0
Links s a [] b = (s.next a ≡ b) × (s.prev b ≡ a)
Links s a (x ∷ xs) b = (s.next a ≡ x) × (s.prev x ≡ a) × Links s x xs b

-- A chain survives a change that spares the `next` of its nodes and the `prev` behind them.
pub Links-frame :
    (s t : Store) (a : ℕ) (xs : List ℕ) (b : ℕ)
    → Links s a xs b
    → t.next a ≡ s.next a
    → ((p : ℕ) → has p xs ≡ true → (t.next p ≡ s.next p) × (t.prev p ≡ s.prev p))
    → t.prev b ≡ s.prev b
    → Links t a xs b
Links-frame s t a [] b l n same p = (n ∙ l.0, p ∙ l.1)
Links-frame s t a (x ∷ xs) b l n same p =
    let here = same x (ground arith) in
    (n ∙ l.0, here.1 ∙ l.1, Links-frame s t x xs b l.2 here.0 (λ q h. same q (ground arith)) p)

-- The node before the end is the start or a node of the chain.
pub prev-has :
    (s : Store) (a : ℕ) (xs : List ℕ) (b : ℕ) → Links s a xs b → has (s.prev b) (a ∷ xs) ≡ true
prev-has s a [] b l = ground arith
prev-has s a (x ∷ xs) b l = ground (arith, prev-has s x xs b l.2)

pub next-has :
    (s : Store) (a : ℕ) (xs : List ℕ) (b : ℕ)
    → Links s a xs b
    → has (s.next a) (xs ++ b ∷ []) ≡ true
next-has s a [] b l = ground arith
next-has s a (x ∷ xs) b l = ground arith

-- The node before a node of the chain is the start or a node of the chain, and the node behind it
-- is a node of the chain or the end.
pub neighbours-has :
    (s : Store) (a : ℕ) (xs : List ℕ) (b d : ℕ)
    → Links s a xs b
    → has d xs ≡ true
    → (has (s.prev d) (a ∷ xs) ≡ true) × (has (s.next d) (xs ++ b ∷ []) ≡ true)
neighbours-has s a [] b d l i = absurd (ground arith)
neighbours-has s a (x ∷ []) b d l i = ground arith
neighbours-has s a (x ∷ y ∷ xs) b d l i = ground (arith, neighbours-has s x (y ∷ xs) b d l.2)
