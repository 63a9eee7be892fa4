-- ===== src/RingList/Frame.antt =====
-- The double ring list functions of include/list.h leave every other ring alone.
use power_pc_demo_os.Common.{ℕ, ◌≡◌, true, false, List, [], ◌∷◌, arith, has, has-append}
use power_pc_demo_os.RingList.{Store, init_ring, add_header, add_tail, del_node}
use power_pc_demo_os.RingList.Links.{Links-frame, prev-has, next-has, neighbours-has}
use power_pc_demo_os.RingList.Ring.{Ring}

-- `t` is `s` at each node that is not in `xs`.
abbrev pub SameOutside : List ℕ → Store → Store → Type 0
SameOutside xs s t = (p : ℕ) → has p xs ≡ false → (t.next p ≡ s.next p) × (t.prev p ≡ s.prev p)

abbrev pub Apart : List ℕ → List ℕ → Type 0
Apart xs ys = (p : ℕ) → has p xs ≡ true → has p ys ≡ false

-- A ring survives a change outside of it.
pub Ring-frame :
    {s t : Store} {h : ℕ} {xs : List ℕ} (ys : List ℕ)
    → Ring s h xs
    → Apart (h ∷ xs) ys
    → SameOutside ys s t
    → Ring t h xs
Ring-frame {s} {t} {h} {xs} ys r apart same = record {
  links =
      Links-frame s t h xs h r.links (ground (arith, same h, apart h))
        (λ p i. same p (apart p (ground arith))) (ground (arith, same h, apart h));
  outside = r.outside;
  distinct = r.distinct;
}

pub init_ring-SameOutside : (s : Store) (h : ℕ) → SameOutside (h ∷ []) s (init_ring s h)
unfolding init_ring
init_ring-SameOutside s h p o = ground arith

pub add_tail-SameOutside :
    {s : Store} {h : ℕ} {xs : List ℕ} (n : ℕ)
    → Ring s h xs
    → SameOutside (n ∷ h ∷ xs) s (add_tail s h n)
unfolding add_tail
add_tail-SameOutside {s} {h} {xs} n r p o = ground (arith, prev-has s h xs h r.links)

pub add_header-SameOutside :
    {s : Store} {h : ℕ} {xs : List ℕ} (n : ℕ)
    → Ring s h xs
    → SameOutside (n ∷ h ∷ xs) s (add_header s h n)
unfolding add_header
add_header-SameOutside {s} {h} {xs} n r p o =
    ground (arith, next-has s h xs h r.links, has-append p xs (h ∷ []))

pub del_node-SameOutside :
    {s : Store} {h : ℕ} {xs : List ℕ} (d : ℕ)
    → Ring s h xs
    → has d xs ≡ true
    → SameOutside (h ∷ xs) s (del_node s d)
unfolding del_node
del_node-SameOutside {s} {h} {xs} d r i p o =
    ground (arith, neighbours-has s h xs h d r.links i, has-append p xs (h ∷ []))
