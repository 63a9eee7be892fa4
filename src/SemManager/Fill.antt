-- ===== src/SemManager/Fill.antt =====
-- `SemManager::init` puts the semaphores and the mutexes into their pools in order.
use power_pc_demo_os.Common.{
  ℕ, zero, suc, ◌+◌, ◌≡◌, ◌≢◌, sym, false, List, [], ◌∷◌, ◌++◌, has, arith, subst,
}
use mathlib.Core.List.{append_assoc, append-nil}
use power_pc_demo_os.RingList.{Store, init_ring, add_tail}
use power_pc_demo_os.RingList.Ring.{init_ring-Ring}
use power_pc_demo_os.RingList.Frame.{Ring-frame, init_ring-SameOutside}
use power_pc_demo_os.SemManager.{Manager, fill, init_pools}
use power_pc_demo_os.SemManager.Pools.{IsPair, give-IsPair, swap-IsPair, IsPools}

-- The addresses of `count` elements of an array, from one on.
abbrev pub items : ℕ → ℕ → (ℕ → ℕ) → List ℕ
items zero from item = []
items (suc count) from item = item from ∷ items count (from + 1) item

-- Each of the nodes is outside of the rings and of the nodes before it.
abbrev pub AreNew : ℕ → List ℕ → List ℕ → List ℕ → Type 0
AreNew h xs gs [] = Unit {0}
AreNew h xs gs (n ∷ ns) =
    (n ≢ h) × (has n xs ≡ false) × (has n gs ≡ false) × AreNew h (xs ++ n ∷ []) gs ns

fill-IsPair :
    (count from : ℕ) (item : ℕ → ℕ) (h : ℕ) (s : Store) (xs : List ℕ) (g : ℕ) (ys : List ℕ)
    → IsPair s h xs g ys
    → AreNew h xs (g ∷ ys) (items count from item)
    → IsPair (fill count from item h s) h (xs ++ items count from item) g ys
unfolding fill
fill-IsPair zero from item h s xs g ys pair new =
    subst (λ l. IsPair s h l g ys) (sym (append-nil xs)) pair
fill-IsPair (suc count) from item h s xs g ys pair (ne, out, far, new) =
    let n = item from in
    let placed = give-IsPair s h n xs g ys pair ne out far in
    let rest =
      fill-IsPair count (from + 1) item h (add_tail s h n) (xs ++ n ∷ []) g ys placed new in
    subst (λ l. IsPair (fill count (from + 1) item h (add_tail s h n)) h l g ys)
      (append_assoc xs (n ∷ []) (items count (from + 1) item)) rest

fresh-IsPair : (s : Store) (h g : ℕ) → h ≢ g → IsPair (init_ring (init_ring s h) g) h [] g []
fresh-IsPair s h g ne = (
  Ring-frame (g ∷ []) (init_ring-Ring s h) (λ p i. ground arith)
      (init_ring-SameOutside (init_ring s h) g),
  init_ring-Ring (init_ring s h) g,
  λ p i. ground arith,
)

both-IsPair :
    (n k i : ℕ) (s : Store) (h g : ℕ) (item other : ℕ → ℕ)
    → h ≢ g
    → AreNew h [] (g ∷ []) (items n 0 item)
    → AreNew g [] (h ∷ items n 0 item) (items k i other)
    → IsPair
        (fill k i other g (fill n 0 item h (init_ring (init_ring s h) g)))
        h
        (items n 0 item)
        g
        (items k i other)
both-IsPair n k i s h g item other ne new later =
    let fresh = fresh-IsPair s h g ne in
    let one = fill-IsPair n 0 item h (init_ring (init_ring s h) g) [] g [] fresh new in
    let t = fill n 0 item h (init_ring (init_ring s h) g) in
    let two =
      fill-IsPair k i other g t [] h (items n 0 item) (swap-IsPair t h (items n 0 item) g [] one)
        later in
    swap-IsPair (fill k i other g t) g (items k i other) h (items n 0 item) two

-- init puts the 200 semaphores, and the mutexes but the first two, into their pools in the order of
-- their arrays, when the two headers and all of these are different nodes.
pub init_pools-IsPools :
    (m : Manager)
    → m.sem_header ≢ m.mutex_header
    → AreNew m.sem_header [] (m.mutex_header ∷ []) (items 200 0 m.sems)
    → AreNew m.mutex_header [] (m.sem_header ∷ items 200 0 m.sems) (items 198 2 m.mutexes)
    → IsPools (init_pools m) (items 200 0 m.sems) (items 198 2 m.mutexes)
unfolding init_pools
init_pools-IsPools m ne sems mutexes =
    both-IsPair 200 198 2 m.links m.sem_header m.mutex_header m.sems m.mutexes ne sems mutexes
