-- ===== src/SemManager/Pools.antt =====
-- The two pools of SemManager as rings that are apart, and what allocate does to them under its lock.
use power_pc_demo_os.Common.{
  ℕ, ◌≡◌, ◌≢◌, refl, sym, ℤ, pos, true, false, List, [], ◌∷◌, ◌++◌, ==_refl, has, has-append, erase,
  Bool-cases, inl, inr, arith, subst,
}
use power_pc_demo_os.RingList.{Store, null, init_ring, add_tail, del_node, is_empty}
use power_pc_demo_os.RingList.Ring.{Ring, add_tail-Ring, del_node-Ring, is_empty-Ring}
use power_pc_demo_os.RingList.Frame.{
  Apart, Ring-frame, init_ring-SameOutside, add_tail-SameOutside, del_node-SameOutside,
}
use power_pc_demo_os.SemManager.{Manager, start_sem, start_mutex, take_sem, take_mutex}

abbrev pub IsPair : Store → ℕ → List ℕ → ℕ → List ℕ → Type 0
IsPair s h xs g ys = Ring s h xs × Ring s g ys × Apart (h ∷ xs) (g ∷ ys)

-- The free semaphores and the free mutexes, in order.
abbrev pub IsPools : Manager → List ℕ → List ℕ → Type 0
IsPools m sems mutexes = IsPair m.links m.sem_header sems m.mutex_header mutexes

Apart-sym : (xs ys : List ℕ) → Apart xs ys → Apart ys xs
Apart-sym xs ys a p i = elim (Bool-cases (has p xs)) [
  | inl both ↦ let e = a p both in absurd (ground arith)
  | inr out ↦ out
]

-- A node that is taken off its ring and made a ring of its own.
take-IsPair :
    (s : Store) (h x : ℕ) (xs : List ℕ) (g : ℕ) (ys : List ℕ)
    → IsPair s h (x ∷ xs) g ys
    → let t = init_ring (del_node s x) x in IsPair t h xs g ys × (t.next x ≡ x)
unfolding init_ring
take-IsPair s h x xs g ys (r, q, a) =
    let i : has x (x ∷ xs) ≡ true = rw (==_refl x) refl in
    let head : erase x (x ∷ xs) ≡ xs = rw (==_refl x) refl in
    let r1 : Ring (del_node s x) h xs = subst (Ring (del_node s x) h) head (del_node-Ring x r i) in
    let q1 : Ring (del_node s x) g ys =
      Ring-frame (h ∷ x ∷ xs) q (Apart-sym (h ∷ x ∷ xs) (g ∷ ys) a) (del_node-SameOutside x r i) in
    let alone = init_ring-SameOutside (del_node s x) x in
    let oh = r.outside in
    let ox = r.distinct.0 in
    let out = a x (ground arith) in
    (
      (
        Ring-frame (x ∷ []) r1 (λ p j. ground arith) alone,
        Ring-frame (x ∷ []) q1 (λ p j. ground arith) alone,
        λ p j. a p (ground arith),
      ),
      own (del_node s x),
    )
  where
    own : (s : Store) → (init_ring s x).next x ≡ x
    own s = ground arith

-- A node that is outside of both rings is put last on one of them.
pub give-IsPair :
    (s : Store) (h x : ℕ) (xs : List ℕ) (g : ℕ) (ys : List ℕ)
    → IsPair s h xs g ys
    → x ≢ h
    → has x xs ≡ false
    → has x (g ∷ ys) ≡ false
    → IsPair (add_tail s h x) h (xs ++ x ∷ []) g ys
give-IsPair s h x xs g ys (r, q, a) ne out far = (
  add_tail-Ring x r ne out,
  Ring-frame (x ∷ h ∷ xs) q (λ p i. let e = Apart-sym (h ∷ xs) (g ∷ ys) a p i in ground arith)
      (add_tail-SameOutside x r),
  λ p i. let e = has-append p xs (x ∷ []) in let b = a p in ground arith,
)

-- The first node of a ring that is not empty.
first-Ring :
    (s : Store) (h x : ℕ) (xs : List ℕ)
    → Ring s h (x ∷ xs)
    → (is_empty s h ≡ false) × (s.next h ≡ x)
first-Ring s h x xs r = (
  elim (Bool-cases (is_empty s h)) [
    | inl empty ↦ let e = (is_empty-Ring (x ∷ xs) r).0 empty in absurd (ground arith)
    | inr some_left ↦ some_left
  ],
  r.links.0,
)

-- What allocate gives: NULL and the same pools, or the first free semaphore, started with its value,
-- without waiters and in neither pool.
abbrev pub SemAllocated : Manager → ℤ → List ℕ → List ℕ → ℕ × Manager → Type 0
SemAllocated m init_val [] mutexes (p, m') = (p ≡ null) × (m' ≡ m)
SemAllocated m init_val (x ∷ sems) mutexes (p, m') =
    (p ≡ x)
    × IsPools m' sems mutexes
    × (m'.val x ≡ init_val)
    × (m'.links.next x ≡ x)
    × (has x (m'.sem_header ∷ sems) ≡ false)
    × (has x (m'.mutex_header ∷ mutexes) ≡ false)

abbrev taken : Manager → ℕ → Manager
taken m x = record m { links = del_node m.links x }

start_sem-IsPools :
    (m : Manager) (init_val : ℤ) (x : ℕ) (sems mutexes : List ℕ)
    → IsPools m (x ∷ sems) mutexes
    → SemAllocated m init_val (x ∷ sems) mutexes (x, start_sem (taken m x) x init_val)
unfolding start_sem
start_sem-IsPools m init_val x sems mutexes (r, q, a) =
    let (pair, own) = take-IsPair m.links m.sem_header x sems m.mutex_header mutexes (r, q, a) in
    let oh = r.outside in
    let ox = r.distinct.0 in
    (refl, pair, rw (==_refl x) refl, own, ground arith, a x (ground arith))

-- Under its lock, allocate of a semaphore takes the first one off the pool of the free ones and starts it with the value
-- and without waiters; the pool of mutexes stays; with no free semaphore it returns NULL and changes
-- nothing.
pub take_sem-IsPools :
    (m : Manager) (init_val : ℤ) (sems mutexes : List ℕ)
    → IsPools m sems mutexes
    → SemAllocated m init_val sems mutexes (take_sem m init_val)
unfolding take_sem
take_sem-IsPools m init_val [] mutexes (r, q, a) =
    let none_left = (is_empty-Ring [] r).1 refl in rw none_left (refl, refl)
take_sem-IsPools m init_val (x ∷ sems) mutexes (r, q, a) =
    let (some_left, first) = first-Ring m.links m.sem_header x sems r in
    let e : take_sem m init_val ≡ (x, start_sem (taken m x) x init_val) =
      rw (some_left, first) refl in
    subst (SemAllocated m init_val (x ∷ sems) mutexes) (sym e)
      (start_sem-IsPools m init_val x sems mutexes (r, q, a))

-- What allocate of a mutex gives: NULL and the same pools, or the first free mutex, unlocked.
abbrev pub MutexAllocated : Manager → List ℕ → List ℕ → ℕ × Manager → Type 0
MutexAllocated m sems [] (p, m') = (p ≡ null) × (m' ≡ m)
MutexAllocated m sems (x ∷ mutexes) (p, m') =
    (p ≡ x)
    × IsPools m' sems mutexes
    × (m'.val x ≡ pos 1)
    × (m'.depth x ≡ pos 0)
    × (m'.holder x ≡ 65535)
    × (m'.links.next x ≡ x)

pub swap-IsPair :
    (s : Store) (h : ℕ) (xs : List ℕ) (g : ℕ) (ys : List ℕ)
    → IsPair s h xs g ys
    → IsPair s g ys h xs
swap-IsPair s h xs g ys (r, q, a) = (q, r, Apart-sym (h ∷ xs) (g ∷ ys) a)

start_mutex-IsPools :
    (m : Manager) (x : ℕ) (sems mutexes : List ℕ)
    → IsPools m sems (x ∷ mutexes)
    → MutexAllocated m sems (x ∷ mutexes) (x, start_mutex (taken m x) x)
unfolding start_mutex start_sem
start_mutex-IsPools m x sems mutexes pools =
    let swapped = swap-IsPair m.links m.sem_header sems m.mutex_header (x ∷ mutexes) pools in
    let (pair, own) = take-IsPair m.links m.mutex_header x mutexes m.sem_header sems swapped in
    (
      refl,
      swap-IsPair _ m.mutex_header mutexes m.sem_header sems pair,
      rw (==_refl x) refl,
      rw (==_refl x) refl,
      rw (==_refl x) refl,
      own,
    )

-- Under its lock, allocate of a mutex takes the first one off the pool of the free ones and leaves it unlocked and
-- without waiters; the pool of semaphores stays; with no free mutex it returns NULL and changes nothing.
pub take_mutex-IsPools :
    (m : Manager) (sems mutexes : List ℕ)
    → IsPools m sems mutexes
    → MutexAllocated m sems mutexes (take_mutex m)
unfolding take_mutex
take_mutex-IsPools m sems [] (r, q, a) =
    let none_left = (is_empty-Ring [] q).1 refl in rw none_left (refl, refl)
take_mutex-IsPools m sems (x ∷ mutexes) (r, q, a) =
    let (some_left, first) = first-Ring m.links m.mutex_header x mutexes q in
    let e : take_mutex m ≡ (x, start_mutex (taken m x) x) = rw (some_left, first) refl in
    subst (MutexAllocated m sems (x ∷ mutexes)) (sym e)
      (start_mutex-IsPools m x sems mutexes (r, q, a))
