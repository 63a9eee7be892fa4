-- ===== src/Sync/Permits.antt =====
-- Any number of threads that share one semaphore of kernel/src/ipc/semaphore.cpp, interleaved in any
-- order at its critical sections.
use power_pc_demo_os.Common.{
  ℕ, suc, ◌+◌, ◌≤◌, ◌<◌, ◌≡◌, ◌∙◌, ◌⊎◌, inl, inr, refl, sym, ap, Bool, true, false, List, [], ◌∷◌,
  ◌++◌, arith, ltb, has, erase, length, length-erase, pos, inc, minus, minus-zero, inc-minus-suc,
  dec-minus, is_negative-minus, is_positive, is_positive-minus, Bool-cases, ==_refl, if◌then◌else◌,
  length-append,
}
use power_pc_demo_os.Sync.Semaphore.{Semaphore, init, lock, trylock, wake_all, unlock}

wake_all_lem :
    (ws : List ℕ) (a b : ℕ)
    → wake_all ws (record { val = minus a (b + length ws); waiters = ws })
      ≡ (ws, record { val = minus a b; waiters = [] })
unfolding wake_all
wake_all_lem [] a b = let e : b + 0 ≡ b = omega arith in rw e refl
wake_all_lem (w ∷ ws) a b =
    let e : b + suc (length ws) ≡ suc (b + length ws) = omega arith in
    rw (==_refl w, e, inc-minus-suc a (b + length ws), wake_all_lem ws a b) refl

-- `unlock` wakes every waiter, in the order in which they came, empties the list, and takes back one
-- permit and one for each waiter.
pub unlock_lem :
    (s : Semaphore) (a b : ℕ)
    → s.val ≡ minus a (suc b + length s.waiters)
    → unlock s ≡ (s.waiters, record { val = minus a b; waiters = [] })
unfolding unlock
unlock_lem s a b e =
    let shape : suc b + length s.waiters ≡ suc (b + length s.waiters) = omega arith in
    let f : inc s.val ≡ minus a (b + length s.waiters) =
      ap inc e ∙ ap (λ k. inc (minus a k)) shape ∙ inc-minus-suc a (b + length s.waiters) in
    rw f (wake_all_lem s.waiters a b)

-- The threads that hold a permit, beside the semaphore.
pub record System : Type 0 where
  pub sem : Semaphore
  pub holders : List ℕ

-- A step asks nothing of its thread but that it holds what it gives back, so one that waits may also
-- pass again before it is woken.
pub data Step (s : System) : System → Type 0 where
  take :
      (t : ℕ)
      → (lock t s.sem).0 ≡ true
      → Step s (record { sem = (lock t s.sem).1; holders = t ∷ s.holders })
  wait : (t : ℕ) → (lock t s.sem).0 ≡ false → Step s (record s { sem = (lock t s.sem).1 })
  try_take :
      (t : ℕ)
      → (trylock s.sem).0 ≡ true
      → Step s (record { sem = (trylock s.sem).1; holders = t ∷ s.holders })
  try_fail : (t : ℕ) → (trylock s.sem).0 ≡ false → Step s (record s { sem = (trylock s.sem).1 })
  give :
      (t : ℕ)
      → has t s.holders ≡ true
      → Step s (record { sem = (unlock s.sem).1; holders = erase t s.holders })

pub data Reach (n : ℕ) : System → Type 0 where
  start : Reach n (record { sem = init (pos n); holders = [] })
  later : {s t : System} → Reach n s → Step s t → Reach n t

-- The value counts the permits, less those that are held and those that are waited for; nobody waits
-- while a permit is free.
pub record IsFair (n : ℕ) (s : System) : Type 0 where
  pub counts : s.sem.val ≡ minus n (length s.holders + length s.sem.waiters)
  pub bounded : length s.holders ≤ n
  pub no_idle_permit : (s.sem.waiters ≡ []) ⊎ (length s.holders ≡ n)

lock_at :
    (t a b : ℕ) (s : Semaphore)
    → s.val ≡ minus a b
    → lock t s ≡ (
        if ltb a (suc b)
        then (false, record { val = minus a (suc b); waiters = s.waiters ++ t ∷ [] })
        else (true, record { val = minus a (suc b); waiters = s.waiters }))
unfolding lock
lock_at t a b s e = rw (e, dec-minus a b, is_negative-minus a (suc b)) refl

lock-second :
    {r : Bool × Semaphore} (x y : Bool × Semaphore) {c d : Bool}
    → c ≡ d
    → r ≡ (if c then x else y)
    → r.1 ≡ (if d then x else y).1
lock-second x y e f = rw (f, e) refl

-- A pass of `lock` goes on when a permit is free, and takes it.
pub lock-takes :
    (t a b : ℕ) (s : Semaphore)
    → s.val ≡ minus a b
    → (lock t s).0 ≡ true
    → (b < a) × ((lock t s).1 ≡ record { val = minus a (suc b); waiters = s.waiters })
lock-takes t a b s e ok = elim (Bool-cases (ltb a (suc b))) [
  | inl none_free ↦ let f = lock_at t a b s e in absurd (ground (arith, f))
  | inr free ↦ let f = lock_at t a b s e in (ground arith, lock-second _ _ free f)
]

pub lock-waits :
    (t a b : ℕ) (s : Semaphore)
    → s.val ≡ minus a b
    → (lock t s).0 ≡ false
    → (a ≤ b) × ((lock t s).1 ≡ record { val = minus a (suc b); waiters = s.waiters ++ t ∷ [] })
lock-waits t a b s e refused = elim (Bool-cases (ltb a (suc b))) [
  | inl none_free ↦ let f = lock_at t a b s e in (ground arith, lock-second _ _ none_free f)
  | inr free ↦ let f = lock_at t a b s e in absurd (ground (arith, f))
]

pub trylock-takes :
    (a b : ℕ) (s : Semaphore)
    → s.val ≡ minus a b
    → (trylock s).0 ≡ true
    → (b < a) × ((trylock s).1 ≡ record { val = minus a (suc b); waiters = s.waiters })
unfolding trylock
trylock-takes a b s e ok = elim (Bool-cases (is_positive s.val)) [
  | inl free ↦
      let more = sym (is_positive-minus a b) ∙ ap is_positive (sym e) ∙ free in
      (ground arith, rw (free, e, dec-minus a b) refl)
  | inr full ↦ absurd (ground arith)
]

pub trylock-fails : (s : Semaphore) → (trylock s).0 ≡ false → (trylock s).1 ≡ s
unfolding trylock
trylock-fails s refused = ground arith

pub start-IsFair : (n : ℕ) → IsFair n (record { sem = init (pos n); holders = [] })
unfolding init
start-IsFair n = record {
  counts = sym (minus-zero n);
  bounded = omega arith;
  no_idle_permit = inl refl;
}

-- What a thread that takes a permit makes of the system.
pub taken-IsFair :
    {n : ℕ} {s : System} (t : ℕ) (r : Semaphore)
    → IsFair n s
    → let b = length s.holders + length s.sem.waiters in
      (b < n) × (r ≡ record { val = minus n (suc b); waiters = s.sem.waiters })
      → IsFair n (record { sem = r; holders = t ∷ s.holders })
taken-IsFair {n} {s} t r v f = rw (f.1) (record {
  counts = ap (minus n) (omega arith);
  bounded = omega (arith, f.0);
  no_idle_permit = elim v.no_idle_permit [
    | inl nobody ↦ inl nobody
    | inr all ↦ absurd (omega (arith, f.0))
  ];
})

pub waiting-IsFair :
    {n : ℕ} {s : System} (t : ℕ) (r : Semaphore)
    → IsFair n s
    → let b = length s.holders + length s.sem.waiters in
      (n ≤ b) × (r ≡ record { val = minus n (suc b); waiters = s.sem.waiters ++ t ∷ [] })
      → IsFair n (record s { sem = r })
waiting-IsFair {n} {s} t r v f = rw (f.1) (record {
  counts = ap (minus n) (omega (arith, length-append s.sem.waiters (t ∷ [])));
  bounded = v.bounded;
  no_idle_permit = inr (elim v.no_idle_permit [
    | inl nobody ↦
        let none_wait : length s.sem.waiters ≡ 0 = rw nobody refl in
        let bound = v.bounded in omega (arith, f.0)
    | inr all ↦ all
  ]);
})

pub given-IsFair :
    {n : ℕ} {s : System} (t : ℕ)
    → IsFair n s
    → has t s.holders ≡ true
    → IsFair n (record { sem = (unlock s.sem).1; holders = erase t s.holders })
given-IsFair {n} {s} t v h =
    let one = length-erase t s.holders h in
    let bound = v.bounded in
    let held : s.sem.val ≡ minus n (suc (length (erase t s.holders)) + length s.sem.waiters) =
      rw one v.counts in
    rw (unlock_lem s.sem n (length (erase t s.holders)) held) (record {
      counts = ap (minus n) (omega arith);
      bounded = omega arith;
      no_idle_permit = inl refl;
    })

Step-IsFair : {n : ℕ} {s t : System} → Step s t → IsFair n s → IsFair n t
Step-IsFair {n} {s} (take t ok) v =
    taken-IsFair t (lock t s.sem).1 v (lock-takes t n _ s.sem v.counts ok)
Step-IsFair {n} {s} (wait t refused) v =
    waiting-IsFair t (lock t s.sem).1 v (lock-waits t n _ s.sem v.counts refused)
Step-IsFair {n} {s} (try_take t ok) v =
    taken-IsFair t (trylock s.sem).1 v (trylock-takes n _ s.sem v.counts ok)
Step-IsFair {n} {s} (try_fail t refused) v = rw (trylock-fails s.sem refused) v
Step-IsFair {n} {s} (give t h) v = given-IsFair t v h

-- However the threads interleave on a semaphore that starts with `n` permits, at most `n` threads hold
-- one, no thread waits while a permit is free, and the value is `n` less the threads that hold a permit
-- and those that wait for one.
pub Reach-IsFair : {n : ℕ} {s : System} → Reach n s → IsFair n s
Reach-IsFair {n} start = start-IsFair n
Reach-IsFair (later r st) = Step-IsFair st (Reach-IsFair r)
