-- ===== src/Sync/Safety.antt =====
-- The mutex of kernel/src/ipc/mutex.cpp excludes: at most one thread is inside, and no `assert` fails.
use power_pc_demo_os.Common.{
  ℕ, suc, ◌+◌, ◌<◌, ◌≡◌, ◌≢◌, ◌∙◌, ◌⊎◌, inl, inr, sym, ap, true, [], arith, ◌==◌, ==_iff, length,
  pos, minus, minus-zero, is_below, is_below-minus, is_zero, is_zero-zero, is_positive-pos,
  is_positive, Bool-cases, none,
}
use power_pc_demo_os.Sync.Semaphore.{Semaphore}
use power_pc_demo_os.Sync.Semaphore as Sem
use power_pc_demo_os.Sync.Mutex.{invalid, init, lock_begin, lock_end, trylock_begin, unlock_begin}
use power_pc_demo_os.Sync.Exclusion.{outside, entering, inside, leaving, System, Reach}
use power_pc_demo_os.Sync.Owner.{IsExclusive, IsOwned, IsFree, mid_owner}
use power_pc_demo_os.Sync.Steps.{Reach-IsExclusive}

-- While one thread is in the mutex, or in the middle of a call of it, every other thread is outside,
-- however the calls interleave.
pub mutual_exclusion :
    {s : System} (t u : ℕ) → Reach s → s.phase t ≢ outside → u ≢ t → s.phase u ≡ outside
mutual_exclusion {s} t u r t_in ne = elim (Reach-IsExclusive r).shape [
  | inl f ↦ f.all_outside u
  | inr p ↦ elim (Bool-cases (t == p.0)) [
    | inl same ↦ let e = (==_iff t p.0).0 same in p.1.others u (λ f. ne (f ∙ sym e))
    | inr other ↦ absurd (t_in (p.1.others t (ground arith)))
  ]
]

-- The value of the semaphore of a mutex is below two, and below one while somebody owns it.
value_below :
    {s : System} (n : ℕ)
    → IsExclusive s
    → 1 < n + length s.owners
    → is_below s.mutex.sem.val n ≡ true
value_below {s} n v h =
    ap (λ z. is_below z n) v.fair.counts
    ∙ is_below-minus 1 (length s.owners + length s.mutex.sem.waiters) n (omega arith)

-- The `assert` at the start of `lock` and of `trylock` never fails.
pub begin-asserts :
    {s : System} (t : ℕ)
    → Reach s
    → (lock_begin t s.mutex ≢ none) × (trylock_begin t s.mutex ≢ none)
unfolding lock_begin trylock_begin
begin-asserts {s} t r =
    let below = value_below 2 (Reach-IsExclusive r) (omega arith) in
    ((λ e. absurd (ground (arith, below))), (λ e. absurd (ground (arith, below))))

-- The `assert` behind `_sem.lock()` never fails: a thread that got the permit finds no holder and depth
-- zero, whatever the other threads did in between.
pub lock_end-asserts :
    {s : System} (t : ℕ) → Reach s → s.phase t ≡ entering → lock_end t s.mutex ≢ none
unfolding lock_end
lock_end-asserts {s} t r at e =
    let mid = mid_owner t (Reach-IsExclusive r) (inl at) in
    let held = mid.1 in
    let flat : is_zero s.mutex.depth ≡ true = ap is_zero mid.2 ∙ is_zero-zero in
    absurd (ground (arith, held, flat))

-- The three `assert`s of `unlock` hold when the thread that is inside calls it.
pub unlock-asserts :
    {s : System} (t : ℕ) → Reach s → s.phase t ≡ inside → unlock_begin t s.mutex ≢ none
unfolding unlock_begin
unlock-asserts {s} t r at e = elim (Reach-IsExclusive r).shape [
  | inl f ↦ let out = f.all_outside t in absurd (ground arith)
  | inr p ↦ elim (Bool-cases (t == p.0)) [
    | inr other ↦ let out = p.1.others t (ground arith) in absurd (ground arith)
    | inl is ↦
        let same : p.0 ≡ t = sym ((==_iff t p.0).0 is) in
        let own : IsOwned s t = rw same at p.1 in holds own
  ]
]
  where
    refuse :
        is_below s.mutex.sem.val 1 ≡ true
        → s.mutex.holder ≡ t
        → is_positive s.mutex.depth ≡ true
        → ⊥
    refuse below named deep = absurd (ground (arith, e))

    holds : IsOwned s t → ⊥
    holds own = elim own.spot [
      | inl mid ↦ elim mid.0 [ inl a ↦ absurd (ground arith) | inr b ↦ absurd (ground arith) ]
      | inr here ↦
          let one : length s.owners ≡ 1 = ap length own.owner ∙ (omega arith) in
          let below = value_below 1 (Reach-IsExclusive r) (omega arith) in
          let named = here.1 in
          let deep : is_positive s.mutex.depth ≡ true =
            ap is_positive here.2.1 ∙ is_positive-pos here.2.0 in
          refuse below named deep
    ]

-- When all threads have left the mutex it is as `init` made it.
pub left-init : {s : System} → Reach s → ((t : ℕ) → s.phase t ≡ outside) → s.mutex ≡ init
unfolding init Sem.init
left-init {s} r all =
    let v = Reach-IsExclusive r in
    elim v.shape [ inr p ↦ absurd (somebody p.0 p.1.spot (all p.0)) | inl f ↦ at_init v f ]
  where
    somebody :
        (o : ℕ)
        → (((s.phase o ≡ entering) ⊎ (s.phase o ≡ leaving))
            × (s.mutex.holder ≡ invalid)
            × (s.mutex.depth ≡ pos 0))
          ⊎ ((s.phase o ≡ inside)
              × (s.mutex.holder ≡ o)
              × ((k : ℕ) × (s.mutex.depth ≡ pos (suc k))))
        → s.phase o ≡ outside
        → ⊥
    somebody o (inl mid) out = elim mid.0 [
      | inl a ↦ absurd (ground arith)
      | inr b ↦ absurd (ground arith)
    ]
    somebody o (inr here) out = let at = here.0 in absurd (ground arith)

    record_eq :
        s.mutex.sem.val ≡ pos 1
        → s.mutex.sem.waiters ≡ []
        → s.mutex.holder ≡ invalid
        → s.mutex.depth ≡ pos 0
        → s.mutex ≡ init
    record_eq a b c d = cc

    at_init : IsExclusive s → IsFree s → s.mutex ≡ init
    at_init v f =
        let none_held : length s.owners ≡ 0 = ap length f.nobody in
        let waiters : s.mutex.sem.waiters ≡ [] = elim v.fair.no_idle_permit [
          | inl w ↦ w
          | inr one ↦ absurd (omega arith)
        ] in
        let none_wait : length s.mutex.sem.waiters ≡ 0 = ap length waiters in
        let val : s.mutex.sem.val ≡ pos 1 =
          v.fair.counts ∙ ap (minus 1) (omega arith) ∙ minus-zero 1 in
        record_eq val waiters f.holder f.depth
