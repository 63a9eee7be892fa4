-- ===== src/Sync/Exclusion.antt =====
-- Any number of threads that call the functions of one mutex of kernel/src/ipc/mutex.cpp in any order,
-- interleaved also in the middle of those functions.
use power_pc_demo_os.Common.{ℕ, ◌≡◌, ◌≢◌, ◌⊎◌, true, false, List, [], ◌∷◌, erase, update, some}
use power_pc_demo_os.Sync.Mutex.{
  Mutex, nested, took, blocked, invalid, init, lock_begin, lock_end, trylock_begin, trylock_end,
  unlock_begin, unlock_end,
}

-- Where a thread stands: between calls without or with the mutex, or in the middle of a call, after its
-- `_sem.lock()` and before its `_sem.unlock()`.
pub data Phase : Type 0 where
  outside entering inside leaving : Phase

-- `owners` are the threads that hold the permit of the semaphore.
pub record System : Type 0 where
  pub mutex : Mutex
  pub owners : List ℕ
  pub phase : ℕ → Phase

-- A thread that stands between two calls.
abbrev pub IsIdle : Phase → Type 0
IsIdle p = (p ≡ Phase.outside) ⊎ (p ≡ Phase.inside)

pub data Step (s : System) : System → Type 0 where
  nest :
      (t : ℕ) {m : Mutex}
      → IsIdle (s.phase t)
      → t ≢ invalid
      → lock_begin t s.mutex ≡ some (nested m)
      → Step s (record s { mutex = m })
  take :
      (t : ℕ) {m : Mutex}
      → IsIdle (s.phase t)
      → t ≢ invalid
      → lock_begin t s.mutex ≡ some (took m)
      → Step s
          (record { mutex = m; owners = t ∷ s.owners; phase = update s.phase t Phase.entering })
  wait :
      (t : ℕ) {m : Mutex}
      → IsIdle (s.phase t)
      → t ≢ invalid
      → lock_begin t s.mutex ≡ some (blocked m)
      → Step s (record s { mutex = m })
  enter :
      (t : ℕ) {m : Mutex}
      → s.phase t ≡ Phase.entering
      → lock_end t s.mutex ≡ some m
      → Step s (record s { mutex = m; phase = update s.phase t Phase.inside })
  try_nest :
      (t : ℕ) {m : Mutex}
      → IsIdle (s.phase t)
      → t ≢ invalid
      → trylock_begin t s.mutex ≡ some (nested m)
      → Step s (record s { mutex = m })
  try_take :
      (t : ℕ) {m : Mutex}
      → IsIdle (s.phase t)
      → t ≢ invalid
      → trylock_begin t s.mutex ≡ some (took m)
      → Step s
          (record { mutex = m; owners = t ∷ s.owners; phase = update s.phase t Phase.entering })
  try_fail :
      (t : ℕ) {m : Mutex}
      → IsIdle (s.phase t)
      → t ≢ invalid
      → trylock_begin t s.mutex ≡ some (blocked m)
      → Step s (record s { mutex = m })
  try_enter :
      (t : ℕ)
      → s.phase t ≡ Phase.entering
      → Step s (record s { mutex = trylock_end t s.mutex; phase = update s.phase t Phase.inside })
  unnest :
      (t : ℕ) {m : Mutex}
      → IsIdle (s.phase t)
      → t ≢ invalid
      → unlock_begin t s.mutex ≡ some (false, m)
      → Step s (record s { mutex = m })
  leave :
      (t : ℕ) {m : Mutex}
      → IsIdle (s.phase t)
      → t ≢ invalid
      → unlock_begin t s.mutex ≡ some (true, m)
      → Step s (record s { mutex = m; phase = update s.phase t Phase.leaving })
  give :
      (t : ℕ)
      → s.phase t ≡ Phase.leaving
      → Step s (record {
        mutex = (unlock_end s.mutex).1;
        owners = erase t s.owners;
        phase = update s.phase t Phase.outside;
      })

pub data Reach : System → Type 0 where
  start : Reach (record { mutex = init; owners = []; phase = λ _. Phase.outside })
  later : {s t : System} → Reach s → Step s t → Reach t
