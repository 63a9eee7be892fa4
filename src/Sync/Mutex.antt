-- ===== src/Sync/Mutex.antt =====
-- include/mutex.h and kernel/src/ipc/mutex.cpp, compiled with `_DEBUG` as that file sets it: `none`
-- stands for a failed `assert`, which stops the kernel. Other threads may run between the write of
-- `_holder` and the call of the semaphore, so a function is cut there: `lock_begin` and `lock_end`.
use power_pc_demo_os.Common.{
  ℕ, ℤ, pos, inc, dec, is_negative, is_positive, is_zero, is_below, Bool, true, false, ◌&&◌, not,
  List, [], Option, none, some, ◌==◌, if◌then◌else◌,
}
use power_pc_demo_os.Sync.Semaphore.{Semaphore}
use power_pc_demo_os.Sync.Semaphore as Sem

-- `INVALID`
abbrev pub invalid : ℕ
invalid = 65535

pub record Mutex : Type 0 where
  pub sem : Semaphore
  pub holder : ℕ
  pub depth : ℤ

unfoldable pub init : Mutex
unfolding Sem.init
init = record { sem = Sem.init (pos 1); holder = invalid; depth = pos 0 }

-- How a call goes on after its test of the semaphore.
pub data Entry : Type 0 where
  nested took blocked : Mutex → Entry

-- From the start of `lock` to the return of `_sem.lock()`; a `blocked` thread passes again when it is
-- woken, and its tests of the holder and of the value then answer as they did.
unfoldable pub lock_begin : ℕ → Mutex → Option Entry
lock_begin thread m =
    let got = Sem.lock thread m.sem in
    if not (is_below m.sem.val 2)
    then none
    else if thread == m.holder
    then some (nested (record m { depth = inc m.depth }))
    else if got.0
    then some (took (record m { sem = got.1 }))
    else some (blocked (record m { sem = got.1 }))

unfoldable pub lock_end : ℕ → Mutex → Option Mutex
lock_end thread m =
    if (m.holder == invalid) && is_zero m.depth
    then some (record m { holder = thread; depth = inc m.depth })
    else none

unfoldable pub trylock_begin : ℕ → Mutex → Option Entry
trylock_begin thread m =
    let got = Sem.trylock m.sem in
    if not (is_below m.sem.val 2)
    then none
    else if m.holder == thread
    then some (nested (record m { depth = inc m.depth }))
    else if got.0
    then some (took (record m { sem = got.1 }))
    else some (blocked (record m { sem = got.1 }))

unfoldable pub trylock_end : ℕ → Mutex → Mutex
trylock_end thread m = record m { holder = thread; depth = inc m.depth }

-- To the `barrier()` of `unlock`: whether the semaphore is to be unlocked.
unfoldable pub unlock_begin : ℕ → Mutex → Option (Bool × Mutex)
unlock_begin thread m =
    let depth = dec m.depth in
    if is_below m.sem.val 1 && (thread == m.holder) && is_positive m.depth
    then if is_zero depth
      then some (true, record m { holder = invalid; depth = depth })
      else some (false, record m { depth = depth })
    else none

unfoldable pub unlock_end : Mutex → List ℕ × Mutex
unlock_end m = let woken = Sem.unlock m.sem in (woken.0, record m { sem = woken.1 })

unfoldable pub destroy : Mutex → List ℕ × Mutex
unfolding unlock_end
destroy m =
    if is_negative m.depth
    then unlock_end (record m { holder = invalid; depth = pos 0 })
    else ([], m)
