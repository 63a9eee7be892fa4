-- ===== src/Sync/Semaphore.antt =====
-- include/semaphore.h and kernel/src/ipc/semaphore.cpp. The waiter list is the list of its threads in
-- order; a thread is known by its id, which also stands for its list node. What a function does under `_spinlock` is one step.
use power_pc_demo_os.Common.{
  ℕ, suc, ℤ, pos, negsuc, inc, dec, is_negative, is_positive, Bool, true, false, List, [], ◌∷◌,
  ◌++◌, erase, if◌then◌else◌,
}

pub record Semaphore : Type 0 where
  pub val : ℤ
  pub waiters : List ℕ

unfoldable pub init : ℤ → Semaphore
init val = record { val = val; waiters = [] }

unfoldable pub clear : Semaphore → ℤ → Semaphore
clear s val = record s { val = val }

-- One pass of `lock` from `_Lret`: whether the thread goes on, or waits and passes again once it is
-- woken.
unfoldable pub lock : ℕ → Semaphore → Bool × Semaphore
lock thread s =
    let val = dec s.val in
    if is_negative val
    then (false, record { val = val; waiters = s.waiters ++ thread ∷ [] })
    else (true, record s { val = val })

unfoldable pub trylock : Semaphore → Bool × Semaphore
trylock s = if is_positive s.val then (true, record s { val = dec s.val }) else (false, s)

-- The loop of `unlock` over the nodes of the waiter list, with the threads that it wakes.
unfoldable pub wake_all : List ℕ → Semaphore → List ℕ × Semaphore
wake_all [] s = ([], s)
wake_all (p ∷ ps) s =
    let rest = wake_all ps (record { val = inc s.val; waiters = erase p s.waiters }) in
    (p ∷ rest.0, rest.1)

unfoldable pub unlock : Semaphore → List ℕ × Semaphore
unlock s = wake_all s.waiters (record s { val = inc s.val })

unfoldable pub destroy : Semaphore → List ℕ × Semaphore
destroy s = unlock s

-- `blkTaskCount`, the negated value of a locked semaphore.
unfoldable pub blocked_count : Semaphore → ℕ
blocked_count s = elim s.val [ pos n ↦ 0 | negsuc n ↦ suc n ]
