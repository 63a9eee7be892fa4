-- ===== src/SemManager/Lock.antt =====
-- The locks of the pools: a free one is taken and given back, and one of zeroes is never free.
use power_pc_demo_os.Common.{
  is_below, is_negative, is_positive, is_zero, dec, inc, ℕ, ◌≡◌, ◌≢◌, refl, true, false, some, pos,
  negsuc, [], ◌∷◌, ◌==◌, ==_refl, arith,
}
use power_pc_demo_os.Sync.Semaphore.{Semaphore}
use power_pc_demo_os.Sync.Semaphore as Sem
use power_pc_demo_os.Sync.Mutex.{Mutex, invalid, lock_begin, lock_end, unlock_begin, unlock_end}
use power_pc_demo_os.Sync.Mutex as Mut
use power_pc_demo_os.SemManager.{enter, enter_by, leave}

-- A mutex that the thread has locked once.
abbrev pub held : ℕ → Mutex
held thread = record { sem = record { val = pos 0; waiters = [] }; holder = thread; depth = pos 1 }

-- A mutex as the start of the kernel leaves it when nobody calls its init.
abbrev pub zeroed : Mutex
zeroed = record { sem = record { val = pos 0; waiters = [] }; holder = 0; depth = pos 0 }

pub enter-init : (thread : ℕ) → thread ≢ invalid → enter thread Mut.init ≡ some (true, held thread)
unfolding enter enter_by lock_begin lock_end Mut.init Sem.init Sem.lock is_below is_negative dec
    is_zero inc
enter-init thread ne = let other : (thread == 65535) ≡ false = ground arith in rw other refl

pub leave-held : (thread : ℕ) → leave thread (held thread) ≡ some Mut.init
unfolding leave unlock_begin unlock_end Mut.init Sem.init Sem.unlock Sem.wake_all is_below
    is_positive is_zero dec inc
leave-held thread = rw (==_refl thread) refl

pub enter-zeroed :
    (thread : ℕ)
    → thread ≢ 0
    → enter thread zeroed
      ≡ some (false, record zeroed { sem = record { val = negsuc 0; waiters = thread ∷ [] } })
unfolding enter enter_by lock_begin Sem.lock is_below is_negative dec
enter-zeroed thread ne = let other : (thread == 0) ≡ false = ground arith in rw other refl
