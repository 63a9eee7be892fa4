-- ===== src/SemManager/Calls.antt =====
-- The calls of SemManager with the locks of its pools.
use power_pc_demo_os.Common.{ℕ, ◌≡◌, ◌≢◌, ◌∙◌, refl, ap, ℤ, negsuc, some, [], ◌∷◌}
use power_pc_demo_os.Sync.Mutex as Mut
use power_pc_demo_os.SemManager.{Manager, waits, enter, guard0, allocate_sem, init_pools}
use power_pc_demo_os.SemManager.Lock.{held, zeroed, enter-zeroed}

abbrev locked : ℕ → Manager → Manager
locked thread m = record m { lock0 = held thread }

allocate_sem-zeroed :
    (thread : ℕ) (m : Manager) (init_val : ℤ)
    → m.lock0 ≡ zeroed
    → thread ≢ 0
    → (m' : Manager) × (allocate_sem thread m init_val ≡ some (waits m'))
unfolding allocate_sem guard0
allocate_sem-zeroed thread m init_val zero_lock ne =
    let entered = ap (enter thread) zero_lock ∙ enter-zeroed thread ne in
    (
      record m { lock0 = record zeroed { sem = record { val = negsuc 0; waiters = thread ∷ [] } } },
      rw entered refl,
    )

init_pools-lock0 : (m : Manager) → (init_pools m).lock0 ≡ m.lock0
unfolding init_pools
init_pools-lock0 m = refl

-- init gives the two locks no value: when they are zero before it, allocate of a semaphore by a thread
-- that is not thread 0 waits.
pub init_pools-waits :
    (thread : ℕ) (m : Manager) (init_val : ℤ)
    → m.lock0 ≡ zeroed
    → thread ≢ 0
    → (m' : Manager) × (allocate_sem thread (init_pools m) init_val ≡ some (waits m'))
init_pools-waits thread m init_val zero_lock ne =
    allocate_sem-zeroed thread (init_pools m) init_val (init_pools-lock0 m ∙ zero_lock) ne
