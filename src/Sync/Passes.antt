-- ===== src/Sync/Passes.antt =====
-- What each part of a mutex function did, read off its result.
use power_pc_demo_os.Common.{ℕ, ◌≡◌, true, false, arith, inc, dec, is_zero, some}
use power_pc_demo_os.Sync.Semaphore as Sem
use power_pc_demo_os.Sync.Mutex.{
  Mutex, nested, took, blocked, invalid, lock_begin, lock_end, trylock_begin, unlock_begin,
}

module _ (t : ℕ) (m : Mutex) {m' : Mutex} where
  pub lock_begin-nested :
      lock_begin t m ≡ some (nested m') → (t ≡ m.holder) × (m' ≡ record m { depth = inc m.depth })
  unfolding lock_begin
  lock_begin-nested e = ground arith

  pub lock_begin-took :
      lock_begin t m ≡ some (took m')
      → ((Sem.lock t m.sem).0 ≡ true) × (m' ≡ record m { sem = (Sem.lock t m.sem).1 })
  unfolding lock_begin
  lock_begin-took e = ground arith

  pub lock_begin-blocked :
      lock_begin t m ≡ some (blocked m')
      → ((Sem.lock t m.sem).0 ≡ false) × (m' ≡ record m { sem = (Sem.lock t m.sem).1 })
  unfolding lock_begin
  lock_begin-blocked e = ground arith

  pub trylock_begin-nested :
      trylock_begin t m ≡ some (nested m')
      → (m.holder ≡ t) × (m' ≡ record m { depth = inc m.depth })
  unfolding trylock_begin
  trylock_begin-nested e = ground arith

  pub trylock_begin-took :
      trylock_begin t m ≡ some (took m')
      → ((Sem.trylock m.sem).0 ≡ true) × (m' ≡ record m { sem = (Sem.trylock m.sem).1 })
  unfolding trylock_begin
  trylock_begin-took e = ground arith

  pub trylock_begin-blocked :
      trylock_begin t m ≡ some (blocked m')
      → ((Sem.trylock m.sem).0 ≡ false) × (m' ≡ record m { sem = (Sem.trylock m.sem).1 })
  unfolding trylock_begin
  trylock_begin-blocked e = ground arith

  pub lock_end-some : lock_end t m ≡ some m' → m' ≡ record m { holder = t; depth = inc m.depth }
  unfolding lock_end
  lock_end-some e = ground arith

  pub unlock_begin-inner :
      unlock_begin t m ≡ some (false, m')
      → (t ≡ m.holder) × (is_zero (dec m.depth) ≡ false) × (m' ≡ record m { depth = dec m.depth })
  unfolding unlock_begin
  unlock_begin-inner e = ground arith

  pub unlock_begin-last :
      unlock_begin t m ≡ some (true, m')
      → (t ≡ m.holder)
        × (is_zero (dec m.depth) ≡ true)
        × (m' ≡ record m { holder = invalid; depth = dec m.depth })
  unfolding unlock_begin
  unlock_begin-last e = ground arith
