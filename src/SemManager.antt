-- ===== src/SemManager.antt =====
-- kernel/src/ipc/semmanager.cpp: the pools of free semaphores and free mutexes, rings of RingList
-- through their own lists of waiters. A semaphore, and a mutex, is the address of its `_waiterList`.
-- Mutexes 0 and 1 are the locks of the two pools and are in none: they are mutexes of Sync. An operation
-- holds its lock from its first access to its last, so what it does in between is one step.
pub mod Pools
pub mod Fill
pub mod Lock
pub mod Calls
mod Tests
use power_pc_demo_os.Common.{
  Bool, true, false, ◌>>=◌, ℕ, zero, suc, ◌+◌, ℤ, pos, Option, some, none, ◌==◌, if◌then◌else◌,
  update,
}
use power_pc_demo_os.Sync.Mutex.{
  Mutex, Entry, nested, took, blocked, lock_begin, lock_end, unlock_begin, unlock_end,
}
use power_pc_demo_os.RingList.{Store, null, init_ring, add_tail, del_node, is_empty}

-- `sems i` and `mutexes i` are the addresses of the elements of the two arrays.
pub record Manager : Type 0 where
  pub links : Store
  pub sem_header : ℕ
  pub mutex_header : ℕ
  pub sems : ℕ → ℕ
  pub mutexes : ℕ → ℕ
  pub val : ℕ → ℤ
  pub depth : ℕ → ℤ
  pub holder : ℕ → ℕ
  pub lock0 : Mutex
  pub lock1 : Mutex

-- `for(; i < from + count; ++i)` over an array, into the ring of the header.
unfoldable pub fill : ℕ → ℕ → (ℕ → ℕ) → ℕ → Store → Store
fill zero from item header s = s
fill (suc count) from item header s =
    fill count (from + 1) item header (add_tail s header (item from))

unfoldable pub init_pools : Manager → Manager
init_pools m =
    let s = init_ring (init_ring m.links m.sem_header) m.mutex_header in
    let t = fill 200 0 m.sems m.sem_header s in
    record m { links = fill 198 2 m.mutexes m.mutex_header t }

-- `Semaphore::init` and `Mutex::init`
unfoldable pub start_sem : Manager → ℕ → ℤ → Manager
start_sem m p init_val = record m { val = update m.val p init_val; links = init_ring m.links p }

unfoldable pub start_mutex : Manager → ℕ → Manager
start_mutex m p =
    let m1 = start_sem m p (pos 1) in
    record m1 { depth = update m1.depth p (pos 0); holder = update m1.holder p 65535 }

-- `allocate` of a semaphore under its lock.
unfoldable pub take_sem : Manager → ℤ → ℕ × Manager
take_sem m init_val =
    let p = m.links.next m.sem_header in
    let taken = record m { links = del_node m.links p } in
    if is_empty m.links m.sem_header then (null, m) else (p, start_sem taken p init_val)

-- `allocate` of a mutex under its lock.
unfoldable pub take_mutex : Manager → ℕ × Manager
take_mutex m =
    let p = m.links.next m.mutex_header in
    let taken = record m { links = del_node m.links p } in
    if is_empty m.links m.mutex_header then (null, m) else (p, start_mutex taken p)

-- How a call ends: the thread waits for the lock, or the call returns.
pub data Call : Type 0 where
  waits : Manager → Call
  returns : ℕ → Manager → Call

-- `Mutex::lock`: whether the thread has the lock, or waits; `none` is a failed `assert`.
unfoldable pub enter_by : ℕ → Entry → Option (Bool × Mutex)
enter_by thread (nested l) = some (true, l)
enter_by thread (took l) = do l' ← lock_end thread l; some (true, l')
enter_by thread (blocked l) = some (false, l)

unfoldable pub enter : ℕ → Mutex → Option (Bool × Mutex)
unfolding enter_by
enter thread l = do entry ← lock_begin thread l; enter_by thread entry

-- `Mutex::unlock`
unfoldable pub leave : ℕ → Mutex → Option Mutex
leave thread l = do
  (last, l') ← unlock_begin thread l
  some (if last then (unlock_end l').1 else l')

-- `LockGuard<Mutex> g(_mutexes[0])` round what is done to the manager, and the same for mutex 1.
unfoldable pub guard0 : ℕ → Manager → (Manager → ℕ × Manager) → Option Call
guard0 thread m body = do
  (entered, l) ← enter thread m.lock0
  let (result, m1) = body (record m { lock0 = l })
  let done = (do l' ← leave thread m1.lock0; some (returns result (record m1 { lock0 = l' })))
  if entered then done else some (waits (record m { lock0 = l }))

unfoldable pub guard1 : ℕ → Manager → (Manager → ℕ × Manager) → Option Call
guard1 thread m body = do
  (entered, l) ← enter thread m.lock1
  let (result, m1) = body (record m { lock1 = l })
  let done = (do l' ← leave thread m1.lock1; some (returns result (record m1 { lock1 = l' })))
  if entered then done else some (waits (record m { lock1 = l }))

unfoldable pub allocate_sem : ℕ → Manager → ℤ → Option Call
allocate_sem thread m init_val = guard0 thread m (λ m1. take_sem m1 init_val)

unfoldable pub allocate_mutex : ℕ → Manager → Option Call
allocate_mutex thread m = guard1 thread m take_mutex

-- What `deallocate` does under its lock; it returns nothing.
unfoldable pub give_sem : ℕ → Manager → ℕ × Manager
give_sem sem m = (null, record m { links = add_tail m.links m.sem_header sem })

unfoldable pub give_mutex : ℕ → Manager → ℕ × Manager
give_mutex mutex m = (null, record m { links = add_tail m.links m.mutex_header mutex })

-- `none` is the `assert`, before the lock is taken.
unfoldable pub deallocate_sem : ℕ → Manager → ℕ → Option Call
deallocate_sem thread m sem =
    if m.links.next sem == sem then guard0 thread m (give_sem sem) else none

unfoldable pub deallocate_mutex : ℕ → Manager → ℕ → Option Call
deallocate_mutex thread m mutex =
    if m.links.next mutex == mutex then guard1 thread m (give_mutex mutex) else none
