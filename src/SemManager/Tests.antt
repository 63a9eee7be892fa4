-- ===== src/SemManager/Tests.antt =====
-- The pools at a concrete manager.
use power_pc_demo_os.Common.{◌+◌, pos, update}
use power_pc_demo_os.SemManager.{Manager}
use power_pc_demo_os.Sync.Mutex as Mut

-- Semaphores 10 and 11 are free, behind the header 1, and mutex 20, behind the header 2.
abbrev two_free : Manager
two_free = record {
  links = record {
    next = update (update (update (update (update (λ p. 0) 1 10) 10 11) 11 1) 2 20) 20 2;
    prev = update (update (update (update (update (λ p. 0) 1 11) 10 1) 11 10) 2 20) 20 2;
  };
  sem_header = 1;
  mutex_header = 2;
  sems = λ i. i + 10;
  mutexes = λ i. i + 18;
  val = λ p. pos 0;
  depth = λ p. pos 0;
  holder = λ p. 0;
  lock0 = Mut.init;
  lock1 = Mut.init;
}
