-- ===== src/Sync/Tests.antt =====
-- Runs of the semaphore and the mutex: thread 1 locks, thread 2 waits, thread 1 unlocks.
use power_pc_demo_os.Common.{
  ◌≡◌, ◌≢◌, refl, inl, [], ◌∷◌, arith, none, update, pos, negsuc, inc, dec, is_negative, is_below,
  is_zero, is_positive, inr,
}
use power_pc_demo_os.Sync.Semaphore.{Semaphore, lock, unlock, wake_all}
use power_pc_demo_os.Sync.Semaphore as Sem
use power_pc_demo_os.Sync.Permits as Permits
use power_pc_demo_os.Sync.Permits.{IsFair, Reach-IsFair, unlock_lem}
use power_pc_demo_os.Sync.Mutex.{init, invalid, lock_begin, lock_end, unlock_begin, unlock_end}
use power_pc_demo_os.Sync.Exclusion.{
  outside, entering, inside, leaving, System, take, enter, leave, give, Reach, start, later,
}
use power_pc_demo_os.Sync.Safety.{mutual_exclusion, lock_end-asserts, unlock-asserts, left-init}

-- A semaphore with one permit that thread 1 has and thread 2 waits for.
abbrev held : Semaphore
held = record { val = negsuc 0; waiters = 2 ∷ [] }

unlock-held : unlock held ≡ (2 ∷ [], record { val = pos 1; waiters = [] })
unfolding unlock inc Sem.wake_all
unlock-held = refl

abbrev contended : Permits.System
contended = record { sem = held; holders = 1 ∷ [] }

contended-Reach : Permits.Reach 1 contended
unfolding lock dec is_negative Sem.init
contended-Reach =
    Permits.later (Permits.later Permits.start (Permits.take 1 refl)) (Permits.wait 2 refl)

Reach-IsFair_example : IsFair 1 contended
Reach-IsFair_example = Reach-IsFair contended-Reach

abbrev in_lock : System
in_lock = record {
  mutex = record init { sem = record { val = pos 0; waiters = [] } };
  owners = 1 ∷ [];
  phase = update (λ _. outside) 1 entering;
}

abbrev locked : System
locked = record {
  mutex = record { sem = record { val = pos 0; waiters = [] }; holder = 1; depth = pos 1 };
  owners = 1 ∷ [];
  phase = update (update (λ _. outside) 1 entering) 1 inside;
}

in_lock-Reach : Reach in_lock
unfolding init lock_begin Sem.init lock is_below dec is_negative
in_lock-Reach = later start (take 1 (inl refl) (omega arith) refl)

locked-Reach : Reach locked
unfolding init lock_end inc is_zero
locked-Reach = later in_lock-Reach (enter 1 refl refl)

mutual_exclusion_example : locked.phase 2 ≡ outside
mutual_exclusion_example =
    mutual_exclusion 1 2 locked-Reach (λ e. absurd (ground arith)) (omega arith)

lock_end-asserts_example : lock_end 1 in_lock.mutex ≢ none
lock_end-asserts_example = lock_end-asserts 1 in_lock-Reach refl

unlock-asserts_example : unlock_begin 1 locked.mutex ≢ none
unlock-asserts_example = unlock-asserts 1 locked-Reach refl

-- Thread 1 on its way out, and gone.
abbrev at_end : System
at_end = record {
  mutex = record { sem = record { val = pos 0; waiters = [] }; holder = invalid; depth = pos 0 };
  owners = 1 ∷ [];
  phase = update locked.phase 1 leaving;
}

abbrev gone : System
gone = record { mutex = init; owners = []; phase = update at_end.phase 1 outside }

at_end-Reach : Reach at_end
unfolding unlock_begin is_below is_positive is_zero dec
at_end-Reach = later locked-Reach (leave 1 (inr refl) (λ e. absurd (omega arith)) refl)

gone-Reach : Reach gone
unfolding init unlock_end Sem.init unlock wake_all inc
gone-Reach = later at_end-Reach (give 1 refl)

left-init_example : gone.mutex ≡ init
left-init_example = left-init gone-Reach (λ t. ground arith)
