-- ===== src/Scheduler/Tests.antt =====
-- Runs of the scheduler: headers at even addresses from 1000 on, threads 5, 7 and 9 of priority 3.
use power_pc_demo_os.Common.{
  ℕ, ◌+◌, ◌*◌, ◌≡◌, refl, List, [], ◌∷◌, arith, some, update, negsuc, is_below,
}
use power_pc_demo_os.RingList.{add_tail}
use power_pc_demo_os.Scheduler.{
  Scheduler, ready, waiting, init_groups, push, append, remove, raise, find_ready, find_next_thread,
  is_prio, set_cur,
}
use power_pc_demo_os.Scheduler.Groups.{IsReady, append-IsReady, push-IsReady}
use power_pc_demo_os.Scheduler.Remove.{Removed, remove-Removed}
use power_pc_demo_os.Scheduler.Find.{NextThread, find_next_thread-NextThread}
use power_pc_demo_os.Scheduler.Start.{init_groups-IsReady}
use power_pc_demo_os.Scheduler.Tick.{Tick}

abbrev blank : Scheduler
blank = record {
  links = record { next = λ p. p; prev = λ p. p };
  groups = λ p. record { header = 2 * p + 1000; cur = 2 * p + 1000 };
  state = update (λ _. ready) 9 waiting;
  priority = λ _. 3;
  exec_ticks = λ _. 3;
  total_ticks = λ _. 4;
  max_prio = negsuc 0;
  cur_thread = 5;
  higher = 0;
}

abbrev one : Scheduler
one = append blank 5

abbrev two : Scheduler
two = append one 7

abbrev rings_one : ℕ → List ℕ
rings_one = update (λ _. []) 3 (5 ∷ [])

abbrev rings_two : ℕ → List ℕ
rings_two = update rings_one 3 (5 ∷ 7 ∷ [])

blank-IsReady : IsReady blank (λ _. [])
unfolding init_groups
blank-IsReady =
    init_groups-IsReady 0 blank (λ p q ne e. ne (omega arith))
      (λ p h. (record { links = (refl, refl); outside = refl; distinct = tt }, refl))

append-IsReady_example : IsReady one rings_one
append-IsReady_example = append-IsReady 5 blank-IsReady refl (λ p. ground arith)

one-IsReady : IsReady one rings_one
one-IsReady = append-IsReady 5 blank-IsReady refl (λ p. ground arith)

two-IsReady : IsReady two rings_two
unfolding append raise is_below
two-IsReady = append-IsReady 7 one-IsReady refl (λ p. ground arith)

push-IsReady_example : IsReady (push one 7) (update rings_one 3 (7 ∷ 5 ∷ []))
unfolding append raise is_below
push-IsReady_example = push-IsReady 7 one-IsReady refl (λ p. ground arith)

remove-Removed_example : Removed two (remove two 5) rings_two 5
unfolding append raise is_below
remove-Removed_example = remove-Removed 5 two-IsReady refl (omega arith)

find_next_thread-NextThread_example : NextThread two rings_two 3 (find_next_thread 4 two)
unfolding append raise is_below
find_next_thread-NextThread_example = find_next_thread-NextThread 4 two-IsReady refl (omega arith)

find_next : find_next_thread 4 two ≡ some (5, set_cur two 3 5)
unfolding find_next_thread find_ready append raise is_below is_prio add_tail
find_next = refl

-- Thread 5 runs, on the last tick of its slice.
abbrev running_five : Scheduler
running_five = set_cur two 3 5

abbrev rings_five : ℕ → List ℕ
rings_five = update rings_two 3 (7 ∷ 1006 ∷ [])
