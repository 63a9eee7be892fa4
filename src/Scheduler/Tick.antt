-- ===== src/Scheduler/Tick.antt =====
-- `Scheduler::scheduleInInterrupt` (kernel/src/task/schedule.cpp) on the tick that uses up the running
-- thread's slice.
use power_pc_demo_os.Common.{
  ℕ, ◌≡◌, ◌≢◌, Bool, true, false, List, ◌∷◌, ◌++◌, ◌==◌, has, update, if◌then◌else◌, Option, none,
  some,
}
use power_pc_demo_os.Scheduler.{Scheduler, ready, running, is_ready, set_state}
use power_pc_demo_os.Scheduler.Groups.{IsReady}
use power_pc_demo_os.Scheduler.Find.{IsPassed}

-- The scheduler with a fresh slice for the running thread.
abbrev pub renewed : Scheduler → Scheduler
renewed s = record s { exec_ticks = update s.exec_ticks s.cur_thread 0 }

-- The turn of the thread `t`, which was ready: it is the next to run, the thread that ran is ready again, and the rings
-- are in order, seen from `t`.
pub record Turned (s s' : Scheduler) (rings : ℕ → List ℕ) (before : List ℕ) (t : ℕ)
    (behind : List ℕ) : Type 0 where
  pub no_header : t ≢ (s.groups (s.priority s.cur_thread)).header
  pub found : is_ready (s.state t) ≡ true
  pub next : s'.higher ≡ t
  pub runs : s'.state t ≡ running
  pub rests : s'.state s.cur_thread ≡ ready
  pub slice : s'.exec_ticks s.cur_thread ≡ 0
  pub valid : IsReady s' (update rings (s.priority s.cur_thread) (behind ++ s.cur_thread ∷ before))

-- What the tick may do: start a new slice when no other thread of the priority is ready, or give the
-- turn to the first that is.
pub data Tick (s : Scheduler) (rings : ℕ → List ℕ) : Option (Bool × Scheduler) → Type 0 where
  alone :
      ((k : ℕ)
        → has k (rings (s.priority s.cur_thread)) ≡ true
        → IsPassed (renewed s) (s.groups (s.priority s.cur_thread)) k)
      → Tick s rings (some (false, renewed s))
  turn :
      (before : List ℕ) (t : ℕ) (behind : List ℕ) {s' : Scheduler}
      → rings (s.priority s.cur_thread) ≡ before ++ t ∷ behind
      → ((k : ℕ)
          → has k before ≡ true
          → IsPassed (renewed s) (s.groups (s.priority s.cur_thread)) k)
      → Turned s s' rings before t behind
      → Tick s rings (some (true, s'))

-- What is made of the answer of `findNextThread`.
decide : Scheduler → Option (ℕ × Scheduler) → Option (Bool × Scheduler)
decide s none = none
decide s (some (next, s3)) =
    if next == s.cur_thread
    then some (false, s3)
    else some
        (true, record (set_state (set_state s3 s.cur_thread ready) next running) { higher = next })
