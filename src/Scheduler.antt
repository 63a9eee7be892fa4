-- ===== src/Scheduler.antt =====
-- kernel/src/task/schedule.cpp and the parts of kernel/src/task/thread.cpp that put a thread on a
-- ready ring or take it off. A thread is known by the address of its `_commList`, so that
-- `List_Entry` is the node itself. The lock is held from the first access of an operation to the last.
pub mod Groups
pub mod Turn
pub mod Remove
pub mod Find
pub mod Start
pub mod Tick
mod Tests
use power_pc_demo_os.Common.{
  ℕ, zero, suc, ◌+◌, Bool, true, false, not, ◌&&◌, Option, none, some, ◌==◌, ltb, leb,
  if◌then◌else◌, update, add_word, ℤ, pos, negsuc, is_below,
}
use power_pc_demo_os.RingList.{Store, init_ring, add_header, add_tail, del_node}

-- `Procedure::State`
pub data State : Type 0 where
  stopped ready waiting lock waiting_next_activation delayed_start running : State

abbrev pub is_ready : State → Bool
is_ready ready = true
is_ready _ = false

abbrev pub is_waiting : State → Bool
is_waiting waiting = true
is_waiting _ = false

-- An entry of `_priorityArray`: the address of `_header`, and `_curNodeInGroup`.
pub record Group : Type 0 where
  pub header : ℕ
  pub cur : ℕ

pub record Scheduler : Type 0 where
  pub links : Store
  pub groups : ℕ → Group
  pub state : ℕ → State
  pub priority : ℕ → ℕ
  pub exec_ticks : ℕ → ℕ
  pub total_ticks : ℕ → ℕ
  pub max_prio : ℤ
  pub cur_thread : ℕ
  pub higher : ℕ

abbrev pub set_cur : Scheduler → ℕ → ℕ → Scheduler
set_cur s prio node = record s {
  groups = update s.groups prio (record (s.groups prio) { cur = node });
}

abbrev pub set_state : Scheduler → ℕ → State → Scheduler
set_state s thread v = record s { state = update s.state thread v }

-- One round of the loop of `Scheduler::init`.
unfoldable pub start_group : ℕ → Scheduler → Scheduler
start_group i s = record (set_cur s i (s.groups i).header) {
  links = init_ring s.links (s.groups i).header;
}

-- The rounds for the entries below `n`, in order.
unfoldable pub init_groups : ℕ → Scheduler → Scheduler
init_groups zero s = s
init_groups (suc n) s = start_group n (init_groups n s)

-- `if(_maxPrio < newPrio)`
unfoldable pub raise : Scheduler → ℕ → Scheduler
raise s thread =
    let prio = s.priority thread in
    if is_below s.max_prio prio then record s { max_prio = pos prio; higher = thread } else s

unfoldable pub push : Scheduler → ℕ → Scheduler
unfolding raise
push s thread =
    let links = add_header s.links (s.groups (s.priority thread)).cur thread in
    if is_ready (s.state thread) then raise (record s { links = links }) thread else s

unfoldable pub append : Scheduler → ℕ → Scheduler
unfolding raise
append s thread =
    let links = add_tail s.links (s.groups (s.priority thread)).cur thread in
    if is_ready (s.state thread) then raise (record s { links = links }) thread else s

unfoldable pub remove : Scheduler → ℕ → Scheduler
remove s thread =
    let s1 = set_cur s (s.priority thread) (s.links.next thread) in
    record s1 { links = del_node s1.links thread }

-- `RingList_Foreach` from `_curNodeInGroup`: the first thread that is ready, on fuel.
unfoldable pub find_ready : ℕ → Scheduler → Group → ℕ → Option ℕ
find_ready zero s g p = none
find_ready (suc fuel) s g p =
    let rest = find_ready fuel s g (s.links.next p) in
    if p == g.cur
    then none
    else if not (p == g.header) && is_ready (s.state p)
    then some p
    else rest

-- `_maxPrio == prio`
unfoldable pub is_prio : ℤ → ℕ → Bool
is_prio (pos m) prio = m == prio
is_prio (negsuc m) prio = false

-- `none` is the `assert`. When the loop ends, `p` is `_curNodeInGroup`.
unfoldable pub find_next_thread : ℕ → Scheduler → Option (ℕ × Scheduler)
find_next_thread fuel s =
    let prio = s.priority s.cur_thread in
    let g = s.groups prio in
    if is_prio s.max_prio prio
    then elim (find_ready fuel s g (s.links.next g.cur)) as (λ _. Option (ℕ × Scheduler)) [
      | none ↦ some (g.cur, s)
      | some p ↦ some (p, set_cur s prio p)
    ]
    else none

-- `_maxPrio > _curThread->_priority`
unfoldable pub exceeds : ℤ → ℕ → Bool
exceeds (pos m) prio = ltb prio m
exceeds (negsuc m) prio = false

abbrev pub index_of : ℤ → ℕ
index_of (pos m) = m
index_of (negsuc m) = 0

-- `scheduleInInterrupt` up to the call of `switchContext`: whether that is reached.
unfoldable pub schedule_in_interrupt : ℕ → Scheduler → Option (Bool × Scheduler)
schedule_in_interrupt fuel s =
    let cur = s.cur_thread in
    let ticks = add_word (s.exec_ticks cur) 1 in
    let s1 = record s { exec_ticks = update s.exec_ticks cur ticks } in
    let over = leb (s.total_ticks cur) ticks in
    let s2 = record s { exec_ticks = update s.exec_ticks cur 0 } in
    if exceeds s.max_prio (s.priority cur)
    then some (true, set_cur (if over then s2 else s1) (index_of s.max_prio) s.higher)
    else if over
    then elim (find_next_thread fuel s2) as (λ _. Option (Bool × Scheduler)) [
      | none ↦ none
      | some (next, s3) ↦
          if next == cur
          then some (false, s3)
          else some
              (true, record (set_state (set_state s3 cur ready) next running) { higher = next })
    ]
    else some (false, s1)

-- `Thread::suspendSelf`. The `assert` of `suspend` compares the thread's priority with itself.
unfoldable pub suspend_self : Scheduler → ℕ → Scheduler
unfolding remove
suspend_self s thread = set_state (remove s thread) thread waiting

-- `Thread::wakeup` with the thread's own id, as the semaphore calls it.
unfoldable pub wakeup : Scheduler → ℕ → Scheduler
wakeup s thread =
    if is_waiting (s.state thread) then append (set_state s thread ready) thread else s
