-- ===== src/Scheduler/Find.antt =====
-- `Scheduler::findNextThread` (kernel/src/task/schedule.cpp): round robin among the ready threads of
-- the running thread's priority.
use power_pc_demo_os.Common.{
  ℕ, zero, suc, ◌<◌, ◌≡◌, ◌≢◌, ◌∙◌, refl, sym, ap, true, false, not, ◌&&◌, List, [], ◌∷◌, ◌++◌,
  arith, length, ◌==◌, ==_iff, ==_refl, has, has-append, update, Bool-cases, Option, none, some,
  inl, inr, pos,
}
use power_pc_demo_os.RingList.Links.{Links}
use power_pc_demo_os.RingList.Ring.{Ring}
use power_pc_demo_os.RingList.Rotate.{rotate-Ring, has-turn}
use power_pc_demo_os.Scheduler.{
  Scheduler, Group, is_ready, find_ready, find_next_thread, is_prio, set_cur,
}
use power_pc_demo_os.Scheduler.Groups.{IsReady}
use power_pc_demo_os.Scheduler.Turn.{turn-IsReady}

-- A node that the loop passes by: the header, or a thread that is not ready.
abbrev pub IsPassed : Scheduler → Group → ℕ → Type 0
IsPassed s g k = (not (k == g.header) && is_ready (s.state k)) ≡ false

-- The first node of the list that the loop stops at.
data First (s : Scheduler) (g : Group) (xs : List ℕ) : Option ℕ → Type 0 where
  nobody : ((k : ℕ) → has k xs ≡ true → IsPassed s g k) → First s g xs none
  first :
      (before : List ℕ) (t : ℕ) (behind : List ℕ)
      → xs ≡ before ++ t ∷ behind
      → ((k : ℕ) → has k before ≡ true → IsPassed s g k)
      → (not (t == g.header) && is_ready (s.state t)) ≡ true
      → First s g xs (some t)

First-skip :
    {s : Scheduler} {g : Group} {x : ℕ} {xs : List ℕ} {o : Option ℕ}
    → IsPassed s g x
    → First s g xs o
    → First s g (x ∷ xs) o
First-skip {x = x} p (nobody all) = nobody (λ k i. elim (Bool-cases (k == x)) [
  | inl same ↦ rw ((==_iff k x).0 same) p
  | inr other ↦ all k (ground arith)
])
First-skip {x = x} p (first before t behind e all is) =
    first (x ∷ before) t behind (ap (λ ys. x ∷ ys) e)
      (λ k i. elim (Bool-cases (k == x)) [
        | inl same ↦ rw ((==_iff k x).0 same) p
        | inr other ↦ all k (ground arith)
      ])
      is

find_ready-First :
    (fuel : ℕ) (s : Scheduler) (g : Group) (a : ℕ) (xs : List ℕ)
    → Links s.links a xs g.cur
    → has g.cur xs ≡ false
    → length xs < fuel
    → First s g xs (find_ready fuel s g (s.links.next a))
unfolding find_ready
find_ready-First zero s g a xs l o f = absurd (omega arith)
find_ready-First (suc fuel) s g a [] l o f =
    rw (l.0, ==_refl g.cur) (nobody (λ k i. absurd (ground arith)))
find_ready-First (suc fuel) s g a (x ∷ xs) l o f =
    let not_end : (x == g.cur) ≡ false = ground arith in
    elim (Bool-cases (not (x == g.header) && is_ready (s.state x))) [
      | inl stop ↦ rw (l.0, not_end, stop) (first [] x xs refl (λ k i. absurd (ground arith)) stop)
      | inr pass ↦
          rw (l.0, not_end, pass)
            (First-skip pass (find_ready-First fuel s g x xs l.2 (ground arith) (omega arith)))
    ]

-- What `findNextThread` may answer: `_curNodeInGroup` itself when no other thread of the priority is
-- ready, or the first ready thread behind it, to which it then points, so that the threads behind that
-- one come first the next time.
pub data NextThread (s : Scheduler) (rings : ℕ → List ℕ) (p : ℕ)
    : Option (ℕ × Scheduler) → Type 0 where
  stays :
      ((k : ℕ) → has k (rings p) ≡ true → IsPassed s (s.groups p) k)
      → NextThread s rings p (some ((s.groups p).cur, s))
  goes :
      (before : List ℕ) (t : ℕ) (behind : List ℕ)
      → rings p ≡ before ++ t ∷ behind
      → ((k : ℕ) → has k before ≡ true → IsPassed s (s.groups p) k)
      → (t ≢ (s.groups p).header) × (is_ready (s.state t) ≡ true) × (s.priority t ≡ p)
      → IsReady (set_cur s p t) (update rings p (behind ++ (s.groups p).cur ∷ before))
      → NextThread s rings p (some (t, set_cur s p t))

is_prio-pos : (p : ℕ) → is_prio (pos p) p ≡ true
unfolding is_prio
is_prio-pos p = ==_refl p

answer :
    {s : Scheduler} {rings : ℕ → List ℕ} (p : ℕ) {o : Option ℕ}
    → IsReady s rings
    → First s (s.groups p) (rings p) o
    → NextThread s rings p (elim o as (λ _. Option (ℕ × Scheduler)) [
      | none ↦ some ((s.groups p).cur, s)
      | some t ↦ some (t, set_cur s p t)
    ])
answer p v (nobody all) = stays all
answer {s} {rings} p v (first before t behind e all is) =
    let r0 : Ring s.links (s.groups p).cur (rings p) = v.lists.ring p in
    let r : Ring s.links (s.groups p).cur (before ++ t ∷ behind) = rw e at (r0) in
    let on : has t ((s.groups p).cur ∷ rings p) ≡ true =
      ap (λ ys. has t ((s.groups p).cur ∷ ys)) e ∙ in_it in
    goes before t behind e all (not_header, ready_too, v.lists.sorted p t on not_header)
      (turn-IsReady p t (behind ++ (s.groups p).cur ∷ before) v (rotate-Ring before t behind r)
        (λ k.
          has-turn k (s.groups p).cur t before behind
          ∙ ap (λ ys. has k ((s.groups p).cur ∷ ys)) (sym e)))
  where
    in_it : has t ((s.groups p).cur ∷ (before ++ t ∷ behind)) ≡ true
    in_it = ground (arith, has-append t before (t ∷ behind))

    not_header : t ≢ (s.groups p).header
    not_header = λ same. absurd (ground arith)

    ready_too : is_ready (s.state t) ≡ true
    ready_too = ground arith

find_next_thread_by :
    (fuel : ℕ) (s : Scheduler) (o : Option ℕ)
    → let p = s.priority s.cur_thread in
      s.max_prio ≡ pos p
      → find_ready fuel s (s.groups p) (s.links.next (s.groups p).cur) ≡ o
      → find_next_thread fuel s ≡ (elim o as (λ _. Option (ℕ × Scheduler)) [
        | none ↦ some ((s.groups p).cur, s)
        | some t ↦ some (t, set_cur s p t)
      ])
unfolding find_next_thread
find_next_thread_by fuel s o top e =
    let p = s.priority s.cur_thread in
    let agrees : is_prio s.max_prio p ≡ true = ap (λ z. is_prio z p) top ∙ is_prio-pos p in
    rw agrees (
      ap
        (λ f. elim f as (λ _. Option (ℕ × Scheduler)) [
          | none ↦ some ((s.groups p).cur, s)
          | some t ↦ some (t, set_cur s p t)
        ])
        e)

-- When the rings are in order and `_maxPrio` is the running thread's priority, as the `assert` asks,
-- `findNextThread` ends and returns the first ready thread of that priority behind `_curNodeInGroup`,
-- which becomes `_curNodeInGroup` in rings that are in order, or `_curNodeInGroup` if there is none.
pub find_next_thread-NextThread :
    {s : Scheduler} {rings : ℕ → List ℕ} (fuel : ℕ)
    → IsReady s rings
    → s.max_prio ≡ pos (s.priority s.cur_thread)
    → length (rings (s.priority s.cur_thread)) < fuel
    → NextThread s rings (s.priority s.cur_thread) (find_next_thread fuel s)
find_next_thread-NextThread {s} {rings} fuel v top enough =
    let p = s.priority s.cur_thread in
    let r = v.lists.ring p in
    let g = s.groups p in
    let found = find_ready fuel s g (s.links.next g.cur) in
    rw (find_next_thread_by fuel s found top refl)
      (answer p v (find_ready-First fuel s g g.cur (rings p) r.links r.outside enough))
