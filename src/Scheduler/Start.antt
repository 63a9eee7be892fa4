-- ===== src/Scheduler/Start.antt =====
-- The first and the last of a thread on the ready rings: the loop of `Scheduler::init`, and
-- `Thread::suspendSelf` and `Thread::wakeup` (kernel/src/task/thread.cpp).
use power_pc_demo_os.Common.{
  ℕ, zero, suc, ◌≤◌, ◌<◌, ◌≡◌, ◌≢◌, ◌∙◌, ◌⊎◌, ltb, refl, sym, ap, true, false, List, [], ◌∷◌, ◌++◌,
  arith, ◌==◌, ==_iff, has, update, Bool-cases, inl, inr,
}
use power_pc_demo_os.RingList.Ring.{Ring, init_ring-Ring}
use power_pc_demo_os.RingList.Frame.{Ring-frame, init_ring-SameOutside}
use power_pc_demo_os.Scheduler.{
  Scheduler, State, is_waiting, waiting, ready, init_groups, start_group, set_state, suspend_self,
  wakeup,
}
use power_pc_demo_os.Scheduler.Groups.{IsReady, append-IsReady}
use power_pc_demo_os.Scheduler.Remove.{Removed, remove-Removed}

-- The entries below `m`, and those from `n` on, are empty rings, seen from their headers.
record IsStarted (n m : ℕ) (s : Scheduler) : Type 0 where
  distinct : (p q : ℕ) → p ≢ q → (s.groups p).header ≢ (s.groups q).header
  empty :
      (p : ℕ)
      → (p < m) ⊎ (n ≤ p)
      → Ring s.links (s.groups p).cur [] × ((s.groups p).cur ≡ (s.groups p).header)

start_group-IsStarted :
    {n m : ℕ} {s : Scheduler} → IsStarted n m s → IsStarted n (suc m) (start_group m s)
unfolding start_group
start_group-IsStarted {n} {m} {s} v = record {
  distinct = λ p q ne e. v.distinct p q ne (sym (header_of p) ∙ e ∙ header_of q);
  empty = λ p h. elim (Bool-cases (p == m)) [
    | inl here ↦ rw here (init_ring-Ring s.links (s.groups m).header, refl)
    | inr other ↦
        let was = v.empty p (before p h other) in
        rw other (
          Ring-frame ((s.groups m).header ∷ []) was.0 (λ k i. away p k other was.1 i)
              (init_ring-SameOutside s.links (s.groups m).header),
          was.1,
        )
  ];
}
  where
    before : (p : ℕ) → (p < suc m) ⊎ (n ≤ p) → (p == m) ≡ false → (p < m) ⊎ (n ≤ p)
    before p (inl lo) other = inl (ground arith)
    before p (inr hi) other = inr hi

    header_of : (p : ℕ) → ((start_group m s).groups p).header ≡ (s.groups p).header
    header_of p = elim (Bool-cases (p == m)) [
      | inl here ↦ rw here (ap (λ q. (s.groups q).header) (sym ((==_iff p m).0 here)))
      | inr other ↦ rw other refl
    ]

    away :
        (p k : ℕ)
        → (p == m) ≡ false
        → (s.groups p).cur ≡ (s.groups p).header
        → has k ((s.groups p).cur ∷ []) ≡ true
        → has k ((s.groups m).header ∷ []) ≡ false
    away p k other e i =
        let ne = v.distinct p m (ground arith) in
        let at : k ≡ (s.groups p).header = (ground arith) ∙ e in
        elim (Bool-cases (k == (s.groups m).header)) [
          | inl same ↦ absurd (ne (sym at ∙ (==_iff k (s.groups m).header).0 same))
          | inr o ↦ rw o refl
        ]

started : {n : ℕ} (m : ℕ) {s : Scheduler} → IsStarted n 0 s → IsStarted n m (init_groups m s)
unfolding init_groups
started zero v = v
started (suc m) v = start_group-IsStarted (started m v)

-- The loop of `init` makes an empty ring of each priority: with distinct headers, and the entries
-- behind the array taken as done, no thread is on a ring.
pub init_groups-IsReady :
    (n : ℕ) (s : Scheduler)
    → ((p q : ℕ) → p ≢ q → (s.groups p).header ≢ (s.groups q).header)
    → ((p : ℕ)
        → n ≤ p
        → Ring s.links (s.groups p).cur [] × ((s.groups p).cur ≡ (s.groups p).header))
    → IsReady (init_groups n s) (λ _. [])
init_groups-IsReady n s distinct empty =
    let v = started n (record { distinct = distinct; empty = λ p h. empty p (at_end p h) }) in
    record {
      lists = record {
        ring = λ p. (v.empty p (covers p)).0;
        header_in = λ p. let e = (v.empty p (covers p)).1 in ground arith;
        apart = λ p q ne k i.
            let ep = (v.empty p (covers p)).1 in
            let eq = (v.empty q (covers q)).1 in let d = v.distinct p q ne in ground arith;
        sorted = λ p t i ne. let e = (v.empty p (covers p)).1 in absurd (ground arith);
      };
      top = λ p t i ne. let e = (v.empty p (covers p)).1 in absurd (ground arith);
    }
  where
    at_end : (p : ℕ) → (p < 0) ⊎ (n ≤ p) → n ≤ p
    at_end p (inl lo) = absurd (omega arith)
    at_end p (inr hi) = hi

    covers : (p : ℕ) → (p < n) ⊎ (n ≤ p)
    covers p = elim (Bool-cases (ltb p n)) [
      | inl lo ↦ inl (ground arith)
      | inr hi ↦ inr (ground arith)
    ]

pub state-IsReady :
    {s : Scheduler} {rings : ℕ → List ℕ} (t : ℕ) (a : State)
    → IsReady s rings
    → IsReady (set_state s t a) rings
state-IsReady t a v = record {
  lists = record {
    ring = v.lists.ring;
    header_in = v.lists.header_in;
    apart = v.lists.apart;
    sorted = v.lists.sorted;
  };
  top = v.top;
}

-- `wakeup` of a waiting thread that is on no ring makes it ready and puts it last on the ring of its
-- priority.
pub wakeup-IsReady :
    {s : Scheduler} {rings : ℕ → List ℕ} (t : ℕ)
    → IsReady s rings
    → s.state t ≡ waiting
    → ((p : ℕ) → has t ((s.groups p).cur ∷ rings p) ≡ false)
    → IsReady (wakeup s t) (update rings (s.priority t) (rings (s.priority t) ++ t ∷ []))
unfolding wakeup
wakeup-IsReady {s} {rings} t v e fresh =
    let asleep : is_waiting (s.state t) ≡ true = ap is_waiting e in
    rw asleep (append-IsReady t (state-IsReady t ready v) (ground arith) fresh)

-- `suspendSelf` takes the thread off its ring and leaves it waiting.
pub suspend_self-Removed :
    {s : Scheduler} {rings : ℕ → List ℕ} (d : ℕ)
    → IsReady s rings
    → has d ((s.groups (s.priority d)).cur ∷ rings (s.priority d)) ≡ true
    → d ≢ (s.groups (s.priority d)).header
    → Removed s (suspend_self s d) rings d × ((suspend_self s d).state d ≡ waiting)
unfolding suspend_self
suspend_self-Removed {s} {rings} d v i ne =
    let r = remove-Removed d v i ne in
    (
      record {
        others = r.others;
        valid = state-IsReady d waiting r.valid;
        members = r.members;
        at_next = r.at_next;
      },
      ground arith,
    )
