-- ===== src/Scheduler/Groups.antt =====
-- The ready rings of the scheduler (kernel/src/task/schedule.cpp): one for each priority, with its
-- header and the threads of that priority, seen from `_curNodeInGroup`.
use power_pc_demo_os.Common.{
  ℕ, ◌≡◌, ◌≢◌, ◌∙◌, ◌⊎◌, refl, sym, ap, true, false, List, [], ◌∷◌, ◌++◌, arith, ltb, ◌==◌, ==_iff,
  has, has-append, update, if◌then◌else◌, Bool-cases, inl, inr, ℤ, pos, negsuc, is_below,
}
use power_pc_demo_os.RingList.{Store, add_header, add_tail}
use power_pc_demo_os.RingList.Ring.{Ring, add_header-Ring, add_tail-Ring}
use power_pc_demo_os.RingList.Frame.{
  SameOutside, Apart, Ring-frame, add_tail-SameOutside, add_header-SameOutside,
}
use power_pc_demo_os.Scheduler.{Scheduler, Group, ready, append, push, raise}

-- `rings p` are the nodes behind `_curNodeInGroup` of priority `p`, in order.
pub record IsRings (links : Store) (groups : ℕ → Group) (priority : ℕ → ℕ) (rings : ℕ → List ℕ)
    : Type 0 where
  pub ring : (p : ℕ) → Ring links (groups p).cur (rings p)
  pub header_in : (p : ℕ) → has (groups p).header ((groups p).cur ∷ rings p) ≡ true
  pub apart : (p q : ℕ) → p ≢ q → Apart ((groups p).cur ∷ rings p) ((groups q).cur ∷ rings q)
  pub sorted :
      (p t : ℕ) → has t ((groups p).cur ∷ rings p) ≡ true → t ≢ (groups p).header → priority t ≡ p

-- No thread on a ring has a priority above `_maxPrio`.
pub record IsReady (s : Scheduler) (rings : ℕ → List ℕ) : Type 0 where
  pub lists : IsRings s.links s.groups s.priority rings
  pub top :
      (p t : ℕ)
      → has t ((s.groups p).cur ∷ rings p) ≡ true
      → t ≢ (s.groups p).header
      → is_below s.max_prio p ≡ false

is_below-pos : (m n : ℕ) → is_below (pos m) n ≡ ltb m n
unfolding is_below
is_below-pos m n = refl

below_trans :
    (z : ℤ) (p q : ℕ) → is_below z q ≡ true → is_below z p ≡ false → is_below (pos q) p ≡ false
unfolding is_below
below_trans (pos m) p q a b = ground arith
below_trans (negsuc m) p q a b = absurd (ground arith)

-- What `raise` does to `_maxPrio`: it is at least the thread's priority, and never lower than before.
raise-max :
    (s : Scheduler) (t p : ℕ)
    → (is_below (raise s t).max_prio (s.priority t) ≡ false)
      × (is_below s.max_prio p ≡ false → is_below (raise s t).max_prio p ≡ false)
unfolding raise
raise-max s t p = elim (Bool-cases (is_below s.max_prio (s.priority t))) [
  | inl lower ↦ rw lower (
    is_below-pos (s.priority t) (s.priority t) ∙ (ground arith),
    λ b. below_trans s.max_prio p (s.priority t) lower b,
  )
  | inr high ↦ rw high (high, λ b. b)
]

raise-IsRings :
    (s : Scheduler) {rings : ℕ → List ℕ} (t : ℕ)
    → IsRings s.links s.groups s.priority rings
    → IsRings (raise s t).links (raise s t).groups (raise s t).priority rings
unfolding raise
raise-IsRings s t v = elim (Bool-cases (is_below s.max_prio (s.priority t))) [
  | inl lower ↦ rw lower v
  | inr high ↦ rw high v
]

raise-groups : (s : Scheduler) (t : ℕ) → (raise s t).groups ≡ s.groups
unfolding raise
raise-groups s t = ground arith

-- A thread `t` that was on no ring is put on the ring `pt`, which is then `zs`.
module _ {links : Store} {groups : ℕ → Group} {priority : ℕ → ℕ} {rings : ℕ → List ℕ} (t pt : ℕ)
    (zs : List ℕ) (v : IsRings links groups priority rings)
    (fresh : (p : ℕ) → has t ((groups p).cur ∷ rings p) ≡ false)
    (grown : (k : ℕ) → has k zs ≡ (if k == t then true else has k (rings pt))) where
  old_or_new :
      (p k : ℕ)
      → has k ((groups p).cur ∷ update rings pt zs p) ≡ true
      → (has k ((groups p).cur ∷ rings p) ≡ true) ⊎ ((k ≡ t) × (p ≡ pt))
  old_or_new p k i = elim (Bool-cases (p == pt)) [
    | inr other ↦ let same : update rings pt zs p ≡ rings p = rw other refl in inl (rw same at i)
    | inl here ↦
        let e = (==_iff p pt).0 here in
        let same : update rings pt zs p ≡ zs = rw here refl in
        let i' : has k ((groups p).cur ∷ zs) ≡ true = rw same at i in
        elim (Bool-cases (k == t)) [
          | inl is ↦ inr ((==_iff k t).0 is, e)
          | inr is_not ↦ inl (
              let g = grown k in
              let j = sym (ap (λ q. has k ((groups q).cur ∷ zs)) e) ∙ i' in
              ap (λ q. has k ((groups q).cur ∷ rings q)) e ∙ (ground arith))
        ]
  ]

  still :
      (p k : ℕ)
      → has k ((groups p).cur ∷ rings p) ≡ true
      → has k ((groups p).cur ∷ update rings pt zs p) ≡ true
  still p k i = elim (Bool-cases (p == pt)) [
    | inr other ↦ let same : update rings pt zs p ≡ rings p = rw other refl in rw same i
    | inl here ↦
        let e = (==_iff p pt).0 here in
        let same : update rings pt zs p ≡ zs = rw here refl in
        let g = grown k in
        let j = sym (ap (λ q. has k ((groups q).cur ∷ rings q)) e) ∙ i in
        rw same (ap (λ q. has k ((groups q).cur ∷ zs)) e ∙ (ground arith))
  ]

  put-IsRings :
      {links' : Store}
      → Ring links' (groups pt).cur zs
      → SameOutside (t ∷ (groups pt).cur ∷ rings pt) links links'
      → priority t ≡ pt
      → IsRings links' groups priority (update rings pt zs)
  put-IsRings {links'} r same prio = record {
    ring = λ p. elim (Bool-cases (p == pt)) [
      | inl here ↦ let e = (==_iff p pt).0 here in rw here (rw e r)
      | inr other ↦
          rw other
            (Ring-frame (t ∷ (groups pt).cur ∷ rings pt) (v.ring p) (λ k i. away p k other i) same)
    ];
    header_in = λ p. still p (groups p).header (v.header_in p);
    apart = λ p q ne k i. apart_at p q ne k i;
    sorted = λ p k i ne. elim (old_or_new p k i) [
      | inl old ↦ v.sorted p k old ne
      | inr new ↦ rw (new.0) (prio ∙ sym new.1)
    ];
  }
    where
      away :
          (p k : ℕ)
          → (p == pt) ≡ false
          → has k ((groups p).cur ∷ rings p) ≡ true
          → has k (t ∷ (groups pt).cur ∷ rings pt) ≡ false
      away p k other i =
          let a = v.apart p pt (ground arith) k i in
          let f = fresh p in
          elim (Bool-cases (k == t)) [
            | inl is ↦
                let e = (==_iff k t).0 is in
                let i' = sym (ap (λ q. has q ((groups p).cur ∷ rings p)) e) ∙ i in absurd (cc)
            | inr is_not ↦ rw is_not a
          ]

      apart_at :
          (p q : ℕ)
          → p ≢ q
          → Apart ((groups p).cur ∷ update rings pt zs p) ((groups q).cur ∷ update rings pt zs q)
      apart_at p q ne k i = elim (Bool-cases (has k ((groups q).cur ∷ update rings pt zs q))) [
        | inr out ↦ out
        | inl j ↦ absurd (clash (old_or_new p k i) (old_or_new q k j))
      ]
        where
          clash :
              (has k ((groups p).cur ∷ rings p) ≡ true) ⊎ ((k ≡ t) × (p ≡ pt))
              → (has k ((groups q).cur ∷ rings q) ≡ true) ⊎ ((k ≡ t) × (q ≡ pt))
              → ⊥
          clash (inl a) (inl b) = let c = v.apart p q ne k a in absurd (cc)
          clash (inl a) (inr b) =
              let f = fresh p in
              let a' = sym (ap (λ q. has q ((groups p).cur ∷ rings p)) b.0) ∙ a in absurd (cc)
          clash (inr a) (inl b) =
              let f = fresh q in
              let b' = sym (ap (λ r. has r ((groups q).cur ∷ rings q)) a.0) ∙ b in absurd (cc)
          clash (inr a) (inr b) = ne (a.1 ∙ sym b.1)

put-IsReady :
    {s : Scheduler} {rings : ℕ → List ℕ} (t : ℕ) (links' : Store) (zs : List ℕ)
    → IsReady s rings
    → ((p : ℕ) → has t ((s.groups p).cur ∷ rings p) ≡ false)
    → ((k : ℕ) → has k zs ≡ (if k == t then true else has k (rings (s.priority t))))
    → Ring links' (s.groups (s.priority t)).cur zs
    → SameOutside (t ∷ (s.groups (s.priority t)).cur ∷ rings (s.priority t)) s.links links'
    → IsReady (raise (record s { links = links' }) t) (update rings (s.priority t) zs)
put-IsReady {s} {rings} t links' zs v fresh grown r same =
    let s' : Scheduler = record s { links = links' } in
    record {
      lists = raise-IsRings s' t (put-IsRings t (s.priority t) zs v.lists fresh grown r same refl);
      top = λ p k i ne.
          top_at s' refl p k
            (sym
                (ap (λ g. has k ((g p).cur ∷ update rings (s.priority t) zs p)) (raise-groups s' t))
              ∙ i)
            (λ e. ne (e ∙ sym (ap (λ g. (g p).header) (raise-groups s' t))));
    }
  where
    top_at :
        (s' : Scheduler)
        → s' ≡ record s { links = links' }
        → (p k : ℕ) → has k ((s.groups p).cur ∷ update rings (s.priority t) zs p) ≡ true
        → k ≢ (s.groups p).header
        → is_below (raise s' t).max_prio p ≡ false
    top_at s' e p k i ne =
        let high = raise-max s' t p in
        elim (old_or_new t (s.priority t) zs v.lists fresh grown p k i) [
          | inl old ↦ high.1 (ap (λ z. is_below z.max_prio p) e ∙ v.top p k old ne)
          | inr new ↦ rw (new.1 ∙ ap (λ z. z.priority t) (sym e)) high.0
        ]

has-tail : (t k : ℕ) (xs : List ℕ) → has k (xs ++ t ∷ []) ≡ (if k == t then true else has k xs)
has-tail t k xs = ground (arith, has-append k xs (t ∷ []))

-- `append` of a ready thread that is on no ring puts it last on the ring of its priority, behind all
-- that will run before `_curNodeInGroup` comes up again, and keeps the rings of all priorities.
pub append-IsReady :
    {s : Scheduler} {rings : ℕ → List ℕ} (t : ℕ)
    → IsReady s rings
    → s.state t ≡ ready
    → ((p : ℕ) → has t ((s.groups p).cur ∷ rings p) ≡ false)
    → IsReady (append s t) (update rings (s.priority t) (rings (s.priority t) ++ t ∷ []))
unfolding append
append-IsReady {s} {rings} t v e fresh =
    let pt = s.priority t in
    let r = v.lists.ring pt in
    let off = fresh pt in
    rw e (
      put-IsReady t (add_tail s.links (s.groups pt).cur t) (rings pt ++ t ∷ []) v fresh
        (λ k. has-tail t k (rings pt)) (add_tail-Ring t r (ground arith) (ground arith))
        (add_tail-SameOutside t r))

-- `push` of a ready thread that is on no ring puts it first on the ring of its priority, the next to
-- run behind `_curNodeInGroup`, and keeps the rings of all priorities.
pub push-IsReady :
    {s : Scheduler} {rings : ℕ → List ℕ} (t : ℕ)
    → IsReady s rings
    → s.state t ≡ ready
    → ((p : ℕ) → has t ((s.groups p).cur ∷ rings p) ≡ false)
    → IsReady (push s t) (update rings (s.priority t) (t ∷ rings (s.priority t)))
unfolding push
push-IsReady {s} {rings} t v e fresh =
    let pt = s.priority t in
    let r = v.lists.ring pt in
    let off = fresh pt in
    rw e (
      put-IsReady t (add_header s.links (s.groups pt).cur t) (t ∷ rings pt) v fresh
        (λ k. ground arith) (add_header-Ring t r (ground arith) (ground arith))
        (add_header-SameOutside t r))
