-- ===== src/Scheduler/Remove.antt =====
-- `Scheduler::remove`: a thread leaves its ready ring (kernel/src/task/schedule.cpp).
use power_pc_demo_os.Common.{
  ℕ, ◌≡◌, ◌≢◌, ◌∙◌, refl, sym, ap, Bool, true, false, List, [], ◌∷◌, arith, ◌++◌, has-append, ◌==◌,
  ==_iff, ==_refl, has, update, if◌then◌else◌, Bool-cases, inl, inr,
}
use power_pc_demo_os.RingList.{Store, del_node}
use power_pc_demo_os.RingList.Ring.{Ring}
use power_pc_demo_os.RingList.Frame.{del_node-SameOutside}
use power_pc_demo_os.RingList.Rotate.{seen, rotate-Ring, del_node-behind}
use power_pc_demo_os.Scheduler.{Scheduler, remove}
use power_pc_demo_os.Scheduler.Groups.{IsReady}
use power_pc_demo_os.Scheduler.Turn.{take-IsRings, was_there, header_of}

-- What is left of the ring of a header when the node `d` is taken out: it is seen from `d`'s next node.
record Left (s : Store) (h : ℕ) (xs : List ℕ) (d : ℕ) : Type 0 where
  others : List ℕ
  ring : Ring (del_node s d) (s.next d) others
  members : (k : ℕ) → has k (s.next d ∷ others) ≡ (if k == d then false else has k (h ∷ xs))
  same :
      (k : ℕ)
      → has k (h ∷ xs) ≡ false
      → ((del_node s d).next k ≡ s.next k) × ((del_node s d).prev k ≡ s.prev k)

less :
    (k d : ℕ) (zs : List ℕ)
    → has d zs ≡ false
    → has k zs ≡ (if k == d then false else has k (d ∷ zs))
less k d zs o = elim (Bool-cases (k == d)) [
  | inl same ↦ rw same (ap (λ q. has q zs) ((==_iff k d).0 same) ∙ o)
  | inr other ↦ rw other refl
]

turned : (k d y : ℕ) (ys : List ℕ) → has k (d ∷ y ∷ ys) ≡ false → has k (y ∷ (ys ++ d ∷ [])) ≡ false
turned k d y ys o = ground (arith, has-append k ys (d ∷ []))

leave :
    {s : Store} {h : ℕ} {xs : List ℕ} (d other : ℕ)
    → Ring s h xs
    → has d (h ∷ xs) ≡ true
    → has other (h ∷ xs) ≡ true
    → d ≢ other
    → Left s h xs d
leave {s} {h} {xs} d other r i o ne = let v = seen d r i in go v.others v.ring v.members
  where
    go : (ys : List ℕ) → Ring s d ys → ((k : ℕ) → has k (d ∷ ys) ≡ has k (h ∷ xs)) → Left s h xs d
    go [] w m = let c = m other ∙ o in absurd (ground arith)
    go (y ∷ ys) w m =
        let b = del_node-behind w in
        record {
          others = ys;
          ring = rw (b.1) b.0;
          members = λ k.
              ap (λ q. has k (q ∷ ys)) b.1
              ∙ less k d (y ∷ ys) w.outside
              ∙ ap (λ z. if k == d then false else z) (m k);
          same = λ k out.
              del_node-SameOutside d (rotate-Ring [] y ys w)
                (has-append d ys (d ∷ []) ∙ (ground arith)) k (turned k d y ys (m k ∙ out));
        }

kept_by : (d k : ℕ) (b : Bool) → (if k == d then false else b) ≡ true → b ≡ true
kept_by d k b j = ground arith

header_stays : (d h : ℕ) (b : Bool) → b ≡ true → d ≢ h → (if h == d then false else b) ≡ true
header_stays d h b i ne = ground arith

-- What `remove` leaves of the ring of the thread `d`, as `_curNodeInGroup` sees it.
pub record Removed (s s' : Scheduler) (rings : ℕ → List ℕ) (d : ℕ) : Type 0 where
  pub others : List ℕ
  pub valid : IsReady s' (update rings (s.priority d) others)
  pub members :
      (k : ℕ)
      → has k (s.links.next d ∷ others)
        ≡ (if k == d then false else has k ((s.groups (s.priority d)).cur ∷ rings (s.priority d)))
  pub at_next : (s'.groups (s.priority d)).cur ≡ s.links.next d

-- `remove` of a thread that is on the ring of its priority takes it off and no other, keeps the rings
-- of all priorities, and sets `_curNodeInGroup` to the node behind it, also when it pointed to it.
pub remove-Removed :
    {s : Scheduler} {rings : ℕ → List ℕ} (d : ℕ)
    → IsReady s rings
    → has d ((s.groups (s.priority d)).cur ∷ rings (s.priority d)) ≡ true
    → d ≢ (s.groups (s.priority d)).header
    → Removed s (remove s d) rings d
unfolding remove
remove-Removed {s} {rings} d v i ne =
    let pt = s.priority d in
    let l = leave d (s.groups pt).header (v.lists.ring pt) i (v.lists.header_in pt) ne in
    let c = s.links.next d in
    let kept : (k : ℕ) → has k (c ∷ l.others) ≡ true → has k ((s.groups pt).cur ∷ rings pt) ≡ true =
      λ k j. kept_by d k _ (sym (l.members k) ∙ j) in
    let header_kept =
      l.members (s.groups pt).header
      ∙ header_stays d (s.groups pt).header _ (v.lists.header_in pt) ne in
    record {
      others = l.others;
      valid = record {
        lists = take-IsRings pt c l.others v.lists kept header_kept l.ring l.same;
        top = λ p k j away.
            v.top p k (was_there pt c l.others v.lists kept header_kept p k j)
              (λ e. away (e ∙ sym (header_of pt c l.others v.lists kept header_kept p)));
      };
      members = l.members;
      at_next = rw (==_refl pt) refl;
    }
