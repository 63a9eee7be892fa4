-- ===== src/Scheduler/Turn.antt =====
-- A ready ring that `_curNodeInGroup` sees from another node (kernel/src/task/schedule.cpp).
use power_pc_demo_os.Common.{
  ℕ, ◌≡◌, ◌∙◌, refl, sym, ap, true, List, ◌∷◌, arith, ◌==◌, ==_iff, has, update, Bool-cases, inl,
  inr,
}
use power_pc_demo_os.RingList.{Store}
use power_pc_demo_os.RingList.Ring.{Ring}
use power_pc_demo_os.RingList.Frame.{SameOutside, Ring-frame}
use power_pc_demo_os.Scheduler.{Scheduler, Group, set_cur}
use power_pc_demo_os.Scheduler.Groups.{IsRings, IsReady}

-- The ring `pt` is seen from another node `c`, and may have lost nodes, but not its header.
module _ {links : Store} {groups : ℕ → Group} {priority : ℕ → ℕ} {rings : ℕ → List ℕ} (pt c : ℕ)
    (zs : List ℕ) (v : IsRings links groups priority rings)
    (kept : (k : ℕ) → has k (c ∷ zs) ≡ true → has k ((groups pt).cur ∷ rings pt) ≡ true)
    (header_kept : has (groups pt).header (c ∷ zs) ≡ true) where
  abbrev pub moved : ℕ → Group
  moved = update groups pt (record (groups pt) { cur = c })

  pub header_of : (p : ℕ) → (moved p).header ≡ (groups p).header
  header_of p = elim (Bool-cases (p == pt)) [
    | inl here ↦ rw here (ap (λ q. (groups q).header) (sym ((==_iff p pt).0 here)))
    | inr other ↦ rw other refl
  ]

  pub was_there :
      (p k : ℕ)
      → has k ((moved p).cur ∷ update rings pt zs p) ≡ true
      → has k ((groups p).cur ∷ rings p) ≡ true
  was_there p k i = elim (Bool-cases (p == pt)) [
    | inr other ↦
        let same : has k ((moved p).cur ∷ update rings pt zs p) ≡ has k ((groups p).cur ∷ rings p) =
          rw other refl in
        sym same ∙ i
    | inl here ↦
        let same : has k ((moved p).cur ∷ update rings pt zs p) ≡ has k (c ∷ zs) = rw here refl in
        ap (λ q. has k ((groups q).cur ∷ rings q)) ((==_iff p pt).0 here) ∙ kept k (sym same ∙ i)
  ]

  pub take-IsRings :
      {links' : Store}
      → Ring links' c zs
      → SameOutside ((groups pt).cur ∷ rings pt) links links'
      → IsRings links' moved priority (update rings pt zs)
  take-IsRings {links'} r same = record {
    ring = λ p. elim (Bool-cases (p == pt)) [
      | inl here ↦ rw here r
      | inr other ↦ rw other (
          Ring-frame ((groups pt).cur ∷ rings pt) (v.ring p)
            (λ k i. v.apart p pt (ground arith) k i) same)
    ];
    header_in =
        λ p. ap (λ q. has q ((moved p).cur ∷ update rings pt zs p)) (header_of p) ∙ header_at p;
    apart = λ p q away k i.
        let a = v.apart p q away k (was_there p k i) in
        elim (Bool-cases (has k ((moved q).cur ∷ update rings pt zs q))) [
          | inr out ↦ out
          | inl j ↦ let b = was_there q k j in absurd (cc)
        ];
    sorted = λ p k i away. v.sorted p k (was_there p k i) (λ e. away (e ∙ sym (header_of p)));
  }
    where
      header_at : (p : ℕ) → has (groups p).header ((moved p).cur ∷ update rings pt zs p) ≡ true
      header_at p = elim (Bool-cases (p == pt)) [
        | inl here ↦
            let e = (==_iff p pt).0 here in
            rw here (ap (λ q. has (groups q).header (c ∷ zs)) e ∙ header_kept)
        | inr other ↦ rw other (v.header_in p)
      ]

-- `_curNodeInGroup` goes to another node of its ring, and the links stay.
pub turn-IsReady :
    {s : Scheduler} {rings : ℕ → List ℕ} (pt c : ℕ) (zs : List ℕ)
    → IsReady s rings
    → Ring s.links c zs
    → ((k : ℕ) → has k (c ∷ zs) ≡ has k ((s.groups pt).cur ∷ rings pt))
    → IsReady (set_cur s pt c) (update rings pt zs)
turn-IsReady {s} {rings} pt c zs v r members =
    let kept : (k : ℕ) → has k (c ∷ zs) ≡ true → has k ((s.groups pt).cur ∷ rings pt) ≡ true =
      λ k i. sym (members k) ∙ i in
    let header_kept = members (s.groups pt).header ∙ v.lists.header_in pt in
    record {
      lists = take-IsRings pt c zs v.lists kept header_kept r (λ k o. (refl, refl));
      top = λ p k j away.
          v.top p k (was_there pt c zs v.lists kept header_kept p k j)
            (λ e. away (e ∙ sym (header_of pt c zs v.lists kept header_kept p)));
    }
