-- ===== src/RingList/Rotate.antt =====
-- A ring seen from another of its nodes: in include/list.h the header of a list is a node like any
-- other, and the scheduler walks a ring from the node that it stopped at.
use power_pc_demo_os.Common.{
  ℕ, ◌≡◌, ◌∙◌, sym, ap, true, false, List, [], ◌∷◌, ◌++◌, arith, has, IsDistinct, has-append, ◌||◌,
  ◌==◌, Bool-cases, inl, inr, ==_iff, erase,
}
use power_pc_demo_os.RingList.{Store, del_node}
use power_pc_demo_os.RingList.Links.{Links}
use power_pc_demo_os.RingList.Ring.{Ring, del_node-Ring}

Links-split :
    (s : Store) (a : ℕ) (xs : List ℕ) (d : ℕ) (ys : List ℕ) (b : ℕ)
    → Links s a (xs ++ d ∷ ys) b
    → Links s a xs d × Links s d ys b
Links-split s a [] d ys b l = ((l.0, l.1), l.2)
Links-split s a (x ∷ xs) d ys b l =
    let rest = Links-split s x xs d ys b l.2 in ((l.0, l.1, rest.0), rest.1)

Links-join :
    (s : Store) (a : ℕ) (xs : List ℕ) (d : ℕ) (ys : List ℕ) (b : ℕ)
    → Links s a xs d
    → Links s d ys b
    → Links s a (xs ++ d ∷ ys) b
Links-join s a [] d ys b l r = (l.0, l.1, r)
Links-join s a (x ∷ xs) d ys b l r = (l.0, l.1, Links-join s x xs d ys b l.2 r)

-- Two lists with distinct elements that share none.
record IsParted (xs ys : List ℕ) : Type 0 where
  first : IsDistinct xs
  second : IsDistinct ys
  parted : (p : ℕ) → has p xs ≡ true → has p ys ≡ false

part : (xs ys : List ℕ) → IsDistinct (xs ++ ys) → IsParted xs ys
part [] ys d = record { first = tt; second = d; parted = λ p i. absurd (ground arith) }
part (x ∷ xs) ys d =
    let r = part xs ys d.1 in
    let out = sym (has-append x xs ys) ∙ d.0 in
    record {
      first = (ground arith, r.first);
      second = r.second;
      parted = λ p i. elim (Bool-cases (p == x)) [
        | inl same ↦ let e = (==_iff p x).0 same in rw e (ground arith)
        | inr other ↦ r.parted p (ground arith)
      ];
    }

unpart : (xs ys : List ℕ) → IsParted xs ys → IsDistinct (xs ++ ys)
unpart [] ys v = v.second
unpart (x ∷ xs) ys v =
    let at = v.parted x (ground arith) in
    let d = v.first in
    (
      has-append x xs ys ∙ (ground arith),
      unpart xs ys
          (record { first = d.1; second = v.second; parted = λ p i. v.parted p (ground arith) }),
    )

-- The ring of `h` is the ring of each of its nodes, which then stands for the header.
pub rotate-Ring :
    {s : Store} {h : ℕ} (xs : List ℕ) (d : ℕ) (ys : List ℕ)
    → Ring s h (xs ++ d ∷ ys)
    → Ring s d (ys ++ h ∷ xs)
rotate-Ring {s} {h} xs d ys r =
    let l = Links-split s h xs d ys h r.links in
    let v = part xs (d ∷ ys) r.distinct in
    let out = sym (has-append h xs (d ∷ ys)) ∙ r.outside in
    let tail = v.second in
    record {
      links = Links-join s d ys h xs d l.1 l.0;
      outside = has-append d ys (h ∷ xs) ∙ d_out v out;
      distinct = unpart ys (h ∷ xs) (record {
        first = tail.1;
        second = (ground arith, v.first);
        parted = λ p i. h_out v out p i;
      });
    }
  where
    not_both : (p : ℕ) → IsParted xs (d ∷ ys) → has p (d ∷ ys) ≡ true → has p xs ≡ false
    not_both p v i = elim (Bool-cases (has p xs)) [
      | inr o ↦ o
      | inl j ↦ let c = v.parted p j in absurd (ground arith)
    ]

    d_out :
        IsParted xs (d ∷ ys)
        → (has h xs || has h (d ∷ ys)) ≡ false
        → (has d ys || has d (h ∷ xs)) ≡ false
    d_out v out = let tail = v.second in let not_first = not_both d v (ground arith) in ground arith

    h_out :
        IsParted xs (d ∷ ys)
        → (has h xs || has h (d ∷ ys)) ≡ false
        → (p : ℕ) → has p ys ≡ true
        → has p (h ∷ xs) ≡ false
    h_out v out p i =
        let not_first = not_both p v (ground arith) in
        elim (Bool-cases (p == h)) [
          | inl same ↦ let e = (==_iff p h).0 same in absurd (ground (arith, rw e at i))
          | inr other ↦ ground arith
        ]

record Cut (d : ℕ) (xs : List ℕ) : Type 0 where
  before : List ℕ
  behind : List ℕ
  whole : xs ≡ before ++ d ∷ behind

cut : (d : ℕ) (xs : List ℕ) → has d xs ≡ true → Cut d xs
cut d [] i = absurd (ground arith)
cut d (x ∷ xs) i = elim (Bool-cases (d == x)) [
  | inl same ↦ record {
    before = [];
    behind = xs;
    whole = ap (λ y. y ∷ xs) (sym ((==_iff d x).0 same));
  }
  | inr other ↦
      let rest = cut d xs (ground arith) in
      record {
        before = x ∷ rest.before;
        behind = rest.behind;
        whole = ap (λ ys. x ∷ ys) rest.whole;
      }
]

pub has-turn :
    (k h d : ℕ) (xs ys : List ℕ) → has k (d ∷ (ys ++ h ∷ xs)) ≡ has k (h ∷ (xs ++ d ∷ ys))
has-turn k h d xs ys = ground (arith, has-append k ys (h ∷ xs), has-append k xs (d ∷ ys))

-- The ring as the node `d` sees it.
pub record Seen (s : Store) (h : ℕ) (xs : List ℕ) (d : ℕ) : Type 0 where
  pub others : List ℕ
  pub ring : Ring s d others
  pub members : (k : ℕ) → has k (d ∷ others) ≡ has k (h ∷ xs)

-- Each node of a ring sees the same nodes.
pub seen :
    {s : Store} {h : ℕ} {xs : List ℕ} (d : ℕ) → Ring s h xs → has d (h ∷ xs) ≡ true → Seen s h xs d
seen {s} {h} {xs} d r i = elim (Bool-cases (d == h)) [
  | inl same ↦
      let e : h ≡ d = sym ((==_iff d h).0 same) in
      record { others = xs; ring = rw e at r; members = λ k. ap (λ q. has k (q ∷ xs)) (sym e) }
  | inr other ↦
      let c = cut d xs (ground arith) in
      let r' : Ring s h (c.before ++ d ∷ c.behind) = rw (c.whole) at r in
      record {
        others = c.behind ++ h ∷ c.before;
        ring = rotate-Ring c.before d c.behind r';
        members = λ k. has-turn k h d c.before c.behind ∙ ap (λ ys. has k (h ∷ ys)) (sym c.whole);
      }
]

erase-last : (d : ℕ) (ys : List ℕ) → has d ys ≡ false → erase d (ys ++ d ∷ []) ≡ ys
erase-last d [] o = ground arith
erase-last d (y ∷ ys) o = ground (arith, erase-last d ys)

-- A node that sees a ring is taken out: the ring is the one that its next node sees, less the node.
pub del_node-behind :
    {s : Store} {d y : ℕ} {ys : List ℕ}
    → Ring s d (y ∷ ys)
    → Ring (del_node s d) y ys × (s.next d ≡ y)
del_node-behind {s} {d} {y} {ys} r =
    let turned = rotate-Ring [] y ys r in
    let out = r.outside in
    let gone = del_node-Ring d turned (has-append d ys (d ∷ []) ∙ (ground arith)) in
    let last = erase-last d ys (ground arith) in (rw last at gone, r.links.0)
