-- ===== src/RingList/Ring.antt =====
-- What the double ring list functions of include/list.h do to the ring of a header.
use power_pc_demo_os.Common.{
  ℕ, zero, suc, ◌<◌, ◌≡◌, ◌≢◌, ◌↔◌, refl, true, false, List, [], ◌∷◌, ◌++◌, arith, ◌==◌, has, erase,
  IsDistinct, has-append, has-erase, erase-IsDistinct, snoc-IsDistinct, length, Bool-cases, inl,
  inr, ==_iff, update,
}
use power_pc_demo_os.RingList.{
  Store, null, init_ring, add_header, add_tail, del_node, is_empty, walk,
}
use power_pc_demo_os.RingList.Links.{Links, Links-frame, prev-has, neighbours-has}

-- The nodes of the ring of `header`, in order: linked both ways, distinct, without the header.
pub record Ring (s : Store) (header : ℕ) (xs : List ℕ) : Type 0 where
  pub links : Links s header xs header
  pub outside : has header xs ≡ false
  pub distinct : IsDistinct xs

pub init_ring-Ring : (s : Store) (h : ℕ) → Ring (init_ring s h) h []
unfolding init_ring
init_ring-Ring s h = record { links = (ground arith, ground arith); outside = refl; distinct = tt }

add_header-Links :
    (s : Store) (h n : ℕ) (xs : List ℕ)
    → Links s h xs h
    → has h xs ≡ false
    → IsDistinct xs
    → n ≢ h
    → has n xs ≡ false
    → Links (add_header s h n) h (n ∷ xs) h
unfolding add_header
add_header-Links s h n [] l o d ne out = ground arith
add_header-Links s h n (x ∷ xs) l o d ne out = (
  ground arith,
  ground arith,
  (
    ground arith,
    ground arith,
    Links-frame s _ x xs h l.2 (ground arith) (λ p i. (ground arith, ground arith)) (ground arith),
  ),
)

-- `addNodeToRingDoubleListHeader` puts a new node in front.
pub add_header-Ring :
    {s : Store} {h : ℕ} {xs : List ℕ} (n : ℕ)
    → Ring s h xs
    → n ≢ h
    → has n xs ≡ false
    → Ring (add_header s h n) h (n ∷ xs)
add_header-Ring {s} {h} {xs} n r ne out = record {
  links = add_header-Links s h n xs r.links r.outside r.distinct ne out;
  outside = ground arith;
  distinct = (out, r.distinct);
}

-- Insertion before `b`, behind the node `l` that stands there.
insert-Links :
    (s t : Store) (a : ℕ) (xs : List ℕ) (b n : ℕ)
    → Links s a xs b
    → has a xs ≡ false
    → IsDistinct xs
    → has b xs ≡ false
    → n ≢ a
    → n ≢ b
    → has n xs ≡ false
    → ((p : ℕ) → t.next p ≡ update (update s.next n b) (s.prev b) n p)
    → ((p : ℕ) → t.prev p ≡ update (update s.prev n (s.prev b)) b n p)
    → Links t a (xs ++ n ∷ []) b
insert-Links s t a [] b n l oa d ob na nb on ht hp =
    (ground (arith, ht a), ground (arith, hp n), (ground (arith, ht n), ground (arith, hp b)))
insert-Links s t a (x ∷ xs) b n l oa d ob na nb on ht hp = (
  ground (arith, ht a, prev-has s x xs b l.2),
  ground (arith, hp x),
  insert-Links s t x xs b n l.2 d.0 d.1 (ground arith) (ground arith) nb (ground arith) ht hp,
)

-- `addNodeToRingDoubleListTail` puts a new node at the end.
pub add_tail-Ring :
    {s : Store} {h : ℕ} {xs : List ℕ} (n : ℕ)
    → Ring s h xs
    → n ≢ h
    → has n xs ≡ false
    → Ring (add_tail s h n) h (xs ++ n ∷ [])
unfolding add_tail
add_tail-Ring {s} {h} {xs} n r ne out = record {
  links =
      insert-Links s _ h xs h n r.links r.outside r.distinct r.outside ne ne out (λ p. ground arith)
        (λ p. ground arith);
  outside = ground (arith, has-append h xs (n ∷ []));
  distinct = snoc-IsDistinct n xs r.distinct out;
}

-- Pointer writes that take `d` out, as seen from the other nodes.
abbrev Unlinks : Store → Store → ℕ → Type 0
Unlinks s t d =
    (p : ℕ)
    → p ≢ d
    → (t.next p ≡ update s.next (s.prev d) (s.next d) p)
      × (t.prev p ≡ update s.prev (s.next d) (s.prev d) p)

unlink-Links :
    (s t : Store) (a d : ℕ) (ys : List ℕ) (b : ℕ)
    → Links s a (d ∷ ys) b
    → has a (d ∷ ys) ≡ false
    → IsDistinct (d ∷ ys)
    → has b (d ∷ ys) ≡ false
    → Unlinks s t d
    → Links t a ys b
unlink-Links s t a d [] b l oa dist ob u = (ground (arith, u a), ground (arith, u b))
unlink-Links s t a d (y ∷ ys) b l oa dist ob u = (
  ground (arith, u a),
  ground (arith, u y),
  Links-frame s t y ys b l.2.2 (ground (arith, u y)) (λ p i. ground (arith, u p))
      (ground (arith, u b)),
)

del-Links :
    (s t : Store) (a : ℕ) (xs : List ℕ) (b d : ℕ)
    → Links s a xs b
    → has a xs ≡ false
    → IsDistinct xs
    → has b xs ≡ false
    → has d xs ≡ true
    → Unlinks s t d
    → Links t a (erase d xs) b
del-Links s t a [] b d l oa dist ob i u = absurd (ground arith)
del-Links s t a (x ∷ xs) b d l oa dist ob i u = elim (Bool-cases (x == d)) [
  | inl e ↦
      rw e (unlink-Links s t a x xs b l oa dist ob (let e' : x ≡ d = (==_iff x d).0 e in rw e' u))
  | inr e ↦ rw e (
    ground (arith, u a, neighbours-has s x xs b d l.2),
    ground (arith, u x, neighbours-has s x xs b d l.2, has-append x xs (b ∷ [])),
    del-Links s t x xs b d l.2 dist.0 dist.1 (ground arith) (ground arith) u,
  )
]

-- `delNodeFromRingDoubleList` takes a node of the ring out, and keeps the order of the others.
pub del_node-Ring :
    {s : Store} {h : ℕ} {xs : List ℕ} (d : ℕ)
    → Ring s h xs
    → has d xs ≡ true
    → Ring (del_node s d) h (erase d xs)
unfolding del_node
del_node-Ring {s} {h} {xs} d r i = record {
  links =
      del-Links s _ h xs h d r.links r.outside r.distinct r.outside i
        (λ p ne. (ground arith, ground arith));
  outside = has-erase h d xs r.outside;
  distinct = erase-IsDistinct d xs r.distinct;
}

-- A node that leaves its ring has both pointers NULL, by which the heap and the semaphore tell
-- whether a node is on a list.
pub del_node-null :
    (s : Store) (d : ℕ) → ((del_node s d).next d ≡ null) × ((del_node s d).prev d ≡ null)
unfolding del_node
del_node-null s d = ground arith

-- `ringListIsEmpty` answers whether the ring has no node.
pub is_empty-Ring :
    {s : Store} {h : ℕ} (xs : List ℕ) → Ring s h xs → (is_empty s h ≡ true) ↔ (xs ≡ [])
unfolding is_empty
is_empty-Ring [] r = ground (arith, r.links)
is_empty-Ring (x ∷ xs) r = ground (arith, r.links, r.outside)

walk-Links :
    (fuel : ℕ) (s : Store) (h a : ℕ) (xs : List ℕ)
    → Links s a xs h
    → has h xs ≡ false
    → length xs < fuel
    → walk fuel s h (s.next a) ≡ xs
unfolding walk
walk-Links zero s h a xs l o f = absurd (omega arith)
walk-Links (suc fuel) s h a [] l o f = ground arith
walk-Links (suc fuel) s h a (x ∷ xs) l o f = ground (arith, walk-Links fuel s h x xs l.2)

-- `RingList_Foreach` ends, and visits the nodes of the ring in order, each once.
pub walk-Ring :
    {s : Store} {h : ℕ} {xs : List ℕ} (fuel : ℕ)
    → Ring s h xs
    → length xs < fuel
    → walk fuel s h (s.next h) ≡ xs
walk-Ring {s} {h} {xs} fuel r f = walk-Links fuel s h h xs r.links r.outside f
