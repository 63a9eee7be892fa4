-- ===== src/RingList/Single.antt =====
-- The single ring list functions of include/list.h.
use power_pc_demo_os.Common.{ℕ, ◌≡◌, ◌≢◌, refl, true, false, List, [], ◌∷◌, arith, has, IsDistinct}
use power_pc_demo_os.RingList.{SingleStore, init_single, add_single_header, del_single_header}

abbrev pub SingleLinks : SingleStore → ℕ → List ℕ → ℕ → Type 0
SingleLinks s a [] b = s a ≡ b
SingleLinks s a (x ∷ xs) b = (s a ≡ x) × SingleLinks s x xs b

-- The nodes of the single ring of `header`, in order.
pub record SingleRing (s : SingleStore) (header : ℕ) (xs : List ℕ) : Type 0 where
  pub links : SingleLinks s header xs header
  pub outside : has header xs ≡ false
  pub distinct : IsDistinct xs

-- The chain behind `c` can start at `a` in another store that has the same pointers from there on.
SingleLinks-frame :
    (s t : SingleStore) (c a : ℕ) (xs : List ℕ) (b : ℕ)
    → SingleLinks s c xs b
    → t a ≡ s c
    → ((p : ℕ) → has p xs ≡ true → t p ≡ s p)
    → SingleLinks t a xs b
SingleLinks-frame s t c a [] b l e same = ground arith
SingleLinks-frame s t c a (x ∷ xs) b l e same = (
  ground arith,
  SingleLinks-frame s t x x xs b l.1 (same x (ground arith)) (λ p i. same p (ground arith)),
)

pub init_single-SingleRing : (s : SingleStore) (h : ℕ) → SingleRing (init_single s h) h []
unfolding init_single
init_single-SingleRing s h = record { links = ground arith; outside = refl; distinct = tt }

-- `addNodeToRingSingleListHeader` puts a new node in front.
pub add_single_header-SingleRing :
    {s : SingleStore} {h : ℕ} {xs : List ℕ} (n : ℕ)
    → SingleRing s h xs
    → n ≢ h
    → has n xs ≡ false
    → SingleRing (add_single_header s h n) h (n ∷ xs)
unfolding add_single_header
add_single_header-SingleRing {s} {h} {xs} n r ne out = record {
  links =
      (ground arith, SingleLinks-frame s _ h n xs h r.links (ground arith) (λ p i. ground arith));
  outside = ground arith;
  distinct = (out, r.distinct);
}

-- `delNodeFromRingSingleListHeader` takes the first node off.
pub del_single_header-SingleRing :
    {s : SingleStore} {h x : ℕ} {xs : List ℕ}
    → SingleRing s h (x ∷ xs)
    → ((del_single_header s h).0 ≡ x) × SingleRing (del_single_header s h).1 h xs
unfolding del_single_header
del_single_header-SingleRing {s} {h} {x} {xs} r = (
  r.links.0,
  record {
    links =
        SingleLinks-frame s _ x h xs h r.links.1 (ground (arith, r.links))
          (λ p i. ground (arith, r.outside));
    outside = ground (arith, r.outside);
    distinct = r.distinct.1;
  },
)

-- On an empty ring it hands out the header itself, so a caller has to test first.
pub del_single_header-empty :
    {s : SingleStore} {h : ℕ}
    → SingleRing s h []
    → ((del_single_header s h).0 ≡ h) × SingleRing (del_single_header s h).1 h []
unfolding del_single_header
del_single_header-empty {s} {h} r =
    (r.links, record { links = ground (arith, r.links); outside = refl; distinct = tt })
