-- ===== src/Sync/Owner.antt =====
-- The invariant of the mutex of kernel/src/ipc/mutex.cpp: who owns it, and what its fields then hold.
use power_pc_demo_os.Common.{
  ℕ, suc, ◌+◌, ◌<◌, ◌≡◌, ◌≢◌, ◌∙◌, ◌⊎◌, inl, inr, refl, sym, ap, [], ◌∷◌, arith, ◌==◌, ==_iff,
  ==_refl, length, update, pos, minus, Bool-cases,
}
use power_pc_demo_os.Sync.Semaphore.{Semaphore}
use power_pc_demo_os.Sync.Permits.{IsFair, start-IsFair, taken-IsFair}
use power_pc_demo_os.Sync.Mutex.{Mutex, invalid, init}
use power_pc_demo_os.Sync.Exclusion.{Phase, outside, entering, inside, leaving, System}

-- The mutex is free: its fields are those of `init`, and every thread stands outside.
pub record IsFree (s : System) : Type 0 where
  pub nobody : s.owners ≡ []
  pub all_outside : (t : ℕ) → s.phase t ≡ outside
  pub holder : s.mutex.holder ≡ invalid
  pub depth : s.mutex.depth ≡ pos 0

-- `o` alone has it; `_holder` names it exactly while it is inside, with the depth of its calls.
pub record IsOwned (s : System) (o : ℕ) : Type 0 where
  pub owner : s.owners ≡ o ∷ []
  pub named : o ≢ invalid
  pub others : (t : ℕ) → t ≢ o → s.phase t ≡ outside
  pub spot :
      (((s.phase o ≡ entering) ⊎ (s.phase o ≡ leaving))
        × (s.mutex.holder ≡ invalid)
        × (s.mutex.depth ≡ pos 0))
      ⊎ ((s.phase o ≡ inside) × (s.mutex.holder ≡ o) × ((k : ℕ) × (s.mutex.depth ≡ pos (suc k))))

pub record IsExclusive (s : System) : Type 0 where
  pub fair : IsFair 1 (record { sem = s.mutex.sem; holders = s.owners })
  pub shape : IsFree s ⊎ ((o : ℕ) × IsOwned s o)

pub start-IsExclusive : IsExclusive (record { mutex = init; owners = []; phase = λ _. outside })
unfolding init
start-IsExclusive = record {
  fair = start-IsFair 1;
  shape = inl (record { nobody = refl; all_outside = λ t. refl; holder = refl; depth = refl });
}

-- A thread that stands between calls and is named by `_holder` is the owner, and inside.
pub holder_inside :
    {s : System} (t : ℕ)
    → IsExclusive s
    → t ≢ invalid
    → s.mutex.holder ≡ t
    → IsOwned s t × (s.phase t ≡ inside) × ((k : ℕ) × (s.mutex.depth ≡ pos (suc k)))
holder_inside {s} t v ne e = elim v.shape [
  | inl free ↦ absurd (ne (sym e ∙ free.holder))
  | inr owned ↦ elim owned.1.spot [
    | inl mid ↦ absurd (ne (sym e ∙ mid.1))
    | inr at ↦
        let same : owned.0 ≡ t = sym at.1 ∙ e in
        let own : IsOwned s t = rw same at owned.1 in (own, rw same at at.0, at.2)
  ]
]

-- Only the depth of the owner changes.
pub deeper-IsExclusive :
    {s : System} (t k : ℕ) {m : Mutex}
    → IsExclusive s
    → IsOwned s t
    → s.phase t ≡ inside
    → s.mutex.holder ≡ t
    → m ≡ record s.mutex { depth = pos (suc k) }
    → IsExclusive (record s { mutex = m })
deeper-IsExclusive {s} t k v own at named e = rw e (record {
  fair = v.fair;
  shape = inr (
    t,
    record {
      owner = own.owner;
      named = own.named;
      others = own.others;
      spot = inr (at, named, (k, refl));
    },
  );
})

-- Only the semaphore changes.
pub same-IsExclusive :
    {s : System} {m : Mutex} (r : Semaphore)
    → IsExclusive s
    → IsFair 1 (record { sem = r; holders = s.owners })
    → m ≡ record s.mutex { sem = r }
    → IsExclusive (record s { mutex = m })
same-IsExclusive {s} r v fair e = rw e (record {
  fair = fair;
  shape = elim v.shape [
    | inl f ↦ inl (record {
      nobody = f.nobody;
      all_outside = f.all_outside;
      holder = f.holder;
      depth = f.depth;
    })
    | inr p ↦
        inr (
          p.0,
          record { owner = p.1.owner; named = p.1.named; others = p.1.others; spot = p.1.spot },
        )
  ];
})

-- A thread that got the permit of the semaphore: nobody had it.
pub taken-IsExclusive :
    {s : System} (t : ℕ) {m : Mutex} (r : Semaphore)
    → IsExclusive s
    → t ≢ invalid
    → let b = length s.owners + length s.mutex.sem.waiters in
      (b < 1) × (r ≡ record { val = minus 1 (suc b); waiters = s.mutex.sem.waiters })
      → m ≡ record s.mutex { sem = r }
      → IsExclusive (record { mutex = m; owners = t ∷ s.owners; phase = update s.phase t entering })
taken-IsExclusive {s} t r v ne got e = rw e (record {
  fair = taken-IsFair t r v.fair got;
  shape = elim v.shape [
    | inl f ↦ inr (
      t,
      record {
        owner = ap (λ os. t ∷ os) f.nobody;
        named = ne;
        others = λ u away. let out = f.all_outside u in ground arith;
        spot = inl (inl (ground arith), f.holder, f.depth);
      },
    )
    | inr p ↦
        let one : length s.owners ≡ 1 = ap length p.1.owner ∙ (omega arith) in
        absurd (omega (arith, got.0))
  ];
})

-- The owner goes on to another phase.
pub moved-IsExclusive :
    {s : System} (t : ℕ) (p : Phase) {m : Mutex}
    → IsExclusive s
    → IsOwned s t
    → m.sem ≡ s.mutex.sem
    → (((p ≡ entering) ⊎ (p ≡ leaving)) × (m.holder ≡ invalid) × (m.depth ≡ pos 0))
      ⊎ ((p ≡ inside) × (m.holder ≡ t) × ((k : ℕ) × (m.depth ≡ pos (suc k))))
    → IsExclusive (record s { mutex = m; phase = update s.phase t p })
moved-IsExclusive {s} t p v own sem spot = record {
  fair = rw sem v.fair;
  shape = inr (
    t,
    record {
      owner = own.owner;
      named = own.named;
      others = λ u away. let out = own.others u away in ground arith;
      spot = rw (==_refl t) spot;
    },
  );
}

-- A thread in the middle of a call is the owner.
pub mid_owner :
    {s : System} (t : ℕ)
    → IsExclusive s
    → (s.phase t ≡ entering) ⊎ (s.phase t ≡ leaving)
    → IsOwned s t × (s.mutex.holder ≡ invalid) × (s.mutex.depth ≡ pos 0)
mid_owner {s} t v at = elim v.shape [
  | inl f ↦ let out = f.all_outside t in absurd (ground arith)
  | inr p ↦ elim (Bool-cases (t == p.0)) [
    | inr other ↦ let out = p.1.others t (ground arith) in absurd (ground arith)
    | inl is ↦
        let same : p.0 ≡ t = sym ((==_iff t p.0).0 is) in
        let own : IsOwned s t = rw same at p.1 in
        elim own.spot [
          | inl mid ↦ (own, mid.1, mid.2)
          | inr in_it ↦ absurd (ground (arith, in_it.0))
        ]
  ]
]
