-- ===== src/Interrupt/Chain.antt =====
-- The functions of interrut.cpp on the chain of a vector as a list of descriptors.
use power_pc_demo_os.Common.{
  add_word, ℕ, zero, suc, ◌<◌, ◌≡◌, ◌≢◌, refl, sym, ap, ap₂, ◌∙◌, true, false, Option, some, List,
  [], ◌∷◌, ◌++◌, ◌==◌, ==_refl, if◌then◌else◌, bind_some, update, length, has, IsDistinct,
  Bool-cases, inl, inr, arith, subst,
}
use power_pc_demo_os.Interrupt.{
  Table, connected, connect, set_next, set_header, disconnect_loop, disconnect, solve_loop, solve,
}

-- The descriptors from `p` on are those of the list.
abbrev pub IsChain : (ℕ → ℕ) → ℕ → List ℕ → Type 0
IsChain next p [] = p ≡ 0
IsChain next p (x ∷ xs) = (p ≡ x) × (x ≢ 0) × IsChain next (next x) xs

-- A chain survives a write outside it.
IsChain-frame :
    (f g : ℕ → ℕ) (p : ℕ) (xs : List ℕ)
    → IsChain f p xs
    → ((q : ℕ) → has q xs ≡ true → g q ≡ f q)
    → IsChain g p xs
IsChain-frame f g p [] c same = c
IsChain-frame f g p (x ∷ xs) (e, nz, c) same = (
  e,
  nz,
  subst (λ q. IsChain g q xs) (sym (same x (ground arith)))
      (IsChain-frame f g (f x) xs c (λ q i. same q (ground arith))),
)

IsChain-cast :
    (f : ℕ → ℕ) (p q : ℕ) (xs ys : List ℕ) → p ≡ q → xs ≡ ys → IsChain f q ys → IsChain f p xs
IsChain-cast f p q xs ys e g c = subst (λ r. IsChain f r xs) (sym e) (subst (IsChain f q) (sym g) c)

-- The list without the first descriptor of the argument, and that descriptor, or NULL.
abbrev pub drop_first : (ℕ → ℕ) → ℕ → List ℕ → List ℕ
drop_first argument arg [] = []
drop_first argument arg (x ∷ xs) = if argument x == arg then xs else x ∷ drop_first argument arg xs

abbrev pub first_of : (ℕ → ℕ) → ℕ → List ℕ → ℕ
first_of argument arg [] = 0
first_of argument arg (x ∷ xs) = if argument x == arg then x else first_of argument arg xs

-- What connect writes once it has a descriptor.
abbrev entered : Table → ℕ → ℕ → ℕ → ℕ → ℕ → Table
entered t node vec routine arg clear_func = record t {
  callback = update t.callback node routine;
  argument = update t.argument node arg;
  clear = update t.clear node clear_func;
  callback_counter = update t.callback_counter vec (add_word (t.callback_counter vec) 1);
  next = update t.next node (t.header vec);
  header = update t.header vec node;
  flags = update t.flags vec 1;
}

connect-entered :
    (t : Table) (node vec routine arg clear_func : ℕ)
    → (node == 0) ≡ false
    → connect t node vec routine arg clear_func
      ≡ (connected, entered t node vec routine arg clear_func)
unfolding connect
connect-entered t node vec routine arg clear_func some_node = rw some_node refl

entered-IsChain :
    (t : Table) (node vec routine arg clear_func : ℕ) (xs : List ℕ)
    → IsChain t.next (t.header vec) xs
    → (node == 0) ≡ false
    → has node xs ≡ false
    → let t' = entered t node vec routine arg clear_func in
      IsChain t'.next (t'.header vec) (node ∷ xs) × (t'.argument node ≡ arg)
entered-IsChain t node vec routine arg clear_func xs c some_node out = (
  (
    rw (==_refl vec) refl,
    λ z. absurd (ground arith),
    IsChain-cast (update t.next node (t.header vec)) _ (t.header vec) xs xs (rw (==_refl node) refl)
        refl
        (IsChain-frame t.next (update t.next node (t.header vec)) (t.header vec) xs c
          (λ q i. other q (ground arith))),
  ),
  rw (==_refl node) refl,
)
  where
    other : (q : ℕ) → (q == node) ≡ false → update t.next node (t.header vec) q ≡ t.next q
    other q ne = rw ne refl

-- connect puts the descriptor that the heap gave in front of the chain.
pub connect-IsChain :
    (t : Table) (node vec routine arg clear_func : ℕ) (xs : List ℕ)
    → IsChain t.next (t.header vec) xs
    → node ≢ 0
    → has node xs ≡ false
    → (t' : Table) × (connect t node vec routine arg clear_func ≡ (connected, t'))
      × IsChain t'.next (t'.header vec) (node ∷ xs)
      × (t'.argument node ≡ arg)
connect-IsChain t node vec routine arg clear_func xs c nz out =
    let some_node : (node == 0) ≡ false = ground arith in
    let (chain, holds) = entered-IsChain t node vec routine arg clear_func xs c some_node out in
    (
      entered t node vec routine arg clear_func,
      connect-entered t node vec routine arg clear_func some_node,
      chain,
      holds,
    )

drop_first-hit :
    (a : ℕ → ℕ) (arg x : ℕ) (xs : List ℕ)
    → (a x == arg) ≡ true
    → (drop_first a arg (x ∷ xs) ≡ xs) × (first_of a arg (x ∷ xs) ≡ x)
drop_first-hit a arg x xs hit = (rw hit refl, rw hit refl)

drop_first-miss :
    (a : ℕ → ℕ) (arg x : ℕ) (xs : List ℕ)
    → (a x == arg) ≡ false
    → (drop_first a arg (x ∷ xs) ≡ x ∷ drop_first a arg xs)
      × (first_of a arg (x ∷ xs) ≡ first_of a arg xs)
drop_first-miss a arg x xs miss = (rw miss refl, rw miss refl)

-- Where the descriptor found is cut out: at the header, or behind the one before it.
abbrev cut_out : Table → ℕ → ℕ → ℕ → Table
cut_out t vec pp p = if pp == 0 then set_header t vec (t.next p) else set_next t pp (t.next p)

round_hit :
    (fuel : ℕ) (t : Table) (vec arg pp x : ℕ)
    → x ≢ 0
    → (t.argument x == arg) ≡ true
    → disconnect_loop (suc fuel) t vec arg pp x ≡ some (cut_out t vec pp x, x)
unfolding disconnect_loop
round_hit fuel t vec arg pp x nz hit =
    let more : (x == 0) ≡ false = ground arith in rw (more, hit) refl

round_miss :
    (fuel : ℕ) (t : Table) (vec arg pp x : ℕ)
    → x ≢ 0
    → (t.argument x == arg) ≡ false
    → disconnect_loop (suc fuel) t vec arg pp x ≡ disconnect_loop fuel t vec arg x (t.next x)
unfolding disconnect_loop
round_miss fuel t vec arg pp x nz miss =
    let more : (x == 0) ≡ false = ground arith in rw (more, miss) refl

round_end :
    (fuel : ℕ) (t : Table) (vec arg pp x : ℕ)
    → x ≡ 0
    → disconnect_loop (suc fuel) t vec arg pp x ≡ some (t, 0)
unfolding disconnect_loop
round_end fuel t vec arg pp x z = let end : (x == 0) ≡ true = ground arith in rw end refl

-- The loop behind a descriptor `pp` that keeps its place.
abbrev Behind : Table → ℕ → ℕ → List ℕ → Option (Table × ℕ) → Type 0
Behind t arg pp xs r =
    (t' : Table) × (r ≡ some (t', first_of t.argument arg xs))
    × IsChain t'.next (t'.next pp) (drop_first t.argument arg xs)
    × ((q : ℕ) → (q == pp) ≡ false → has q xs ≡ false → t'.next q ≡ t.next q)
    × (t'.header ≡ t.header)
    × (t'.flags ≡ t.flags)

disconnect_loop-Behind :
    (fuel : ℕ) (t : Table) (vec arg pp : ℕ) (xs : List ℕ)
    → pp ≢ 0
    → IsChain t.next (t.next pp) xs
    → has pp xs ≡ false
    → IsDistinct xs
    → length xs < fuel
    → Behind t arg pp xs (disconnect_loop fuel t vec arg pp (t.next pp))
disconnect_loop-Behind zero t vec arg pp xs nz c o d f = absurd (omega arith)
disconnect_loop-Behind (suc fuel) t vec arg pp [] nz c o d f =
    (t, round_end fuel t vec arg pp (t.next pp) c, c, λ q ne i. refl, refl, refl)
disconnect_loop-Behind (suc fuel) t vec arg pp (x ∷ xs) nz (e, xz, c) o (out, d) f =
    let start = ap (disconnect_loop (suc fuel) t vec arg pp) e in
    let apart : (pp == x) ≡ false = ground arith in
    elim (Bool-cases (t.argument x == arg)) [
      | inl hit ↦
          let (dropped, found) = drop_first-hit t.argument arg x xs hit in
          let t' = set_next t pp (t.next x) in
          let cut : cut_out t vec pp x ≡ t' =
            let placed : (pp == 0) ≡ false = ground arith in rw placed refl in
          (
            t',
            start ∙ round_hit fuel t vec arg pp x xz hit ∙ ap₂ (λ u v. some (u, v)) cut (sym found),
            IsChain-cast t'.next (t'.next pp) (t.next x) (drop_first t.argument arg (x ∷ xs)) xs
                (rw (==_refl pp) refl) dropped
                (IsChain-frame t.next t'.next (t.next x) xs c
                  (λ q i. spared (t.next x) q (ground arith))),
            λ q ne i. spared (t.next x) q ne,
            refl,
            refl,
          )
      | inr miss ↦
          let (dropped, found) = drop_first-miss t.argument arg x xs miss in
          let (t', r, chain, same, headers, flags) =
            disconnect_loop-Behind fuel t vec arg x xs xz c out d (omega arith) in
          let back = same pp apart (ground arith) ∙ e in
          (
            t',
            start ∙ round_miss fuel t vec arg pp x xz miss ∙ r ∙ ap (λ v. some (t', v)) (sym found),
            IsChain-cast t'.next (t'.next pp) x (drop_first t.argument arg (x ∷ xs))
                (x ∷ drop_first t.argument arg xs) back dropped (refl, xz, chain),
            λ q ne i. same q (ground arith) (ground arith),
            headers,
            flags,
          )
    ]
  where
    spared : (v q : ℕ) → (q == pp) ≡ false → update t.next pp v q ≡ t.next q
    spared v q ne = rw ne refl

-- disconnect takes the first descriptor of the argument out of the chain of its vector and gives it, or
-- NULL and the same chain when there is none, with fuel above the length of the chain, and leaves the
-- flags of the vector 0.
pub disconnect-IsChain :
    (fuel : ℕ) (t : Table) (vec arg : ℕ) (xs : List ℕ)
    → IsChain t.next (t.header vec) xs
    → IsDistinct xs
    → length xs < fuel
    → (t' : Table) × (disconnect fuel t vec arg ≡ some (t', first_of t.argument arg xs))
      × IsChain t'.next (t'.header vec) (drop_first t.argument arg xs)
      × (t'.flags vec ≡ 0)
unfolding disconnect
disconnect-IsChain zero t vec arg xs c d f = absurd (omega arith)
disconnect-IsChain (suc fuel) t vec arg [] c d f =
    let t1 = record t { flags = update t.flags vec 0 } in
    (t1, round_end fuel t1 vec arg 0 (t.header vec) c, c, rw (==_refl vec) refl)
disconnect-IsChain (suc fuel) t vec arg (x ∷ xs) (e, xz, c) (out, d) f =
    let t1 = record t { flags = update t.flags vec 0 } in
    let start = ap (disconnect_loop (suc fuel) t1 vec arg 0) e in
    elim (Bool-cases (t.argument x == arg)) [
      | inl hit ↦
          let (dropped, found) = drop_first-hit t.argument arg x xs hit in
          (
            set_header t1 vec (t.next x),
            start
                ∙ round_hit fuel t1 vec arg 0 x xz hit
                ∙ ap (λ v. some (set_header t1 vec (t.next x), v)) (sym found),
            IsChain-cast t.next _ (t.next x) _ xs (rw (==_refl vec) refl) dropped c,
            rw (==_refl vec) refl,
          )
      | inr miss ↦
          let (dropped, found) = drop_first-miss t.argument arg x xs miss in
          let (t', r, chain, same, headers, flags) =
            disconnect_loop-Behind fuel t1 vec arg x xs xz c out d (omega arith) in
          (
            t',
            start ∙ round_miss fuel t1 vec arg 0 x xz miss ∙ r ∙ ap (λ v. some (t', v)) (sym found),
            IsChain-cast t'.next (t'.header vec) x _ (x ∷ drop_first t.argument arg xs)
                (ap (λ h. h vec) headers ∙ e) dropped (refl, xz, chain),
            ap (λ h. h vec) flags ∙ rw (==_refl vec) refl,
          )
    ]

-- The calls of a chain.
abbrev pub calls_of : Table → List ℕ → List (ℕ × ℕ)
calls_of t [] = []
calls_of t (x ∷ xs) =
    (t.callback x, t.argument x)
    ∷ ((if t.clear x == 0 then [] else (t.clear x, t.argument x) ∷ []) ++ calls_of t xs)

solve_loop-calls :
    (fuel : ℕ) (t : Table) (p : ℕ) (xs : List ℕ)
    → IsChain t.next p xs
    → length xs < fuel
    → solve_loop fuel t p ≡ some (calls_of t xs)
unfolding solve_loop
solve_loop-calls zero t p xs c f = absurd (omega arith)
solve_loop-calls (suc fuel) t p [] c f = let end : (p == 0) ≡ true = ground arith in rw end refl
solve_loop-calls (suc fuel) t p (x ∷ xs) (e, nz, c) f =
    let more : (x == 0) ≡ false = ground arith in
    let later = solve_loop-calls fuel t (t.next x) xs c (omega arith) in
    ap (solve_loop (suc fuel) t) e ∙ rw (more, later) refl

-- An interrupt calls the callback of each descriptor of the chain of its vector with its argument, in
-- order, each followed by its clear function when it has one, adds 1 modulo 2 ^ 32 to the counter of its
-- interrupts, sets its flags to 1, and changes nothing else, with fuel above the length of the chain.
pub solve-calls :
    (fuel : ℕ) (t : Table) (vec : ℕ) (xs : List ℕ)
    → IsChain t.next (t.header vec) xs
    → length xs < fuel
    → solve fuel t vec
      ≡ some (
        calls_of t xs,
        record t {
          intpt_counter = update t.intpt_counter vec (add_word (t.intpt_counter vec) 1);
          flags = update t.flags vec 1;
        },
      )
unfolding solve
solve-calls fuel t vec xs c f = bind_some _ (solve_loop-calls fuel t (t.header vec) xs c f)
