-- ===== src/Sync/Steps.antt =====
-- Each step of the threads on a mutex of kernel/src/ipc/mutex.cpp keeps the invariant of its owner.
use power_pc_demo_os.Common.{
  ℕ, suc, ◌-◌, ◌≡◌, ◌≢◌, ◌∙◌, inl, inr, refl, sym, ap, true, false, arith, ◌==◌, ==_refl, has,
  erase, update, pos, inc, dec, is_zero, is_zero-pos, is_zero-pos_not, inc-pos, dec-pos, Bool-cases,
  some,
}
use power_pc_demo_os.Sync.Permits.{
  lock-takes, lock-waits, trylock-takes, trylock-fails, waiting-IsFair, given-IsFair,
}
use power_pc_demo_os.Sync.Mutex.{Mutex, invalid, trylock_end, unlock_begin, unlock_end}
use power_pc_demo_os.Sync.Passes.{
  lock_begin-nested, lock_begin-took, lock_begin-blocked, trylock_begin-nested, trylock_begin-took,
  trylock_begin-blocked, lock_end-some, unlock_begin-inner, unlock_begin-last,
}
use power_pc_demo_os.Sync.Exclusion.{
  outside, entering, inside, leaving, System, Step, nest, take, wait, enter, try_nest, try_take,
  try_fail, try_enter, unnest, leave, give, Reach, start, later,
}
use power_pc_demo_os.Sync.Owner.{
  IsExclusive, deeper-IsExclusive, holder_inside, mid_owner, moved-IsExclusive, same-IsExclusive,
  start-IsExclusive, taken-IsExclusive,
}

-- The owner gives the permit back.
given-IsExclusive :
    {s : System} (t : ℕ)
    → IsExclusive s
    → s.phase t ≡ leaving
    → IsExclusive (record {
      mutex = (unlock_end s.mutex).1;
      owners = erase t s.owners;
      phase = update s.phase t outside;
    })
unfolding unlock_end
given-IsExclusive {s} t v at =
    let mid = mid_owner t v (inr at) in
    let in_it : has t s.owners ≡ true = rw mid.0.owner (ground arith) in
    record {
      fair = given-IsFair t v.fair in_it;
      shape = inl (record {
        nobody = rw mid.0.owner (rw (==_refl t) refl);
        all_outside = λ u. elim (Bool-cases (u == t)) [
          | inl same ↦ rw same refl
          | inr other ↦ rw other (mid.0.others u (ground arith))
        ];
        holder = mid.1;
        depth = mid.2;
      });
    }

-- The depth of a call that is not the first, and of a return that is not the last.
nested-IsExclusive :
    {s : System} (t : ℕ) {m : Mutex}
    → IsExclusive s
    → t ≢ invalid
    → s.mutex.holder ≡ t
    → m ≡ record s.mutex { depth = inc s.mutex.depth }
    → IsExclusive (record s { mutex = m })
nested-IsExclusive {s} t v ne named e =
    let h = holder_inside t v ne named in
    let deep = ap inc h.2.1 ∙ inc-pos (suc h.2.0) in
    deeper-IsExclusive t (suc h.2.0) v h.0 h.1 named
      (e ∙ ap (λ d. record s.mutex { depth = d }) deep)

inner-IsExclusive :
    {s : System} (t : ℕ) {m : Mutex}
    → IsExclusive s
    → t ≢ invalid
    → unlock_begin t s.mutex ≡ some (false, m)
    → IsExclusive (record s { mutex = m })
inner-IsExclusive {s} t {m} v ne e =
    let did = unlock_begin-inner t s.mutex e in
    let h = holder_inside t v ne (sym did.0) in
    let less = ap dec h.2.1 ∙ dec-pos h.2.0 in
    let more = is_zero-pos_not h.2.0 (sym (ap is_zero less) ∙ did.1) in
    let same : pos h.2.0 ≡ pos (suc (h.2.0 - 1)) = ap pos (omega arith) in
    deeper-IsExclusive t (h.2.0 - 1) v h.0 h.1 (sym did.0)
      (did.2 ∙ ap (λ d. record s.mutex { depth = d }) (less ∙ same))

last-IsExclusive :
    {s : System} (t : ℕ) {m : Mutex}
    → IsExclusive s
    → t ≢ invalid
    → unlock_begin t s.mutex ≡ some (true, m)
    → IsExclusive (record s { mutex = m; phase = update s.phase t leaving })
last-IsExclusive {s} t {m} v ne e =
    let did = unlock_begin-last t s.mutex e in
    let h = holder_inside t v ne (sym did.0) in
    let less = ap dec h.2.1 ∙ dec-pos h.2.0 in
    let zero_left = is_zero-pos h.2.0 (sym (ap is_zero less) ∙ did.1) in
    moved-IsExclusive t leaving v h.0 (ap (λ n. n.sem) did.2)
      (inl (inr refl, ap (λ n. n.holder) did.2, ap (λ n. n.depth) did.2 ∙ less ∙ ap pos zero_left))

entered-IsExclusive :
    {s : System} (t : ℕ) {m : Mutex}
    → IsExclusive s
    → s.phase t ≡ entering
    → m ≡ record s.mutex { holder = t; depth = inc s.mutex.depth }
    → IsExclusive (record s { mutex = m; phase = update s.phase t inside })
entered-IsExclusive {s} t {m} v at e =
    let mid = mid_owner t v (inl at) in
    let deep = ap (λ n. n.depth) e ∙ ap inc mid.2 ∙ inc-pos 0 in
    moved-IsExclusive t inside v mid.0 (ap (λ n. n.sem) e)
      (inr (refl, ap (λ n. n.holder) e, (0, deep)))

Step-IsExclusive : {s u : System} → Step s u → IsExclusive s → IsExclusive u
unfolding trylock_end
Step-IsExclusive {s} (nest t idle ne e) v =
    let did = lock_begin-nested t s.mutex e in nested-IsExclusive t v ne (sym did.0) did.1
Step-IsExclusive {s} (take t idle ne e) v =
    let did = lock_begin-took t s.mutex e in
    taken-IsExclusive t _ v ne (lock-takes t 1 _ s.mutex.sem v.fair.counts did.0) did.1
Step-IsExclusive {s} (wait t idle ne e) v =
    let did = lock_begin-blocked t s.mutex e in
    same-IsExclusive _ v
      (waiting-IsFair t _ v.fair (lock-waits t 1 _ s.mutex.sem v.fair.counts did.0)) did.1
Step-IsExclusive {s} (enter t at e) v = entered-IsExclusive t v at (lock_end-some t s.mutex e)
Step-IsExclusive {s} (try_nest t idle ne e) v =
    let did = trylock_begin-nested t s.mutex e in nested-IsExclusive t v ne did.0 did.1
Step-IsExclusive {s} (try_take t idle ne e) v =
    let did = trylock_begin-took t s.mutex e in
    taken-IsExclusive t _ v ne (trylock-takes 1 _ s.mutex.sem v.fair.counts did.0) did.1
Step-IsExclusive {s} (try_fail t idle ne e) v =
    let did = trylock_begin-blocked t s.mutex e in
    same-IsExclusive _ v (rw (trylock-fails s.mutex.sem did.0) v.fair) did.1
Step-IsExclusive {s} (try_enter t at) v = entered-IsExclusive t v at refl
Step-IsExclusive {s} (unnest t idle ne e) v = inner-IsExclusive t v ne e
Step-IsExclusive {s} (leave t idle ne e) v = last-IsExclusive t v ne e
Step-IsExclusive {s} (give t at) v = given-IsExclusive t v at

pub Reach-IsExclusive : {s : System} → Reach s → IsExclusive s
Reach-IsExclusive start = start-IsExclusive
Reach-IsExclusive (later r st) = Step-IsExclusive st (Reach-IsExclusive r)
