-- ===== src/Signal/Stack.antt =====
-- The stacks that `sigaltstack` takes.
use power_pc_demo_os.Common.{
  ℕ, ◌<◌, ◌≡◌, refl, ◌∙◌, Bool, true, false, not, Option, some, none, arith, ◌==◌, ◌||◌, ltb, leb,
  if◌then◌else◌, word_size, align_down_four, ap, Bool-cases, inl, inr,
}
use power_pc_demo_os.Signal.{
  SignalStack, SignalError, enone, einval, enomem, eperm, Current, is_alligned, is_on_stack,
  new_error, is_in_use, install, answer, sigaltstack,
}

-- `isAlligned` looks at the high bits: it answers yes for the numbers below the alignment.
pub is_alligned-four : (a : ℕ) → a < word_size → is_alligned a 4 ≡ ltb a 4
unfolding is_alligned
is_alligned-four a h = rw (align_down_four a h) (ground arith)

-- The error of a stack with SS_ONSTACK: of an address that is NULL or at 4 or above, whatever its size.
new_error-on :
    (s : SignalStack)
    → is_on_stack s ≡ true
    → s.ss_sp < word_size
    → new_error (some s) ≡ (
        if s.ss_sp == 0 || leb 4 s.ss_sp
        then some einval
        else if ltb s.ss_size 4096
        then some enomem
        else none)
unfolding new_error
new_error-on s on h =
    let far : (s.ss_sp == 0 || not (ltb s.ss_sp 4)) ≡ (s.ss_sp == 0 || leb 4 s.ss_sp) =
      ground arith in
    rw (on, is_alligned-four s.ss_sp h, far) refl

sigaltstack-refused :
    (n : Option SignalStack) (old_wanted : Bool) (t : Current) (e : SignalError)
    → new_error n ≡ some e
    → sigaltstack n old_wanted t ≡ (e, none, record t { errno = e })
unfolding sigaltstack answer
sigaltstack-refused n old_wanted t e r = rw r refl

sigaltstack-install :
    (n : Option SignalStack) (old_wanted : Bool) (t : Current)
    → new_error n ≡ none
    → sigaltstack n old_wanted t
      ≡ ((install n t).0, if old_wanted then some t.stack else none, (install n t).1)
unfolding sigaltstack answer
sigaltstack-install n old_wanted t r = rw r refl

install-idle :
    (s : SignalStack) (t : Current)
    → is_in_use t ≡ false
    → install (some s) t ≡ (enone, record t { stack = s })
unfolding install
install-idle s t idle = rw idle refl

install-used :
    (s : SignalStack) (t : Current)
    → is_in_use t ≡ true
    → install (some s) t ≡ (einval, record t { errno = eperm })
unfolding install
install-used s t used = rw used refl

-- What sigaltstack makes of a stack with SS_ONSTACK: every one at NULL or at 4 or above it refuses with
-- EINVAL, those at a multiple of 4 included, whatever their size; of those at 1, 2 and 3 it refuses one
-- below 4096 bytes with ENOMEM; each time it changes the error number only, and does not give the old
-- stack. Any other it installs as it is, unless the thread runs on its stack: then the result is EINVAL,
-- the error number EPERM and the stack the old one.
pub sigaltstack-address :
    (s : SignalStack) (old_wanted : Bool) (t : Current)
    → is_on_stack s ≡ true
    → s.ss_sp < word_size
    → let old = if old_wanted then some t.stack else none in
      sigaltstack (some s) old_wanted t ≡ (
        if s.ss_sp == 0 || leb 4 s.ss_sp
        then (einval, none, record t { errno = einval })
        else if ltb s.ss_size 4096
        then (enomem, none, record t { errno = enomem })
        else if is_in_use t
        then (einval, old, record t { errno = eperm })
        else (enone, old, record t { stack = s }))
sigaltstack-address s old_wanted t on h =
    let e = new_error-on s on h in
    elim (Bool-cases (s.ss_sp == 0 || leb 4 s.ss_sp)) [
      | inl high ↦ rw high (sigaltstack-refused (some s) old_wanted t einval (rw high at e))
      | inr low ↦ elim (Bool-cases (ltb s.ss_size 4096)) [
        | inl short ↦
            rw (low, short)
              (sigaltstack-refused (some s) old_wanted t enomem (rw (low, short) at e))
        | inr room ↦
            let at = sigaltstack-install (some s) old_wanted t (rw (low, room) at e) in
            let old = if old_wanted then some t.stack else none in
            elim (Bool-cases (is_in_use t)) [
              | inl used ↦
                  rw (low, room, used) (at ∙ ap (λ r. (r.0, old, r.1)) (install-used s t used))
              | inr idle ↦
                  rw (low, room, idle) (at ∙ ap (λ r. (r.0, old, r.1)) (install-idle s t idle))
            ]
      ]
    ]

install-in_use :
    (n : Option SignalStack) (t : Current) → is_in_use t ≡ true → (install n t).1.stack ≡ t.stack
unfolding install
install-in_use none t used = refl
install-in_use (some s) t used = rw used refl

-- While the thread runs on its signal stack, sigaltstack leaves it that stack, whatever it is asked.
pub sigaltstack-in_use :
    (n : Option SignalStack) (old_wanted : Bool) (t : Current)
    → is_in_use t ≡ true
    → (sigaltstack n old_wanted t).2.stack ≡ t.stack
unfolding sigaltstack answer
sigaltstack-in_use n old_wanted t used = kept (new_error n)
  where
    kept : (r : Option SignalError) → (answer r n old_wanted t).2.stack ≡ t.stack
    kept none = install-in_use n t used
    kept (some e) = refl
