-- ===== src/Signal.antt =====
-- kernel/src/ipc/signalstack.cpp: the alternate signal stack of a thread. A pointer is a word, `none`
-- is a NULL parameter, and the two parameters are different objects. `ss_flags` is its 32 bits.
pub mod Stack
mod Tests
use power_pc_demo_os.Common.{
  ℕ, Bool, true, false, not, Option, some, none, ◌==◌, ◌&&◌, ◌||◌, ltb, leb, if◌then◌else◌,
  align_down, add_word,
}
use Prim.Native.Nat.{bit_and}

pub record SignalStack : Type 0 where
  pub ss_sp : ℕ
  pub ss_flags : ℕ
  pub ss_size : ℕ

pub data SignalError : Type 0 where
  enone einval enomem eperm : SignalError

-- The current thread: its `_context`, the `_stack` of its signal context, and its error number.
pub record Current : Type 0 where
  pub context : ℕ
  pub stack : SignalStack
  pub errno : SignalError

-- `isAlligned`
unfoldable pub is_alligned : ℕ → ℕ → Bool
is_alligned arg align = align_down arg align == 0

-- `ss_flags & SS_ONSTACK`
unfoldable pub is_on_stack : SignalStack → Bool
is_on_stack s = not (bit_and s.ss_flags 1 == 0)

-- The error of a new stack, if it has one, with `MINSIGSTKSZ`.
unfoldable pub new_error : Option SignalStack → Option SignalError
new_error none = none
new_error (some s) =
    if is_on_stack s
    then if s.ss_sp == 0 || not (is_alligned s.ss_sp 4)
      then some einval
      else if ltb s.ss_size 4096
      then some enomem
      else none
    else none

-- Whether the thread runs on its signal stack.
unfoldable pub is_in_use : Current → Bool
is_in_use t =
    is_on_stack t.stack
    && (leb t.stack.ss_sp t.context && ltb t.context (add_word t.stack.ss_sp t.stack.ss_size))

-- The word that `alignDown` gives is not used: the size stays.
unfoldable pub install : Option SignalStack → Current → SignalError × Current
install none t = (enone, t)
install (some s) t =
    if is_in_use t then (einval, record t { errno = eperm }) else (enone, record t { stack = s })

-- What follows the tests of the new stack: the error that the result is the negative of, what
-- `*oldSignalStack` is given if it is, and the thread.
unfoldable pub answer :
    Option SignalError
    → Option SignalStack
    → Bool
    → Current
    → SignalError × Option SignalStack × Current
answer (some e) new_stack old_wanted t = (e, none, record t { errno = e })
answer none new_stack old_wanted t =
    let (e, t1) = install new_stack t in (e, if old_wanted then some t.stack else none, t1)

unfoldable pub sigaltstack :
    Option SignalStack → Bool → Current → SignalError × Option SignalStack × Current
sigaltstack new_stack old_wanted t = answer (new_error new_stack) new_stack old_wanted t
