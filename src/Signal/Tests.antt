-- ===== src/Signal/Tests.antt =====
-- The theorems on signalstack.cpp at concrete stacks.
use power_pc_demo_os.Common.{ℕ, ◌≡◌, refl, false, true, some, none, arith, add_word}
use power_pc_demo_os.Signal.{
  SignalStack, enone, einval, Current, sigaltstack, is_on_stack, is_in_use,
}
use power_pc_demo_os.Signal.Stack.{sigaltstack-address, sigaltstack-in_use}

abbrev stack_at : ℕ → SignalStack
stack_at p = record { ss_sp = p; ss_flags = 1; ss_size = 8192 }

abbrev fresh : Current
fresh = record {
  context = 100000;
  stack = record { ss_sp = 0; ss_flags = 0; ss_size = 0 };
  errno = enone;
}

abbrev on_it : Current
on_it = record { context = 70000; stack = stack_at 65536; errno = enone }

on_at : is_on_stack (stack_at 65536) ≡ true
unfolding is_on_stack
on_at = refl

fresh_idle : is_in_use fresh ≡ false
unfolding is_in_use is_on_stack
fresh_idle = refl

on_it_used : is_in_use on_it ≡ true
unfolding is_in_use is_on_stack add_word
on_it_used = refl

sigaltstack-address_example :
    sigaltstack (some (stack_at 65536)) true fresh ≡ (einval, none, record fresh { errno = einval })
sigaltstack-address_example = sigaltstack-address (stack_at 65536) true fresh on_at (omega arith)

sigaltstack-in_use_example : (sigaltstack (some (stack_at 3)) true on_it).2.stack ≡ stack_at 65536
sigaltstack-in_use_example = sigaltstack-in_use (some (stack_at 3)) true on_it on_it_used
