-- ===== src/Interrupt/Tests.antt =====
-- The theorems on interrut.cpp at concrete tables.
use power_pc_demo_os.Common.{add_word, ◌+◌, ◌≡◌, refl, some, [], ◌∷◌, arith, update}
use power_pc_demo_os.Interrupt.{Table, disconnect, solve}
use power_pc_demo_os.Interrupt.Chain.{IsChain, disconnect-IsChain, solve-calls}

abbrev no_table : Table
no_table = record {
  next = λ n. 0;
  callback = λ n. 0;
  argument = λ n. 0;
  clear = λ n. 0;
  header = λ n. 0;
  flags = λ n. 1;
  intpt_counter = λ n. 0;
  callback_counter = λ n. 0;
}

-- Three descriptors on vector 5, at 16, 32 and 48, the newest first; the one at 32 has a clear function.
abbrev three : Table
three = record no_table {
  next = update (update no_table.next 48 32) 32 16;
  callback = λ n. n + 1000;
  argument = λ n. n + 1;
  clear = update no_table.clear 32 7;
  header = update no_table.header 5 48;
}

three-IsChain : IsChain three.next (three.header 5) (48 ∷ 32 ∷ 16 ∷ [])
three-IsChain = (
  refl,
  λ z. absurd (omega arith),
  (refl, λ z. absurd (omega arith), (refl, λ z. absurd (omega arith), refl)),
)

disconnect-IsChain_example :
    (t' : Table) × (disconnect 4 three 5 33 ≡ some (t', 32))
    × IsChain t'.next (t'.header 5) (48 ∷ 16 ∷ [])
    × (t'.flags 5 ≡ 0)
disconnect-IsChain_example =
    disconnect-IsChain 4 three 5 33 (48 ∷ 32 ∷ 16 ∷ []) three-IsChain (refl, (refl, (refl, tt)))
      (omega arith)

solve-calls_example :
    solve 4 three 5
    ≡ some (
      (1048, 49) ∷ (1032, 33) ∷ (7, 33) ∷ (1016, 17) ∷ [],
      record three {
        intpt_counter = update three.intpt_counter 5 (add_word (three.intpt_counter 5) 1);
        flags = update three.flags 5 1;
      },
    )
solve-calls_example = solve-calls 4 three 5 (48 ∷ 32 ∷ 16 ∷ []) three-IsChain (omega arith)
