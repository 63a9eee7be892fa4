-- ===== src/Interrupt.antt =====
-- kernel/src/interrut.cpp: the chains of callbacks of the external interrupts. A descriptor is an
-- address, NULL is 0, and each table entry is the number of its vector. The heap is outside: connect
-- takes what it returned, and disconnect gives what it is to free. The spinlock is held throughout.
pub mod Chain
mod Tests
use power_pc_demo_os.Common.{
  add_word, ℕ, zero, suc, ◌+◌, Bool, Option, none, some, List, [], ◌∷◌, ◌++◌, ◌==◌, if◌then◌else◌,
  ◌>>=◌, update,
}

-- The fields of all descriptors and of all entries of `exterIntptSrcTable`.
pub record Table : Type 0 where
  pub next : ℕ → ℕ
  pub callback : ℕ → ℕ
  pub argument : ℕ → ℕ
  pub clear : ℕ → ℕ
  pub header : ℕ → ℕ
  pub flags : ℕ → ℕ
  pub intpt_counter : ℕ → ℕ
  pub callback_counter : ℕ → ℕ

pub data ConnectError : Type 0 where
  connected no_memory : ConnectError

unfoldable pub connect : Table → ℕ → ℕ → ℕ → ℕ → ℕ → ConnectError × Table
connect t node vec routine arg clear_func =
    let t1 = record t {
      callback = update t.callback node routine;
      argument = update t.argument node arg;
      clear = update t.clear node clear_func;
      callback_counter = update t.callback_counter vec (add_word (t.callback_counter vec) 1);
      next = update t.next node (t.header vec);
      header = update t.header vec node;
      flags = update t.flags vec 1;
    } in
    if node == 0 then (no_memory, t) else (connected, t1)

abbrev pub set_next : Table → ℕ → ℕ → Table
set_next t p q = record t { next = update t.next p q }

abbrev pub set_header : Table → ℕ → ℕ → Table
set_header t vec p = record t { header = update t.header vec p }

-- `for(; p; pp = p, p = p->next)`: the table and the descriptor found, or NULL.
unfoldable pub disconnect_loop : ℕ → Table → ℕ → ℕ → ℕ → ℕ → Option (Table × ℕ)
disconnect_loop zero t vec arg pp p = none
disconnect_loop (suc fuel) t vec arg pp p =
    let rest = disconnect_loop fuel t vec arg p (t.next p) in
    let unlinked = if pp == 0 then set_header t vec (t.next p) else set_next t pp (t.next p) in
    if p == 0 then some (t, 0) else if t.argument p == arg then some (unlinked, p) else rest

unfoldable pub disconnect : ℕ → Table → ℕ → ℕ → Option (Table × ℕ)
disconnect fuel t vec arg =
    let t1 = record t { flags = update t.flags vec 0 } in
    disconnect_loop fuel t1 vec arg 0 (t1.header vec)

-- The calls of one interrupt, as pairs of a function and its argument, in order.
unfoldable pub solve_loop : ℕ → Table → ℕ → Option (List (ℕ × ℕ))
solve_loop zero t p = none
solve_loop (suc fuel) t p =
    let rest = solve_loop fuel t (t.next p) in
    let clears = if t.clear p == 0 then [] else (t.clear p, t.argument p) ∷ [] in
    let calls = (do later ← rest; some ((t.callback p, t.argument p) ∷ (clears ++ later))) in
    if p == 0 then some [] else calls

unfoldable pub solve : ℕ → Table → ℕ → Option (List (ℕ × ℕ) × Table)
solve fuel t vec = do
  calls ← solve_loop fuel t (t.header vec)
  some (
    calls,
    record t {
      intpt_counter = update t.intpt_counter vec (add_word (t.intpt_counter vec) 1);
      flags = update t.flags vec 1;
    },
  )
