-- ===== src/RingBuffer/Tests.antt =====
-- Runs of the ring buffers of include/ringbuffer.h.
use power_pc_demo_os.Common.{◌≡◌, refl, true, List, [], ◌∷◌, arith, none, some}
use power_pc_demo_os.RingBuffer.{
  Buffer, Flag, default, overwrite, write, read, readn, is_full, is_empty,
}
use power_pc_demo_os.RingBuffer.Invariant.{IsValid}
use power_pc_demo_os.RingBuffer.Queue.{
  contents, Op, put, get, stored, taken, run, run_queue, run_refines,
}
use power_pc_demo_os.RingBuffer.Simple.{SBuffer, is_full_iff, writen-empty}
use power_pc_demo_os.RingBuffer.Simple as Simple

-- Three cells, the last two in use, and the next write goes to the first.
abbrev wrapped : Flag → Buffer
wrapped flag = record {
  r_index = 1;
  w_index = 0;
  count = 2;
  capacity = 3;
  flag = flag;
  cells = 5 ∷ 6 ∷ 7 ∷ [];
}

wrapped-IsValid : (flag : Flag) → IsValid (wrapped flag)
wrapped-IsValid flag = record {
  storage = omega arith;
  read_in = omega arith;
  count_in = omega arith;
  behind = refl;
}

contents-wrapped : contents (wrapped default) ≡ 6 ∷ 7 ∷ []
contents-wrapped = refl

readn-wrapped : (readn (write (wrapped default) 8).1 3).0 ≡ 6 ∷ 7 ∷ 8 ∷ []
unfolding readn write is_full
readn-wrapped = refl

abbrev ops : List Op
ops = put 8 ∷ put 9 ∷ get ∷ get ∷ get ∷ get ∷ []

run-wrapped :
    run (wrapped overwrite) ops
    ≡ stored true ∷ stored true ∷ taken (some 7) ∷ taken (some 8) ∷ taken (some 9) ∷ taken none ∷ []
unfolding run write read is_full is_empty
run-wrapped = refl

run_refines_example :
    run (wrapped overwrite) ops ≡ run_queue 3 overwrite (contents (wrapped overwrite)) ops
run_refines_example = run_refines ops (wrapped-IsValid overwrite)

abbrev made : Buffer
made = record {
  r_index = 0;
  w_index = 0;
  count = 0;
  capacity = 2;
  flag = default;
  cells = 0 ∷ 0 ∷ [];
}

abbrev fresh : SBuffer
fresh = record { r_index = 0; w_index = 0; capacity = 3; cells = 0 ∷ 0 ∷ 0 ∷ [] }

fresh-IsValid : Simple.IsValid fresh
fresh-IsValid = record { read_in = omega arith; write_in = omega arith }

writen-empty_example :
    (Simple.writen fresh (4 ∷ []) ≡ (0, fresh)) × (Simple.read fresh ≡ (none, fresh))
unfolding Simple.is_empty
writen-empty_example = writen-empty fresh (4 ∷ []) fresh-IsValid refl
