-- ===== src/MsgQueue/Tests.antt =====
-- Runs of the message queue: three blocks of eight bytes from address 100 on.
use power_pc_demo_os.Common.{◌≡◌, refl, [], ◌∷◌, arith, some, pos, add_word}
use power_pc_demo_os.MsgQueue.{
  MsgQueue, e_none, e_fault, add_message, add_urgent, add, is_refused, get_message, copy_to,
}
use power_pc_demo_os.MsgQueue.Slots.{lens}
use power_pc_demo_os.MsgQueue.Order.{IsPlaced, messages, get_message-IsPlaced, add-body}

abbrev fresh : MsgQueue
fresh = record {
  read_ptr = 100;
  write_ptr = 100;
  low = 100;
  high = 124;
  block_size = 8;
  msg_count = 0;
  sem = record { val = pos 0; waiters = [] };
  len = λ _. 0;
  body = λ _. 9 ∷ 9 ∷ 9 ∷ [];
}

fresh-IsPlaced : IsPlaced fresh 3 0
fresh-IsPlaced = record {
  block = omega arith;
  small = omega arith;
  ends = refl;
  room = omega arith;
  read_in = omega arith;
  read_at = refl;
  write_at = refl;
}

-- One message of two bytes, in the last block.
abbrev one : MsgQueue
one = record {
  read_ptr = 116;
  write_ptr = 100;
  low = 100;
  high = 124;
  block_size = 8;
  msg_count = 1;
  sem = record { val = pos 1; waiters = [] };
  len = λ _. 2;
  body = λ _. 9 ∷ 9 ∷ 9 ∷ [];
}

one-IsPlaced : IsPlaced one 3 2
one-IsPlaced = record {
  block = omega arith;
  small = omega arith;
  ends = refl;
  room = omega arith;
  read_in = omega arith;
  read_at = refl;
  write_at = refl;
}

abbrev two : MsgQueue
two = record one { write_ptr = 108; msg_count = 2 }

two-IsPlaced : IsPlaced two 3 2
two-IsPlaced = record {
  block = omega arith;
  small = omega arith;
  ends = refl;
  room = omega arith;
  read_in = omega arith;
  read_at = refl;
  write_at = refl;
}

get_message-IsPlaced_example :
    (q : MsgQueue) × (get_message one (1 ∷ 2 ∷ 3 ∷ []) 3
      ≡ some (e_none, copy_to (1 ∷ 2 ∷ 3 ∷ []) (9 ∷ 9 ∷ 9 ∷ []) 2, q))
    × IsPlaced q 3 0
    × (messages q 3 0 ≡ [])
    × (q.len ≡ one.len)
    × (q.body ≡ one.body)
unfolding lens
get_message-IsPlaced_example = get_message-IsPlaced (1 ∷ 2 ∷ 3 ∷ []) 3 one-IsPlaced refl

add-body_example :
    ((add_message one (1 ∷ []) 1).1 ≡ (add_message one (2 ∷ []) 1).1)
    × ((add_urgent one (1 ∷ []) 1).1 ≡ (add_urgent one (2 ∷ []) 1).1)
    × ((add_message one (1 ∷ []) 1).1.body ≡ one.body)
    × ((add_urgent one (1 ∷ []) 1).1.body ≡ one.body)
add-body_example = add-body one (1 ∷ []) (2 ∷ []) 1

-- A message longer than a block is refused.
add-refused : add add_message one (some (1 ∷ [])) 5 ≡ (e_fault, some (1 ∷ []), one)
unfolding add is_refused add_word
add-refused = refl
