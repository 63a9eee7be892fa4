-- ===== src/MsgQueue/Order.antt =====
-- The order of the messages of a queue (kernel/src/ipc/msgqueue.cpp), by their lengths.
use power_pc_demo_os.Common.{
  none, Bool-cases, inl, inr, ℕ, suc, ◌+◌, ◌-◌, ◌*◌, ◌%◌, ◌<◌, ◌≡◌, ◌≢◌, ◌∙◌, refl, sym, ap, false,
  List, [], ◌∷◌, arith, ◌==◌, leb, ==_iff, if◌then◌else◌, word_size, add_word, add_word-small,
  sub_word, sub_word-small, align_up, some,
}
use power_pc_demo_os.RingBuffer.Window.{wrap, step_add}
use power_pc_demo_os.MsgQueue.{
  MsgQueue, init, e_none, e_busy, add_message, add_urgent, get_message, copy_to,
}
use power_pc_demo_os.MsgQueue.Slots.{
  slot, slot_ne, next-slot, prev-slot, lens, lens-cons, lens-uncons, lens-nil,
}
use native.Mathlib.Nat.{mod-lt, mod-eq_of_lt, mod-add-mod}

-- The queue has `cap` blocks, one of them free; its first message is in block `r`.
pub record IsPlaced (q : MsgQueue) (cap r : ℕ) : Type 0 where
  pub block : 0 < q.block_size
  pub small : cap < word_size
  pub ends : q.high ≡ q.low + cap * q.block_size
  pub room : q.msg_count < cap
  pub read_in : r < cap
  pub read_at : q.read_ptr ≡ slot q.low q.block_size r
  pub write_at : q.write_ptr ≡ slot q.low q.block_size ((r + q.msg_count) % cap)

-- The lengths of the messages, the next to be read first.
abbrev pub messages : MsgQueue → ℕ → ℕ → List ℕ
messages q cap r = lens q.len q.low q.block_size cap q.msg_count r

one_more : (q : MsgQueue) (cap r : ℕ) → IsPlaced q cap r → add_word q.msg_count 1 ≡ suc q.msg_count
one_more q cap r v =
    let small = v.small in
    let room = v.room in add_word-small q.msg_count 1 (omega arith) ∙ (omega arith)

turn_back :
    (cap r n r' : ℕ)
    → r < cap
    → n < cap
    → r' ≡ (if r == 0 then cap - 1 else r - 1)
    → (r' + suc n) % cap ≡ (r + n) % cap
turn_back cap r n r' h room e = ground (arith, wrap (r' + suc n) cap, wrap (r + n) cap)

-- `addUrgentMessage` to a queue that has two free blocks puts the message before the others.
pub add_urgent-IsPlaced :
    {q : MsgQueue} {cap r : ℕ} (buffer : List ℕ) (size : ℕ)
    → IsPlaced q cap r
    → q.msg_count + 1 < cap
    → let q' = (add_urgent q buffer size).1 in
      let r' = if r == 0 then cap - 1 else r - 1 in
      IsPlaced q' cap r' × (messages q' cap r' ≡ size ∷ messages q cap r)
unfolding add_urgent
add_urgent-IsPlaced {q} {cap} {r} buffer size v more =
    let n = q.msg_count in
    let r' = if r == 0 then cap - 1 else r - 1 in
    let counted = one_more q cap r v in
    let r_in = v.read_in in
    let before : (if leb q.read_ptr q.low then q.high else q.read_ptr) - q.block_size
        ≡ slot q.low q.block_size r' =
      rw (v.ends, v.read_at) (prev-slot q.low q.block_size cap r v.block v.read_in) in
    let turn : (r' + suc n) % cap ≡ (r + n) % cap = turn_back cap r n r' v.read_in v.room refl in
    (
      record {
        block = v.block;
        small = v.small;
        ends = v.ends;
        room = rw counted (omega arith);
        read_in = ground arith;
        read_at = before;
        write_at = rw counted (v.write_at ∙ ap (slot q.low q.block_size) (sym turn));
      },
      rw (counted, before)
          (lens-cons q.len q.low q.block_size cap n r r' size v.block v.read_in v.room refl),
    )

head_slot :
    (q : MsgQueue) (cap r : ℕ)
    → IsPlaced q cap r
    → 0 < q.msg_count
    → (q.read_ptr == q.write_ptr) ≡ false
head_slot q cap r v some_left =
    let room = v.room in
    let apart : r ≢ (r + q.msg_count) % cap =
      λ e. moved cap r q.msg_count v.read_in v.room some_left e in
    let ne = slot_ne q.low q.block_size r ((r + q.msg_count) % cap) v.block apart in
    rw (v.read_at, v.write_at) (differs ne)
  where
    moved : (cap r n : ℕ) → r < cap → n < cap → 0 < n → r ≡ (r + n) % cap → ⊥
    moved cap r n h room pos e = absurd (ground (arith, wrap (r + n) cap))

    differs : {a b : ℕ} → a ≢ b → (a == b) ≡ false
    differs ne = ground arith

-- `getMessage` of a queue that is in order and holds a message fails the assert when the caller's size is
-- below its length; else it takes that message off, hands out as many bytes of its block as its length
-- says, and leaves the lengths and the bytes of all blocks, and the others in order.
pub get_message-IsPlaced :
    {q : MsgQueue} {cap r : ℕ} (buffer : List ℕ) (buffer_size : ℕ) {x : ℕ} {xs : List ℕ}
    → IsPlaced q cap r
    → messages q cap r ≡ x ∷ xs
    → if leb x buffer_size
      then ((q' : MsgQueue) × (get_message q buffer buffer_size
            ≡ some (e_none, copy_to buffer (q.body q.read_ptr) x, q'))
          × IsPlaced q' cap ((r + 1) % cap)
          × (messages q' cap ((r + 1) % cap) ≡ xs)
          × (q'.len ≡ q.len)
          × (q'.body ≡ q.body))
      else get_message q buffer buffer_size ≡ none
unfolding get_message
get_message-IsPlaced {q} {cap} {r} buffer buffer_size {x} {xs} v e =
    let n = q.msg_count in
    let u = lens-uncons q.len q.low q.block_size cap n r x xs e in
    let busy = head_slot q cap r v u.0 in
    let small = v.small in
    let room = v.room in
    let counted : sub_word n 1 ≡ n - 1 = sub_word-small n 1 (omega arith) (omega (arith, u.0)) in
    let next : (if leb q.high (q.read_ptr + q.block_size) then q.low else q.read_ptr + q.block_size)
        ≡ slot q.low q.block_size ((r + 1) % cap) =
      rw (v.ends, v.read_at) (next-slot q.low q.block_size cap r v.block v.read_in) in
    let back : suc (n - 1) ≡ n = omega (arith, u.0) in
    let turn : ((r + 1) % cap + (n - 1)) % cap ≡ (r + n) % cap =
      step_add r (n - 1) cap ∙ ap (λ k. (r + k) % cap) back in
    let first : q.len q.read_ptr ≡ x = ap q.len v.read_at ∙ u.1 in
    let taken = record q {
      read_ptr =
          if leb q.high (q.read_ptr + q.block_size) then q.low else q.read_ptr + q.block_size;
      msg_count = sub_word n 1;
    } in
    elim (Bool-cases (leb x buffer_size)) [
      | inr short ↦ rw (short, busy, first, short) refl
      | inl enough ↦ rw enough (
        taken,
        rw (busy, first, enough) refl,
        record {
          block = v.block;
          small = v.small;
          ends = v.ends;
          room = rw counted (omega arith);
          read_in = mod-lt (r + 1) (omega arith);
          read_at = next;
          write_at = rw counted (v.write_at ∙ ap (slot q.low q.block_size) (sym turn));
        },
        rw counted u.2,
        refl,
        refl,
      )
    ]

-- `getMessage` of an empty queue leaves it and the caller's buffer, and says that it is busy.
pub get_message-empty :
    {q : MsgQueue} {cap r : ℕ} (buffer : List ℕ) (buffer_size : ℕ)
    → IsPlaced q cap r
    → messages q cap r ≡ []
    → get_message q buffer buffer_size ≡ some (e_busy, buffer, q)
unfolding get_message
get_message-empty {q} {cap} {r} buffer buffer_size v e =
    let none_left = lens-nil q.len q.low q.block_size cap q.msg_count r e in
    let turn : (r + q.msg_count) % cap ≡ r =
      ap (λ n. (r + n) % cap) none_left ∙ stays r v.read_in in
    let same : q.read_ptr ≡ q.write_ptr =
      v.read_at ∙ sym (v.write_at ∙ ap (slot q.low q.block_size) turn) in
    let busy = (==_iff q.read_ptr q.write_ptr).1 same in rw busy refl
  where
    stays : (r : ℕ) → r < cap → (r + 0) % cap ≡ r
    stays r h = ground (arith, mod-eq_of_lt h)

-- A message that goes to the last free block hides all messages: the next `getMessage` says that the
-- queue is busy, though it holds as many messages as it has blocks.
pub add_message-full :
    {q : MsgQueue} {cap r : ℕ} (buffer : List ℕ) (size buffer_size : ℕ)
    → IsPlaced q cap r
    → q.msg_count + 1 ≡ cap
    → let q' = (add_message q buffer size).1 in
      (get_message q' buffer buffer_size ≡ some (e_busy, buffer, q')) × (q'.msg_count ≡ cap)
unfolding add_message get_message
add_message-full {q} {cap} {r} buffer size buffer_size v e =
    let n = q.msg_count in
    let w_in : (r + n) % cap < cap = mod-lt (r + n) (omega arith) in
    let next : (if leb q.high (q.write_ptr + q.block_size)
          then q.low
          else q.write_ptr + q.block_size)
        ≡ slot q.low q.block_size (((r + n) % cap + 1) % cap) =
      rw (v.ends, v.write_at) (next-slot q.low q.block_size cap ((r + n) % cap) v.block w_in) in
    let turn : ((r + n) % cap + 1) % cap ≡ r =
      mod-add-mod (r + n) cap 1 ∙ round cap r n v.read_in e in
    let busy =
      (==_iff q.read_ptr _).1 (v.read_at ∙ sym (next ∙ ap (slot q.low q.block_size) turn)) in
    (rw busy refl, one_more q cap r v ∙ (omega arith))
  where
    round : (cap r n : ℕ) → r < cap → n + 1 ≡ cap → (r + n + 1) % cap ≡ r
    round cap r n h e = ground (arith, wrap (r + n + 1) cap)

-- What the caller's buffer holds does not reach the queue: both ways of adding leave the same queue
-- for two buffers, and the blocks' bytes as they were.
pub add-body :
    (q : MsgQueue) (a b : List ℕ) (size : ℕ)
    → ((add_message q a size).1 ≡ (add_message q b size).1)
      × ((add_urgent q a size).1 ≡ (add_urgent q b size).1)
      × ((add_message q a size).1.body ≡ q.body)
      × ((add_urgent q a size).1.body ≡ q.body)
unfolding add_message add_urgent
add-body q a b size = (refl, refl, refl, refl)

-- A queue that `init` made of at least one block, of a size that the words hold, is empty and in order.
pub init-IsPlaced :
    (max_size cap at : ℕ) (len : ℕ → ℕ) (body : ℕ → List ℕ) {q : MsgQueue}
    → 0 < cap
    → 0 < align_up (add_word max_size 4) 4
    → cap * align_up (add_word max_size 4) 4 < word_size
    → cap < word_size
    → init max_size cap (some (at, len, body)) ≡ some q
    → IsPlaced q cap 0 × (messages q cap 0 ≡ [])
unfolding init lens
init-IsPlaced max_size cap at len body {q} some_block pos fits small e =
    let block = align_up (add_word max_size 4) 4 in
    rw (sym (made e)) (
      record {
        block = pos;
        small = small;
        ends = ap (λ k. at + k) (mod-eq_of_lt fits);
        room = some_block;
        read_in = some_block;
        read_at = omega arith;
        write_at = start;
      },
      refl,
    )
  where
    made : {a b : MsgQueue} → some a ≡ some b → a ≡ b
    made e = ground arith

    start : at ≡ at + ((0 + 0) % cap) * align_up (add_word max_size 4) 4
    start = let z : (0 + 0) % cap ≡ 0 = mod-eq_of_lt some_block in rw z (omega arith)
