-- ===== src/MsgQueue.antt =====
-- kernel/include/ipc/msgqueue.h and kernel/src/ipc/msgqueue.cpp: a ring of message blocks between
-- `_bufferLowAddr` and `_bufferHighAddr`. A block is known by its address; its `_len` and `_body` are
-- cells at that address. An operation holds `_mutexLock` from its first access of the queue to its
-- last, so the lock itself is left out. Addresses are below 2 ^ 32, as those of the heap are.
pub mod Slots
pub mod Order
mod Tests
use power_pc_demo_os.Common.{
  ℕ, zero, suc, ◌+◌, ◌-◌, ◌*◌, Bool, true, false, ◌||◌, List, [], ◌∷◌, ◌++◌, Option, none, some,
  ◌==◌, ltb, leb, if◌then◌else◌, take, drop, update, align_up, add_word, sub_word, word_size, ◌%◌,
  ℤ, pos,
}
use power_pc_demo_os.Sync.Semaphore.{Semaphore}
use power_pc_demo_os.Sync.Semaphore as Sem

-- The values of `ErrNo` that the queue returns.
pub data ErrNo : Type 0 where
  e_none e_fault e_busy : ErrNo

pub record MsgQueue : Type 0 where
  pub read_ptr : ℕ
  pub write_ptr : ℕ
  pub low : ℕ
  pub high : ℕ
  pub block_size : ℕ
  pub msg_count : ℕ
  pub sem : Semaphore
  pub len : ℕ → ℕ
  pub body : ℕ → List ℕ

-- `storage` is what `kheap.allocate` returned, with what the memory holds.
unfoldable pub init : ℕ → ℕ → Option (ℕ × (ℕ → ℕ) × (ℕ → List ℕ)) → Option MsgQueue
unfolding Sem.init
init max_size capacity none = none
init max_size capacity (some (at, len, body)) =
    let block = align_up (add_word max_size 4) 4 in
    some (record {
      read_ptr = at;
      write_ptr = at;
      low = at;
      high = at + (capacity * block) % word_size;
      block_size = block;
      msg_count = 0;
      sem = Sem.init (pos 0);
      len = len;
      body = body;
    })

-- `memcpy(dst, src, n)`
abbrev pub copy_to : List ℕ → List ℕ → ℕ → List ℕ
copy_to dst src n = take n src ++ drop n dst

-- `msgBuffer == nullptr || msgSize + sizeof(uint) > _msgBlockSize || msgSize < 1`
unfoldable pub is_refused : MsgQueue → Option (List ℕ) → ℕ → Bool
is_refused q none size = true
is_refused q (some buffer) size = ltb q.block_size (add_word size 4) || ltb size 1

-- `addMessage` behind its test of the arguments: the caller's buffer and the queue.
unfoldable pub add_message : MsgQueue → List ℕ → ℕ → List ℕ × MsgQueue
add_message q buffer size =
    let at = q.write_ptr in
    let next = at + q.block_size in
    (
      copy_to buffer (q.body at) size,
      record q {
        len = update q.len at size;
        write_ptr = if leb q.high next then q.low else next;
        msg_count = add_word q.msg_count 1;
        sem = (Sem.unlock q.sem).1;
      },
    )

-- `addUrgentMessage` behind its test of the arguments.
unfoldable pub add_urgent : MsgQueue → List ℕ → ℕ → List ℕ × MsgQueue
add_urgent q buffer size =
    let from = if leb q.read_ptr q.low then q.high else q.read_ptr in
    let at = from - q.block_size in
    (
      copy_to buffer (q.body at) size,
      record q {
        len = update q.len at size;
        read_ptr = at;
        msg_count = add_word q.msg_count 1;
        sem = (Sem.unlock q.sem).1;
      },
    )

-- `addMessage` and `addUrgentMessage`, with their test of the arguments.
unfoldable pub add :
    (MsgQueue → List ℕ → ℕ → List ℕ × MsgQueue)
    → MsgQueue
    → Option (List ℕ)
    → ℕ
    → ErrNo × Option (List ℕ) × MsgQueue
unfolding is_refused
add put q none size = (e_fault, none, q)
add put q (some buffer) size =
    let done = put q buffer size in
    if is_refused q (some buffer) size
    then (e_fault, some buffer, q)
    else (e_none, some done.0, done.1)

-- `getMessage` behind its test for a null buffer and `_msgQueueSem.lock()`; `none` is the failed
-- `assert` on the caller's size, which stops the kernel.
unfoldable pub get_message : MsgQueue → List ℕ → ℕ → Option (ErrNo × List ℕ × MsgQueue)
get_message q buffer buffer_size =
    let at = q.read_ptr in
    let next = at + q.block_size in
    let taken = record q {
      read_ptr = if leb q.high next then q.low else next;
      msg_count = sub_word q.msg_count 1;
    } in
    if q.read_ptr == q.write_ptr
    then some (e_busy, buffer, q)
    else if leb (q.len at) buffer_size
    then some (e_none, copy_to buffer (q.body at) (q.len at), taken)
    else none

unfoldable pub clear : MsgQueue → MsgQueue
clear q = record q {
  read_ptr = q.low;
  write_ptr = q.low;
  msg_count = 0;
  sem = (Sem.destroy q.sem).1;
}
