-- ===== src/RingBuffer.antt =====
-- include/ringbuffer.h: `CRingBuffer`, which counts its elements. The storage that `init` takes from
-- the heap is a list of `_capacity` elements, and a method returns its result with the new buffer.
-- `sint` values stay in [0, 2 * _capacity), so no addition wraps for a capacity below 2^30.
pub mod Simple
pub mod Window
pub mod Invariant
pub mod Queue
pub mod Bulk
mod Tests
use power_pc_demo_os.Common.{
  ℕ, zero, suc, ◌+◌, ◌-◌, ◌%◌, Bool, true, false, not, ◌&&◌, Option, none, some, List, [], ◌∷◌,
  ◌++◌, ◌==◌, ltb, leb, if◌then◌else◌, get_or, set, take, drop, min,
}

-- `RingBufferFlag`
pub data Flag : Type 0 where
  default overwrite : Flag

pub record Buffer : Type 0 where
  pub r_index : ℕ
  pub w_index : ℕ
  pub count : ℕ
  pub capacity : ℕ
  pub flag : Flag
  pub cells : List ℕ

-- `storage` is what `kheap.allocate` returned, `none` for a null pointer.
unfoldable pub init : Option (List ℕ) → ℕ → Flag → Option Buffer
init none size flag = none
init (some storage) size flag =
    some (record {
      r_index = 0;
      w_index = 0;
      count = 0;
      capacity = size;
      flag = flag;
      cells = storage;
    })

unfoldable pub reset : Buffer → Buffer
reset b = record b { r_index = 0; w_index = 0 }

abbrev pub length : Buffer → ℕ
length b = b.count

unfoldable pub free_space : Buffer → ℕ
free_space b = b.capacity - b.count

unfoldable pub is_full : Buffer → Bool
is_full b = leb b.capacity b.count

unfoldable pub is_empty : Buffer → Bool
is_empty b = b.count == 0

abbrev pub is_default : Flag → Bool
is_default default = true
is_default overwrite = false

unfoldable pub write : Buffer → ℕ → Bool × Buffer
unfolding is_full
write b d =
    let max_readed = is_full b in
    let next_w = (b.w_index + 1) % b.capacity in
    let cells' = set b.cells b.w_index d in
    if is_default b.flag && max_readed
    then (false, b)
    else if not (is_default b.flag) && max_readed
    then (
      true,
      record b { cells = cells'; w_index = next_w; r_index = (b.r_index + 1) % b.capacity },
    )
    else (true, record b { cells = cells'; w_index = next_w; count = b.count + 1 })

-- The loop of `writen` over the elements left, with the number written so far.
writen_loop : Buffer → List ℕ → ℕ → ℕ × Buffer
writen_loop b [] done = (done, b)
writen_loop b (e ∷ es) done =
    let (ok, b') = write b e in
    let rest = writen_loop b' es (done + 1) in if ok then rest else (done, b')

unfoldable pub writen : Buffer → List ℕ → ℕ × Buffer
unfolding writen_loop
writen b es = writen_loop b es 0

unfoldable pub read : Buffer → Option ℕ × Buffer
unfolding is_empty
read b = if is_empty b then (none, b) else (
  some (get_or b.cells b.r_index 0),
  record b { r_index = (b.r_index + 1) % b.capacity; count = b.count - 1 },
)

-- `memcpy(e, _data + _rIndex, c)`
abbrev pub copy : List ℕ → ℕ → ℕ → List ℕ
copy cells from c = take c (drop from cells)

-- The loop of `readn`: each round copies up to the end of the storage. Two rounds are enough.
readn_loop : ℕ → Buffer → ℕ → List ℕ × Buffer
readn_loop zero b count = ([], b)
readn_loop (suc fuel) b count =
    let c = min (b.capacity - b.r_index) count in
    let rest = readn_loop fuel (record b { r_index = (b.r_index + c) % b.capacity }) (count - c) in
    if count == 0 then ([], b) else (copy b.cells b.r_index c ++ rest.0, rest.1)

-- The elements that go to the caller's array; their number is what `readn` returns.
unfoldable pub readn : Buffer → ℕ → List ℕ × Buffer
unfolding readn_loop
readn b n =
    let count = if ltb b.count n then b.count else n in
    readn_loop 3 (record b { count = b.count - count }) count

-- The loop of `move`. It goes on while elements are left to move, on fuel.
move_loop : ℕ → Buffer → Buffer → ℕ → Buffer × Buffer
unfolding writen
move_loop zero b src count = (b, src)
move_loop (suc fuel) b src count =
    let asked = min (src.capacity - src.r_index) count in
    let (sc, b') = writen b (copy src.cells src.r_index asked) in
    let src' = record src { count = src.count - sc; r_index = (src.r_index + sc) % src.capacity } in
    let rest = move_loop fuel b' src' (count - sc) in if count == 0 then (b, src) else rest

unfoldable pub move : Buffer → Buffer → ℕ → ℕ × Buffer × Buffer
unfolding move_loop
move b src n =
    let room = if is_default b.flag then min n (b.capacity - b.count) else n in
    let count = min room src.count in
    let (b', src') = move_loop (count + 1) b src count in (count, b', src')
