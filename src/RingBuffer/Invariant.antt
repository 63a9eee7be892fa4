-- ===== src/RingBuffer/Invariant.antt =====
-- The representation invariant of `CRingBuffer`, and which methods keep it.
use power_pc_demo_os.Common.{
  ℕ, ◌+◌, ◌-◌, ◌%◌, ◌≤◌, ◌<◌, ◌≡◌, ◌∙◌, sym, ap, some, List, arith, length, length-set,
}
use power_pc_demo_os.RingBuffer.{Buffer, Flag, init, write, read}
use power_pc_demo_os.RingBuffer.Window.{wrap}
use native.Mathlib.Nat.{mod-add-mod, mod-lt}

-- The write index stands `count` places behind the read index, round the array.
pub record IsValid (b : Buffer) : Type 0 where
  pub storage : b.capacity ≤ length b.cells
  pub read_in : b.r_index < b.capacity
  pub count_in : b.count ≤ b.capacity
  pub behind : b.w_index ≡ (b.r_index + b.count) % b.capacity

-- What `init` makes of a storage of `size` elements is valid and empty.
pub init-IsValid :
    (storage : List ℕ) (size : ℕ) (flag : Flag) {b : Buffer}
    → 0 < size
    → size ≤ length storage
    → init (some storage) size flag ≡ some b
    → IsValid b × (b.count ≡ 0)
unfolding init
init-IsValid storage size flag h l e = ground (arith, wrap (0 + 0) size)

advance : (r c cap : ℕ) → ((r + c) % cap + 1) % cap ≡ (r + (c + 1)) % cap
advance r c cap = mod-add-mod (r + c) cap 1 ∙ ap (λ k. k % cap) (omega arith)

advance_both : (r c cap : ℕ) → ((r + c) % cap + 1) % cap ≡ ((r + 1) % cap + c) % cap
advance_both r c cap =
    mod-add-mod (r + c) cap 1 ∙ (ap (λ k. k % cap) (omega arith) ∙ sym (mod-add-mod (r + 1) cap c))

-- `write` keeps the invariant in both modes, also when it overwrites the oldest element.
pub write-IsValid : {b : Buffer} (d : ℕ) → IsValid b → IsValid (write b d).1
unfolding write
write-IsValid {b} d v = ground (
  arith,
  length-set b.cells b.w_index d,
  mod-lt (b.r_index + 1) {m = b.capacity},
  advance b.r_index b.count b.capacity,
  advance_both b.r_index b.count b.capacity,
)

-- `read` keeps the invariant.
pub read-IsValid : {b : Buffer} → IsValid b → IsValid (read b).1
unfolding read
read-IsValid {b} v = ground (
  arith,
  mod-lt (b.r_index + 1) {m = b.capacity},
  mod-add-mod (b.r_index + 1) b.capacity (b.count - 1),
)
