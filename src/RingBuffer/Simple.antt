-- ===== src/RingBuffer/Simple.antt =====
-- include/ringbuffer.h: `SRingBuffer`, which keeps one cell free and has no counter. The indices
-- are `sint`; the sums below stay in [0, 3 * _capacity), so they do not wrap for a capacity below
-- 2^29.
use power_pc_demo_os.Common.{
  ℕ, ◌+◌, ◌-◌, ◌%◌, ◌/◌, ◌≤◌, ◌<◌, ◌≡◌, ◌↔◌, Bool, true, false, Option, none, some, List, [], ◌∷◌,
  arith, ◌==◌, if◌then◌else◌, get_or, set,
}
use native.Mathlib.Nat.{div-eq-sub-div, div-eq_of_lt}

pub record SBuffer : Type 0 where
  pub r_index : ℕ
  pub w_index : ℕ
  pub capacity : ℕ
  pub cells : List ℕ

unfoldable pub init : Option (List ℕ) → ℕ → Option SBuffer
init none size = none
init (some storage) size =
    some (record { r_index = 0; w_index = 0; capacity = size; cells = storage })

-- The quotient as a `bool`.
unfoldable pub is_full : SBuffer → Bool
is_full b = if (b.capacity + b.w_index + 1 - b.r_index) / b.capacity == 0 then false else true

unfoldable pub is_empty : SBuffer → Bool
is_empty b = b.r_index == b.w_index

unfoldable pub length : SBuffer → ℕ
length b = (b.capacity + b.w_index - b.r_index) % b.capacity

unfoldable pub free_space : SBuffer → ℕ
free_space b = (b.capacity + b.r_index - b.w_index) % b.capacity

unfoldable pub write : SBuffer → ℕ → Bool × SBuffer
unfolding is_full
write b e = if is_full b then (false, b) else (
  true,
  record b { cells = set b.cells b.w_index e; w_index = (b.w_index + 1) % b.capacity },
)

unfoldable pub read : SBuffer → Option ℕ × SBuffer
unfolding is_empty
read b =
    if is_empty b
    then (none, b)
    else (some (get_or b.cells b.r_index 0), record b { r_index = (b.r_index + 1) % b.capacity })

writen_loop : SBuffer → List ℕ → ℕ → ℕ × SBuffer
unfolding write
writen_loop b [] done = (done, b)
writen_loop b (e ∷ es) done =
    let (ok, b') = write b e in
    let rest = writen_loop b' es (done + 1) in if ok then rest else (done, b')

unfoldable pub writen : SBuffer → List ℕ → ℕ × SBuffer
unfolding writen_loop
writen b es = writen_loop b es 0

pub record IsValid (b : SBuffer) : Type 0 where
  pub read_in : b.r_index < b.capacity
  pub write_in : b.w_index < b.capacity

quotient_pos : (x cap : ℕ) → 0 < cap → cap ≤ x → 0 < x / cap
quotient_pos x cap h l = omega (arith, div-eq-sub-div h l)

quotient_zero : (x cap : ℕ) → x < cap → x / cap ≡ 0
quotient_zero x cap h = div-eq_of_lt h

-- The test for a full buffer answers yes exactly when the write index plus one is not below the
-- read index, so also for a buffer that is empty.
pub is_full_iff : (b : SBuffer) → IsValid b → (is_full b ≡ true) ↔ (b.r_index ≤ b.w_index + 1)
unfolding is_full
is_full_iff b v = (
  λ h. ground (arith, quotient_zero (b.capacity + b.w_index + 1 - b.r_index) b.capacity),
  λ h. ground (arith, quotient_pos (b.capacity + b.w_index + 1 - b.r_index) b.capacity),
)

-- An empty buffer refuses every write: a buffer that `init` made takes no element, ever.
pub writen-empty :
    (b : SBuffer) (es : List ℕ)
    → IsValid b
    → is_empty b ≡ true
    → (writen b es ≡ (0, b)) × (read b ≡ (none, b))
unfolding writen read
writen-empty b [] v e = ground (arith, e)
writen-empty b (x ∷ es) v e = ground (arith, (is_full_iff b v).1)
