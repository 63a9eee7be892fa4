-- ===== src/RingBuffer/Queue.antt =====
-- `CRingBuffer` against a first-in first-out queue that is bounded by the capacity.
use power_pc_demo_os.Common.{
  ℕ, zero, suc, ◌+◌, ◌-◌, ◌%◌, ◌≤◌, ◌<◌, ◌≡◌, ◌≢◌, refl, Bool, true, false, some, none, Option,
  List, [], ◌++◌, ◌∷◌, arith, length, Bool-cases, inl, inr, leb, if◌then◌else◌, get_or, set,
}
use native.Mathlib.Nat.{mod-lt}
use power_pc_demo_os.RingBuffer.{Buffer, Flag, default, overwrite, write, read}
use power_pc_demo_os.RingBuffer.Window.{wrap, window, window-set, length-window, step_add}
use power_pc_demo_os.RingBuffer.Invariant.{IsValid, write-IsValid, read-IsValid}

-- The oldest element goes first.
abbrev pub Queue : Type 0
Queue = List ℕ

abbrev pub drop_first : Queue → Queue
drop_first [] = []
drop_first (x ∷ q) = q

-- A full queue refuses the element, or gives up its oldest one.
unfoldable pub push : ℕ → Flag → Queue → ℕ → Bool × Queue
push cap default q d = if leb cap (length q) then (false, q) else (true, q ++ d ∷ [])
push cap overwrite q d = (true, if leb cap (length q) then drop_first q ++ d ∷ [] else q ++ d ∷ [])

unfoldable pub pop : Queue → Option ℕ × Queue
pop [] = (none, [])
pop (x ∷ q) = (some x, q)

abbrev pub contents : Buffer → Queue
contents b = window b.cells b.capacity b.count b.r_index

pub length-contents : (b : Buffer) → length (contents b) ≡ b.count
length-contents b = length-window b.cells b.capacity b.count b.r_index

-- A window that is full gives up its first element and takes the new one in its place.
window-replace :
    (cells : List ℕ) (cap d n r : ℕ)
    → cap ≤ length cells
    → r < cap
    → n ≡ cap
    → window (set cells r d) cap n ((r + 1) % cap) ≡ drop_first (window cells cap n r) ++ d ∷ []
window-replace cells cap d zero r hl hr e = absurd (omega arith)
window-replace cells cap d (suc n) r hl hr e =
    window-set cells cap d n ((r + 1) % cap) r hl (mod-lt (r + 1) {m = cap} (omega arith))
      (omega arith) (ground (arith, step_add r n cap, wrap (r + suc n) cap))

write-full :
    (b : Buffer) (d : ℕ)
    → IsValid b
    → leb b.capacity b.count ≡ true
    → (let (ok, b') = write b d in (ok, contents b')) ≡ push b.capacity b.flag (contents b) d
unfolding write push
write-full b d v full =
    let back : b.w_index ≡ b.r_index = ground (arith, wrap (b.r_index + b.count) b.capacity) in
    ground (arith, length-contents b, window-replace b.cells b.capacity d b.count b.r_index)

write-room :
    (b : Buffer) (d : ℕ)
    → IsValid b
    → leb b.capacity b.count ≡ false
    → (let (ok, b') = write b d in (ok, contents b')) ≡ push b.capacity b.flag (contents b) d
unfolding write push
write-room b d v room =
    ground (arith, length-contents b, window-set b.cells b.capacity d b.count b.r_index b.w_index)

-- `write` does to the contents what `push` does to a queue, in both modes, and returns its answer.
pub write_refines :
    {b : Buffer} (d : ℕ)
    → IsValid b
    → (let (ok, b') = write b d in (ok, contents b')) ≡ push b.capacity b.flag (contents b) d
write_refines {b} d v = elim (Bool-cases (leb b.capacity b.count)) [
  | inl full ↦ write-full b d v full
  | inr room ↦ write-room b d v room
]

window_of_ne_zero :
    (cells : List ℕ) (cap n r : ℕ)
    → n ≢ 0
    → window cells cap n r ≡ get_or cells r 0 ∷ window cells cap (n - 1) ((r + 1) % cap)
window_of_ne_zero cells cap zero r ne = absurd (ne refl)
window_of_ne_zero cells cap (suc n) r ne = ground arith

-- `read` takes out and returns the element that `pop` does.
pub read_refines : (b : Buffer) → (let (out, b') = read b in (out, contents b')) ≡ pop (contents b)
unfolding read pop
read_refines b = ground (arith, window_of_ne_zero b.cells b.capacity b.count b.r_index)

-- What a client may ask, and what it is answered.
pub data Op : Type 0 where
  put : ℕ → Op
  get : Op

pub data Reply : Type 0 where
  stored : Bool → Reply
  taken : Option ℕ → Reply

unfoldable pub run : Buffer → List Op → List Reply
run b [] = []
run b (put d ∷ ops) = let (ok, b') = write b d in stored ok ∷ run b' ops
run b (get ∷ ops) = let (out, b') = read b in taken out ∷ run b' ops

unfoldable pub run_queue : ℕ → Flag → Queue → List Op → List Reply
run_queue cap flag q [] = []
run_queue cap flag q (put d ∷ ops) =
    let (ok, q') = push cap flag q d in stored ok ∷ run_queue cap flag q' ops
run_queue cap flag q (get ∷ ops) = let (out, q') = pop q in taken out ∷ run_queue cap flag q' ops

write-config :
    (b : Buffer) (d : ℕ) → ((write b d).1.capacity ≡ b.capacity) × ((write b d).1.flag ≡ b.flag)
unfolding write
write-config b d = ground arith

read-config : (b : Buffer) → ((read b).1.capacity ≡ b.capacity) × ((read b).1.flag ≡ b.flag)
unfolding read
read-config b = ground arith

-- No sequence of reads and writes tells a valid buffer from the bounded queue of its contents.
pub run_refines :
    (ops : List Op) {b : Buffer}
    → IsValid b
    → run b ops ≡ run_queue b.capacity b.flag (contents b) ops
unfolding run run_queue
run_refines [] v = refl
run_refines (put d ∷ ops) {b} v = rw (
  run_refines ops (write-IsValid d v),
  ← write_refines d v,
  (write-config b d).0,
  (write-config b d).1,
)
run_refines (get ∷ ops) {b} v =
    rw (run_refines ops (read-IsValid v), ← read_refines b, (read-config b).0, (read-config b).1)
