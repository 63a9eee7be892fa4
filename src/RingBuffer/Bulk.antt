-- ===== src/RingBuffer/Bulk.antt =====
-- `readn` and `writen` of `CRingBuffer`: how many elements they move, and which.
use power_pc_demo_os.Common.{
  ℕ, zero, suc, ◌+◌, ◌-◌, ◌%◌, ◌≤◌, ◌<◌, ◌≡◌, ◌⊎◌, ◌∙◌, sym, ap, refl, false, List, [], ◌++◌, ◌∷◌,
  arith, length, Bool-cases, inl, inr, ◌==◌, if◌then◌else◌, min, take, drop, take-append,
  drop-append, take-all, take-nil, take-cons, drop-all, ltb,
}
use native.Mathlib.Nat.{mod-add-mod, mod-lt}
use native.Mathlib.Decide.{dec_le}
use mathlib.Core.List.{append-nil, append_assoc}
use power_pc_demo_os.RingBuffer.{Buffer, default, write, readn, readn_loop, writen, writen_loop}
use power_pc_demo_os.RingBuffer.Window.{wrap, window, window-add, copy-window, length-window}
use power_pc_demo_os.RingBuffer.Invariant.{IsValid, write-IsValid}
use power_pc_demo_os.RingBuffer.Queue.{contents, push, write_refines, length-contents}

-- The buffer after the elements are taken, whose `count` the loop does not touch.
abbrev moved : Buffer → ℕ → Buffer
moved b n = record b { r_index = (b.r_index + n) % b.capacity }

-- The loop ends in the first round when the elements lie in one piece.
readn_loop-piece :
    (fuel : ℕ) (b : Buffer) (count : ℕ)
    → b.capacity ≤ length b.cells
    → b.r_index < b.capacity
    → b.r_index + count ≤ b.capacity
    → readn_loop (suc (suc fuel)) b count
      ≡ (window b.cells b.capacity count b.r_index, moved b count)
unfolding readn_loop
readn_loop-piece fuel b zero hl hr h = ground (arith, wrap (b.r_index + 0) b.capacity)
readn_loop-piece fuel b (suc n) hl hr h = ground (
  arith,
  copy-window b.cells b.capacity (suc n) b.r_index,
  append-nil (window b.cells b.capacity (suc n) b.r_index),
)

-- Elements that go past the end of the storage take a second round from its start.
readn_loop-wraps :
    (b : Buffer) (front back : ℕ)
    → b.capacity ≤ length b.cells
    → b.r_index < b.capacity
    → front ≡ b.capacity - b.r_index
    → 0 < back
    → back ≤ b.r_index
    → readn_loop 3 b (front + back)
      ≡ (window b.cells b.capacity (front + back) b.r_index, moved b (front + back))
unfolding readn_loop
readn_loop-wraps b front back hl hr ef hb h =
    let m : min (b.capacity - b.r_index) (front + back) ≡ front = omega arith in
    let again : (b.r_index + front) % b.capacity ≡ 0 =
      ground (arith, wrap (b.r_index + front) b.capacity) in
    let left : front + back - front ≡ back = omega arith in
    let some_left : (front + back == 0) ≡ false = ground arith in
    rw
      (
        m,
        again,
        left,
        some_left,
        readn_loop-piece 0 (record b { r_index = 0 }) back hl (omega arith) (omega arith),
        copy-window b.cells b.capacity front b.r_index hl (omega arith),
        window-add b.cells b.capacity front back b.r_index hr,
        again,
      )
      (ground (arith, wrap (b.r_index + (front + back)) b.capacity, wrap (0 + back) b.capacity))

readn_loop_lem :
    (b : Buffer) (count : ℕ)
    → b.capacity ≤ length b.cells
    → b.r_index < b.capacity
    → count ≤ b.capacity
    → readn_loop 3 b count ≡ (window b.cells b.capacity count b.r_index, moved b count)
readn_loop_lem b count hl hr h = elim (dec_le (b.r_index + count) b.capacity) [
  | yes p ↦ readn_loop-piece 1 b count hl hr p
  | no p ↦
      let e : b.capacity - b.r_index + (count - (b.capacity - b.r_index)) ≡ count = omega arith in
      rw e at (
        readn_loop-wraps b (b.capacity - b.r_index) (count - (b.capacity - b.r_index)) hl hr refl
          (omega arith) (omega arith))
]

-- What `readn` leaves when it takes `k` elements that are there.
abbrev rest_of : Buffer → ℕ → Buffer
rest_of b k = moved (record b { count = b.count - k }) k

readn_eq :
    {b : Buffer} (n k : ℕ)
    → IsValid b
    → k ≡ (if ltb b.count n then b.count else n)
    → readn b n ≡ (window b.cells b.capacity k b.r_index, rest_of b k)
unfolding readn
readn_eq {b} n k v e =
    rw (← e)
      (readn_loop_lem (record b { count = b.count - k }) k v.storage v.read_in (ground arith))

rest_of-contents :
    (b : Buffer) (k : ℕ)
    → IsValid b
    → k ≤ b.count
    → contents b ≡ window b.cells b.capacity k b.r_index ++ contents (rest_of b k)
rest_of-contents b k v h =
    let e : b.count ≡ k + (b.count - k) = omega arith in
    ap (λ n. window b.cells b.capacity n b.r_index) e
    ∙ window-add b.cells b.capacity k (b.count - k) b.r_index v.read_in

rest_of-IsValid : (b : Buffer) (k : ℕ) → IsValid b → k ≤ b.count → IsValid (rest_of b k)
rest_of-IsValid b k v h = record {
  storage = v.storage;
  read_in = mod-lt (b.r_index + k) (ground (arith, v));
  count_in = omega arith;
  behind =
      v.behind
      ∙ (ap (λ n. n % b.capacity) (omega arith)
          ∙ sym (mod-add-mod (b.r_index + k) b.capacity (b.count - k)));
}

-- A request for `n` of the elements `xs ++ ys`, of which `xs` are handed out.
take-drop_of :
    (n : ℕ) (xs ys : List ℕ)
    → (n ≡ length xs) ⊎ ((length xs ≤ n) × (ys ≡ []))
    → (xs ≡ take n (xs ++ ys)) × (ys ≡ drop n (xs ++ ys))
take-drop_of n xs ys (inl e) = rw e (sym (take-append xs ys), sym (drop-append xs ys))
take-drop_of n xs ys (inr (h, e)) =
    rw (e, append-nil) (sym (take-all n xs h), sym (drop-all n xs h))

-- `readn` ends, hands out the oldest elements in order, as many as asked for and there, and leaves
-- the others; it keeps the invariant.
pub readn_lem :
    {b : Buffer} (n : ℕ)
    → IsValid b
    → let (out, b') = readn b n in
      (out ≡ take n (contents b)) × (contents b' ≡ drop n (contents b)) × IsValid b'
readn_lem {b} n v = elim (Bool-cases (ltb b.count n)) [
  | inl all ↦ go b.count (ground arith) (omega arith) (inr (ground arith, ground arith))
  | inr some_left ↦ go n (ground arith) (ground arith) (inl refl)
]
  where
    go :
        (k : ℕ)
        → k ≡ (if ltb b.count n then b.count else n)
        → k ≤ b.count
        → (n ≡ k) ⊎ ((k ≤ n) × (b.count - k ≡ 0))
        → let (out, b') = readn b n in
          (out ≡ take n (contents b)) × (contents b' ≡ drop n (contents b)) × IsValid b'
    go k e h cases =
        let t =
          take-drop_of n (window b.cells b.capacity k b.r_index) (contents (rest_of b k))
            (ground (arith, length-window b.cells b.capacity k b.r_index)) in
        rw (readn_eq n k v e, rest_of-contents b k v h) (t.0, t.1, rest_of-IsValid b k v h)

write-default :
    {b : Buffer} (d : ℕ)
    → IsValid b
    → b.flag ≡ default
    → let (ok, b') = write b d in
      (b'.flag ≡ default)
      × (b'.capacity ≡ b.capacity)
      × (ok ≡ ltb b.count b.capacity)
      × (b'.count ≡ (if ltb b.count b.capacity then b.count + 1 else b.count))
unfolding write
write-default {b} d v e = ground arith

write-default-contents :
    {b : Buffer} (d : ℕ)
    → IsValid b
    → b.flag ≡ default
    → contents (write b d).1 ≡ (if ltb b.count b.capacity then contents b ++ d ∷ [] else contents b)
unfolding push
write-default-contents {b} d v e = ground (arith, write_refines d v, length-contents b)

-- What `writen` has done when it stops, started at `b` with `done` elements written.
record Written (b : Buffer) (es : List ℕ) (done : ℕ) (out : ℕ × Buffer) : Type 0 where
  valid : IsValid out.1
  count : out.0 ≡ done + min (length es) (b.capacity - b.count)
  elements : contents out.1 ≡ contents b ++ take (b.capacity - b.count) es

writen_loop-Written :
    (es : List ℕ) (done : ℕ) {b : Buffer}
    → IsValid b
    → b.flag ≡ default
    → Written b es done (writen_loop b es done)
unfolding writen_loop
writen_loop-Written [] done {b} v e = record {
  valid = v;
  count = omega arith;
  elements = rw (take-nil ℕ (b.capacity - b.count), append-nil) refl;
}
writen_loop-Written (x ∷ es) done {b} v e = elim (Bool-cases (ltb b.count b.capacity)) [
  | inl room ↦ ground (
    arith,
    write-default x v e,
    write-default-contents x v e,
    writen_loop-Written es (done + 1) (write-IsValid x v),
    take-cons (b.capacity - b.count) x es,
    append_assoc (contents b) (x ∷ []) (take (b.capacity - b.count - 1) es),
  )
  | inr full ↦ ground (
    arith,
    write-default x v e,
    write-default-contents x v e,
    write-IsValid x v,
    append-nil (contents b),
  )
]

-- In the default mode `writen` stores as many elements as there is room for, in order behind the
-- others, returns their number and keeps the invariant.
pub writen_lem :
    {b : Buffer} (es : List ℕ)
    → IsValid b
    → b.flag ≡ default
    → let (n, b') = writen b es in
      (n ≡ min (length es) (b.capacity - b.count))
      × (contents b' ≡ contents b ++ take (b.capacity - b.count) es)
      × IsValid b'
unfolding writen
writen_lem es v e = ground (arith, writen_loop-Written es 0 v e)
