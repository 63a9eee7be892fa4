-- ===== src/Vfs/Path/Compact.antt =====
-- compactPath stays within the path that it is given.
use power_pc_demo_os.Common.{
  ℕ, zero, suc, ◌+◌, ◌-◌, ◌≤◌, ◌<◌, ◌≡◌, ◌≢◌, ◌⊎◌, refl, ap, ◌∙◌, Bool, true, false, not, ◌&&◌,
  ◌||◌, some, ◌==◌, ltb, if◌then◌else◌, update, Bool-cases, inl, inr, arith,
}
use power_pc_demo_os.CString.{Bytes, IsString}
use power_pc_demo_os.Vfs.Path.{
  is_separator, is_component_end, back, keep, compact_step, compact_loop, compact_path,
}

-- A character that is put behind a separator needs the place of one that has been read.
abbrev pending : ℕ → ℕ → Bool → ℕ
pending begin out check = if check && ltb begin out then 1 else 0

module _ (m0 : Bytes) (begin last : ℕ) where
  -- The text that is kept lies before the text to be read, and the rest of the memory is as it was.
  abbrev IsWithin : Bytes → ℕ → ℕ → Bool → Type 0
  IsWithin m place out check =
      (place ≤ last)
      × (begin ≤ out)
      × (out + pending begin out check ≤ place)
      × (m last ≡ 0)
      × ((p : ℕ) → place ≤ p → p < last → m p ≢ 0)
      × ((p : ℕ) → begin ≤ p → p < out → m p ≢ 0)
      × ((p : ℕ) → ((p < begin) ⊎ (last < p)) → m p ≡ m0 p)

  back_lem :
      (left : ℕ) (m : Bytes) (out : ℕ)
      → begin < out
      → 0 < left
      → out ≤ begin + left
      → (begin ≤ back left m begin out) × (back left m begin out < out)
  unfolding back
  back_lem zero m out b p l = absurd (omega arith)
  back_lem (suc left) m out b p l =
      elim (Bool-cases (ltb begin (out - 1) && not (m (out - 1) == b'/'))) [
        | inr stop ↦ rw stop (omega arith, omega arith)
        | inl on ↦
            let ih = back_lem left m (out - 1) (ground arith) (ground arith) (omega arith) in
            rw on (ih.0, omega (arith, ih.1))
      ]

  -- A character kept.
  keep-IsWithin :
      (m : Bytes) (place out next : ℕ) (check : Bool)
      → place < last
      → place < next
      → next ≤ last
      → IsWithin m place out check
      → let (m', place', out', check') = keep m begin out check (m place) next in
        (place' ≡ next) × IsWithin m' place' out' check'
  keep-IsWithin m place out next check lt on le (a, b, c, d, e, f, g) =
      let nz = e place (omega arith) lt in
      elim (Bool-cases (check && ltb begin out)) [
        | inl behind ↦
            let room : out + 1 ≤ place = ground arith in
            rw behind (
              refl,
              (
                le,
                omega arith,
                omega arith,
                ground arith,
                λ p lo hi z. ground (arith, e p),
                λ p lo hi z. ground (arith, f p),
                λ p o. ground (arith, g p o),
              ),
            )
        | inr first ↦
            let room : out ≤ place = ground arith in
            rw first (
              refl,
              (
                le,
                omega arith,
                omega arith,
                ground arith,
                λ p lo hi z. ground (arith, e p),
                λ p lo hi z. ground (arith, f p),
                λ p o. ground (arith, g p o),
              ),
            )
      ]

  pending-le : (out : ℕ) (check : Bool) → pending begin out check ≤ 1
  pending-le out check = elim (Bool-cases (check && ltb begin out)) [
    | inl some_place ↦ rw some_place (omega arith)
    | inr none_left ↦ rw none_left (omega arith)
  ]

  before_end : (p : ℕ) (m : Bytes) → m p ≡ b'.' → m last ≡ 0 → p ≤ last → p < last
  before_end p m dot d le = elim (Bool-cases (p == last)) [
    | inl same ↦ let e : p ≡ last = ground arith in let q = ap m e in absurd (ground arith)
    | inr other ↦ ground arith
  ]

  -- A round keeps to it, and reads at least one character.
  compact_step-IsWithin :
      (m : Bytes) (place out : ℕ) (check : Bool)
      → place < last
      → IsWithin m place out check
      → let (m', place', out', check') = compact_step m begin place out check in
        (place < place') × IsWithin m' place' out' check'
  unfolding compact_step
  compact_step-IsWithin m place out check lt w =
      let (a, b, c, d, e, f, g) = w in
      elim (Bool-cases (is_separator (m place))) [
        | inl separator ↦
            rw separator
              (omega arith, (omega arith, b, ground arith, d, λ p lo. e p (omega arith), f, g))
        | inr other ↦
            elim (Bool-cases (check && (m place == b'.') && is_component_end (m (place + 1)))) [
              | inl dot ↦
                  rw (other, dot)
                    (
                      omega arith,
                      (omega arith, b, ground arith, d, λ p lo. e p (omega arith), f, g),
                    )
              | inr no_dot ↦
                  elim (Bool-cases (
                    check
                    && (m place == b'.')
                    && (m (place + 1) == b'.')
                    && is_component_end (m (place + 1 + 1)))) [
                      | inr single ↦
                          let (q, k) =
                            keep-IsWithin m place out (place + 1) check lt (omega arith)
                              (omega arith) w in
                          rw (other, no_dot, single) (omega arith, k)
                      | inl dots ↦
                          let inside : place + 1 < last =
                            before_end (place + 1) m (ground arith) d (omega arith) in
                          elim (Bool-cases (ltb begin out)) [
                            | inr top ↦
                                let (q, k) =
                                  keep-IsWithin m place out (place + 1 + 1) check lt (omega arith)
                                    (omega arith) w in
                                rw (other, no_dot, dots, top) (omega arith, rw top at k)
                            | inl some_out ↦
                                let (low, high) =
                                  back_lem (out - begin) m out (ground arith) (ground arith)
                                    (omega arith) in
                                let o = back (out - begin) m begin out in
                                let room : o + pending begin o check ≤ place + 1 + 1 =
                                  omega (arith, pending-le o check) in
                                rw (other, no_dot, dots, some_out)
                                  (
                                    omega arith,
                                    (
                                      omega arith,
                                      low,
                                      room,
                                      d,
                                      λ p lo. e p (omega arith),
                                      λ p lo hi. f p lo (omega arith),
                                      g,
                                    ),
                                  )
                          ]
                    ]
            ]
      ]

  compact_loop_lem :
      (fuel : ℕ) (m : Bytes) (place out : ℕ) (check : Bool)
      → IsWithin m place out check
      → last - place < fuel
      → (m' : Bytes) × (end : ℕ) × (compact_loop fuel m begin place out check ≡ some m')
        × (begin ≤ end)
        × (end ≤ last)
        × (m' end ≡ 0)
        × ((p : ℕ) → begin ≤ p → p < end → m' p ≢ 0)
        × ((p : ℕ) → ((p < begin) ⊎ (last < p)) → m' p ≡ m0 p)
  unfolding compact_loop
  compact_loop_lem zero m place out check w f = absurd (omega arith)
  compact_loop_lem (suc fuel) m place out check w f = elim (Bool-cases (m place == 0)) [
    | inl eos ↦
        let (a, b, c, d, e, f, g) = w in
        (
          update m out 0,
          out,
          rw eos refl,
          b,
          omega arith,
          ground arith,
          λ p lo hi z. ground (arith, f p),
          λ p o. ground (arith, g p o),
        )
    | inr some_char ↦
        let lt : place < last = not_end m place (w.0) (w.3) (ground arith) in
        let (later, w') = compact_step-IsWithin m place out check lt w in
        let r = compact_step m begin place out check in
        let all = compact_loop_lem fuel r.0 r.1 r.2 r.3 w' (omega arith) in rw some_char all
  ]
    where
      not_end : (m : Bytes) (p : ℕ) → p ≤ last → m last ≡ 0 → m p ≢ 0 → p < last
      not_end m p le d nz = elim (Bool-cases (p == last)) [
        | inl same ↦ let e : p ≡ last = ground arith in absurd (nz (ap m e ∙ d))
        | inr other ↦ ground arith
      ]

char_of : (m : Bytes) (s n p : ℕ) → IsString m s n → s ≤ p → p < s + n → m p ≢ 0
char_of m s n p h lo hi e =
    h.1 (p - s) (omega arith) (ap m {x = s + (p - s)} {y = p} (omega arith) ∙ e)

IsString-slash :
    (m : Bytes) (path end : ℕ)
    → path + 1 ≤ end
    → m path ≡ b'/'
    → m end ≡ 0
    → ((p : ℕ) → path + 1 ≤ p → p < end → m p ≢ 0)
    → IsString m path (end - path)
IsString-slash m path end lo slash eos inner =
    (ap m {x = path + (end - path)} {y = end} (omega arith) ∙ eos, some_char)
  where
    some_char : (i : ℕ) → i < end - path → m (path + i) ≢ 0
    some_char zero lt =
        λ z. let e = ap m {x = path + 0} {y = path} (omega arith) in absurd (ground arith)
    some_char (suc i) lt = inner (path + suc i) (omega arith) (omega arith)

-- compactPath of an absolute path, with fuel above its length, ends with an absolute path that is not
-- longer, in the same place, and changes no byte outside the one that it was given.
pub compact_path_lem :
    (fuel : ℕ) (m : Bytes) (path n : ℕ)
    → path ≢ 0
    → m path ≡ b'/'
    → IsString m path n
    → n < fuel
    → (m' : Bytes) × (k : ℕ) × (compact_path fuel m path ≡ some m')
      × (k ≤ n)
      × (m' path ≡ b'/')
      × IsString m' path k
      × ((p : ℕ) → ((p < path) ⊎ (path + n < p)) → m' p ≡ m p)
unfolding compact_path
compact_path_lem fuel m path zero some_path slash h f =
    absurd (ground (arith, ap m {x = path + 0} {y = path} (omega arith), h.0))
compact_path_lem fuel m path (suc n) some_path slash h f =
    let starts : ((path == 0) || (m path == 0) || not (m path == b'/')) ≡ false = ground arith in
    let (m', end, r, lo, hi, eos, inner, outer) =
      compact_loop_lem m (path + 1) (path + suc n) fuel m (path + 1) (path + 1) true
        (
          omega arith,
          omega arith,
          ground arith,
          h.0,
          λ p lo hi. char_of m path (suc n) p h (omega arith) hi,
          λ p l u. absurd (omega arith),
          λ p o. refl,
        )
        (omega arith) in
    let slash' = outer path (inl (omega arith)) ∙ slash in
    (
      m',
      end - path,
      rw starts r,
      omega arith,
      slash',
      IsString-slash m' path end lo slash' eos inner,
      λ p o. outer p (ground arith),
    )
