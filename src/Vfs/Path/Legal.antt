-- ===== src/Vfs/Path/Legal.antt =====
-- What fileNameIsLegal makes of strchr: the characters of a name never count.
use power_pc_demo_os.Common.{
  ℕ, zero, suc, ◌+◌, ◌<◌, ◌≡◌, ◌≢◌, refl, sym, ◌∙◌, Bool, true, false, not, ◌&&◌, ◌||◌, Option,
  some, ◌==◌, if◌then◌else◌, bind_some, Bool-cases, inl, inr, arith,
}
use power_pc_demo_os.CString.{Bytes, IsString, start, tail-IsString, head_char}
use power_pc_demo_os.CString.Search.{strchr-null, strrchr_lem, IsLast, promote}
use power_pc_demo_os.Vfs.Path.{is_dots, legal_loop, file_name_is_legal}

legal_loop_lem :
    (fuel : ℕ) (m : Bytes) (illegal p n : ℕ)
    → m illegal ≢ 0
    → IsString m p n
    → n < fuel
    → legal_loop fuel m illegal p ≡ some true
unfolding legal_loop
legal_loop_lem zero m illegal p n i h f = absurd (omega arith)
legal_loop_lem (suc fuel) m illegal p zero i h f = let z = sym (start m p) ∙ h.0 in rw z refl
legal_loop_lem (suc fuel) m illegal p (suc n) i h f =
    let nz : (m p == 0) ≡ false = ground (arith, head_char m p n h) in
    let missed = strchr-null (suc fuel) m illegal (m p) i (omega arith) in
    rw (nz, missed)
      (legal_loop_lem fuel m illegal (p + 1) n i (tail-IsString m p n h) (omega arith))

-- With fuel above the length of a name that is not empty, fileNameIsLegal looks at what is behind the
-- last separator only: it refuses a name that has one and nothing, `.` or `..` behind it, and takes any
-- other, whatever characters are in it.
pub file_name_is_legal_lem :
    (fuel : ℕ) (m : Bytes) (illegal name n : ℕ)
    → m illegal ≢ 0
    → name ≢ 0
    → IsString m name (suc n)
    → suc n < fuel
    → (last : ℕ) × IsLast (λ p. promote (m p) == b'/') name (suc n) last
      × (file_name_is_legal fuel m illegal name
          ≡ some (not (not (last == 0) && is_dots m (last + 1))))
unfolding file_name_is_legal
file_name_is_legal_lem fuel m illegal name n i some_name h f =
    let (last, found, spec) = strrchr_lem fuel m name (suc n) b'/' h f in
    let nz : ((name == 0) || (m name == 0)) ≡ false = ground (arith, head_char m name n h) in
    (last, spec, rw nz (bind_some tested found ∙ answer last))
  where
    tested : ℕ → Option Bool
    tested last =
        if not (last == 0) && is_dots m (last + 1)
        then some false
        else legal_loop fuel m illegal name

    answer : (last : ℕ) → tested last ≡ some (not (not (last == 0) && is_dots m (last + 1)))
    answer last = elim (Bool-cases (not (last == 0) && is_dots m (last + 1))) [
      | inl dots ↦ rw dots refl
      | inr fine ↦ rw fine (legal_loop_lem fuel m illegal name (suc n) i h f)
    ]
