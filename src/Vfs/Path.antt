-- ===== src/Vfs/Path.antt =====
-- The functions of kernel/src/vfs/vfs.cpp on paths in memory, over the C library's string functions.
pub mod Compact
pub mod Legal
pub mod Absolute
use power_pc_demo_os.Common.{
  ℕ, zero, suc, ◌+◌, ◌-◌, Bool, true, false, not, ◌&&◌, ◌||◌, Option, none, some, ◌==◌, ltb, leb,
  if◌then◌else◌, ◌>>=◌, update,
}
use power_pc_demo_os.CString.{Bytes}
use power_pc_demo_os.CString.Cut.{strncat, sstrncpy}
use power_pc_demo_os.CString.Search.{strchr, strrchr}

-- `isSeparator`, `isComponentEnd`.
abbrev pub is_separator : ℕ → Bool
is_separator c = (c == b'/') || (c == b'\\')

abbrev pub is_component_end : ℕ → Bool
is_component_end c = (c == 0) || is_separator c

-- `do out--; while (out > erasePoint && *out != '/')`, which is reached with `out` above it.
unfoldable pub back : ℕ → Bytes → ℕ → ℕ → ℕ
back zero m erase out = out
back (suc left) m erase out =
    let rest = back left m erase (out - 1) in
    if ltb erase (out - 1) && not (m (out - 1) == b'/') then rest else out - 1

-- The character `c`, behind a separator where it begins a component that is not the first.
abbrev pub put : Bytes → ℕ → ℕ → Bool → ℕ → Bytes × ℕ
put m begin out check c =
    if check && ltb begin out
    then (update (update m out b'/') (out + 1) c, out + 2)
    else (update m out c, out + 1)

abbrev pub keep : Bytes → ℕ → ℕ → Bool → ℕ → ℕ → Bytes × ℕ × ℕ × Bool
keep m begin out check c next = let (m', out') = put m begin out check c in (m', next, out', false)

-- One round for the character at `place`, which is not EOS: the memory, `in`, `out` and `checkDot`.
unfoldable pub compact_step : Bytes → ℕ → ℕ → ℕ → Bool → Bytes × ℕ × ℕ × Bool
compact_step m begin place out check =
    let c = m place in
    let next = place + 1 in
    if is_separator c
    then (m, next, out, true)
    else if check && (c == b'.') && is_component_end (m next)
    then (m, next, out, check)
    else if check && (c == b'.') && (m next == b'.') && is_component_end (m (next + 1))
    then (if ltb begin out
        then (m, next + 1, back (out - begin) m begin out, check)
        else keep m begin out check c (next + 1))
    else keep m begin out check c next

unfoldable pub compact_loop : ℕ → Bytes → ℕ → ℕ → ℕ → Bool → Option Bytes
compact_loop zero m begin place out check = none
compact_loop (suc fuel) m begin place out check =
    let (m', place', out', check') = compact_step m begin place out check in
    let rest = compact_loop fuel m' begin place' out' check' in
    if m place == 0 then some (update m out 0) else rest

-- `erasePoint` and `startPoint` are `begin`.
unfoldable pub compact_path : ℕ → Bytes → ℕ → Option Bytes
compact_path fuel m path =
    let rest = compact_loop fuel m (path + 1) (path + 1) (path + 1) true in
    if (path == 0) || (m path == 0) || not (m path == b'/') then some m else rest

-- `illegal` is the address of `_fileNameIllegalCharStr`.
unfoldable pub legal_loop : ℕ → Bytes → ℕ → ℕ → Option Bool
legal_loop zero m illegal p = none
legal_loop (suc fuel) m illegal p =
    let rest = legal_loop fuel m illegal (p + 1) in
    let tested = (do
      found ← strchr (suc fuel) m illegal (m p)
      if not (found == 0) then some false else rest) in
    if m p == 0 then some true else tested

-- The last component is empty, `.` or `..`.
abbrev pub is_dots : Bytes → ℕ → Bool
is_dots m p =
    (m p == 0) || ((m p == b'.') && ((m (p + 1) == 0) || ((m (p + 1) == b'.') && (m (p + 2) == 0))))

unfoldable pub file_name_is_legal : ℕ → Bytes → ℕ → ℕ → Option Bool
file_name_is_legal fuel m illegal name =
    let tested = (do
      last ← strrchr fuel m name b'/'
      if not (last == 0) && is_dots m (last + 1)
          then some false
          else legal_loop fuel m illegal name) in
    if (name == 0) || (m name == 0) then some false else tested

-- `cwd` is the address that `curThread->cwd()` returns. NULL stands for a result that is cut.
unfoldable pub absolute_path : ℕ → Bytes → ℕ → ℕ → ℕ → ℕ → Option (ℕ × Bytes)
absolute_path fuel m dst dst_size cwd relative =
    let (m1, n) = sstrncpy m dst cwd dst_size in
    let joined = (do m2 ← strncat fuel m1 dst relative (dst_size - n); some (dst, m2)) in
    if leb dst_size n then some (0, m1) else joined
