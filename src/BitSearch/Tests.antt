-- ===== src/BitSearch/Tests.antt =====
-- Runs of the bit search.
use power_pc_demo_os.Common.{◌^◌, ◌-◌, ◌≡◌, refl, arith}
use power_pc_demo_os.BitSearch.{find_highest32, find_highest64, find_lowest32, find_lowest64}
use power_pc_demo_os.BitSearch.Highest.{IsHighest, find_highest32-IsHighest}

none_set : find_highest32 0 ≡ 0
unfolding find_highest32
none_set = refl

all_set : find_highest64 (2 ^ 64 - 1) ≡ 64
unfolding find_highest64 find_highest32
all_set = refl

find_highest32-IsHighest_example : IsHighest 70000 (find_highest32 70000)
find_highest32-IsHighest_example = find_highest32-IsHighest 70000 (omega arith) (omega arith)

lowest_run : find_lowest64 (2 ^ 40) ≡ 41
unfolding find_lowest64 find_lowest32
lowest_run = refl
