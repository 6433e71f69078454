-- ===== src/Version/Examples.antt =====
-- Versions compared by `LessThan`.
use objectbox_go.Base.{◌≡◌, refl, true, false, inl, arith}
use objectbox_go.Base.Int.{pos}
use objectbox_go.Version.{
  Version, less_than, greater_than_or_equal_to, version_lib, version_lib_static, version_lib_min,
  version_lib_min_recommended,
}
use objectbox_go.Version.Order.{Precedes, less_than_misses}

abbrev zeros : Version
zeros = record { major = pos 0; minor = pos 0; patch = pos 0; label = "" }

-- 1.9.0 and 2.0.0
abbrev old_major : Version
old_major = record { major = pos 1; minor = pos 9; patch = pos 0; label = "" }

abbrev new_major : Version
new_major = record { major = pos 2; minor = pos 0; patch = pos 0; label = "" }

abbrev newer_lib : Version
newer_lib = record { major = pos 0; minor = pos 21; patch = pos 3; label = "" }

less_than_misses_example :
    Precedes old_major new_major
    × (less_than old_major new_major ≡ false)
    × (less_than new_major old_major ≡ false)
    × (greater_than_or_equal_to old_major new_major ≡ true)
    × (greater_than_or_equal_to new_major old_major ≡ true)
less_than_misses_example = less_than_misses old_major new_major (omega arith) (inl (omega arith))

-- The library that the binding is compiled against is at least the recommended one.
static : less_than version_lib_static version_lib_min_recommended ≡ false
unfolding less_than
static = refl

loaded : less_than (version_lib (pos 0, pos 20, pos 5)) version_lib_min ≡ false
unfolding less_than version_lib
loaded = refl
