-- ===== src/Version.antt =====
-- objectbox/version.go: `Version`, its order, and the minimum versions that objectbox/builder.go
-- compares the loaded library with.
pub mod Order
pub mod Examples
use objectbox_go.Base.{Bool, true, false, not, ◌&&◌, String, if◌then◌else◌}
use objectbox_go.Base.Int.{ℤ, pos, ltb_ℤ, eqb_ℤ}

pub record Version : Type 0 where
  pub major : ℤ
  pub minor : ℤ
  pub patch : ℤ
  pub label : String

unfoldable pub less_than : Version → Version → Bool
less_than v other =
    if ltb_ℤ other.major v.major
    then false
    else if ltb_ℤ other.minor v.minor
    then false
    else if ltb_ℤ other.patch v.patch
    then false
    else if eqb_ℤ v.major other.major && eqb_ℤ v.minor other.minor && eqb_ℤ v.patch other.patch
    then false
    else true

unfoldable pub greater_than_or_equal_to : Version → Version → Bool
greater_than_or_equal_to v other = not (less_than v other)

abbrev pub version_go : Version
version_go = record { major = pos 1; minor = pos 8; patch = pos 1; label = "" }

-- VersionLib; the three numbers are those that obx_version gives, each a C int.
unfoldable pub version_lib : ℤ × ℤ × ℤ → Version
version_lib (major, minor, patch) = record {
  major = major;
  minor = minor;
  patch = patch;
  label = "";
}

-- The version in objectbox/objectbox.h.
abbrev pub version_lib_static : Version
version_lib_static = record { major = pos 0; minor = pos 21; patch = pos 0; label = "" }

abbrev pub version_lib_min : Version
version_lib_min = record { major = pos 0; minor = pos 21; patch = pos 0; label = "" }

abbrev pub version_lib_min_recommended : Version
version_lib_min_recommended = record { major = pos 0; minor = pos 21; patch = pos 0; label = "" }
