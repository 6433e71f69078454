-- ===== src/Version/Order.antt =====
-- What `Version.LessThan` of objectbox/version.go decides, against the order of semantic versions.
use objectbox_go.Base.{true, false, ◌≡◌, ◌⊎◌, ◌↔◌, arith}
use objectbox_go.Base.Int.{◌<ℤ◌, ◌≤ℤ◌}
use objectbox_go.Version.{Version, less_than, greater_than_or_equal_to}

-- Every component at most the other's, and one of them less.
abbrev pub Dominated : Version → Version → Type 0
Dominated v w =
    (v.major ≤ℤ w.major)
    × (v.minor ≤ℤ w.minor)
    × (v.patch ≤ℤ w.patch)
    × ((v.major <ℤ w.major) ⊎ (v.minor <ℤ w.minor) ⊎ (v.patch <ℤ w.patch))

-- The order of semantic versions: the first component that differs decides.
abbrev pub Precedes : Version → Version → Type 0
Precedes v w =
    (v.major <ℤ w.major)
    ⊎ ((v.major ≡ w.major) × ((v.minor <ℤ w.minor) ⊎ ((v.minor ≡ w.minor) × (v.patch <ℤ w.patch))))

-- `LessThan` holds exactly when no component is greater than the other version's and one is less.
pub less_than-Dominated : (v w : Version) → (less_than v w ≡ true) ↔ Dominated v w
unfolding less_than
less_than-Dominated v w = ground arith

-- A version that `LessThan` puts before another does precede it as a semantic version.
pub less_than-Precedes : (v w : Version) → less_than v w ≡ true → Precedes v w
unfolding less_than
less_than-Precedes v w h = ground arith

-- `LessThan` is transitive, and never holds both ways round; so it is a strict partial order.
pub less_than_trans :
    (u v w : Version)
    → less_than u v ≡ true
    → less_than v w ≡ true
    → (less_than u w ≡ true) × (less_than v u ≡ false)
less_than_trans u v w h k =
    let a = (less_than-Dominated u v).0 h in
    let b = (less_than-Dominated v w).0 k in
    ((less_than-Dominated u w).1 (omega arith), unfold less_than in ground arith)

-- Whenever a version has a lesser major and a greater minor or patch number, `LessThan` fails both
-- ways round and `GreaterThanOrEqualTo` holds both ways round, although the version precedes.
pub less_than_misses :
    (v w : Version)
    → v.major <ℤ w.major
    → (w.minor <ℤ v.minor) ⊎ (w.patch <ℤ v.patch)
    → Precedes v w
      × (less_than v w ≡ false)
      × (less_than w v ≡ false)
      × (greater_than_or_equal_to v w ≡ true)
      × (greater_than_or_equal_to w v ≡ true)
unfolding less_than greater_than_or_equal_to
less_than_misses v w h k = ground arith
