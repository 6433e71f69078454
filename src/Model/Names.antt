-- ===== src/Model/Names.antt =====
-- Go maps whose keys are texts, for the entities by name of objectbox/model.go.
use objectbox_go.Base.{
  ◌≡◌, refl, ◌↔◌, Bool, true, Option, none, some, List, [], ◌∷◌, String, if◌then◌else◌,
}
use text.Mathlib.Text.{◌==◌ as str_eq}
use text.Mathlib.TextEquality.{eq_iff}

unfoldable pub same_name : String → String → Bool
same_name a b = str_eq a b

pub same_name_iff : (a b : String) → (same_name a b ≡ true) ↔ (a ≡ b)
unfolding same_name
same_name_iff a b = eq_iff a b

pub same_name_refl : (a : String) → same_name a a ≡ true
same_name_refl a = (same_name_iff a a).1 refl

module _ {ℓ} {V : Type ℓ} where
  abbrev pub find_name : String → List (String × V) → Option V
  find_name k [] = none
  find_name k ((j, v) ∷ m) = if same_name j k then some v else find_name k m

  -- m[k] = v for a name that is not a key yet.
  abbrev pub add_name : String → V → List (String × V) → List (String × V)
  add_name k v m = (k, v) ∷ m
