-- ===== src/Properties/Kinds.antt =====
-- The methods of the kinds of properties in objectbox/property.go, as the fields of records.
use objectbox_go.Base.{ℕ, Bool, String, List}
use objectbox_go.Condition.{Condition}

pub record Nils (W : Type 0) : Type 0 where
  pub is_nil : Condition W
  pub is_not_nil : Condition W

pub record Orders (W : Type 0) : Type 0 where
  pub asc : Condition W
  pub desc : Condition W
  pub nil_last : Condition W
  pub nil_as_zero : Condition W

pub record Equalities (A W : Type 0) : Type 0 where
  pub equals : A → Condition W
  pub not_equals : A → Condition W

pub record Comparisons (A W : Type 0) : Type 0 where
  pub greater_than : A → Condition W
  pub greater_or_equal : A → Condition W
  pub less_than : A → Condition W
  pub less_or_equal : A → Condition W

-- In and NotIn
pub record Membership (A W : Type 0) : Type 0 where
  pub one_of : List A → Condition W
  pub none_of : List A → Condition W

pub record IntegerProperty (A W : Type 0) : Type 0 where
  pub equalities : Equalities A W
  pub comparisons : Comparisons A W
  pub between : A → A → Condition W
  pub orders : Orders W

pub record WideIntegerProperty (A W : Type 0) : Type 0 where
  pub integer : IntegerProperty A W
  pub membership : Membership A W

pub record FloatProperty (A W : Type 0) : Type 0 where
  pub comparisons : Comparisons A W
  pub between : A → A → Condition W
  pub orders : Orders W

pub record StringProperty (W : Type 0) : Type 0 where
  pub equalities : Bool → Equalities String W
  pub comparisons : Bool → Comparisons String W
  pub contains : String → Bool → Condition W
  pub has_prefix : String → Bool → Condition W
  pub has_suffix : String → Bool → Condition W
  pub one_of : Bool → List String → Condition W
  pub asc : Bool → Condition W
  pub desc : Bool → Condition W
  pub nil_last : Condition W

pub record BytesProperty (W : Type 0) : Type 0 where
  pub equals : List ℕ → Condition W
  pub comparisons : Comparisons (List ℕ) W

pub record BoolProperty (W : Type 0) : Type 0 where
  pub equals : Bool → Condition W
  pub orders : Orders W
