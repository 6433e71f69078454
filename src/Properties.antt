-- ===== src/Properties.antt =====
-- objectbox/property.go: the conditions on a property, by the property's kind. A signed integer is a ℤ
-- of its width and an unsigned one a ℕ; `F` is float64 and `F32` is float32. The kinds' methods that
-- share a body are the fields of a record, and each kind has the record of its conversion.
pub mod Kinds
pub use Kinds.*
use objectbox_go.Base.{
  ℕ, Option, none, some, Bool, true, false, String, List, map, Exec, ◌>>=◌, ◌>>◌, if◌then◌else◌,
}
use objectbox_go.Base.Int.{ℤ, pos}
use objectbox_go.Native.Words.{to_int64, to_int32}
use objectbox_go.QueryBuilder.{
  State, ConditionId, Property, QueryApi, order_asc, order_desc, order_nil_last, order_nil_as_zero,
  order_case_sensitive,
}
use objectbox_go.QueryBuilder.Methods.{
  is_nil, is_not_nil, string_equals, string_in, string_contains, string_has_prefix,
  string_has_suffix, string_not_equals, string_greater, string_less, string_vector_contains,
  int_between, int_equal, int_not_equal, int_greater, int_less, int64_in, int64_not_in, int32_in,
  int32_not_in, double_greater, double_less, double_between, bytes_equal, bytes_greater, bytes_less,
}
use objectbox_go.Condition.{Condition, condition_closure, order_closure, RelationToOne}

module _ {W F : Type 0} (api : QueryApi W F) (property : Property) where
  abbrev pub method : Exec (State W) ConditionId → Condition W
  method apply = condition_closure apply none

  abbrev pub ordering : Exec (State W) Unit → Condition W
  ordering apply = order_closure apply none

  unfoldable pub base_nils : Nils W
  unfolding is_nil is_not_nil
  base_nils = record {
    is_nil = method (is_nil api property);
    is_not_nil = method (is_not_nil api property);
  }

  unfoldable pub base_orders : Orders W
  unfolding order_asc order_desc order_nil_last order_nil_as_zero
  base_orders = record {
    asc = ordering (order_asc api property);
    desc = ordering (order_desc api property);
    nil_last = ordering (order_nil_last api property);
    nil_as_zero = ordering (order_nil_as_zero api property);
  }

  -- What the integer kinds share; `to` is the conversion int64(…).
  unfoldable pub integer_equalities : {A : Type 0} → (A → ℤ) → Equalities A W
  unfolding int_equal int_not_equal
  integer_equalities to = record {
    equals = λ value. method (int_equal api property (to value));
    not_equals = λ value. method (int_not_equal api property (to value));
  }

  unfoldable pub integer_property : {A : Type 0} → (A → ℤ) → IntegerProperty A W
  unfolding int_greater int_less int_between integer_equalities base_orders
  integer_property to = record {
    equalities = integer_equalities to;
    comparisons = record {
      greater_than = λ value. method (int_greater api property (to value) false);
      greater_or_equal = λ value. method (int_greater api property (to value) true);
      less_than = λ value. method (int_less api property (to value) false);
      less_or_equal = λ value. method (int_less api property (to value) true);
    };
    between = λ a b. method (int_between api property (to a) (to b));
    orders = base_orders;
  }

  unfoldable pub membership64 : {A : Type 0} → (A → ℤ) → Membership A W
  unfolding int64_in int64_not_in
  membership64 to = record {
    one_of = λ values. method (int64_in api property (map to values));
    none_of = λ values. method (int64_not_in api property (map to values));
  }

  unfoldable pub membership32 : {A : Type 0} → (A → ℤ) → Membership A W
  unfolding int32_in int32_not_in
  membership32 to = record {
    one_of = λ values. method (int32_in api property (map to values));
    none_of = λ values. method (int32_not_in api property (map to values));
  }

  unfoldable pub property_int64 : WideIntegerProperty ℤ W
  unfolding integer_property membership64
  property_int64 = record {
    integer = integer_property (λ value. value);
    membership = membership64 (λ value. value);
  }

  unfoldable pub property_int : WideIntegerProperty ℤ W
  unfolding integer_property membership64
  property_int = record {
    integer = integer_property (λ value. value);
    membership = membership64 (λ value. value);
  }

  unfoldable pub property_uint64 : WideIntegerProperty ℕ W
  unfolding integer_property membership64
  property_uint64 = record {
    integer = integer_property to_int64;
    membership = membership64 to_int64;
  }

  unfoldable pub property_uint : WideIntegerProperty ℕ W
  unfolding integer_property membership64
  property_uint = record { integer = integer_property to_int64; membership = membership64 to_int64 }

  unfoldable pub property_rune : WideIntegerProperty ℤ W
  unfolding integer_property membership32
  property_rune = record {
    integer = integer_property (λ value. value);
    membership = membership32 (λ value. value);
  }

  unfoldable pub property_int32 : WideIntegerProperty ℤ W
  unfolding integer_property membership32
  property_int32 = record {
    integer = integer_property (λ value. value);
    membership = membership32 (λ value. value);
  }

  unfoldable pub property_uint32 : WideIntegerProperty ℕ W
  unfolding integer_property membership32
  property_uint32 = record {
    integer = integer_property to_int64;
    membership = membership32 to_int32;
  }

  unfoldable pub property_int16 : IntegerProperty ℤ W
  unfolding integer_property
  property_int16 = integer_property (λ value. value)

  unfoldable pub property_uint16 : IntegerProperty ℕ W
  unfolding integer_property
  property_uint16 = integer_property to_int64

  unfoldable pub property_int8 : IntegerProperty ℤ W
  unfolding integer_property
  property_int8 = integer_property (λ value. value)

  unfoldable pub property_uint8 : IntegerProperty ℕ W
  unfolding integer_property
  property_uint8 = integer_property to_int64

  unfoldable pub property_byte : IntegerProperty ℕ W
  unfolding integer_property
  property_byte = integer_property to_int64

  unfoldable pub float_property : {A : Type 0} → (A → F) → FloatProperty A W
  unfolding double_greater double_less double_between base_orders
  float_property to = record {
    comparisons = record {
      greater_than = λ value. method (double_greater api property (to value) false);
      greater_or_equal = λ value. method (double_greater api property (to value) true);
      less_than = λ value. method (double_less api property (to value) false);
      less_or_equal = λ value. method (double_less api property (to value) true);
    };
    between = λ a b. method (double_between api property (to a) (to b));
    orders = base_orders;
  }

  unfoldable pub property_float64 : FloatProperty F W
  unfolding float_property
  property_float64 = float_property (λ value. value)

  -- `widen` is the conversion float64(…).
  unfoldable pub property_float32 : {F32 : Type 0} → (F32 → F) → FloatProperty F32 W
  unfolding float_property
  property_float32 widen = float_property widen

  unfoldable pub property_string : StringProperty W
  unfolding string_equals string_in string_contains string_has_prefix string_has_suffix
      string_not_equals string_greater string_less base_orders order_asc order_desc
      order_case_sensitive
  property_string = record {
    equalities = λ sensitive. record {
      equals = λ text. method (string_equals api property text sensitive);
      not_equals = λ text. method (string_not_equals api property text sensitive);
    };
    comparisons = λ sensitive. record {
      greater_than = λ text. method (string_greater api property text sensitive false);
      greater_or_equal = λ text. method (string_greater api property text sensitive true);
      less_than = λ text. method (string_less api property text sensitive false);
      less_or_equal = λ text. method (string_less api property text sensitive true);
    };
    contains = λ text sensitive. method (string_contains api property text sensitive);
    has_prefix = λ text sensitive. method (string_has_prefix api property text sensitive);
    has_suffix = λ text sensitive. method (string_has_suffix api property text sensitive);
    one_of = λ sensitive texts. method (string_in api property texts sensitive);
    asc = λ sensitive.
        ordering (order_asc api property >> order_case_sensitive api property sensitive);
    desc = λ sensitive.
        ordering (order_desc api property >> order_case_sensitive api property sensitive);
    nil_last = base_orders.nil_last;
  }

  -- PropertyStringVector's only condition
  unfoldable pub vector_contains : String → Bool → Condition W
  unfolding string_vector_contains
  vector_contains text sensitive = method (string_vector_contains api property text sensitive)

  unfoldable pub property_byte_vector : BytesProperty W
  unfolding bytes_equal bytes_greater bytes_less
  property_byte_vector = record {
    equals = λ value. method (bytes_equal api property value);
    comparisons = record {
      greater_than = λ value. method (bytes_greater api property value false);
      greater_or_equal = λ value. method (bytes_greater api property value true);
      less_than = λ value. method (bytes_less api property value false);
      less_or_equal = λ value. method (bytes_less api property value true);
    };
  }

  unfoldable pub property_bool : BoolProperty W
  unfolding int_equal base_orders
  property_bool = record {
    equals = λ value.
        method (if value then int_equal api property (pos 1) else int_equal api property (pos 0));
    orders = base_orders;
  }

-- RelationToOne's own conditions on the identifier of the target
unfoldable pub target_equalities : {W F : Type 0} → QueryApi W F → RelationToOne → Equalities ℕ W
unfolding integer_equalities
target_equalities api relation = integer_equalities api relation.property to_int64

unfoldable pub target_membership : {W F : Type 0} → QueryApi W F → RelationToOne → Membership ℕ W
unfolding membership64
target_membership api relation = membership64 api relation.property to_int64
