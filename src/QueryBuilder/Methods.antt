-- ===== src/QueryBuilder/Methods.antt =====
-- objectbox/querybuilder.go: the methods of a query builder that add one condition. The C copies of
-- the arguments and their release are part of the C call.
use objectbox_go.Base.{ℕ, Bool, String, List, Exec, if◌then◌else◌}
use objectbox_go.Base.Int.{ℤ}
use objectbox_go.QueryBuilder.{State, ConditionId, Property, add_condition}
use objectbox_go.QueryBuilder.Api.{
  QueryApi, null, not_null, equals_string, in_strings, contains_string, starts_with_string,
  ends_with_string, not_equals_string, greater_or_equal_string, greater_than_string,
  less_or_equal_string, less_than_string, any_equals_string, between_2ints, equals_int,
  not_equals_int, greater_or_equal_int, greater_than_int, less_or_equal_int, less_than_int,
  in_int64s, not_in_int64s, in_int32s, not_in_int32s, greater_or_equal_double, greater_than_double,
  less_or_equal_double, less_than_double, between_2doubles, equals_bytes, greater_or_equal_bytes,
  greater_than_bytes, less_or_equal_bytes, less_than_bytes,
}

module _ {W F : Type 0} (api : QueryApi W F) where
  unfoldable pub is_nil : Property → Exec (State W) ConditionId
  unfolding add_condition
  is_nil property = add_condition api property (null property.id)

  unfoldable pub is_not_nil : Property → Exec (State W) ConditionId
  unfolding add_condition
  is_not_nil property = add_condition api property (not_null property.id)

  unfoldable pub string_equals : Property → String → Bool → Exec (State W) ConditionId
  unfolding add_condition
  string_equals property value case_sensitive =
      add_condition api property (equals_string property.id value case_sensitive)

  unfoldable pub string_in : Property → List String → Bool → Exec (State W) ConditionId
  unfolding add_condition
  string_in property values case_sensitive =
      add_condition api property (in_strings property.id values case_sensitive)

  unfoldable pub string_contains : Property → String → Bool → Exec (State W) ConditionId
  unfolding add_condition
  string_contains property value case_sensitive =
      add_condition api property (contains_string property.id value case_sensitive)

  unfoldable pub string_has_prefix : Property → String → Bool → Exec (State W) ConditionId
  unfolding add_condition
  string_has_prefix property value case_sensitive =
      add_condition api property (starts_with_string property.id value case_sensitive)

  unfoldable pub string_has_suffix : Property → String → Bool → Exec (State W) ConditionId
  unfolding add_condition
  string_has_suffix property value case_sensitive =
      add_condition api property (ends_with_string property.id value case_sensitive)

  unfoldable pub string_not_equals : Property → String → Bool → Exec (State W) ConditionId
  unfolding add_condition
  string_not_equals property value case_sensitive =
      add_condition api property (not_equals_string property.id value case_sensitive)

  unfoldable pub string_greater : Property → String → Bool → Bool → Exec (State W) ConditionId
  unfolding add_condition
  string_greater property value case_sensitive with_equal = add_condition api property (
      if with_equal
      then greater_or_equal_string property.id value case_sensitive
      else greater_than_string property.id value case_sensitive)

  unfoldable pub string_less : Property → String → Bool → Bool → Exec (State W) ConditionId
  unfolding add_condition
  string_less property value case_sensitive with_equal = add_condition api property (
      if with_equal
      then less_or_equal_string property.id value case_sensitive
      else less_than_string property.id value case_sensitive)

  unfoldable pub string_vector_contains : Property → String → Bool → Exec (State W) ConditionId
  unfolding add_condition
  string_vector_contains property value case_sensitive =
      add_condition api property (any_equals_string property.id value case_sensitive)

  unfoldable pub int_between : Property → ℤ → ℤ → Exec (State W) ConditionId
  unfolding add_condition
  int_between property a b = add_condition api property (between_2ints property.id a b)

  unfoldable pub int_equal : Property → ℤ → Exec (State W) ConditionId
  unfolding add_condition
  int_equal property value = add_condition api property (equals_int property.id value)

  unfoldable pub int_not_equal : Property → ℤ → Exec (State W) ConditionId
  unfolding add_condition
  int_not_equal property value = add_condition api property (not_equals_int property.id value)

  unfoldable pub int_greater : Property → ℤ → Bool → Exec (State W) ConditionId
  unfolding add_condition
  int_greater property value with_equal = add_condition api property (
      if with_equal
      then greater_or_equal_int property.id value
      else greater_than_int property.id value)

  unfoldable pub int_less : Property → ℤ → Bool → Exec (State W) ConditionId
  unfolding add_condition
  int_less property value with_equal =
      add_condition api property (
        if with_equal then less_or_equal_int property.id value else less_than_int property.id value)

  unfoldable pub int64_in : Property → List ℤ → Exec (State W) ConditionId
  unfolding add_condition
  int64_in property values = add_condition api property (in_int64s property.id values)

  unfoldable pub int64_not_in : Property → List ℤ → Exec (State W) ConditionId
  unfolding add_condition
  int64_not_in property values = add_condition api property (not_in_int64s property.id values)

  unfoldable pub int32_in : Property → List ℤ → Exec (State W) ConditionId
  unfolding add_condition
  int32_in property values = add_condition api property (in_int32s property.id values)

  unfoldable pub int32_not_in : Property → List ℤ → Exec (State W) ConditionId
  unfolding add_condition
  int32_not_in property values = add_condition api property (not_in_int32s property.id values)

  unfoldable pub double_greater : Property → F → Bool → Exec (State W) ConditionId
  unfolding add_condition
  double_greater property value with_equal = add_condition api property (
      if with_equal
      then greater_or_equal_double property.id value
      else greater_than_double property.id value)

  unfoldable pub double_less : Property → F → Bool → Exec (State W) ConditionId
  unfolding add_condition
  double_less property value with_equal = add_condition api property (
      if with_equal
      then less_or_equal_double property.id value
      else less_than_double property.id value)

  unfoldable pub double_between : Property → F → F → Exec (State W) ConditionId
  unfolding add_condition
  double_between property a b = add_condition api property (between_2doubles property.id a b)

  unfoldable pub bytes_equal : Property → List ℕ → Exec (State W) ConditionId
  unfolding add_condition
  bytes_equal property value = add_condition api property (equals_bytes property.id value)

  unfoldable pub bytes_greater : Property → List ℕ → Bool → Exec (State W) ConditionId
  unfolding add_condition
  bytes_greater property value with_equal = add_condition api property (
      if with_equal
      then greater_or_equal_bytes property.id value
      else greater_than_bytes property.id value)

  unfoldable pub bytes_less : Property → List ℕ → Bool → Exec (State W) ConditionId
  unfolding add_condition
  bytes_less property value with_equal = add_condition api property (
      if with_equal
      then less_or_equal_bytes property.id value
      else less_than_bytes property.id value)
