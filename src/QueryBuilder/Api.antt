-- ===== src/QueryBuilder/Api.antt =====
-- The C functions that a query builder calls. `F` is the type of floating-point numbers.
use objectbox_go.Base.{ℕ, Option, Bool, List, String}
use objectbox_go.Base.Int.{ℤ}
use objectbox_go.Native.{Errors}

-- The functions obx_qb_* that add one condition, named after them, with the property's identifier
-- and the arguments.
pub data NativeCondition (F : Type 0) : Type 0 where
  null not_null : ℕ → NativeCondition F
  equals_string not_equals_string contains_string starts_with_string ends_with_string
        greater_than_string greater_or_equal_string less_than_string less_or_equal_string
        any_equals_string :
      ℕ → String → Bool → NativeCondition F
  in_strings : ℕ → List String → Bool → NativeCondition F
  between_2ints : ℕ → ℤ → ℤ → NativeCondition F
  equals_int not_equals_int greater_than_int greater_or_equal_int less_than_int less_or_equal_int :
      ℕ → ℤ → NativeCondition F
  in_int64s not_in_int64s in_int32s not_in_int32s : ℕ → List ℤ → NativeCondition F
  greater_than_double greater_or_equal_double less_than_double less_or_equal_double :
      ℕ → F → NativeCondition F
  between_2doubles : ℕ → F → F → NativeCondition F
  equals_bytes greater_than_bytes greater_or_equal_bytes less_than_bytes less_or_equal_bytes :
      ℕ → List ℕ → NativeCondition F

pub record QueryApi (W F : Type 0) : Type 0 where
  pub errors : Errors W
  pub query_builder : ℕ → W → Option ℕ × W
  pub qb_close : ℕ → W → ℕ × W
  pub qb_condition : Option ℕ → NativeCondition F → W → ℤ × W
  pub qb_any : Option ℕ → List ℤ → W → ℤ × W
  pub qb_all : Option ℕ → List ℤ → W → ℤ × W
  pub qb_param_alias : Option ℕ → String → W → ℕ × W
  pub qb_error_code : Option ℕ → W → ℕ
  pub qb_error_message : Option ℕ → W → Option String
  pub qb_order : Option ℕ → ℕ → ℕ → W → ℕ × W
  pub qb_link_property : Option ℕ → ℕ → W → Option ℕ × W
  pub qb_backlink_property : Option ℕ → ℕ → ℕ → W → Option ℕ × W
  pub qb_link_standalone : Option ℕ → ℕ → W → Option ℕ × W
  pub qb_backlink_standalone : Option ℕ → ℕ → W → Option ℕ × W
  pub query : Option ℕ → W → Option ℕ × W
