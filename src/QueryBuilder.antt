-- ===== src/QueryBuilder.antt =====
-- objectbox/querybuilder.go: the state of a query builder and its own operations. `W` is the state of
-- the world and `F` the type of floating-point numbers. A pointer of the C library is a handle, none
-- for null. The methods that add one condition are in QueryBuilder/Methods.
pub mod Api
pub mod Methods
pub mod Finish
pub mod Ordering
pub mod Closing
pub mod Examples
pub use Api.*
use objectbox_go.Base.{
  ℕ, zero, suc, ◌==◌, Option, none, some, Bool, true, false, not, ◌&&◌, ◌||◌, List, [], ◌∷◌, ◌++◌,
  String, if◌then◌else◌, nonzero, lookup, insert, Outcome, ok, err, panic, Exec, fail, pure, panics,
  GoError, core_error, message, message_with, message_with_both,
}
use objectbox_go.Base.Int.{ℤ, pos, negsuc}
use objectbox_go.Native.{create_error}

-- The order flags of a property; `to_bits` is the uint32 that the C library takes.
pub record OrderFlags : Type 0 where
  pub descending : Bool
  pub case_sensitive : Bool
  pub nulls_last : Bool
  pub nulls_zero : Bool

abbrev pub no_flags : OrderFlags
no_flags = record {
  descending = false;
  case_sensitive = false;
  nulls_last = false;
  nulls_zero = false;
}

pub data OrderFlag : Type 0 where
  descending case_sensitive nulls_last nulls_zero : OrderFlag

-- flags | flag, or flags &^ flag
unfoldable pub change_flag : OrderFlag → Bool → OrderFlags → OrderFlags
change_flag descending value flags = record flags { descending = value }
change_flag case_sensitive value flags = record flags { case_sensitive = value }
change_flag nulls_last value flags = record flags { nulls_last = value }
change_flag nulls_zero value flags = record flags { nulls_zero = value }

-- What stays of an inner builder once its conditions are applied: its pointer, its entity and its own
-- inner builders.
mutual
  pub data Tree : Type 0 where
    node : Option ℕ → ℕ → Trees → Tree

  pub data Trees : Type 0 where
    no_trees : Trees
    and_tree : Trees → Tree → Trees

pub record Builder : Type 0 where
  pub cqb : Option ℕ
  pub type_id : ℕ
  pub inner_builders : Trees
  pub order_flags : List (ℕ × OrderFlags)
  pub error : Option GoError

-- A builder and the world around it.
pub record State (W : Type 0) : Type 0 where
  pub builder : Builder
  pub world : W

abbrev pub ConditionId : Type 0
ConditionId = ℤ

abbrev pub fake_order : ConditionId
fake_order = negsuc 0

abbrev pub fake_link : ConditionId
fake_link = negsuc 1

-- BaseProperty
pub record Property : Type 0 where
  pub id : ℕ
  pub entity : ℕ

abbrev pub with_error : {W : Type 0} → GoError → State W → State W
with_error e s = record s { builder = record s.builder { error = some e } }

-- What a method returns beside the error of the builder.
abbrev pub returned : {A W : Type 0} → A → Option GoError → State W → Outcome A × State W
returned a none s = pure a s
returned a (some e) s = fail e s

abbrev pub flags_of : ℕ → List (ℕ × OrderFlags) → OrderFlags
flags_of id flags = elim (lookup id flags) [ none ↦ no_flags | some f ↦ f ]

module _ {W F : Type 0} (api : QueryApi W F) where
  open api use {errors}

  -- checkForCError, on a builder without an error so far.
  unfoldable pub check_for_c_error : State W → State W
  check_for_c_error s =
      let code = api.qb_error_code s.builder.cqb s.world in
      let e : GoError = elim (api.qb_error_message s.builder.cqb s.world) [
        | none ↦ message_with "unknown query builder error" code
        | some msg ↦ core_error msg
      ] in
      if nonzero code then with_error e s else s

  -- getConditionId, with the error that the caller returns beside it.
  condition_id : ConditionId × W → State W → Outcome ConditionId × State W
  unfolding check_for_c_error
  condition_id (pos zero, w) s =
      let s' = check_for_c_error (record s { world = w }) in returned (pos 0) s'.builder.error s'
  condition_id (pos (suc n), w) s = pure (pos (suc n)) (record s { world = w })
  condition_id (negsuc n, w) s = pure (negsuc n) (record s { world = w })

  -- The entity passed and the one expected.
  abbrev pub different_entity : ℕ → ℕ → GoError
  different_entity passed expected =
      message_with_both "property from a different entity passed" passed expected

  add_checked : Option GoError → Property → NativeCondition F → Exec (State W) ConditionId
  unfolding condition_id
  add_checked (some e) property c s = fail e s
  add_checked none property c s =
      if s.builder.type_id == property.entity
      then condition_id (api.qb_condition s.builder.cqb c s.world) s
      else (let e = different_entity property.entity s.builder.type_id in fail e (with_error e s))

  -- The body that all methods for one condition share: only a builder without an error, and only a
  -- property of its own entity, reach the C function.
  unfoldable pub add_condition : Property → NativeCondition F → Exec (State W) ConditionId
  unfolding add_checked
  add_condition property c s = add_checked s.builder.error property c s

  combine_checked :
      (Option ℕ → List ConditionId → W → ConditionId × W)
      → Option GoError
      → List ConditionId
      → Exec (State W) ConditionId
  unfolding condition_id
  combine_checked fn (some e) ids s = fail e s
  combine_checked fn none [] s = panics (message "index out of range [0] with length 0") s
  combine_checked fn none (id ∷ ids) s = condition_id (fn s.builder.cqb (id ∷ ids) s.world) s

  -- Any and All take the address of the first identifier.
  unfoldable pub any : List ConditionId → Exec (State W) ConditionId
  unfolding combine_checked
  any ids s = combine_checked api.qb_any s.builder.error ids s

  unfoldable pub all : List ConditionId → Exec (State W) ConditionId
  unfolding combine_checked
  all ids s = combine_checked api.qb_all s.builder.error ids s

  -- A call with a result code, whose error becomes the builder's.
  unfoldable pub called : ℕ × W → State W → State W
  called (rc, w) s =
      let s' = record s { world = w } in
      if nonzero rc then with_error (create_error errors w) s' else s'

  alias_checked : Option GoError → String → Exec (State W) Unit
  unfolding called
  alias_checked (some e) name s = fail e s
  alias_checked none name s =
      let s' = called (api.qb_param_alias s.builder.cqb name s.world) s in
      returned tt s'.builder.error s'

  -- Alias
  unfoldable pub alias : String → Exec (State W) Unit
  unfolding alias_checked
  alias name s = alias_checked s.builder.error name s

  set_checked : Option GoError → Property → OrderFlag → Bool → Exec (State W) Unit
  unfolding change_flag
  set_checked (some e) property flag value s = fail e s
  set_checked none property flag value s =
      if s.builder.type_id == property.entity
      then pure tt (record s {
        builder = record s.builder {
          order_flags =
              insert property.id
                (change_flag flag value (flags_of property.id s.builder.order_flags))
                s.builder.order_flags;
        };
      })
      else (let e = different_entity property.entity s.builder.type_id in fail e (with_error e s))

  -- setOrderFlag
  unfoldable pub set_order_flag : Property → OrderFlag → Bool → Exec (State W) Unit
  unfolding set_checked
  set_order_flag property flag value s = set_checked s.builder.error property flag value s

  unfoldable pub order_asc : Property → Exec (State W) Unit
  unfolding set_order_flag
  order_asc property = set_order_flag property descending false

  unfoldable pub order_desc : Property → Exec (State W) Unit
  unfolding set_order_flag
  order_desc property = set_order_flag property descending true

  unfoldable pub order_case_sensitive : Property → Bool → Exec (State W) Unit
  unfolding set_order_flag
  order_case_sensitive property value = set_order_flag property case_sensitive value

  unfoldable pub order_nil_last : Property → Exec (State W) Unit
  unfolding set_order_flag
  order_nil_last property = set_order_flag property nulls_last true

  unfoldable pub order_nil_as_zero : Property → Exec (State W) Unit
  unfolding set_order_flag
  order_nil_as_zero property = set_order_flag property nulls_zero true
