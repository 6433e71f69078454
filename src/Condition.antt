-- ===== src/Condition.antt =====
-- objectbox/condition.go and the links of objectbox/relation.go: the conditions of a query, as the
-- trees that a query builder is given. A closure of the source is an action on the builder.
pub mod Apply
pub mod Sticky
pub mod Links
pub mod Orders
pub mod Examples
use objectbox_go.Base.{ℕ, Option, none, some, Bool, true, false, String, Exec}
use objectbox_go.QueryBuilder.{State, ConditionId, Property}

-- RelationToOne: the property that holds the target's identifier, and the target's entity.
pub record RelationToOne : Type 0 where
  pub property : Property
  pub target : ℕ

pub record RelationToMany : Type 0 where
  pub id : ℕ
  pub source : ℕ
  pub target : ℕ

-- The five implementations of `Condition`; the last field of each is its alias.
mutual
  pub data Condition (W : Type 0) : Type 0 where
    condition_closure : Exec (State W) ConditionId → Option String → Condition W
    order_closure : Exec (State W) Unit → Option String → Condition W
    combination : Bool → Conditions W → Option String → Condition W
    one_to_many : RelationToOne → Conditions W → Option String → Condition W
    many_to_many : RelationToMany → Conditions W → Option String → Condition W

  pub data Conditions (W : Type 0) : Type 0 where
    no_conditions : Conditions W
    and_condition : Condition W → Conditions W → Conditions W

-- Alias and As
unfoldable pub with_alias : {W : Type 0} → String → Condition W → Condition W
with_alias name (condition_closure apply _) = condition_closure apply (some name)
with_alias name (order_closure apply _) = order_closure apply (some name)
with_alias name (combination or parts _) = combination or parts (some name)
with_alias name (one_to_many relation parts _) = one_to_many relation parts (some name)
with_alias name (many_to_many relation parts _) = many_to_many relation parts (some name)

-- Any, All and Link
unfoldable pub any_of : {W : Type 0} → Conditions W → Condition W
any_of parts = combination true parts none

unfoldable pub all_of : {W : Type 0} → Conditions W → Condition W
all_of parts = combination false parts none

unfoldable pub link_one : {W : Type 0} → RelationToOne → Conditions W → Condition W
link_one relation parts = one_to_many relation parts none

unfoldable pub link_many : {W : Type 0} → RelationToMany → Conditions W → Condition W
link_many relation parts = many_to_many relation parts none
