-- ===== src/Condition/Apply.antt =====
-- `applyTo` of objectbox/condition.go and objectbox/relation.go, with LinkOneToMany, LinkManyToMany
-- and applyConditions of objectbox/querybuilder.go, which they call and which call them.
use objectbox_go.Base.{
  ℕ, ◌==◌, Option, none, some, Bool, true, false, not, ◌&&◌, ◌||◌, List, [], ◌∷◌, String,
  if◌then◌else◌, GoError, message, message_about, Outcome, ok, err, panic, Exec, fail, pure, ◌>>=◌,
  ◌>>◌,
}
use objectbox_go.Base.Int.{pos, eqb_ℤ}
use objectbox_go.Native.{create_error}
use objectbox_go.QueryBuilder.{
  State, Builder, Tree, node, no_trees, and_tree, ConditionId, fake_order, fake_link, with_error,
  any, all, alias, QueryApi,
}
use objectbox_go.Condition.{
  RelationToOne, RelationToMany, Condition, condition_closure, order_closure, combination,
  one_to_many, many_to_many, Conditions, no_conditions, and_condition,
}

abbrev pub inner_builder : ℕ → ℕ → Builder
inner_builder type_id cqb = record {
  cqb = some cqb;
  type_id = type_id;
  inner_builders = no_trees;
  order_flags = [];
  error = none;
}

abbrev pub tree_of : Builder → Tree
tree_of b = node b.cqb b.type_id b.inner_builders

abbrev pub unsupported_alias : String → String → GoError
unsupported_alias what name = message_about what name

abbrev pub links_unsupported : GoError
links_unsupported = message "using Link inside Any/All is not supported"

abbrev pub not_recognized : GoError
not_recognized = message "relation not recognized as either link or backlink"

-- assertNoLinks
unfoldable pub has_link : List ConditionId → Bool
has_link [] = false
has_link (id ∷ ids) = eqb_ℤ id fake_link || has_link ids

unfoldable pub add_unless_order : ConditionId → List ConditionId → List ConditionId
add_unless_order id ids = if eqb_ℤ id fake_order then ids else id ∷ ids

module _ {W F : Type 0} (api : QueryApi W F) where
  open api use {errors}

  -- newInnerBuilder, on what C made, and what `body` then does with the new builder, which is kept as
  -- the last of the inner ones.
  unfoldable pub with_inner : ℕ → Option ℕ × W → Exec (State W) Unit → Exec (State W) Unit
  with_inner type_id (none, w) body s =
      let e = create_error errors w in fail e (with_error e (record s { world = w }))
  with_inner type_id (some cqb, w) body s =
      let (outcome, inner) = body (record { builder = inner_builder type_id cqb; world = w }) in
      (
        outcome,
        record s {
          builder = record s.builder {
            inner_builders = and_tree s.builder.inner_builders (tree_of inner.builder);
          };
          world = inner.world;
        },
      )

  one_to_many_checked : Option GoError → RelationToOne → Exec (State W) Unit → Exec (State W) Unit
  unfolding with_inner
  one_to_many_checked (some e) relation body s = fail e s
  one_to_many_checked none relation body s =
      let b = s.builder in
      let entity = relation.property.entity in
      if entity == b.type_id && not (relation.target == b.type_id)
      then with_inner relation.target (api.qb_link_property b.cqb relation.property.id s.world) body
          s
      else if not (entity == b.type_id) && relation.target == b.type_id
      then with_inner entity (api.qb_backlink_property b.cqb entity relation.property.id s.world)
          body s
      else fail not_recognized s

  -- LinkOneToMany; `body` applies the conditions.
  unfoldable pub link_one_to_many : RelationToOne → Exec (State W) Unit → Exec (State W) Unit
  unfolding one_to_many_checked
  link_one_to_many relation body s = one_to_many_checked s.builder.error relation body s

  many_to_many_checked : Option GoError → RelationToMany → Exec (State W) Unit → Exec (State W) Unit
  unfolding with_inner
  many_to_many_checked (some e) relation body s = fail e s
  many_to_many_checked none relation body s =
      let b = s.builder in
      if relation.source == b.type_id && not (relation.target == b.type_id)
      then with_inner relation.target (api.qb_link_standalone b.cqb relation.id s.world) body s
      else if not (relation.source == b.type_id) && relation.target == b.type_id
      then with_inner relation.source (api.qb_backlink_standalone b.cqb relation.id s.world) body s
      else fail not_recognized s

  -- LinkManyToMany
  unfoldable pub link_many_to_many : RelationToMany → Exec (State W) Unit → Exec (State W) Unit
  unfolding many_to_many_checked
  link_many_to_many relation body s = many_to_many_checked s.builder.error relation body s

  -- The end of a combination of two conditions or more.
  unfoldable pub combine : Bool → Bool → List ConditionId → Exec (State W) ConditionId
  unfolding has_link any all
  combine or is_root ids =
      if is_root && not or
      then pure (pos 0)
      else if has_link ids
      then fail links_unsupported
      else if or
      then any api ids
      else all api ids

  unfoldable pub with_alias_of : Option String → ConditionId → Exec (State W) ConditionId
  unfolding alias
  with_alias_of none id = pure id
  with_alias_of (some name) id = do alias api name; pure id

  -- qb.Err = the error of the conditions
  settle : Outcome ConditionId × State W → Outcome (Unit {0}) × State W
  settle (ok id, s) = pure tt (record s { builder = record s.builder { error = none } })
  settle (err e, s) = fail e (with_error e s)
  settle (panic p, s) = (panic p, s)

  checked : Option GoError → Exec (State W) ConditionId → Exec (State W) Unit
  unfolding settle
  checked (some e) m s = fail e s
  checked none m s = settle (m s)

  unfoldable pub unless_failed : Exec (State W) ConditionId → Exec (State W) Unit
  unfolding checked
  unless_failed m s = checked s.builder.error m s

  unfoldable mutual
    unfolding add_unless_order combine with_alias_of unless_failed link_one_to_many
        link_many_to_many

    pub apply_to : Condition W → Bool → Exec (State W) ConditionId
    apply_to (condition_closure apply alias) is_root = do id ← apply; with_alias_of alias id
    apply_to (order_closure apply none) is_root = do apply; pure fake_order
    apply_to (order_closure apply (some name)) is_root =
        fail (unsupported_alias "using Alias/As on Order*() is not supported" name)
    apply_to (combination or parts none) is_root = apply_combined or is_root parts
    apply_to (combination or parts (some name)) is_root =
        fail
          (unsupported_alias "using Alias/As on a combination of conditions is not supported" name)
    apply_to (one_to_many relation parts none) is_root = do
      link_one_to_many relation (unless_failed (apply_combined false true parts))
      pure fake_link
    apply_to (one_to_many relation parts (some name)) is_root =
        fail (unsupported_alias "using Alias/As on a OneToMany relation link is not supported" name)
    apply_to (many_to_many relation parts none) is_root = do
      link_many_to_many relation (unless_failed (apply_combined false true parts))
      pure fake_link
    apply_to (many_to_many relation parts (some name)) is_root =
        fail
          (unsupported_alias "using Alias/As on a ManyToMany relation link is not supported" name)

    -- `applyTo` of a combination without an alias.
    pub apply_combined : Bool → Bool → Conditions W → Exec (State W) ConditionId
    apply_combined or is_root no_conditions = pure (pos 0)
    apply_combined or is_root (and_condition c no_conditions) = apply_to c is_root
    apply_combined or is_root (and_condition c (and_condition d parts)) = do
      id ← apply_to c false
      ids ← apply_each (and_condition d parts)
      combine or is_root (add_unless_order id ids)

    -- The loop over the parts of a combination.
    pub apply_each : Conditions W → Exec (State W) (List ConditionId)
    apply_each no_conditions = pure []
    apply_each (and_condition c parts) = do
      id ← apply_to c false
      ids ← apply_each parts
      pure (add_unless_order id ids)

  -- applyConditions: no condition, and one condition, are as in a combination.
  unfoldable pub apply_conditions : Conditions W → Exec (State W) Unit
  unfolding unless_failed apply_combined
  apply_conditions parts = unless_failed (apply_combined false true parts)
