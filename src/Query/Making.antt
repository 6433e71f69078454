-- ===== src/Query/Making.antt =====
-- objectbox/box.go: `Query` and `QueryOrError`, which make a query from conditions with a query builder
-- of objectbox/querybuilder.go. `walk` is the order in which Go walks the map of order flags.
use objectbox_go.Base.{
  ℕ, Option, none, some, List, [], Outcome, ok, err, panic, Exec, pure, panics, GoError,
  message_wrapping, ◌>>◌,
}
use objectbox_go.Native.{create_error}
use objectbox_go.QueryBuilder.{State, no_trees, OrderFlags, QueryApi}
use objectbox_go.QueryBuilder.Finish.{BuiltQuery, build, close_builder}
use objectbox_go.Condition.{Conditions}
use objectbox_go.Condition.Apply.{tree_of, apply_conditions}

module _ {W F : Type 0} (api : QueryApi W F) where
  open api use {errors}

  -- A builder whose pointer is null has an error.
  new_builder_of : ℕ → Option ℕ × W → State W
  new_builder_of type_id (cqb, w) = record {
    builder = record {
      cqb = cqb;
      type_id = type_id;
      inner_builders = no_trees;
      order_flags = [];
      error = elim cqb [ none ↦ some (create_error errors w) | some pointer ↦ none ];
    };
    world = w;
  }

  -- newQueryBuilder
  unfoldable pub new_query_builder : ℕ → W → State W
  unfolding new_builder_of
  new_query_builder type_id w = new_builder_of type_id (api.query_builder type_id w)

  -- The deferred function: an error of Close is returned if there is no other.
  unfoldable pub close_result : Outcome BuiltQuery → Option GoError → Outcome BuiltQuery
  close_result (ok query) none = ok query
  close_result (ok query) (some e) = err e
  close_result (err e) closed = err e
  close_result (panic e) closed = panic e

  unfoldable pub close_after : Outcome BuiltQuery × State W → Outcome BuiltQuery × W
  unfolding close_result close_builder
  close_after (r, s) =
      let ((e, tree), w) = close_builder api (tree_of s.builder) s.world in (close_result r e, w)

  -- QueryOrError, on the box of an entity.
  unfoldable pub query_or_error :
      (List (ℕ × OrderFlags) → List (ℕ × OrderFlags)) → ℕ → Conditions W → Exec W BuiltQuery
  unfolding close_after new_query_builder apply_conditions build
  query_or_error walk type_id parts w =
      close_after ((apply_conditions api parts >> build api walk) (new_query_builder type_id w))

  or_panic : Outcome BuiltQuery × W → Outcome BuiltQuery × W
  or_panic (ok query, w) = pure query w
  or_panic (err e, w) =
      panics (message_wrapping "Could not create query - please check your query conditions" e) w
  or_panic (panic e, w) = panics e w

  -- Query
  unfoldable pub query :
      (List (ℕ × OrderFlags) → List (ℕ × OrderFlags)) → ℕ → Conditions W → Exec W BuiltQuery
  unfolding or_panic query_or_error
  query walk type_id parts w = or_panic (query_or_error walk type_id parts w)
