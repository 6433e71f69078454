-- ===== src/Query/Made.antt =====
-- objectbox/box.go: what QueryOrError leaves of its builders, and when it returns a query.
use objectbox_go.Base.{
  ℕ, ◌≡◌, refl, List, ◌++◌, Option, none, some, Outcome, ok, err, panic, GoError, >>=-eq-ok, ◌↔◌,
  ◌>>◌,
}
use objectbox_go.QueryBuilder.{State, OrderFlags, QueryApi}
use objectbox_go.QueryBuilder.Finish.{BuiltQuery, build, close_builder}
use objectbox_go.QueryBuilder.Closing.{CloseLaws, handles, close_builder-closed}
use objectbox_go.Condition.{Conditions}
use objectbox_go.Condition.Apply.{tree_of, apply_conditions}
use objectbox_go.Query.{check_identifier}
use objectbox_go.Query.Api.{property}
use objectbox_go.Query.Linked.{query_of, Within, build-Within}
use objectbox_go.Query.Making.{new_query_builder, close_result, close_after, query_or_error}

module _ {W F : Type 0} (api : QueryApi W F) (walk : List (ℕ × OrderFlags) → List (ℕ × OrderFlags))
    (type_id : ℕ) (parts : Conditions W) (w : W) where
  -- The builder with the conditions.
  abbrev pub conditioned : Outcome (Unit {0}) × State W
  conditioned = apply_conditions api parts (new_query_builder api type_id w)

  -- What Build returns, and what is left of the builder.
  abbrev pub built : Outcome BuiltQuery × State W
  built = (apply_conditions api parts >> build api walk) (new_query_builder api type_id w)

module _ {W F : Type 0} (api : QueryApi W F) (laws : CloseLaws api) where
  open laws use {closed}

  close_result-eq-ok :
      (r : Outcome BuiltQuery) (e : Option GoError) {q : BuiltQuery}
      → close_result api r e ≡ ok q
      → (r ≡ ok q) × (e ≡ none)
  unfolding close_result
  close_result-eq-ok (ok query) none h = (h, refl)
  close_result-eq-ok (ok query) (some e) h = cc
  close_result-eq-ok (err e) closed_with h = cc
  close_result-eq-ok (panic e) closed_with h = cc

  -- Whether the conditions or Build fail, panic or succeed, QueryOrError closes each builder of the
  -- tree that they left once. It returns a query only if the conditions, Build and Close all
  -- succeeded, and that query accepts a property exactly if its entity is that of the builder of the
  -- conditions or of a link below it.
  pub query_or_error-closed :
      (walk : List (ℕ × OrderFlags) → List (ℕ × OrderFlags)) (type_id : ℕ) (parts : Conditions W)
      (w : W)
      → let left = built api walk type_id parts w in
        (closed (query_or_error api walk type_id parts w).1
          ≡ closed left.1.world ++ handles (tree_of left.1.builder))
        × ((q : BuiltQuery)
            → (query_or_error api walk type_id parts w).0 ≡ ok q
            → ((conditioned api walk type_id parts w).0 ≡ ok tt)
              × (left.0 ≡ ok q)
              × ((close_builder api (tree_of left.1.builder) left.1.world).0.0 ≡ none)
              × ((entity id : ℕ)
                  → (check_identifier (property entity id) (query_of q) ≡ none)
                    ↔ Within entity (tree_of (conditioned api walk type_id parts w).1.builder)))
  unfolding query_or_error close_after
  query_or_error-closed walk type_id parts w =
      let left = built api walk type_id parts w in
      (
        (close_builder-closed api laws (tree_of left.1.builder) left.1.world).0,
        λ q h.
            let (b, none_left) =
              close_result-eq-ok left.0
                (close_builder api (tree_of left.1.builder) left.1.world).0.0 h in
            let (u, conditions_ok, _, build_ok) =
              >>=-eq-ok (apply_conditions api parts) (λ _. build api walk)
                (new_query_builder api type_id w) b in
            (
              conditions_ok,
              b,
              none_left,
              λ entity id.
                  build-Within api walk (conditioned api walk type_id parts w).1 entity id build_ok,
            ),
      )
