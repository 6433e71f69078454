-- ===== src/Query/Examples.antt =====
-- Queries over a C library that refuses limits above 9 and reports an error for each closing.
use objectbox_go.Base.{ℕ, ◌≡◌, refl, ◌↔◌, none, some, List, [], ◌∷◌, ◌++◌, if◌then◌else◌, ltb, ok}
use objectbox_go.Native.{create_error}
use objectbox_go.Box.Examples.Memory.{World, people, tx, start}
use objectbox_go.Query.{QueryState, QueryCalls, property, check_identifier, close, limit}
use objectbox_go.Query.Closed.{Refuses, close-Refuses}
use objectbox_go.QueryBuilder.{node, no_trees, and_tree, State}
use objectbox_go.QueryBuilder.Finish.{BuiltQuery, build}
use objectbox_go.QueryBuilder.Examples.{fresh}
use objectbox_go.QueryBuilder.Examples as Builders
use objectbox_go.Query.Linked.{Within, query_of, build-Within}
use objectbox_go.QueryBuilder.Finish.{close_builder}
use objectbox_go.QueryBuilder.Closing.{CloseLaws, handles}
use objectbox_go.Condition.{Conditions, many_to_many, no_conditions, and_condition}
use objectbox_go.Condition.Apply.{tree_of}
use objectbox_go.Query.Making.{query_or_error}
use objectbox_go.Query.Made.{conditioned, built, query_or_error-closed}
use objectbox_go.Query.Limits.{Fails, offsets, limit-Fails}

abbrev api : QueryCalls World ℕ
api = record {
  close = λ c w. (1, w);
  offset = λ c n w. (0, w);
  limit = λ c n w. (if ltb 9 n then 1 else 0, w);
  find = λ c w. (none, w);
  find_ids = λ c w. (none, w);
  count = λ c w. ((0, 3), w);
  remove = λ c w. ((0, 3), w);
  param = λ c i p w. (0, w);
}

abbrev adults : QueryState World
adults = record {
  query = record {
    c_query = some 8;
    entity = 5;
    linked_entity_ids = 6 ∷ [];
    offset_err = none;
    limit_err = none;
  };
  world = start;
}

close-Refuses_example : Refuses tx people api (close tx people api adults).1
close-Refuses_example = close-Refuses tx people api adults

limit-Fails_example :
    Fails tx people api
      (create_error tx.errors start)
      (offsets tx people api (1 ∷ 2 ∷ []) (limit tx people api 10 adults))
limit-Fails_example = limit-Fails tx people api 10 8 (1 ∷ 2 ∷ []) adults refl refl

-- A builder of the entity 5 with a link to the entity 6.
abbrev linked : State (List ℕ)
linked = record fresh {
  builder = record fresh.builder { inner_builders = and_tree no_trees (node (some 7) 6 no_trees) };
}

abbrev built_query : BuiltQuery
built_query = record { c_query = some 9; entity = 5; linked_entity_ids = 6 ∷ [] }

linked_built : (build Builders.api (λ flags. flags) linked).0 ≡ ok built_query
unfolding build
linked_built = refl

build-Within_example :
    (check_identifier (property 6 2) (query_of built_query) ≡ none)
    ↔ Within 6 (node (some 1) 5 (and_tree no_trees (node (some 7) 6 no_trees)))
build-Within_example = build-Within Builders.api (λ flags. flags) linked 6 2 linked_built

abbrev builder_laws : CloseLaws Builders.api
builder_laws = record { closed = λ w. w; closes = λ cqb w. refl }

-- The objects that have a friend.
abbrev with_friends : Conditions (List ℕ)
with_friends =
    and_condition (many_to_many (record { id = 4; source = 5; target = 6 }) no_conditions none)
      no_conditions

friends_closed : (query_or_error Builders.api (λ flags. flags) 5 with_friends []).1 ≡ 7 ∷ 1 ∷ []
unfolding query_or_error close_builder
friends_closed = refl

query_or_error-closed_example :
    ((query_or_error Builders.api (λ flags. flags) 5 with_friends []).1
      ≡ (built Builders.api (λ flags. flags) 5 with_friends []).1.world
        ++ handles (tree_of (built Builders.api (λ flags. flags) 5 with_friends []).1.builder))
    × ((q : BuiltQuery)
        → (query_or_error Builders.api (λ flags. flags) 5 with_friends []).0 ≡ ok q
        → ((conditioned Builders.api (λ flags. flags) 5 with_friends []).0 ≡ ok tt)
          × ((built Builders.api (λ flags. flags) 5 with_friends []).0 ≡ ok q)
          × ((close_builder Builders.api
                (tree_of (built Builders.api (λ flags. flags) 5 with_friends []).1.builder)
                (built Builders.api (λ flags. flags) 5 with_friends []).1.world).0.0
              ≡ none)
          × ((entity id : ℕ)
              → (check_identifier (property entity id) (query_of q) ≡ none)
                ↔ Within entity (
                    tree_of
                      (conditioned Builders.api (λ flags. flags) 5 with_friends []).1.builder)))
query_or_error-closed_example =
    query_or_error-closed Builders.api builder_laws (λ flags. flags) 5 with_friends []
