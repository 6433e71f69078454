-- ===== src/QueryBuilder/Examples.antt =====
-- Query builders over a C library that records the builders that it closes.
use objectbox_go.Base.{ℕ, ◌≡◌, refl, ◌==◌, none, some, List, [], ◌∷◌, ◌++◌, message, if◌then◌else◌}
use objectbox_go.Base.Int.{pos}
use objectbox_go.QueryBuilder.{State, Tree, node, no_trees, and_tree, Property, QueryApi}
use objectbox_go.QueryBuilder.Finish.{close_builder}
use objectbox_go.QueryBuilder.Closing.{handles, CloseLaws, close_builder-closed}

-- The world is the list of the builders closed so far; floating-point numbers are not used.
abbrev pub api : QueryApi (List ℕ) ℕ
api = record {
  errors = record { last_error_message = λ w. none };
  query_builder = λ type_id w. (some 1, w);
  qb_close = λ cqb w. (if cqb == 3 then 1 else 0, w ++ (cqb ∷ []));
  qb_condition = λ cqb c w. (pos 1, w);
  qb_any = λ cqb ids w. (pos 2, w);
  qb_all = λ cqb ids w. (pos 3, w);
  qb_param_alias = λ cqb alias w. (0, w);
  qb_error_code = λ cqb w. 0;
  qb_error_message = λ cqb w. none;
  qb_order = λ cqb property flags w. (0, w);
  qb_link_property = λ cqb property w. (some 7, w);
  qb_backlink_property = λ cqb entity property w. (some 7, w);
  qb_link_standalone = λ cqb relation w. (some 7, w);
  qb_backlink_standalone = λ cqb relation w. (some 7, w);
  query = λ cqb w. (some 9, w);
}

-- A builder of the entity 5.
abbrev pub fresh : State (List ℕ)
fresh = record {
  builder = record {
    cqb = some 1;
    type_id = 5;
    inner_builders = no_trees;
    order_flags = [];
    error = none;
  };
  world = [];
}

abbrev pub broken : State (List ℕ)
broken = record fresh { builder = record fresh.builder { error = some (message "broken") } }

abbrev pub name : Property
name = record { id = 2; entity = 5 }

laws : CloseLaws api
laws = record { closed = λ w. w; closes = λ cqb w. refl }

-- The builder 1 with two links, of which closing 3 reports an error.
abbrev linked : Tree
linked =
    node (some 1) 5
      (and_tree (and_tree no_trees (node (some 3) 6 no_trees)) (node (some 4) 7 no_trees))

order_of_closing : (close_builder api linked []).1 ≡ 3 ∷ 4 ∷ 1 ∷ []
unfolding close_builder
order_of_closing = refl

close_builder-closed_example :
    ((close_builder api linked []).1 ≡ [] ++ handles linked)
    × ((close_builder api (close_builder api linked []).0.1 (close_builder api linked []).1).1
        ≡ (close_builder api linked []).1)
unfolding laws
close_builder-closed_example = close_builder-closed api laws linked []
