-- ===== src/QueryBuilder/Finish.antt =====
-- objectbox/querybuilder.go: Build and Close. `walk` is the order in which Go walks the map of order
-- flags. The finalizer of the query is not modelled.
use objectbox_go.Base.{
  ℕ, ◌+◌, Option, none, some, List, [], ◌∷◌, ◌++◌, if◌then◌else◌, nonzero, GoError, joined, Exec,
  fail, pure,
}
use objectbox_go.Native.{create_error}
use objectbox_go.QueryBuilder.{
  State, Tree, Trees, node, no_trees, and_tree, OrderFlags, with_error, called, QueryApi,
}

-- The C constants DESCENDING, CASE_SENSITIVE, NULLS_LAST and NULLS_ZERO.
unfoldable pub to_bits : OrderFlags → ℕ
to_bits f =
    (if f.descending then 1 else 0)
    + (if f.case_sensitive then 2 else 0)
    + (if f.nulls_last then 8 else 0)
    + (if f.nulls_zero then 16 else 0)

-- What a query is made with: its C query, and the entities of the links below its builder.
pub record BuiltQuery : Type 0 where
  pub c_query : Option ℕ
  pub entity : ℕ
  pub linked_entity_ids : List ℕ

-- setQueryLinkedEntityIds
unfoldable mutual
  pub linked_ids : Trees → List ℕ
  linked_ids no_trees = []
  linked_ids (and_tree trees tree) = linked_ids trees ++ linked_ids_of tree

  pub linked_ids_of : Tree → List ℕ
  linked_ids_of (node cqb type_id inner) = type_id ∷ linked_ids inner

-- strings.Join(errs, "; "), none if there is no error.
unfoldable pub join_errors : List GoError → Option GoError
join_errors [] = none
join_errors (e ∷ []) = some e
join_errors (e ∷ e' ∷ es) = elim (join_errors (e' ∷ es)) [
  | none ↦ some e
  | some r ↦ some (joined e r)
]

module _ {W F : Type 0} (api : QueryApi W F) where
  open api use {errors}

  unfoldable pub order_checked : Option GoError → ℕ → OrderFlags → State W → State W
  unfolding called to_bits
  order_checked (some e) property flags s = s
  order_checked none property flags s =
      called api (api.qb_order s.builder.cqb property (to_bits flags) s.world) s

  -- order
  unfoldable pub order : ℕ → OrderFlags → State W → State W
  unfolding order_checked
  order property flags s = order_checked s.builder.error property flags s

  unfoldable pub apply_orders : List (ℕ × OrderFlags) → State W → State W
  unfolding order
  apply_orders [] s = s
  apply_orders ((property, flags) ∷ rest) s = apply_orders rest (order property flags s)

  unfoldable pub queried : Option ℕ × W → Exec (State W) BuiltQuery
  unfolding linked_ids
  queried (none, w) s =
      let e = create_error errors w in fail e (with_error e (record s { world = w }))
  queried (some query, w) s =
      pure
        (record {
          c_query = some query;
          entity = s.builder.type_id;
          linked_entity_ids = linked_ids s.builder.inner_builders;
        })
        (record s { world = w })

  unfoldable pub built : Option GoError → Exec (State W) BuiltQuery
  unfolding queried
  built (some e) s = fail e s
  built none s = queried (api.query s.builder.cqb s.world) s

  -- Build
  unfoldable pub build : (List (ℕ × OrderFlags) → List (ℕ × OrderFlags)) → Exec (State W) BuiltQuery
  unfolding apply_orders built
  build walk s = let s' = apply_orders (walk s.builder.order_flags) s in built s'.builder.error s'

  -- The own pointer of a builder: closed unless it is null.
  unfoldable pub close_own : Option ℕ → W → List GoError × W
  close_own none w = ([], w)
  close_own (some cqb) w =
      let (rc, w') = api.qb_close cqb w in
      (if nonzero rc then create_error errors w' ∷ [] else [], w')

  unfoldable pub some_error : Option GoError → List GoError
  some_error none = []
  some_error (some e) = e ∷ []

  -- Close, with the builder that it leaves.
  unfoldable mutual
    unfolding close_own some_error join_errors

    pub close_builder : Tree → W → (Option GoError × Tree) × W
    close_builder (node cqb type_id inner) w =
        let ((errs, inner'), w1) = close_builders inner w in
        let (own, w2) = close_own cqb w1 in
        ((join_errors (errs ++ own), node none type_id inner'), w2)

    pub close_builders : Trees → W → (List GoError × Trees) × W
    close_builders no_trees w = (([], no_trees), w)
    close_builders (and_tree trees tree) w =
        let ((errs, trees'), w1) = close_builders trees w in
        let ((e, tree'), w2) = close_builder tree w1 in
        ((errs ++ some_error e, and_tree trees' tree'), w2)
