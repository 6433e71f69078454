-- ===== src/Query/Linked.antt =====
-- The entities whose properties a built query accepts: Build of objectbox/querybuilder.go and
-- checkIdentifier of objectbox/query.go.
use objectbox_go.Base.{
  ℕ, zero, suc, ◌≡◌, refl, sym, ap, subst, ◌∙◌, ◌==◌, ==_iff, ==_refl, ◌↔◌, ◌⊎◌, Option, none, some,
  Bool, true, false, ◌||◌, List, [], ◌∷◌, ◌++◌, GoError, ok, contains, arith, inl, inr,
  ok-injective,
}
use objectbox_go.QueryBuilder.{
  State, OrderFlags, Tree, Trees, node, no_trees, and_tree, called, QueryApi,
}
use objectbox_go.QueryBuilder.Finish.{
  BuiltQuery, build, built, queried, apply_orders, order, order_checked, linked_ids, linked_ids_of,
  to_bits,
}
use objectbox_go.Query.{Query, property, check_identifier}
use objectbox_go.Query.Closed.{check_identifier_lem}

-- The entity `x` is that of a builder of a tree.
mutual
  pub data Within (x : ℕ) : Tree → Type 0 where
    at_root : (cqb : Option ℕ) (inner : Trees) → Within x (node cqb x inner)
    below :
        (cqb : Option ℕ) (type_id : ℕ) (inner : Trees)
        → WithinSome x inner
        → Within x (node cqb type_id inner)

  pub data WithinSome (x : ℕ) : Trees → Type 0 where
    in_earlier :
        (trees : Trees) (tree : Tree) → WithinSome x trees → WithinSome x (and_tree trees tree)
    in_last : (trees : Trees) (tree : Tree) → Within x tree → WithinSome x (and_tree trees tree)

contains-append :
    (xs ys : List ℕ) (x : ℕ) → contains (xs ++ ys) x ≡ (contains xs x || contains ys x)
contains-append [] ys x = refl
contains-append (z ∷ xs) ys x = ground (arith, contains-append xs ys x)

mutual
  unfolding linked_ids linked_ids_of

  Within-contains : (x : ℕ) (t : Tree) → Within x t → contains (linked_ids_of t) x ≡ true
  Within-contains x _ (at_root cqb inner) = rw (==_refl x) refl
  Within-contains x _ (below cqb type_id inner w) = ground (arith, WithinSome-contains x inner w)

  WithinSome-contains : (x : ℕ) (ts : Trees) → WithinSome x ts → contains (linked_ids ts) x ≡ true
  WithinSome-contains x _ (in_earlier trees tree w) =
      contains-append (linked_ids trees) (linked_ids_of tree) x
      ∙ rw (WithinSome-contains x trees w) refl
  WithinSome-contains x _ (in_last trees tree w) =
      contains-append (linked_ids trees) (linked_ids_of tree) x
      ∙ ground (arith, Within-contains x tree w)

or-cases : (a b : Bool) → (a || b) ≡ true → (a ≡ true) ⊎ (b ≡ true)
or-cases true b h = inl refl
or-cases false b h = inr h

mutual
  unfolding linked_ids linked_ids_of

  contains-Within : (x : ℕ) (t : Tree) → contains (linked_ids_of t) x ≡ true → Within x t
  contains-Within x (node cqb type_id inner) h =
      elim (or-cases (type_id == x) (contains (linked_ids inner) x) h) [
        | inl same ↦
            subst (λ i. Within x (node cqb i inner)) (sym ((==_iff type_id x).0 same))
              (at_root cqb inner)
        | inr rest ↦ below cqb type_id inner (contains-WithinSome x inner rest)
      ]

  contains-WithinSome : (x : ℕ) (ts : Trees) → contains (linked_ids ts) x ≡ true → WithinSome x ts
  contains-WithinSome x no_trees h = cc
  contains-WithinSome x (and_tree trees tree) h =
      elim (or-cases (contains (linked_ids trees) x) (contains (linked_ids_of tree) x)
        (sym (contains-append (linked_ids trees) (linked_ids_of tree) x) ∙ h)) [
          | inl earlier ↦ in_earlier trees tree (contains-WithinSome x trees earlier)
          | inr last ↦ in_last trees tree (contains-Within x tree last)
        ]

-- A fresh query with what Build has found.
abbrev pub query_of : BuiltQuery → Query
query_of b = record {
  c_query = b.c_query;
  entity = b.entity;
  linked_entity_ids = b.linked_entity_ids;
  offset_err = none;
  limit_err = none;
}

module _ {W F : Type 0} (api : QueryApi W F) where
  abbrev shape : State W → Tree
  shape s = node s.builder.cqb s.builder.type_id s.builder.inner_builders

  called-shape : (rc : ℕ) (w : W) (s : State W) → shape (called api (rc, w) s) ≡ shape s
  unfolding called
  called-shape zero w s = refl
  called-shape (suc rc) w s = refl

  order-shape :
      (e : Option GoError) (p : ℕ) (flags : OrderFlags) (s : State W)
      → shape (order_checked api e p flags s) ≡ shape s
  unfolding order_checked
  order-shape none p flags s =
      let r = api.qb_order s.builder.cqb p (to_bits flags) s.world in called-shape r.0 r.1 s
  order-shape (some e) p flags s = refl

  apply_orders-shape :
      (flags : List (ℕ × OrderFlags)) (s : State W) → shape (apply_orders api flags s) ≡ shape s
  unfolding apply_orders order
  apply_orders-shape [] s = refl
  apply_orders-shape ((p, flags) ∷ rest) s =
      apply_orders-shape rest (order api p flags s) ∙ order-shape s.builder.error p flags s

  queried-linked :
      (r : Option ℕ × W) (s : State W) {q : BuiltQuery}
      → (queried api r s).0 ≡ ok q
      → q.entity ∷ q.linked_entity_ids ≡ linked_ids_of (shape s)
  unfolding queried linked_ids_of
  queried-linked (none, w) s h = cc
  queried-linked (some query, w) s h =
      ap (λ b. b.entity ∷ b.linked_entity_ids) (sym (ok-injective h))

  built-linked :
      (e : Option GoError) (s : State W) {q : BuiltQuery}
      → (built api e s).0 ≡ ok q
      → q.entity ∷ q.linked_entity_ids ≡ linked_ids_of (shape s)
  unfolding built
  built-linked none s h = queried-linked (api.query s.builder.cqb s.world) s h
  built-linked (some e) s h = cc

  -- A query that Build returns accepts a property exactly if its entity is that of the builder or of a
  -- link below it, however deep, and in whatever order Go walks the order flags.
  pub build-Within :
      (walk : List (ℕ × OrderFlags) → List (ℕ × OrderFlags)) (s : State W) (entity id : ℕ)
      {q : BuiltQuery}
      → (build api walk s).0 ≡ ok q
      → (check_identifier (property entity id) (query_of q) ≡ none)
        ↔ Within entity (node s.builder.cqb s.builder.type_id s.builder.inner_builders)
  unfolding build
  build-Within walk s entity id {q} h =
      let s' = apply_orders api (walk s.builder.order_flags) s in
      let ids =
        built-linked s'.builder.error s' h
        ∙ ap linked_ids_of (apply_orders-shape (walk s.builder.order_flags) s) in
      let accepts = check_identifier_lem entity id (query_of q) in
      (
        λ a. contains-Within entity (shape s) (ap (λ l. contains l entity) (sym ids) ∙ accepts.0 a),
        λ w. accepts.1 (ap (λ l. contains l entity) ids ∙ Within-contains entity (shape s) w),
      )
