-- ===== src/QueryBuilder/Ordering.antt =====
-- The order flags of a query builder: setOrderFlag, order and Build of objectbox/querybuilder.go.
use objectbox_go.Base.{
  ℕ, ◌≡◌, refl, ap, ◌∙◌, ◌==◌, Option, none, some, Bool, true, false, List, [], ◌∷◌, GoError, ok,
  err, if◌then◌else◌, lookup, insert, lookup-insert,
}
use objectbox_go.QueryBuilder.{
  State, OrderFlags, OrderFlag, Property, QueryApi, change_flag, flags_of, set_order_flag, no_flags,
}
use objectbox_go.QueryBuilder.Finish.{order, order_checked, apply_orders, build, built}

some_flags : Option OrderFlags → OrderFlags
some_flags f = elim f [ none ↦ no_flags | some g ↦ g ]

flags_of-insert :
    (id k : ℕ) (new : OrderFlags) (flags : List (ℕ × OrderFlags))
    → flags_of k (insert id new flags) ≡ (if id == k then new else flags_of k flags)
unfolding some_flags
flags_of-insert id k new flags = ap some_flags (lookup-insert id k new flags) ∙ chosen (id == k)
  where
    chosen :
        (b : Bool)
        → some_flags (if b then some new else lookup k flags)
          ≡ (if b then new else flags_of k flags)
    chosen true = refl
    chosen false = refl

module _ {W F : Type 0} (api : QueryApi W F) where
  -- On a builder without an error, an order on a property of its entity returns without an error,
  -- changes nothing of the world, and afterwards this property has that flag set or cleared and its
  -- other flags as before; every other property has the flags that it had.
  pub set_order_flag-flags :
      (property : Property) (flag : OrderFlag) (value : Bool) (s : State W)
      → s.builder.error ≡ none
      → (s.builder.type_id == property.entity) ≡ true
      → let after = set_order_flag api property flag value s in
        (after.0 ≡ ok tt)
        × (after.1.world ≡ s.world)
        × (after.1.builder.error ≡ none)
        × ((k : ℕ)
            → flags_of k after.1.builder.order_flags ≡ (
                if property.id == k
                then change_flag flag value (flags_of property.id s.builder.order_flags)
                else flags_of k s.builder.order_flags))
  unfolding set_order_flag
  set_order_flag-flags property flag value s clean same =
      rw (clean, same)
        (
          refl,
          refl,
          refl,
          λ k.
              flags_of-insert property.id k
                (change_flag flag value (flags_of property.id s.builder.order_flags))
                s.builder.order_flags,
        )

  apply_orders_stopped :
      (flags : List (ℕ × OrderFlags)) (s : State W) (e : GoError)
      → s.builder.error ≡ some e
      → apply_orders api flags s ≡ s
  unfolding apply_orders order order_checked
  apply_orders_stopped [] s e h = refl
  apply_orders_stopped ((property, flags) ∷ rest) s e h =
      ap (λ c. apply_orders api rest (order_checked api c property flags s)) h
      ∙ apply_orders_stopped rest s e h

  -- Build of a builder that has an error returns that error, applies no order and makes no query, in
  -- whatever order Go walks the flags.
  pub build_stopped :
      (walk : List (ℕ × OrderFlags) → List (ℕ × OrderFlags)) (s : State W) (e : GoError)
      → s.builder.error ≡ some e
      → build api walk s ≡ (err e, s)
  unfolding build built
  build_stopped walk s e h =
      ap (λ s'. built api s'.builder.error s')
        (apply_orders_stopped (walk s.builder.order_flags) s e h)
      ∙ ap (λ c. built api c s) h
