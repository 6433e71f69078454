-- ===== src/Condition/Orders.antt =====
-- Orders as parts of combinations: objectbox/condition.go.
use objectbox_go.Base.{
  ◌≡◌, refl, sym, ap, ◌∙◌, Option, none, some, Bool, true, false, not, ◌&&◌, List, [], String, ok,
  panic, message, Exec, >>=-eq-ok, ok-injective,
}
use objectbox_go.QueryBuilder.{State, ConditionId, QueryApi, fake_order, any, all}
use objectbox_go.Condition.{
  Condition, combination, order_closure, Conditions, no_conditions, and_condition,
}
use objectbox_go.Condition.Apply.{apply_to, apply_each, add_unless_order, combine, has_link}
use objectbox_go.Condition.Links.{apply_each-and, apply_combined-combine}

-- Conditions that are all orders.
pub data OrdersOnly {W : Type 0} : Conditions W → Type 0 where
  none_left : OrdersOnly no_conditions
  order :
      (apply : Exec (State W) (Unit {0})) (alias : Option String) (parts : Conditions W)
      → OrdersOnly parts
      → OrdersOnly (and_condition (order_closure apply alias) parts)

add-fake_order : (ids : List ConditionId) → add_unless_order fake_order ids ≡ ids
unfolding add_unless_order
add-fake_order ids = refl

module _ {W F : Type 0} (api : QueryApi W F) where
  order-id :
      (apply : Exec (State W) (Unit {0})) (alias : Option String) (s : State W) {id : ConditionId}
      → (apply_to api (order_closure apply alias) false s).0 ≡ ok id
      → id ≡ fake_order
  unfolding apply_to
  order-id apply none s h = let (_, _, _, done) = >>=-eq-ok apply _ s h in sym (ok-injective done)
  order-id apply (some name) s h = cc

  no_ids :
      (parts : Conditions W) (s : State W) {ids : List ConditionId}
      → OrdersOnly parts
      → (apply_each api parts s).0 ≡ ok ids
      → ids ≡ []
  unfolding apply_each
  no_ids _ s none_left h = sym (ok-injective h)
  no_ids _ s (order apply alias parts only) h =
      let (id, rest, e, e', same, _) = apply_each-and api (order_closure apply alias) parts s h in
      same
      ∙ ap (λ i. add_unless_order i rest) (order-id apply alias s e)
      ∙ add-fake_order rest
      ∙ no_ids parts _ only e'

  -- An Any, or an All below the root, of two orders or more panics once these have been applied
  -- without an error: it takes the address of the first of no identifiers.
  pub orders_combined_panic :
      (or is_root : Bool) (c d : Condition W) (parts : Conditions W) (s : State W)
      {ids : List ConditionId}
      → (is_root && not or) ≡ false
      → OrdersOnly (and_condition c (and_condition d parts))
      → (apply_each api (and_condition c (and_condition d parts)) s).0 ≡ ok ids
      → (apply_each api (and_condition c (and_condition d parts)) s).1.builder.error ≡ none
      → apply_to api (combination or (and_condition c (and_condition d parts)) none) is_root s ≡ (
        panic (message "index out of range [0] with length 0"),
        (apply_each api (and_condition c (and_condition d parts)) s).1,
      )
  unfolding combine has_link any all
  orders_combined_panic true is_root c d parts s below only h clean =
      apply_combined-combine api true is_root c d parts s h
      ∙ rw (no_ids _ s only h, below, clean) refl
  orders_combined_panic false is_root c d parts s below only h clean =
      apply_combined-combine api false is_root c d parts s h
      ∙ rw (no_ids _ s only h, below, clean) refl
