-- ===== src/Condition/Examples.antt =====
-- Conditions applied to small query builders.
use objectbox_go.Base.{ℕ, ◌≡◌, refl, none, true, List, [], ◌∷◌, message, ok, err, panic, insert}
use objectbox_go.Base.Int.{pos, negsuc}
use objectbox_go.QueryBuilder.{descending, add_condition, set_order_flag, equals_int}
use objectbox_go.QueryBuilder.Examples.{api, fresh, broken, name}
use objectbox_go.Condition.{
  Condition, condition_closure, order_closure, combination, many_to_many, RelationToMany,
  Conditions, no_conditions, and_condition,
}
use objectbox_go.Condition.Apply.{apply_to, apply_each, links_unsupported}
use objectbox_go.Condition.Sticky.{method, combined, several, apply_to_stopped}
use objectbox_go.Condition.Links.{later, many, link_inside_combination}
use objectbox_go.Condition.Orders.{none_left, order, orders_combined_panic}

abbrev adult : Condition (List ℕ)
adult = condition_closure (add_condition api name (equals_int 2 (pos 18))) none

abbrev friends : RelationToMany
friends = record { id = 4; source = 5; target = 6 }

abbrev befriended : Condition (List ℕ)
befriended = many_to_many friends (and_condition adult no_conditions) none

abbrev newest_first : Condition (List ℕ)
newest_first = order_closure (set_order_flag api name descending true) none

abbrev either : Conditions (List ℕ)
either = and_condition adult (and_condition (many_to_many friends no_conditions none) no_conditions)

abbrev sorted : Conditions (List ℕ)
sorted = and_condition newest_first (and_condition newest_first no_conditions)

apply_to_stopped_example :
    apply_to api
      (combination true (and_condition adult (and_condition befriended no_conditions)) none)
      true
      broken
    ≡ (err (message "broken"), broken)
apply_to_stopped_example =
    apply_to_stopped api
      (combination true (and_condition adult (and_condition befriended no_conditions)) none) true
      broken (message "broken")
      (combined true (and_condition adult (and_condition befriended no_conditions))
        (several adult befriended no_conditions (method name (equals_int 2 (pos 18)) none)))
      refl

either_applied : (apply_each api either fresh).0 ≡ ok (pos 1 ∷ negsuc 1 ∷ [])
unfolding apply_each add_condition
either_applied = refl

link_inside_combination_example :
    apply_to api (combination true either none) true fresh
    ≡ (err links_unsupported, (apply_each api either fresh).1)
link_inside_combination_example =
    link_inside_combination api true true adult (many_to_many friends no_conditions none)
      no_conditions fresh refl
      (later adult (and_condition (many_to_many friends no_conditions none) no_conditions)
        (many friends no_conditions none no_conditions))
      either_applied

sorted_applied : (apply_each api sorted fresh).0 ≡ ok []
unfolding apply_each set_order_flag insert
sorted_applied = refl

sorted_clean : (apply_each api sorted fresh).1.builder.error ≡ none
unfolding apply_each set_order_flag insert
sorted_clean = refl

orders_combined_panic_example :
    apply_to api (combination true sorted none) true fresh
    ≡ (panic (message "index out of range [0] with length 0"), (apply_each api sorted fresh).1)
orders_combined_panic_example =
    orders_combined_panic api true true newest_first newest_first no_conditions fresh refl
      (order (set_order_flag api name descending true) none
        (and_condition newest_first no_conditions)
        (order (set_order_flag api name descending true) none no_conditions none_left))
      sorted_applied sorted_clean
