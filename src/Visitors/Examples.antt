-- ===== src/Visitors/Examples.antt =====
-- The registry of data visitors at a concrete state: two visitors around the wrap of the numbers.
use objectbox_go.Base.{
  ℕ, suc, ◌^◌, ◌-◌, ◌⊎◌, refl, [], ◌∷◌, true, false, pure, arith, lookup-insert,
}
use objectbox_go.Visitors.{Visitor, Visitors, register, next_id}
use objectbox_go.Visitors.Numbers.{Took, Full, register_visitor_outcome}
use objectbox_go.Slots.{find_slot}

abbrev counting : Visitor ℕ
counting bytes = λ w. pure true (suc w)

abbrev stopping : Visitor ℕ
stopping bytes = pure false

abbrev wrapping : Visitors ℕ
wrapping = record { last_id = 2 ^ 32 - 2; callbacks = (0, stopping) ∷ (2 ^ 32 - 1, stopping) ∷ [] }

register_visitor_outcome_example : ((id : ℕ) × Took counting wrapping id) ⊎ Full counting wrapping
register_visitor_outcome_example = register_visitor_outcome counting wrapping

wrapping-Took : Took counting wrapping 1
unfolding register find_slot next_id
wrapping-Took = record {
  returned = refl;
  number = omega arith;
  was_free = refl;
  entries = λ j. lookup-insert 1 j counting wrapping.callbacks;
  last = refl;
}
