-- ===== src/Callbacks/Examples.antt =====
-- The registry of callbacks at concrete states.
use objectbox_go.Base.{ℕ, suc, ◌^◌, ◌-◌, ◌≡◌, ◌⊎◌, refl, [], ◌∷◌, arith, lookup-insert, ok}
use objectbox_go.Callbacks.{
  Callable, void_callback, void_uint64_callback, Registry, register, unregister, next_id,
}
use objectbox_go.Callbacks.Numbers.{Took, Full, register_outcome}
use objectbox_go.Callbacks.Calls.{Reaches, Ignores, dispatch-register}
use objectbox_go.Slots.{find_slot}

abbrev tick : Callable ℕ
tick = void_callback suc

-- The last number before the wrap, and the first number taken.
abbrev wrapping : Registry ℕ
wrapping = record { last_id = 2 ^ 32 - 1; callbacks = (1, void_uint64_callback (λ a w. a)) ∷ [] }

wrapping_takes : (register tick wrapping).0 ≡ ok 2
unfolding register find_slot next_id
wrapping_takes = refl

register_outcome_example : ((id : ℕ) × Took tick wrapping id) ⊎ Full tick wrapping
register_outcome_example = register_outcome tick wrapping (omega arith)

wrapping-Took : Took tick wrapping 2
unfolding register find_slot next_id
wrapping-Took = record {
  returned = refl;
  number = omega arith;
  was_free = refl;
  entries = λ j. lookup-insert 2 j tick wrapping.callbacks;
  last = refl;
}

dispatch-register_example :
    Reaches (register tick wrapping).1 2 tick × Ignores (unregister 2 (register tick wrapping).1) 2
dispatch-register_example = dispatch-register tick wrapping 2 wrapping-Took
