-- ===== src/Model/Examples.antt =====
-- A small model, and a C library that refuses entities with the identifier 9.
use objectbox_go.Base.{ℕ, suc, ◌≡◌, refl, ◌==◌, Option, none, some, [], ◌∷◌, ok, if◌then◌else◌}
use objectbox_go.Model.{
  Session, Entity, Operation, ModelApi, ModelBinding, entity, property, relation, new_model,
  register_binding, not_called, checked_entity,
}
use objectbox_go.Model.Names.{same_name}
use objectbox_go.Model.Agree.{Agrees, created, bound, Reachable-Agrees}
use objectbox_go.Model.Outcomes.{Added, register_binding-Added, entity_error_overwritten}

unfoldable call : Option ℕ → Operation → ℕ → ℕ × ℕ
call c (entity name id uid) w = (if id == 9 then 1 else 0, suc w)
call c op w = (0, suc w)

-- The world counts the calls.
abbrev api : ModelApi ℕ
api = record {
  errors = record { last_error_message = λ w. some "refused" };
  new_model = λ w. (some 1, suc w);
  call = call;
}

abbrev person : ModelBinding
person = record {
  operations = entity "Person" 4 70 ∷ property "Id" 6 1 71 ∷ relation 2 72 5 73 ∷ [];
  version = 6;
}

abbrev fresh : Session ℕ
fresh = new_model api 6 0

registered_ok : (register_binding api 6 person fresh).0 ≡ ok tt
unfolding register_binding new_model call
registered_ok = refl

registered_clean : (register_binding api 6 person fresh).1.model.error ≡ none
unfolding register_binding new_model call checked_entity same_name
registered_clean = refl

fresh_clean : fresh.model.error ≡ none
unfolding new_model
fresh_clean = refl

register_binding-Added_example :
    (e : Entity) × Added 6 person fresh (register_binding api 6 person fresh).1 e
register_binding-Added_example =
    register_binding-Added api 6 person fresh fresh_clean registered_ok registered_clean

Reachable-Agrees_example : Agrees (register_binding api 6 person fresh).1
Reachable-Agrees_example =
    Reachable-Agrees api 6 (register_binding api 6 person fresh).1 (bound person fresh (created 0))

entity_error_overwritten_example :
    register_binding api 6 (record { operations = entity "Task" 9 80 ∷ []; version = 6 }) fresh ≡ (
      ok tt,
      record {
        model = record fresh.model { current = none; error = some not_called };
        world = (call fresh.model.c_model (entity "Task" 9 80) fresh.world).1;
      },
    )
unfolding call
entity_error_overwritten_example =
    entity_error_overwritten api 6 "Task" 9 80 [] 6 fresh fresh_clean refl
