-- ===== src/Tasks/Schema.antt =====
-- examples/tasks/internal/model: AddToModel of the binding, and the model of the database in
-- objectbox-model.go.
use objectbox_go.Base.{
  ℕ, ◌==◌, ◌≡◌, refl, sym, subst, Option, none, some, false, [], ◌∷◌, if◌then◌else◌, Outcome, ok,
  pure, message_with, lookup, ◌>>◌, insert, Bool-cases, inl, inr,
}
use objectbox_go.Model.Names.{same_name}
use objectbox_go.Model.{
  Operation, entity, property, property_flags, entity_last_property_id, generator_version,
  last_entity_id, ModelApi, ModelBinding, Model, Session, Entity, new_model, step, register_binding,
  validate, made, run, unless_error, called, registered, add_to_model, register_checked,
  checked_entity,
}

-- AddToModel and GeneratorVersion of the binding; 9, 6 and 10 are the types of a string, a long and a
-- date, and the flag 1 is that of an identifier.
abbrev pub task_model_binding : ModelBinding
task_model_binding = record {
  operations =
      entity "Task" 1 6645479796472661392
      ∷ property "Id" 6 1 9211738071025439652
      ∷ property_flags 1
      ∷ property "Text" 9 2 8804670454579230281
      ∷ property "DateCreated" 10 4 1260602348787983453
      ∷ property "DateFinished" 10 5 6240065879507520219
      ∷ entity_last_property_id 5 6240065879507520219
      ∷ [];
  version = 6;
}

-- ObjectBoxModel, with the session that the model ends in.
unfoldable pub object_box_model : {W : Type 0} → ModelApi W → ℕ → W → Outcome Model × Session W
unfolding new_model step register_binding
object_box_model api version_id w =
    (do
      step api version_id (generator_version 6)
      register_binding api version_id task_model_binding
      step api version_id (last_entity_id 1 6645479796472661392)
      (λ s. pure s.model s))
      (new_model api version_id w)

-- The entity of the tasks, as it is registered.
abbrev pub task_entity_info : Entity
task_entity_info = record { id = 1; name = "Task"; binding = some 6; has_relations = false }

-- The C functions when none of them fails.
abbrev succeeding : {W : Type 0} → ModelApi W → ℕ → ModelApi W
succeeding api pointer = record api {
  new_model = λ w. (some pointer, (api.new_model w).1);
  call = λ m op w. (0, (api.call m op w).1);
}

-- What ObjectBoxModel promises of its model.
abbrev pub Declares : {W : Type 0} → ModelApi W → ℕ → Outcome Model → Type 0
Declares api version_id r =
    (model : Model) × (r ≡ ok model)
    × (validate api version_id model ≡ (
        if 6 == version_id
        then none
        else some (message_with "incompatible generator version used to generate the binding" 6)))
    × (lookup 1 model.by_id ≡ (if 6 == version_id then some task_entity_info else none))

clean-Declares :
    {W : Type 0} (api : ModelApi W) (pointer version_id : ℕ) (w : W)
    → Declares api version_id (object_box_model (succeeding api pointer) version_id w).0
unfolding object_box_model validate new_model made step unless_error run called register_binding
    register_checked add_to_model registered checked_entity insert same_name
clean-Declares api pointer version_id w = elim (Bool-cases (6 == version_id)) [
  | inl e ↦ rw e (_, refl, rw e refl, refl)
  | inr e ↦ rw e (_, refl, refl, refl)
]

all_succeed :
    {W : Type 0} (api : ModelApi W) (pointer : ℕ)
    → ((w : W) → (api.new_model w).0 ≡ some pointer)
    → ((m : Option ℕ) (op : Operation) (w : W) → (api.call m op w).0 ≡ 0)
    → api ≡ succeeding api pointer
all_succeed api pointer made succeeds = λ i. record api {
  new_model = λ w. (made w i, (api.new_model w).1);
  call = λ m op w. (succeeds m op w i, (api.call m op w).1);
}

-- If no C function on the model fails, then ObjectBoxModel returns a model. If the generator package
-- is of the version 6, the model is valid and has the entity Task, without relations, under the
-- identifier 1; otherwise it is refused for the version of the binding and has no such entity.
pub object_box_model-Declares :
    {W : Type 0} (api : ModelApi W) (pointer version_id : ℕ) (w : W)
    → ((w' : W) → (api.new_model w').0 ≡ some pointer)
    → ((m : Option ℕ) (op : Operation) (w' : W) → (api.call m op w').0 ≡ 0)
    → Declares api version_id (object_box_model api version_id w).0
object_box_model-Declares api pointer version_id w made succeeds =
    subst (λ a. Declares api version_id (object_box_model a version_id w).0)
      (sym (all_succeed api pointer made succeeds)) (clean-Declares api pointer version_id w)
