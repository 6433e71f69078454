-- ===== src/Model.antt =====
-- objectbox/model.go: the construction of the model of a database, and the registration of bindings.
-- The code that a binding generates for AddToModel is a list of calls of the model's methods; the
-- version that the generator package requires is `version_id`.
pub mod Names
pub mod Agree
pub mod Registering
pub mod Outcomes
pub mod Examples
use objectbox_go.Base.{
  ℕ, zero, suc, ◌==◌, Option, none, some, Bool, true, false, not, ◌||◌, List, [], ◌∷◌, String,
  if◌then◌else◌, nonzero, is_some, lookup, insert, GoError, message, message_with, message_about,
  Outcome, ok, err, panic, Exec, pure, fail, panics, ◌>>=◌, ◌>>◌,
}
use objectbox_go.Native.{Errors, create_error}
use objectbox_go.Model.Names.{same_name, find_name, add_name}

-- entity; `binding` is the version of the generator that made its binding, none before it has one.
pub record Entity : Type 0 where
  pub id : ℕ
  pub name : String
  pub binding : Option ℕ
  pub has_relations : Bool

-- The methods of Model that a binding or the generated model calls.
pub data Operation : Type 0 where
  generator_version : ℕ → Operation
  last_entity_id last_index_id last_relation_id entity_last_property_id property_index :
      ℕ → ℕ → Operation
  entity : String → ℕ → ℕ → Operation
  entity_flags property_flags : ℕ → Operation
  relation : ℕ → ℕ → ℕ → ℕ → Operation
  property : String → ℕ → ℕ → ℕ → Operation
  property_relation : String → ℕ → ℕ → Operation

-- The functions obx_model_*, named by the operation that calls them; three of them return nothing,
-- and their code is not used.
pub record ModelApi (W : Type 0) : Type 0 where
  pub errors : Errors W
  pub new_model : W → Option ℕ × W
  pub call : Option ℕ → Operation → W → ℕ × W

pub record Model : Type 0 where
  pub c_model : Option ℕ
  pub error : Option GoError
  pub current : Option Entity
  pub by_id : List (ℕ × Entity)
  pub by_name : List (String × Entity)
  pub last_entity : ℕ × ℕ
  pub last_index : ℕ × ℕ
  pub last_relation : ℕ × ℕ
  pub generator : ℕ

pub record Session (W : Type 0) : Type 0 where
  pub model : Model
  pub world : W

pub record ModelBinding : Type 0 where
  pub operations : List Operation
  pub version : ℕ

abbrev pub with_error : {W : Type 0} → GoError → Session W → Session W
with_error e s = record s { model = record s.model { error = some e } }

abbrev pub nil_pointer : GoError
nil_pointer = message "invalid memory address or nil pointer dereference"

-- model.currentEntity.hasRelations = true
unfoldable pub mark_relations : {W : Type 0} → Option Entity → Exec (Session W) Unit
mark_relations none s = panics nil_pointer s
mark_relations (some e) s =
    pure tt
      (record s { model = record s.model { current = some (record e { has_relations = true }) } })

abbrev pub not_called : GoError
not_called = message "invalid binding - model.Entity() not called"

-- The end of RegisterBinding, on the entity that AddToModel left.
unfoldable pub checked_entity : {W : Type 0} → ℕ → ℕ → Entity → Session W → Session W
checked_entity version_id version e s =
    if e.id == 0
    then with_error (message "invalid binding - entity id is not set") s
    else if same_name e.name ""
    then with_error (message "invalid binding - entity name is not set") s
    else if is_some (lookup e.id s.model.by_id)
    then with_error (message_with "duplicate binding - entity id is already registered" e.id) s
    else if is_some (find_name e.name s.model.by_name)
    then with_error (message_about "duplicate binding - entity name is already registered" e.name) s
    else if not (version == version_id)
    then with_error
        (message_with "incompatible generator version used to generate the binding" version) s
    else (let bound = record e { binding = some version } in
        record s {
          model = record s.model {
            current = none;
            by_id = insert e.id bound s.model.by_id;
            by_name = add_name e.name bound s.model.by_name;
          };
        })

unfoldable pub registered : {W : Type 0} → ℕ → ℕ → Option Entity → Session W → Session W
unfolding checked_entity
registered version_id version none s = with_error not_called s
registered version_id version (some e) s = checked_entity version_id version e s

module _ {W : Type 0} (api : ModelApi W) (version_id : ℕ) where
  open api use {errors}

  unfoldable pub made : Option ℕ × W → Session W
  made (c_model, w) = record {
    model = record {
      c_model = c_model;
      error = if is_some c_model then none else some (create_error errors w);
      current = none;
      by_id = [];
      by_name = [];
      last_entity = (0, 0);
      last_index = (0, 0);
      last_relation = (0, 0);
      generator = 0;
    };
    world = w;
  }

  -- NewModel
  unfoldable pub new_model : W → Session W
  unfolding made
  new_model w = made (api.new_model w)

  -- model.Error = cCall(…)
  unfoldable pub called : Operation → Session W → Session W
  called op s =
      let (rc, w) = api.call s.model.c_model op s.world in
      record {
        model = record s.model {
          error = if nonzero rc then some (create_error errors w) else none;
        };
        world = w;
      }

  -- A call of a C function that returns nothing.
  noted : Operation → Model → Session W → Session W
  noted op model s = record { model = model; world = (api.call s.model.c_model op s.world).1 }

  entity_called : String → ℕ → ℕ → Session W → Session W
  unfolding called
  entity_called name id uid s =
      let s' = called (entity name id uid) s in
      if is_some s'.model.error then s' else record s' {
        model = record s'.model {
          current = some (record { id = id; name = name; binding = none; has_relations = false });
        };
      }

  -- A method's body on a model without an error.
  unfoldable pub run : Operation → Exec (Session W) Unit
  unfolding called noted entity_called mark_relations
  run (generator_version v) s = pure tt (record s { model = record s.model { generator = v } })
  run (last_entity_id id uid) s =
      pure tt (noted (last_entity_id id uid) (record s.model { last_entity = (id, uid) }) s)
  run (last_index_id id uid) s =
      pure tt (noted (last_index_id id uid) (record s.model { last_index = (id, uid) }) s)
  run (last_relation_id id uid) s =
      pure tt (noted (last_relation_id id uid) (record s.model { last_relation = (id, uid) }) s)
  run (entity name id uid) s = pure tt (entity_called name id uid s)
  run (entity_flags flags) s = pure tt (called (entity_flags flags) s)
  run (relation id uid target target_uid) s =
      let s' = called (relation id uid target target_uid) s in mark_relations s'.model.current s'
  run (entity_last_property_id id uid) s = pure tt (called (entity_last_property_id id uid) s)
  run (property name type id uid) s = pure tt (called (property name type id uid) s)
  run (property_flags flags) s = pure tt (called (property_flags flags) s)
  run (property_index id uid) s = pure tt (called (property_index id uid) s)
  run (property_relation name id uid) s =
      let s' = called (property_relation name id uid) s in mark_relations s'.model.current s'

  unfoldable pub unless_error : Option GoError → Exec (Session W) Unit → Exec (Session W) Unit
  unless_error (some e) m s = pure tt s
  unless_error none m s = m s

  -- A method: nothing happens once the model has an error.
  unfoldable pub step : Operation → Exec (Session W) Unit
  unfolding unless_error run
  step op s = unless_error s.model.error (run op) s

  -- AddToModel
  unfoldable pub add_to_model : List Operation → Exec (Session W) Unit
  unfolding step
  add_to_model [] = pure tt
  add_to_model (op ∷ ops) = do step op; add_to_model ops

  unfoldable pub register_checked : ModelBinding → Exec (Session W) Unit
  unfolding add_to_model registered
  register_checked binding = do
    (λ s. pure tt (record s { model = record s.model { current = none } }))
    add_to_model binding.operations
    (λ s. pure tt (registered version_id binding.version s.model.current s))

  -- RegisterBinding
  unfoldable pub register_binding : ModelBinding → Exec (Session W) Unit
  unfolding unless_error register_checked
  register_binding binding s = unless_error s.model.error (register_checked binding) s

  -- validate
  unfoldable pub validate : Model → Option GoError
  validate model = elim model.error [
    | some e ↦ some e
    | none ↦
        if not (model.generator == version_id)
        then some (
            message_with "incompatible generator version used to generate the model code"
              model.generator)
        else if model.last_entity.0 == 0 || model.last_entity.1 == 0
        then some (message "last entity ID/UID is missing")
        else none
  ]
