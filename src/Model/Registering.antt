-- ===== src/Model/Registering.antt =====
-- What the methods and RegisterBinding of objectbox/model.go do to the maps of entities.
use objectbox_go.Base.{
  ℕ, ◌≡◌, refl, ap, ◌∙◌, ◌==◌, ==_iff, ◌⊎◌, inl, inr, Option, none, some, true, false, List, [],
  ◌∷◌, String, is_some, lookup, insert, Outcome, ok, err, panic, Exec, continue, ◌>>=◌, Bool-cases,
  Option-cases,
}
use objectbox_go.Model.{
  Session, Entity, Operation, ModelApi, generator_version, last_entity_id, last_index_id,
  last_relation_id, entity_last_property_id, property_index, entity, entity_flags, property_flags,
  relation, property, property_relation, mark_relations, checked_entity, run, step, called,
  entity_called, add_to_model, unless_error,
}
use objectbox_go.Model.Names.{same_name, find_name, add_name}

-- The entities by identifier and by name.
abbrev pub maps : {W : Type 0} → Session W → List (ℕ × Entity) × List (String × Entity)
maps s = (s.model.by_id, s.model.by_name)

-- The entity was refused: the maps are as before, and the model has an error.
abbrev pub Refused : {W : Type 0} → Session W → Session W → Type 0
Refused s s' = (maps s' ≡ maps s) × (is_some s'.model.error ≡ true)

-- The entity `e` was added to both maps, with its binding; its identifier and its name were set and
-- both were new, and the binding has the required version.
pub record Bound {W : Type 0} (version_id version : ℕ) (e : Entity) (s s' : Session W)
    : Type 0 where
  pub has_id : (e.id == 0) ≡ false
  pub has_name : same_name e.name "" ≡ false
  pub new_id : is_some (lookup e.id s.model.by_id) ≡ false
  pub new_name : is_some (find_name e.name s.model.by_name) ≡ false
  pub right_version : version ≡ version_id
  pub added_id : s'.model.by_id ≡ insert e.id (record e { binding = some version }) s.model.by_id
  pub added_name :
      s'.model.by_name ≡ add_name e.name (record e { binding = some version }) s.model.by_name
  pub same_error : s'.model.error ≡ s.model.error

module _ {W : Type 0} where
  pub checked_entity-outcome :
      (version_id version : ℕ) (e : Entity) (s : Session W)
      → Refused s (checked_entity version_id version e s)
        ⊎ Bound version_id version e s (checked_entity version_id version e s)
  unfolding checked_entity
  checked_entity-outcome version_id version e s = elim (Bool-cases (e.id == 0)) [
    | inl z ↦ rw z (inl (refl, refl))
    | inr h1 ↦ elim (Bool-cases (same_name e.name "")) [
      | inl z ↦ rw (h1, z) (inl (refl, refl))
      | inr h2 ↦ elim (Bool-cases (is_some (lookup e.id s.model.by_id))) [
        | inl z ↦ rw (h1, h2, z) (inl (refl, refl))
        | inr h3 ↦ elim (Bool-cases (is_some (find_name e.name s.model.by_name))) [
          | inl z ↦ rw (h1, h2, h3, z) (inl (refl, refl))
          | inr h4 ↦ elim (Bool-cases (version == version_id)) [
            | inl v ↦
                rw (h1, h2, h3, h4, v)
                  (inr (record {
                    has_id = h1;
                    has_name = h2;
                    new_id = h3;
                    new_name = h4;
                    right_version = (==_iff version version_id).0 v;
                    added_id = refl;
                    added_name = refl;
                    same_error = refl;
                  }))
            | inr v ↦ rw (h1, h2, h3, h4, v) (inl (refl, refl))
          ]
        ]
      ]
    ]
  ]

  mark_relations-maps : (e : Option Entity) (s : Session W) → maps (mark_relations e s).1 ≡ maps s
  unfolding mark_relations
  mark_relations-maps none s = refl
  mark_relations-maps (some e) s = refl

  >>=-maps :
      {A B : Type 0} (m : Exec (Session W) A) (f : A → Exec (Session W) B) (s : Session W)
      → maps (m s).1 ≡ maps s
      → ((a : A) (s' : Session W) → maps (f a s').1 ≡ maps s')
      → maps ((m >>= f) s).1 ≡ maps s
  >>=-maps {A} {B} m f s keeps rest = go (m s).0 (m s).1 keeps
    where
      go :
          (r : Outcome A) (s' : Session W)
          → maps s' ≡ maps s
          → maps (continue {B = B} r f s').1 ≡ maps s
      go (ok a) s' e = rest a s' ∙ e
      go (err x) s' e = e
      go (panic x) s' e = e

  module _ (api : ModelApi W) (version_id : ℕ) where
    called-maps : (op : Operation) (s : Session W) → maps (called api version_id op s) ≡ maps s
    unfolding called
    called-maps op s = refl

    entity_called-maps :
        (name : String) (id uid : ℕ) (s : Session W)
        → maps (entity_called api version_id name id uid s) ≡ maps s
    unfolding entity_called called
    entity_called-maps name id uid s =
        elim (Bool-cases (is_some (called api version_id (entity name id uid) s).model.error)) [
          | inl e ↦ rw e refl
          | inr e ↦ rw e refl
        ]

    run-maps : (op : Operation) (s : Session W) → maps (run api version_id op s).1 ≡ maps s
    unfolding run
    run-maps (generator_version v) s = refl
    run-maps (last_entity_id id uid) s = refl
    run-maps (last_index_id id uid) s = refl
    run-maps (last_relation_id id uid) s = refl
    run-maps (entity name id uid) s = entity_called-maps name id uid s
    run-maps (entity_flags flags) s = called-maps (entity_flags flags) s
    run-maps (relation id uid target target_uid) s =
        mark_relations-maps _ _ ∙ called-maps (relation id uid target target_uid) s
    run-maps (entity_last_property_id id uid) s = called-maps (entity_last_property_id id uid) s
    run-maps (property name type id uid) s = called-maps (property name type id uid) s
    run-maps (property_flags flags) s = called-maps (property_flags flags) s
    run-maps (property_index id uid) s = called-maps (property_index id uid) s
    run-maps (property_relation name id uid) s =
        mark_relations-maps _ _ ∙ called-maps (property_relation name id uid) s

    pub step-maps : (op : Operation) (s : Session W) → maps (step api version_id op s).1 ≡ maps s
    unfolding step unless_error
    step-maps op s = elim (Option-cases s.model.error) [
      | inl e ↦
          ap (λ c. maps (unless_error api version_id c (run api version_id op) s).1) e
          ∙ run-maps op s
      | inr (x, e) ↦ ap (λ c. maps (unless_error api version_id c (run api version_id op) s).1) e
    ]

    pub add_to_model-maps :
        (ops : List Operation) (s : Session W) → maps (add_to_model api version_id ops s).1 ≡ maps s
    unfolding add_to_model
    add_to_model-maps [] s = refl
    add_to_model-maps (op ∷ ops) s =
        >>=-maps (step api version_id op) _ s (step-maps op s) (λ _. add_to_model-maps ops)
