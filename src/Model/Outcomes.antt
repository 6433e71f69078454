-- ===== src/Model/Outcomes.antt =====
-- The outcomes of RegisterBinding of objectbox/model.go.
use objectbox_go.Base.{
  ℕ, ◌≡◌, refl, sym, ap, subst, ◌∙◌, ◌==◌, inl, inr, Option, none, some, true, false, List, [], ◌∷◌,
  String, if◌then◌else◌, nonzero, is_some, lookup, lookup-insert, GoError, ok, continue, ◌>>=◌,
  >>=-eq-ok,
}
use objectbox_go.Native.{create_error}
use objectbox_go.Model.{
  Session, Entity, Operation, ModelApi, ModelBinding, entity, registered, run, step, called,
  entity_called, add_to_model, register_checked, register_binding, unless_error, not_called,
}
use objectbox_go.Model.Registering.{Bound, checked_entity-outcome, add_to_model-maps}

-- The binding of `e` was added: its identifier was new and its version is the required one, and every
-- other identifier is mapped as before.
pub record Added {W : Type 0} (version_id : ℕ) (binding : ModelBinding) (s s' : Session W)
    (e : Entity) : Type 0 where
  pub new_id : is_some (lookup e.id s.model.by_id) ≡ false
  pub right_version : binding.version ≡ version_id
  pub by_id :
      (id : ℕ)
      → lookup id s'.model.by_id ≡ (
          if e.id == id
          then some (record e { binding = some binding.version })
          else lookup id s.model.by_id)

module _ {W : Type 0} (api : ModelApi W) (version_id : ℕ) where
  open api use {errors}

  abbrev begun : Session W → Session W
  begun s = record s { model = record s.model { current = none } }

  registered-Bound :
      (version : ℕ) (c : Option Entity) (s : Session W)
      → (registered version_id version c s).model.error ≡ none
      → (e : Entity) × Bound version_id version e s (registered version_id version c s)
  unfolding registered
  registered-Bound version none s h = cc
  registered-Bound version (some e) s h = elim (checked_entity-outcome version_id version e s) [
    | inl refused ↦ (let (_, failed) = refused in cc)
    | inr b ↦ (e, b)
  ]

  register_checked-Added :
      (binding : ModelBinding) (s : Session W) {u : Unit {0}}
      → (register_checked api version_id binding s).0 ≡ ok u
      → (register_checked api version_id binding s).1.model.error ≡ none
      → (e : Entity) × Added version_id binding s (register_checked api version_id binding s).1 e
  unfolding register_checked
  register_checked-Added binding s h clean =
      let ops = add_to_model api version_id binding.operations in
      let (_, _, step, _) =
        >>=-eq-ok ops (λ _ t. (ok tt, registered version_id binding.version t.model.current t))
          (begun s) h in
      let s1 = (ops (begun s)).1 in
      let done = registered version_id binding.version s1.model.current s1 in
      let last : (register_checked api version_id binding s).1 ≡ done = ap (λ r. r.1) step in
      let (e, b) =
        registered-Bound binding.version s1.model.current s1
          (ap (λ t. t.model.error) (sym last) ∙ clean) in
      let same = ap (λ m. m.0) (add_to_model-maps api version_id binding.operations (begun s)) in
      (
        e,
        record {
          new_id = ap (λ m. is_some (lookup e.id m)) (sym same) ∙ b.new_id;
          right_version = b.right_version;
          by_id = λ id.
              ap (λ t. lookup id t.model.by_id) last
              ∙ ap (λ m. lookup id m) b.added_id
              ∙ lookup-insert e.id id (record e { binding = some binding.version }) s1.model.by_id
              ∙ ap
                  (λ m.
                    if e.id == id
                    then some (record e { binding = some binding.version })
                    else lookup id m)
                  same;
        },
      )

  -- If RegisterBinding, on a model without an error, leaves no error and does not panic, then it has
  -- added one entity, whose identifier was new, with the binding; the binding's version is the
  -- required one, and every other identifier is mapped as before.
  pub register_binding-Added :
      (binding : ModelBinding) (s : Session W) {u : Unit {0}}
      → s.model.error ≡ none
      → (register_binding api version_id binding s).0 ≡ ok u
      → (register_binding api version_id binding s).1.model.error ≡ none
      → (e : Entity) × Added version_id binding s (register_binding api version_id binding s).1 e
  unfolding register_binding unless_error
  register_binding-Added binding s {u} none_yet h clean =
      let same : register_binding api version_id binding s
          ≡ register_checked api version_id binding s =
        ap (λ c. unless_error api version_id c (register_checked api version_id binding) s)
          none_yet in
      let (e, added) =
        register_checked-Added binding s (ap (λ r. r.0) (sym same) ∙ h)
          (ap (λ r. r.1.model.error) (sym same) ∙ clean) in
      (e, subst (λ r. Added version_id binding s r.1 e) (sym same) added)

  add_to_model_stopped :
      (ops : List Operation) (s : Session W) (e : GoError)
      → s.model.error ≡ some e
      → add_to_model api version_id ops s ≡ (ok tt, s)
  unfolding add_to_model step unless_error
  add_to_model_stopped [] s e h = refl
  add_to_model_stopped (op ∷ ops) s e h =
      ap
        (λ c.
          (unless_error api version_id c (run api version_id op) >>= λ _.
          add_to_model api version_id ops)
            s)
        h
      ∙ add_to_model_stopped ops s e h

  -- The session after the C library has refused an entity.
  abbrev refused_entity : Operation → Session W → Session W
  refused_entity op s =
      let w = (api.call s.model.c_model op s.world).1 in
      record { model = record s.model { error = some (create_error errors w) }; world = w }

  entity_called-refused :
      (name : String) (id uid : ℕ) (s : Session W)
      → nonzero (api.call s.model.c_model (entity name id uid) s.world).0 ≡ true
      → entity_called api version_id name id uid s ≡ refused_entity (entity name id uid) s
  unfolding entity_called called
  entity_called-refused name id uid s refused = rw refused refl

  add_to_model-refused :
      (name : String) (id uid : ℕ) (ops : List Operation) (s : Session W)
      → s.model.error ≡ none
      → nonzero (api.call s.model.c_model (entity name id uid) s.world).0 ≡ true
      → add_to_model api version_id (entity name id uid ∷ ops) s
        ≡ (ok tt, refused_entity (entity name id uid) s)
  unfolding add_to_model step run unless_error
  add_to_model-refused name id uid ops s none_yet refused =
      let rest = add_to_model api version_id ops in
      ap
        (λ c.
          (unless_error api version_id c (run api version_id (entity name id uid)) >>= λ _. rest) s)
        none_yet
      ∙ ap rest (entity_called-refused name id uid s refused)
      ∙ add_to_model_stopped ops (refused_entity (entity name id uid) s) _ refl

  -- When the C library refuses the entity of a binding, RegisterBinding reports that the binding has
  -- not called Entity: the C library's error, which the model had, is overwritten.
  pub entity_error_overwritten :
      (name : String) (id uid : ℕ) (ops : List Operation) (version : ℕ) (s : Session W)
      → s.model.error ≡ none
      → nonzero (api.call s.model.c_model (entity name id uid) s.world).0 ≡ true
      → register_binding api version_id
          (record { operations = entity name id uid ∷ ops; version = version })
          s
        ≡ (
          ok tt,
          record {
            model = record s.model { current = none; error = some not_called };
            world = (api.call s.model.c_model (entity name id uid) s.world).1;
          },
        )
  unfolding register_binding register_checked registered unless_error
  entity_error_overwritten name id uid ops version s none_yet refused =
      let binding : ModelBinding = record {
        operations = entity name id uid ∷ ops;
        version = version;
      } in
      ap (λ c. unless_error api version_id c (register_checked api version_id binding) s) none_yet
      ∙ ap (λ r. continue r.0 (λ _ t. (ok tt, registered version_id version t.model.current t)) r.1)
          (add_to_model-refused name id uid ops (begun s) none_yet refused)
