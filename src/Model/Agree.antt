-- ===== src/Model/Agree.antt =====
-- The two maps of entities of objectbox/model.go always hold the same entities.
use objectbox_go.Base.{
  ℕ, ◌≡◌, refl, sym, ap, subst, ◌∙◌, ◌==◌, ==_iff, ==_refl, ◌⊎◌, inl, inr, Option, none, some, true,
  false, List, [], String, if◌then◌else◌, is_some, lookup, insert, lookup-insert, GoError, Outcome,
  ok, err, panic, continue, Bool-cases,
}
use objectbox_go.Model.{
  Session, Entity, Operation, ModelApi, ModelBinding, checked_entity, registered, step,
  add_to_model, register_checked, register_binding, unless_error, new_model, made,
}
use objectbox_go.Model.Names.{same_name, same_name_iff, same_name_refl, find_name, add_name}
use objectbox_go.Model.Registering.{maps, checked_entity-outcome, step-maps, add_to_model-maps}

-- An entity found by an identifier has that identifier, which is not 0, and is found by its name; and
-- an entity found by a name has that name, which is not empty, and is found by its identifier.
pub record Agree (by_id : List (ℕ × Entity)) (by_name : List (String × Entity)) : Type 0 where
  pub ids :
      (id : ℕ) (e : Entity)
      → lookup id by_id ≡ some e
      → (e.id ≡ id) × ((id == 0) ≡ false) × (find_name e.name by_name ≡ some e)
  pub names :
      (name : String) (e : Entity)
      → find_name name by_name ≡ some e
      → (e.name ≡ name) × (same_name name "" ≡ false) × (lookup e.id by_id ≡ some e)

some_injective : {A : Type 0} {a b : A} → some a ≡ some b → a ≡ b
some_injective h = cc

Agree-empty : Agree [] []
Agree-empty = record { ids = λ id e h. cc; names = λ name e h. cc }

absent-differs :
    (id : ℕ) (e : Entity) (by_id : List (ℕ × Entity))
    → is_some (lookup id by_id) ≡ false
    → lookup e.id by_id ≡ some e
    → (id == e.id) ≡ false
absent-differs id e by_id h found = elim (Bool-cases (id == e.id)) [
  | inl same ↦ (let p = (==_iff id e.id).0 same in cc)
  | inr other ↦ other
]

absent_name-differs :
    (name : String) (e : Entity) (by_name : List (String × Entity))
    → is_some (find_name name by_name) ≡ false
    → find_name e.name by_name ≡ some e
    → same_name name e.name ≡ false
absent_name-differs name e by_name h found = elim (Bool-cases (same_name name e.name)) [
  | inl same ↦ (let p = (same_name_iff name e.name).0 same in cc)
  | inr other ↦ other
]

Agree-add :
    (e : Entity) (by_id : List (ℕ × Entity)) (by_name : List (String × Entity))
    → (e.id == 0) ≡ false
    → same_name e.name "" ≡ false
    → is_some (lookup e.id by_id) ≡ false
    → is_some (find_name e.name by_name) ≡ false
    → Agree by_id by_name
    → Agree (insert e.id e by_id) (add_name e.name e by_name)
Agree-add e by_id by_name has_id has_name new_id new_name agree = record {
  ids = λ id f h. by_ids id f (Bool-cases (e.id == id)) (sym (lookup-insert e.id id e by_id) ∙ h);
  names = λ name f h. by_names name f (Bool-cases (same_name e.name name)) h;
}
  where
    by_ids :
        (id : ℕ) (f : Entity)
        → ((e.id == id) ≡ true) ⊎ ((e.id == id) ≡ false)
        → (if e.id == id then some e else lookup id by_id) ≡ some f
        → (f.id ≡ id)
          × ((id == 0) ≡ false)
          × (find_name f.name (add_name e.name e by_name) ≡ some f)
    by_ids id f (inl same) h =
        let is : e ≡ f = some_injective (rw same at h) in
        let at = (==_iff e.id id).0 same in
        (
          ap (λ g. g.id) (sym is) ∙ at,
          subst (λ i. (i == 0) ≡ false) at has_id,
          subst (λ g. find_name g.name (add_name e.name e by_name) ≡ some g) is
              (rw (same_name_refl e.name) refl),
        )
    by_ids id f (inr other) h =
        let old = agree.ids id f (rw other at h) in
        (old.0, old.1, rw (absent_name-differs e.name f by_name new_name old.2) old.2)

    by_names :
        (name : String) (f : Entity)
        → (same_name e.name name ≡ true) ⊎ (same_name e.name name ≡ false)
        → find_name name (add_name e.name e by_name) ≡ some f
        → (f.name ≡ name)
          × (same_name name "" ≡ false)
          × (lookup f.id (insert e.id e by_id) ≡ some f)
    by_names name f (inl same) h =
        let is : e ≡ f = some_injective (rw same at h) in
        let at = (same_name_iff e.name name).0 same in
        (
          ap (λ g. g.name) (sym is) ∙ at,
          subst (λ n. same_name n "" ≡ false) at has_name,
          subst (λ g. lookup g.id (insert e.id e by_id) ≡ some g) is
              (lookup-insert e.id e.id e by_id ∙ rw (==_refl e.id) refl),
        )
    by_names name f (inr other) h =
        let old = agree.names name f (rw other at h) in
        (
          old.0,
          old.1,
          lookup-insert e.id f.id e by_id ∙ rw (absent-differs e.id f by_id new_id old.2) old.2,
        )

abbrev pub Agrees : {W : Type 0} → Session W → Type 0
Agrees s = Agree s.model.by_id s.model.by_name

module _ {W : Type 0} (api : ModelApi W) (version_id : ℕ) where
  -- The sessions with a model that NewModel, the model's methods and RegisterBinding lead to, after a
  -- panic of the last of them too.
  pub data Reachable : Session W → Type 0 where
    created : (w : W) → Reachable (new_model api version_id w)
    stepped :
        (op : Operation) (s : Session W) → Reachable s → Reachable (step api version_id op s).1
    bound :
        (binding : ModelBinding) (s : Session W)
        → Reachable s
        → Reachable (register_binding api version_id binding s).1

  Agrees-maps : (s s' : Session W) → maps s' ≡ maps s → Agrees s → Agrees s'
  Agrees-maps s s' e agree = subst (λ m. Agree m.0 m.1) (sym e) agree

  checked_entity-Agrees :
      (version : ℕ) (e : Entity) (s : Session W)
      → Agrees s
      → Agrees (checked_entity version_id version e s)
  checked_entity-Agrees version e s agree = elim (checked_entity-outcome version_id version e s) [
    | inl refused ↦ Agrees-maps s (checked_entity version_id version e s) refused.0 agree
    | inr b ↦
        rw (b.added_id, b.added_name)
          (Agree-add (record e { binding = some version }) s.model.by_id s.model.by_name b.has_id
            b.has_name b.new_id b.new_name agree)
  ]

  registered-Agrees :
      (version : ℕ) (e : Option Entity) (s : Session W)
      → Agrees s
      → Agrees (registered version_id version e s)
  unfolding registered
  registered-Agrees version none s agree = agree
  registered-Agrees version (some e) s agree = checked_entity-Agrees version e s agree

  register_checked-Agrees :
      (binding : ModelBinding) (s : Session W)
      → Agrees s
      → Agrees (register_checked api version_id binding s).1
  unfolding register_checked
  register_checked-Agrees binding s agree =
      go (add_to_model api version_id binding.operations begun) kept
    where
      begun : Session W
      begun = record s { model = record s.model { current = none } }

      kept : Agrees (add_to_model api version_id binding.operations begun).1
      kept =
          Agrees-maps s (add_to_model api version_id binding.operations begun).1
            (add_to_model-maps api version_id binding.operations begun) agree

      go :
          (r : Outcome (Unit {0}) × Session W)
          → Agrees r.1
          → Agrees
              (continue {B = Unit {0}} r.0
                (λ _ s'. (ok tt, registered version_id binding.version s'.model.current s'))
                r.1).1
      go (ok u, s') a = registered-Agrees binding.version s'.model.current s' a
      go (err e, s') a = a
      go (panic e, s') a = a

  register_binding-Agrees :
      (binding : ModelBinding) (s : Session W)
      → Agrees s
      → Agrees (register_binding api version_id binding s).1
  unfolding register_binding unless_error
  register_binding-Agrees binding s agree = go s.model.error
    where
      go :
          (c : Option GoError)
          → Agrees (unless_error api version_id c (register_checked api version_id binding) s).1
      go none = register_checked-Agrees binding s agree
      go (some x) = agree

  -- However a model has been built, its two maps hold the same entities: what is found by an
  -- identifier has it, is found by its name, and the identifier is not 0; and what is found by a name
  -- has it, is found by its identifier, and the name is not empty.
  pub Reachable-Agrees : (s : Session W) → Reachable s → Agrees s
  unfolding new_model made
  Reachable-Agrees _ (created w) = Agree-empty
  Reachable-Agrees _ (stepped op s r) =
      Agrees-maps s (step api version_id op s).1 (step-maps api version_id op s)
        (Reachable-Agrees s r)
  Reachable-Agrees _ (bound binding s r) = register_binding-Agrees binding s (Reachable-Agrees s r)
