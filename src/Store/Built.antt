-- ===== src/Store/Built.antt =====
-- What a store that Build of objectbox/builder.go returns has taken from its model.
use objectbox_go.Base.{
  ℕ, ◌≡◌, refl, sym, ap, nonzero, Option, none, some, Bool-cases, inl, inr, Outcome, ok, err, panic,
  String, ok-injective, GoError,
}
use objectbox_go.Model.{Model}
use objectbox_go.Store.{
  StoreApi, Builder, ObjectBox, opened, open_with, located, at_directory, configured, with_schema,
  unless_failed, build_or_error, build_or_panic, build_store,
}

-- The entities of a store are those of a model.
abbrev pub HasEntities : Model → ObjectBox → Type 0
HasEntities model ob = ob.entities_by_id ≡ model.by_id

module _ {W : Type 0} (api : StoreApi W) where
  opened-HasEntities :
      (model : Model) (async_timeout : ℕ) (r : Option ℕ × W) {ob : ObjectBox}
      → (opened api model async_timeout r).0 ≡ ok ob
      → HasEntities model ob
  unfolding opened
  opened-HasEntities model async_timeout (none, w) h = cc
  opened-HasEntities model async_timeout (some store, w) h =
      ap (λ o. o.entities_by_id) (sym (ok-injective h))

  located-HasEntities :
      (builder : Builder) (model : Model) (options : ℕ) (r : ℕ × W) {ob : ObjectBox}
      → (located api builder model options r).0 ≡ ok ob
      → HasEntities model ob
  unfolding located open_with
  located-HasEntities builder model options (rc, w) = elim (Bool-cases (nonzero rc)) [
    | inl e ↦ rw e (λ h. cc)
    | inr e ↦ rw e (opened-HasEntities model builder.async_timeout _)
  ]

  at_directory-HasEntities :
      (path : Option String) (builder : Builder) (model : Model) (options : ℕ) (w : W)
      {ob : ObjectBox}
      → (at_directory api path builder model options w).0 ≡ ok ob
      → HasEntities model ob
  unfolding at_directory open_with
  at_directory-HasEntities none builder model options w =
      opened-HasEntities model builder.async_timeout _
  at_directory-HasEntities (some path) builder model options w =
      located-HasEntities builder model options (api.opt_directory options path w)

  configured-HasEntities :
      (builder : Builder) (model : Model) (r : Option ℕ × W) {ob : ObjectBox}
      → (configured api builder model r).0 ≡ ok ob
      → HasEntities model ob
  unfolding configured
  configured-HasEntities builder model (none, w) h = cc
  configured-HasEntities builder model (some options, w) h =
      at_directory-HasEntities builder.directory builder model options w h

  with_schema-HasEntities :
      (schema : Option Model) (builder : Builder) (w : W) {ob : ObjectBox}
      → (with_schema api schema builder w).0 ≡ ok ob
      → (model : Model) × (schema ≡ some model) × HasEntities model ob
  unfolding with_schema
  with_schema-HasEntities none builder w h = cc
  with_schema-HasEntities (some model) builder w h =
      (model, refl, configured-HasEntities builder model (api.opt w) h)

  unless_failed-HasEntities :
      (e : Option GoError) (builder : Builder) (w : W) {ob : ObjectBox}
      → (unless_failed api e builder w).0 ≡ ok ob
      → (e ≡ none) × (model : Model) × (builder.model ≡ some model) × HasEntities model ob
  unfolding unless_failed
  unless_failed-HasEntities none builder w h =
      let (model, e, same) = with_schema-HasEntities builder.model builder w h in
      (refl, model, e, same)
  unless_failed-HasEntities (some e) builder w h = cc

  not_panicked :
      (r : Outcome ObjectBox × W) {ob : ObjectBox} → (build_or_panic api r).0 ≡ ok ob → r.0 ≡ ok ob
  unfolding build_or_panic
  not_panicked (ok o, w) h = h
  not_panicked (err e, w) h = cc
  not_panicked (panic e, w) h = cc

  -- A builder that has built a store had no error and a model, whose entities the store has.
  pub build_store-HasEntities :
      (builder : Builder) (w : W) {ob : ObjectBox}
      → (build_store api builder w).0 ≡ ok ob
      → (builder.error ≡ none)
        × (model : Model) × (builder.model ≡ some model)
        × HasEntities model ob
  unfolding build_store build_or_error
  build_store-HasEntities builder w h =
      unless_failed-HasEntities builder.error builder w
        (not_panicked (build_or_error api builder w) h)
