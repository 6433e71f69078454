-- ===== src/Tasks/Setup.antt =====
-- examples/tasks/main.go: opening the store, and starting its sync client. The listener that the
-- client is given prints the list of tasks; it runs on a thread of the C library, and is a value here.
use objectbox_go.Base.{
  ℕ, ◌==◌, ◌≡◌, refl, sym, ap, ◌∙◌, arith, Option, none, some, List, if◌then◌else◌, Bool-cases, inl,
  inr, Outcome, ok, err, panic, Exec, lift, lookup, ok-injective, >>=-eq-ok, ◌>>=◌, ◌>>◌, GoError,
  message, message_with,
}
use objectbox_go.Version.{Version, less_than, version_lib_min}
use objectbox_go.Model.{ModelApi, Model, Operation, validate}
use objectbox_go.Store.{
  StoreApi, Builder, ObjectBox, new_builder, with_model, build_store, validated,
}
use objectbox_go.Store.Built.{build_store-HasEntities}
use objectbox_go.Native.Arrays.{Memory}
use objectbox_go.SyncClient.{SyncApi, SyncStore, credentials_none, sync_is_available, start}
use objectbox_go.SyncClient.Open.{new_sync_client, Made}
use objectbox_go.SyncClient.Listeners.{set_change_listener}
use objectbox_go.SyncClient.Changes.{SyncChange, ChangeLayout}
use objectbox_go.Tasks.Schema.{object_box_model, task_entity_info, object_box_model-Declares}

-- initObjectBox
unfoldable pub init_object_box :
    {W : Type 0} → ModelApi W → StoreApi W → Version → ℕ → Exec W ObjectBox
unfolding new_builder object_box_model with_model build_store
init_object_box models stores version version_id = do
  builder ← lift (new_builder version)
  model ← (λ w. let (r, s) = object_box_model models version_id w in (r, s.world))
  build_store stores (with_model models version_id model builder)

-- What checkStartSyncClient prints, and the listener's text.
pub data SyncPrinted : Type 0 where
  started not_started not_available : SyncPrinted

-- The client is started and then given the listener; what Start and SetChangeListener return is not
-- looked at.
ignored : {A S : Type 0} → Outcome A × S → SyncPrinted → Outcome SyncPrinted × S
ignored (ok a, s) line = (ok line, s)
ignored (err e, s) line = (ok line, s)
ignored (panic e, s) line = (panic e, s)

start_client :
    {W V : Type 0}
    → SyncApi W
    → ChangeLayout
    → (V → Memory)
    → (List SyncChange → V → V)
    → Made × SyncStore W V
    → Outcome SyncPrinted × SyncStore W V
unfolding start set_change_listener ignored
start_client api layout memory listener ((client, some e), store) = (ok not_started, store)
start_client api layout memory listener ((none, none), store) =
    (panic (message "invalid memory address or nil pointer dereference"), store)
start_client api layout memory listener ((some client, none), store) =
    let (r, s) =
      (do
        (λ v. ignored (start api v) started)
        (λ v. ignored (set_change_listener api layout memory (some listener) v) started))
        (record { client = client; store = store }) in
    (r, s.store)

-- checkStartSyncClient; the deferred Close of the store closes the client.
unfoldable pub check_start_sync_client :
    {W V : Type 0}
    → SyncApi W
    → ChangeLayout
    → (V → Memory)
    → (List SyncChange → V → V)
    → SyncStore W V
    → Outcome SyncPrinted × SyncStore W V
unfolding sync_is_available new_sync_client start_client
check_start_sync_client api layout memory listener store =
    let made =
      start_client api layout memory listener
        (new_sync_client api "ws://127.0.0.1" (some credentials_none) store) in
    if sync_is_available api then made else (ok not_available, store)

module _ {W : Type 0} (models : ModelApi W) (stores : StoreApi W) (pointer : ℕ)
    (made : (w : W) → (models.new_model w).0 ≡ some pointer)
    (succeeds : (m : Option ℕ) (op : Operation) (w : W) → (models.call m op w).0 ≡ 0) where
  accepted :
      (v : Option GoError) (model m : Model) (builder : Builder)
      → (validated v model builder).error ≡ none
      → (validated v model builder).model ≡ some m
      → (v ≡ none) × (model ≡ m)
  unfolding validated
  accepted none model m builder h k = (refl, cc)
  accepted (some e) model m builder h k = cc

  with_model-validated :
      (version_id : ℕ) (model : Model) (builder : Builder)
      → builder.error ≡ none
      → with_model models version_id model builder
        ≡ validated (validate models version_id model) model builder
  unfolding with_model
  with_model-validated version_id model builder b =
      ap
        (λ (x : Option GoError). elim x as (λ y. Builder) [
          | some e ↦ builder
          | none ↦ validated (validate models version_id model) model builder
        ])
        b

  new_builder-error :
      (version : Version) {builder : Builder}
      → new_builder version ≡ ok builder
      → builder.error ≡ none
  unfolding new_builder
  new_builder-error version {builder} = elim (Bool-cases (less_than version version_lib_min)) [
    | inl e ↦ rw e (λ h. cc)
    | inr e ↦ rw e (λ h. ap (λ b. b.error) (sym (ok-injective h)))
  ]

  -- A valid model is that of the right version, and has the entity.
  right_version :
      (version_id : ℕ)
      → (if 6 == version_id
          then none
          else some (message_with "incompatible generator version used to generate the binding" 6))
        ≡ none
      → 6 ≡ version_id
  right_version version_id h = ground arith

  -- If the example opens its store, and no C function on the model fails, then the generator package
  -- has the version 6, and the entity that the box of tasks is made for, that with the identifier 1,
  -- is Task, without relations.
  pub init_object_box-Task :
      (version : Version) (version_id : ℕ) (w : W) {ob : ObjectBox}
      → (init_object_box models stores version version_id w).0 ≡ ok ob
      → (version_id ≡ 6) × (lookup 1 ob.entities_by_id ≡ some task_entity_info)
  unfolding init_object_box
  init_object_box-Task version version_id w h =
      let (builder, e1, _, h1) = >>=-eq-ok (lift (new_builder version)) _ w h in
      let (model, e2, _, h2) =
        >>=-eq-ok (λ v. let (r, s) = object_box_model models version_id v in (r, s.world)) _ w h1 in
      let after = (object_box_model models version_id w).1.world in
      let (no_error, m, has, same) =
        build_store-HasEntities stores (with_model models version_id model builder) after h2 in
      let (m', is_m', valid, named) =
        object_box_model-Declares models pointer version_id w made succeeds in
      let one : m' ≡ model = ok-injective (sym is_m' ∙ e2) in
      let eq = with_model-validated version_id model builder (new_builder-error version e1) in
      let (v, is_m) =
        accepted (validate models version_id model) model m builder
          (ap (λ b. b.error) (sym eq) ∙ no_error) (ap (λ b. b.model) (sym eq) ∙ has) in
      let six : 6 ≡ version_id =
        right_version version_id (sym valid ∙ ap (validate models version_id) one ∙ v) in
      (
        sym six,
        ap (λ l. lookup 1 l) (same ∙ ap (λ k. k.by_id) (sym (one ∙ is_m)))
            ∙ named
            ∙ ap (λ k. if 6 == k then some task_entity_info else none) (sym six),
      )
