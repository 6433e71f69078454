-- ===== src/Store.antt =====
-- objectbox/builder.go: the configuration and the opening of a store. `W` is the state of the world.
-- Texts that are allocated for a call, the note on the console about an old library, and the pointer
-- from an entity back to the ObjectBox are not modelled.
pub mod Boxes
pub mod Closing
pub mod Options
pub mod Built
pub mod Cached
pub mod Examples
use objectbox_go.Base.{
  ℕ, ◌%◌, ◌^◌, List, [], Option, none, some, Bool, String, if◌then◌else◌, nonzero, Outcome, ok, err,
  panic, Exec, pure, fail, panics, GoError, message, message_wrapping,
}
use objectbox_go.Native.{Errors, create_error}
use objectbox_go.Model.{ModelApi, Model, Entity, validate}
use objectbox_go.Version.{Version, less_than, version_lib_min}

-- The functions obx_opt* and obx_store_open; options are a handle, and a null pointer is none.
pub record StoreApi (W : Type 0) : Type 0 where
  pub errors : Errors W
  pub opt : W → Option ℕ × W
  pub opt_free : ℕ → W → W
  pub opt_directory : ℕ → String → W → ℕ × W
  pub opt_max_db_size_in_kb : ℕ → ℕ → W → W
  pub opt_max_readers : ℕ → ℕ → W → W
  pub opt_model : ℕ → Option ℕ → W → W
  pub store_open : ℕ → W → Option ℕ × W

pub record Builder : Type 0 where
  pub model : Option Model
  pub error : Option GoError
  pub directory : Option String
  pub max_size_in_kb : Option ℕ
  pub max_readers : Option ℕ
  pub async_timeout : ℕ

-- The handle of a box: the C box and the C functions' asynchronous box, which it does not own.
pub record BoxHandle : Type 0 where
  pub entity : Entity
  pub c_box : ℕ
  pub c_async : ℕ

-- A store; the sync client is in SyncClient.
pub record ObjectBox : Type 0 where
  pub store : Option ℕ
  pub entities_by_id : List (ℕ × Entity)
  pub entities_by_name : List (String × Entity)
  pub boxes : List (ℕ × BoxHandle)
  pub async_timeout : ℕ

-- NewBuilder, with the version of the loaded library.
unfoldable pub new_builder : Version → Outcome Builder
unfolding less_than
new_builder version =
    if less_than version version_lib_min
    then panic (message "The loaded ObjectBox C library is too old for this build of ObjectBox Go.")
    else ok (record {
      model = none;
      error = none;
      directory = none;
      max_size_in_kb = none;
      max_readers = none;
      async_timeout = 1000;
    })

unfoldable pub with_directory : String → Builder → Builder
with_directory path builder = record builder { directory = some path }

unfoldable pub with_max_size_in_kb : ℕ → Builder → Builder
with_max_size_in_kb max_size_in_kb builder = record builder { max_size_in_kb = some max_size_in_kb }

unfoldable pub with_max_readers : ℕ → Builder → Builder
with_max_readers max_readers builder = record builder { max_readers = some max_readers }

unfoldable pub async_timeout_tbd : ℕ → Builder → Builder
async_timeout_tbd milliseconds builder = record builder { async_timeout = milliseconds }

unfoldable pub validated : Option GoError → Model → Builder → Builder
validated (some e) model builder = record builder { model = none; error = some e }
validated none model builder = record builder { model = some model; error = none }

-- Model; a model after an error is ignored.
unfoldable pub with_model : {W : Type 0} → ModelApi W → ℕ → Model → Builder → Builder
unfolding validated validate
with_model models version_id model builder = elim builder.error [
  | some e ↦ builder
  | none ↦ validated (validate models version_id model) model builder
]

module _ {W : Type 0} (api : StoreApi W) where
  open api use {errors}

  -- An option that is only passed on if it is there.
  when_set : {A : Type 0} → Option A → (A → W → W) → W → W
  when_set none use_value w = w
  when_set (some a) use_value w = use_value a w

  opened : Model → ℕ → Option ℕ × W → Outcome ObjectBox × W
  opened model async_timeout (none, w) = fail (create_error errors w) w
  opened model async_timeout (some store, w) =
      pure
        (record {
          store = some store;
          entities_by_id = model.by_id;
          entities_by_name = model.by_name;
          boxes = [];
          async_timeout = async_timeout;
        })
        w

  -- From the size on; obx_store_open takes the options over.
  open_with : Builder → Model → ℕ → Exec W ObjectBox
  unfolding opened when_set
  open_with builder model options w =
      let w1 = when_set builder.max_size_in_kb (api.opt_max_db_size_in_kb options) w in
      let w2 = when_set builder.max_readers (λ n. api.opt_max_readers options (n % 2 ^ 32)) w1 in
      opened model builder.async_timeout
        (api.store_open options (api.opt_model options model.c_model w2))

  located : Builder → Model → ℕ → ℕ × W → Outcome ObjectBox × W
  unfolding open_with
  located builder model options (rc, w) =
      if nonzero rc
      then (let w' = api.opt_free options w in fail (create_error errors w') w')
      else open_with builder model options w

  at_directory : Option String → Builder → Model → ℕ → Exec W ObjectBox
  unfolding located open_with
  at_directory none builder model options w = open_with builder model options w
  at_directory (some path) builder model options w =
      located builder model options (api.opt_directory options path w)

  configured : Builder → Model → Option ℕ × W → Outcome ObjectBox × W
  unfolding at_directory
  configured builder model (none, w) = fail (create_error errors w) w
  configured builder model (some options, w) =
      at_directory builder.directory builder model options w

  with_schema : Option Model → Builder → Exec W ObjectBox
  unfolding configured
  with_schema none builder w = fail (message "model is not defined") w
  with_schema (some model) builder w = configured builder model (api.opt w)

  unless_failed : Option GoError → Builder → Exec W ObjectBox
  unfolding with_schema
  unless_failed (some e) builder w = fail e w
  unless_failed none builder w = with_schema builder.model builder w

  -- BuildOrError
  unfoldable pub build_or_error : Builder → Exec W ObjectBox
  unfolding unless_failed
  build_or_error builder w = unless_failed builder.error builder w

  -- Build
  unfoldable pub build_or_panic : Outcome ObjectBox × W → Outcome ObjectBox × W
  build_or_panic (ok object_box, w) = pure object_box w
  build_or_panic (err e, w) =
      panics (message_wrapping "Could not create ObjectBox - please check configuration" e) w
  build_or_panic (panic e, w) = panics e w

  unfoldable pub build_store : Builder → Exec W ObjectBox
  unfolding build_or_panic build_or_error
  build_store builder w = build_or_panic (build_or_error builder w)
