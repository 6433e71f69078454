-- ===== src/Store/Boxes.antt =====
-- objectbox/objectbox.go and objectbox/box.go: the entities and the boxes of a store. The mutex of the
-- boxes is held for the whole of `box`, which is one step.
use objectbox_go.Base.{
  ℕ, Bool, Option, none, some, String, Outcome, ok, err, panic, Exec, pure, fail, panics,
  message_with, message_about, wrapped, GoError, lookup, insert, ◌>>=◌,
}
use objectbox_go.Native.{Errors, create_error, c_call, c_call_bool}
use objectbox_go.Model.{Entity}
use objectbox_go.Model.Names.{find_name}
use objectbox_go.Store.{ObjectBox, BoxHandle}

-- The C functions on an open store.
pub record BoxCalls (W : Type 0) : Type 0 where
  pub errors : Errors W
  pub box : Option ℕ → ℕ → W → Option ℕ × W
  pub async : ℕ → W → Option ℕ × W
  pub debug_flags : Option ℕ → ℕ → W → ℕ × W
  pub await_async_completion : Option ℕ → W → Bool × W

-- A store and the world around it.
pub record StoreState (W : Type 0) : Type 0 where
  pub object_box : ObjectBox
  pub world : W

unfoldable pub entity_or_panic : {S : Type 0} → GoError → Option Entity → Exec S Entity
entity_or_panic e none s = panics e s
entity_or_panic e (some entity) s = pure entity s

module _ {W : Type 0} where
  -- getEntityById and getEntityByName
  unfoldable pub get_entity_by_id : ℕ → Exec (StoreState W) Entity
  unfolding entity_or_panic
  get_entity_by_id id s =
      entity_or_panic (message_with "Configuration error; no entity registered for entity ID " id)
        (lookup id s.object_box.entities_by_id) s

  unfoldable pub get_entity_by_name : String → Exec (StoreState W) Entity
  unfolding entity_or_panic
  get_entity_by_name name s =
      entity_or_panic
        (message_about "Configuration error; no entity registered for entity name " name)
        (find_name name s.object_box.entities_by_name) s

module _ {W : Type 0} (api : BoxCalls W) where
  open api use {errors}

  -- A pointer that the C library returned.
  unfoldable pub pointer : Option ℕ × W → Exec (StoreState W) ℕ
  pointer (none, w) s = fail (create_error errors w) (record s { world = w })
  pointer (some p, w) s = pure p (record s { world = w })

  -- newBox
  unfoldable pub new_box : ℕ → Exec (StoreState W) BoxHandle
  unfolding get_entity_by_id pointer
  new_box entity_id = do
    entity ← get_entity_by_id entity_id
    c_box ← (λ s. pointer (api.box s.object_box.store entity_id s.world) s)
    c_async ← (λ s. pointer (api.async c_box s.world) s)
    pure (record { entity = entity; c_box = c_box; c_async = c_async })

  unfoldable pub keep_box : ℕ → BoxHandle → Exec (StoreState W) BoxHandle
  keep_box entity_id handle s = pure handle (record s {
    object_box = record s.object_box { boxes = insert entity_id handle s.object_box.boxes };
  })

  unfoldable pub box_or_new : ℕ → Option BoxHandle → Exec (StoreState W) BoxHandle
  unfolding new_box keep_box
  box_or_new entity_id (some handle) = pure handle
  box_or_new entity_id none = do handle ← new_box entity_id; keep_box entity_id handle

  -- box
  unfoldable pub box : ℕ → Exec (StoreState W) BoxHandle
  unfolding box_or_new
  box entity_id s = box_or_new entity_id (lookup entity_id s.object_box.boxes) s

  -- InternalBox
  unfoldable pub or_panic : ℕ → Outcome BoxHandle × StoreState W → Outcome BoxHandle × StoreState W
  or_panic entity_id (ok handle, s) = pure handle s
  or_panic entity_id (err e, s) =
      panics (wrapped "Could not create box for entity ID" entity_id e) s
  or_panic entity_id (panic e, s) = panics e s

  unfoldable pub internal_box : ℕ → Exec (StoreState W) BoxHandle
  unfolding box or_panic
  internal_box entity_id s = or_panic entity_id (box entity_id s)

  in_store : {A : Type 0} → (Option ℕ → Exec W A) → Exec (StoreState W) A
  in_store m s = let (r, w) = m s.object_box.store s.world in (r, record s { world = w })

  -- SetDebugFlags
  unfoldable pub set_debug_flags : ℕ → Exec (StoreState W) Unit
  unfolding in_store c_call
  set_debug_flags flags = in_store (λ store. c_call errors (api.debug_flags store flags))

  -- AwaitAsyncCompletion
  unfoldable pub await_async_completion : Exec (StoreState W) Unit
  unfolding in_store c_call_bool
  await_async_completion = in_store (λ store. c_call_bool errors (api.await_async_completion store))
