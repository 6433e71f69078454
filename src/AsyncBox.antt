-- ===== src/AsyncBox.antt =====
-- objectbox/asyncbox.go: the asynchronous operations on the objects of one entity. `W` is the state of
-- the world, `O` the type of references to Go objects and `S` that of the slices of a binding.
pub mod Examples
use objectbox_go.Base.{
  ℕ, ◌==◌, Bool, true, false, Option, none, some, List, [], ◌∷◌, if◌then◌else◌, Outcome, ok, err,
  panic, Exec, pure, fail, panics, message, ◌>>=◌, ◌>>◌,
}
use objectbox_go.Native.{Errors, create_error, c_call, c_call_bool}
use objectbox_go.Transactions.{TxnApi}
use objectbox_go.Store.{BoxHandle}
use objectbox_go.Store.Boxes.{BoxCalls, StoreState, internal_box}
use objectbox_go.Box.{PutMode, put, insert, update, Box, id_for_put, with_object_bytes}

-- The functions obx_async_* and obx_store_await_async_*; a null pointer is none.
pub record AsyncApi (W : Type 0) : Type 0 where
  pub close : ℕ → W → ℕ × W
  pub put5 : Option ℕ → ℕ → List ℕ → PutMode → W → ℕ × W
  pub remove : Option ℕ → ℕ → W → ℕ × W
  pub await_async_completion : W → Bool × W
  pub await_async_submitted : W → Bool × W

-- The C pointer, and whether the struct owns it.
pub record AsyncBox : Type 0 where
  pub c_async : Option ℕ
  pub c_owned : Bool

-- An asynchronous box and the world around it.
pub record AsyncState (W : Type 0) : Type 0 where
  pub async_box : AsyncBox
  pub world : W

-- Async of objectbox/box.go: the asynchronous box that belongs to a box, and is not owned.
unfoldable pub box_async : BoxHandle → AsyncBox
box_async handle = record { c_async = some handle.c_async; c_owned = false }

created : {W : Type 0} → Errors W → Option ℕ × W → Exec (StoreState W) AsyncBox
created errors (none, w) s = fail (create_error errors w) (record s { world = w })
created errors (some pointer, w) s =
    pure (record { c_async = some pointer; c_owned = true }) (record s { world = w })

-- NewAsyncBox, on the box that InternalBox gives; `create` is obx_async_create.
unfoldable pub new_async_box :
    {W : Type 0} → BoxCalls W → (ℕ → ℕ → W → Option ℕ × W) → ℕ → ℕ → Exec (StoreState W) AsyncBox
unfolding created internal_box
new_async_box calls create entity_id timeout_ms = do
  handle ← internal_box calls entity_id
  (λ s. created calls.errors (create handle.c_box timeout_ms s.world) s)

module _ {W O S : Type 0} (tx : TxnApi W) (box : Box W O S) (api : AsyncApi W) where
  open tx use {errors}
  open box use {binding, has_relations}

  close_owned : Bool → Option ℕ → Exec (AsyncState W) Unit
  unfolding c_call
  close_owned false pointer s = pure tt s
  close_owned true none s = pure tt s
  close_owned true (some pointer) s =
      let (r, w) = c_call errors (api.close pointer) s.world in
      (r, record { async_box = record s.async_box { c_async = none }; world = w })

  -- Close
  unfoldable pub close_async : Exec (AsyncState W) Unit
  unfolding close_owned
  close_async s = close_owned s.async_box.c_owned s.async_box.c_async s

  -- An error of SetId is not looked at.
  ignored : Exec W Unit → Exec W Unit
  ignored m w = elim (m w).0 [
    | ok u ↦ pure tt (m w).1
    | err e ↦ pure tt (m w).1
    | panic e ↦ panics e (m w).1
  ]

  -- The address of the first byte is taken, which panics on an empty slice.
  put_async_bytes : AsyncBox → ℕ → PutMode → List ℕ → Exec W Unit
  unfolding c_call
  put_async_bytes async id mode [] = panics (message "index out of range [0] with length 0")
  put_async_bytes async id mode (b ∷ bytes) =
      c_call errors (api.put5 async.c_async id (b ∷ bytes) mode)

  -- (*AsyncBox).put
  unfoldable pub put_async : AsyncBox → O → PutMode → Exec W ℕ
  unfolding id_for_put with_object_bytes put_async_bytes ignored
  put_async async object mode = do
    id_from_object ← binding.get_id object
    if has_relations
        then fail (
            message
              "asynchronous Put/Insert/Update is currently not supported on entities that have relations because it could result in partial inserts/broken relations")
        else pure tt
    id ← id_for_put tx box id_from_object
    with_object_bytes tx box object id (put_async_bytes async id mode)
    if id_from_object == id then pure tt else ignored (binding.set_id object id)
    pure id

  -- Put, Insert and Update
  unfoldable pub async_put : AsyncBox → O → Exec W ℕ
  unfolding put_async
  async_put async object = put_async async object put

  unfoldable pub async_insert : AsyncBox → O → Exec W ℕ
  unfolding put_async
  async_insert async object = put_async async object insert

  unfoldable pub async_update : AsyncBox → O → Exec W Unit
  unfolding put_async
  async_update async object = do id ← put_async async object update; pure tt

  -- RemoveId and Remove
  unfoldable pub async_remove_id : AsyncBox → ℕ → Exec W Unit
  unfolding c_call
  async_remove_id async id = c_call errors (api.remove async.c_async id)

  unfoldable pub async_remove : AsyncBox → O → Exec W Unit
  unfolding async_remove_id
  async_remove async object = do id ← binding.get_id object; async_remove_id async id

  -- AwaitCompletion and AwaitSubmitted
  unfoldable pub await_completion : Exec W Unit
  unfolding c_call_bool
  await_completion = c_call_bool errors api.await_async_completion

  unfoldable pub await_submitted : Exec W Unit
  unfolding c_call_bool
  await_submitted = c_call_bool errors api.await_async_submitted

  -- PutAsync of objectbox/box.go, on the asynchronous box that belongs to the box.
  unfoldable pub box_put_async : ℕ → O → Exec W ℕ
  unfolding async_put
  box_put_async c_async object =
      async_put (record { c_async = some c_async; c_owned = false }) object
