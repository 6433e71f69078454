-- ===== src/Box.antt =====
-- objectbox/box.go: `Box`, the operations on the objects of one entity. `W` is the state of the world,
-- `O` the type of references to Go objects and `S` that of the slices that a binding makes. The
-- operations that write are here and in Box/Batch and Box/Links, those that read in Box/Reads.
pub mod Api
pub mod Batch
pub mod Reads
pub mod Loaded
pub mod Visiting
pub mod Visited
pub mod Links
pub mod Storing
pub mod Numbered
pub mod Keeping
pub mod Complete
pub mod Chunks
pub mod Reserved
pub mod Related
pub mod Replaced
pub mod Examples
pub use Api.*
use objectbox_go.Base.{
  ℕ, zero, suc, ◌==◌, Option, none, some, Bool, true, false, not, ◌&&◌, nonzero, List, [], ◌∷◌,
  if◌then◌else◌, Outcome, ok, err, panic, Exec, fail, pure, panics, message, ◌>>=◌, ◌>>◌,
}
use objectbox_go.Native.{Errors, create_error, c_call}
use objectbox_go.Transactions.{TxnApi, run_in_write_tx}

module _ {W O S : Type 0} (tx : TxnApi W) (box : Box W O S) where
  open tx use {errors}
  open box use {binding, core, has_relations}

  reserve_again : ℕ × W → Outcome ℕ × W
  reserve_again (zero, w) = fail (create_error errors w) w
  reserve_again (suc id, w) = pure (suc id) w

  reserved : ℕ → ℕ × W → Outcome ℕ × W
  unfolding reserve_again
  reserved candidate (zero, w) = reserve_again (core.id_for_put candidate w)
  reserved candidate (suc id, w) = pure (suc id) w

  -- idForPut: on a zero, ask once more, to have the error of this thread.
  unfoldable pub id_for_put : ℕ → Exec W ℕ
  unfolding reserved
  id_for_put candidate w = reserved candidate (core.id_for_put candidate w)

  -- withObjectBytes; the pool of builders is not modelled.
  unfoldable pub with_object_bytes : {A : Type 0} → O → ℕ → (List ℕ → Exec W A) → Exec W A
  with_object_bytes object id fn = do bytes ← binding.flatten object id; fn bytes

  -- The address of the first byte is taken, which panics on an empty slice.
  put_bytes : ℕ → PutMode → List ℕ → Exec W Unit
  put_bytes id mode [] = panics (message "index out of range [0] with length 0")
  put_bytes id mode (b ∷ bytes) = c_call errors (core.put5 id (b ∷ bytes) mode)

  -- putOne
  unfoldable pub put_one : ℕ → O → PutMode → Exec W Unit
  unfolding with_object_bytes put_bytes c_call
  put_one id object mode = do
    if has_relations then binding.put_related object id else pure tt
    with_object_bytes object id (put_bytes id mode)

  choose_id : PutMode → ℕ → Exec W ℕ
  unfolding id_for_put
  choose_id update zero =
      fail (
        message
          "cannot update an object with ID 0 - if it's a new object use Put or Insert instead")
  choose_id update (suc id) = pure (suc id)
  choose_id put id = id_for_put id
  choose_id insert id = id_for_put id
  choose_id put_id_guaranteed_to_be_new id = id_for_put id

  -- For an entity with relations everything happens inside one transaction.
  write_object : O → ℕ → Bool → PutMode → Exec W Unit
  unfolding put_one run_in_write_tx
  write_object object id already_in_tx mode =
      if has_relations && not already_in_tx
      then run_in_write_tx tx (put_one id object mode)
      else put_one id object mode

  update_id : O → ℕ → ℕ → Exec W Unit
  update_id object old id = if old == id then pure tt else binding.set_id object id

  -- (*Box).put
  unfoldable pub put_object : O → Bool → PutMode → Exec W ℕ
  unfolding choose_id write_object update_id
  put_object object already_in_tx mode = do
    id_from_object ← binding.get_id object
    id ← choose_id mode id_from_object
    write_object object id already_in_tx mode
    update_id object id_from_object id
    pure id

  -- Put, Insert and Update
  unfoldable pub put_new_or_existing : O → Exec W ℕ
  unfolding put_object
  put_new_or_existing object = put_object object false put

  unfoldable pub insert_new : O → Exec W ℕ
  unfolding put_object
  insert_new object = put_object object false insert

  unfoldable pub update_existing : O → Exec W Unit
  unfolding put_object
  update_existing object = do id ← put_object object false update; pure tt

  -- RemoveId and Remove
  unfoldable pub remove_id : ℕ → Exec W Unit
  unfolding c_call
  remove_id id = c_call errors (core.remove id)

  unfoldable pub remove : O → Exec W Unit
  unfolding remove_id
  remove object = do id ← binding.get_id object; remove_id id

  -- RemoveAll
  unfoldable pub remove_all : Exec W Unit
  unfolding c_call
  remove_all = c_call errors core.remove_all
