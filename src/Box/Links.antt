-- ===== src/Box/Links.antt =====
-- objectbox/box.go: the standalone relations of a box, RelationIds, RelationPut, RelationRemove and
-- RelationReplace. The box of the target entity is given; `order` is the order in which Go walks the
-- keys of a map.
use objectbox_go.Base.{
  ℕ, zero, suc, Option, none, some, Bool, true, List, [], ◌∷◌, if◌then◌else◌, is_some, lookup,
  insert, delete, keys, Exec, fail, pure, message_with, ◌>>=◌, ◌>>◌,
}
use objectbox_go.Native.{c_call, c_get}
use objectbox_go.Transactions.{TxnApi, run_in_write_tx}
use objectbox_go.Box.Api.{Box}
use objectbox_go.Box.{put_new_or_existing}

-- idsToRemove: a set of identifiers.
abbrev pub Marks : Type 0
Marks = List (ℕ × Bool)

unfoldable pub mark_all : List ℕ → Marks
mark_all [] = []
mark_all (id ∷ ids) = insert id true (mark_all ids)

-- A relation: its number, and the boxes of its source and its target.
module _ {W O T S : Type 0} (tx : TxnApi W) (box : Box W O S) (target : Box W T S)
    (relation : ℕ) where
  open tx use {errors}

  unfoldable pub relation_ids : ℕ → Exec W (List ℕ)
  unfolding c_get
  relation_ids source =
      c_get errors target.core.id_array_items target.core.id_array_free
        (target.core.rel_get_ids relation source)

  unfoldable pub relation_put : ℕ → ℕ → Exec W Unit
  unfolding c_call
  relation_put source id = c_call errors (box.core.rel_put relation source id)

  unfoldable pub relation_remove : ℕ → ℕ → Exec W Unit
  unfolding c_call
  relation_remove source id = c_call errors (box.core.rel_remove relation source id)

  unfoldable pub put_if_new : T → ℕ → Exec W ℕ
  unfolding put_new_or_existing
  put_if_new object zero = put_new_or_existing tx target object
  put_if_new object (suc id) = pure (suc id)

  -- The identifier of a target, which is put if it is new.
  unfoldable pub target_id : T → Exec W ℕ
  unfolding put_if_new
  target_id object = do id ← target.binding.get_id object; put_if_new object id

  -- An old relation is kept, and its mark deleted; a new one is added.
  unfoldable pub link : ℕ → ℕ → Marks → Exec W Marks
  unfolding relation_put
  link source id marks =
      if is_some (lookup id marks)
      then pure (delete id marks)
      else (do relation_put source id; pure marks)

  unfoldable pub link_targets : ℕ → List T → Marks → Exec W Marks
  unfolding target_id link
  link_targets source [] marks = pure marks
  link_targets source (object ∷ objects) marks = do
    id ← target_id object
    marks' ← link source id marks
    link_targets source objects marks'

  unfoldable pub remove_all_of : ℕ → List ℕ → Exec W Unit
  unfolding relation_remove
  remove_all_of source [] = pure tt
  remove_all_of source (id ∷ ids) = do relation_remove source id; remove_all_of source ids

  unfoldable pub old_marks : ℕ → ℕ → Exec W Marks
  unfolding relation_ids
  old_marks zero source = pure []
  old_marks (suc id) source = do ids ← relation_ids source; pure (mark_all ids)

  -- The transaction of RelationReplace.
  unfoldable pub replace_links : (List ℕ → List ℕ) → ℕ → ℕ → List T → Exec W Unit
  unfolding old_marks link_targets remove_all_of
  replace_links order id source objects = do
    marks ← old_marks id source
    marks' ← link_targets source objects marks
    remove_all_of source (order (keys marks'))

  unfoldable pub replace_checked : (List ℕ → List ℕ) → ℕ → ℕ → Option (List T) → Exec W Unit
  unfolding replace_links run_in_write_tx
  replace_checked order zero source none = run_in_write_tx tx (replace_links order 0 source [])
  replace_checked order (suc id) source none = fail (
      message_with "given NIL instead of an empty slice of target objects for relation ID" relation)
  replace_checked order id source (some objects) =
      run_in_write_tx tx (replace_links order id source objects)

  -- RelationReplace; `none` is a nil slice.
  unfoldable pub relation_replace : (List ℕ → List ℕ) → ℕ → O → Option (List T) → Exec W Unit
  unfolding replace_checked
  relation_replace order source object objects = do
    id ← box.binding.get_id object
    replace_checked order id source objects
