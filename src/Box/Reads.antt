-- ===== src/Box/Reads.antt =====
-- objectbox/box.go: the operations that read, count or remove by identifiers, for a C library that
-- supports result arrays. The arrays of identifiers are made by goIdsArrayToC of objectbox/c-arrays.go.
use objectbox_go.Base.{
  ℕ, zero, suc, ◌==◌, Option, none, some, Bool, true, false, List, [], ◌∷◌, if◌then◌else◌, nonzero,
  length, Outcome, Exec, fail, pure, finally, ◌>>=◌,
}
use objectbox_go.Native.{create_error, c_get}
use objectbox_go.Transactions.{TxnApi, run_in_read_tx}
use objectbox_go.Box.Api.{Box}

-- OBX_NOT_FOUND
abbrev pub not_found : ℕ
not_found = 404

module _ {W O S : Type 0} (tx : TxnApi W) (box : Box W O S) where
  open tx use {errors}
  open box use {binding, core}

  -- A C function with an out-parameter, whose value counts if the code is 0.
  out : {A : Type 0} → (ℕ × A) × W → Outcome A × W
  out ((rc, a), w) = if nonzero rc then fail (create_error errors w) w else pure a w

  unfoldable pub with_result : {A : Type 0} → (W → (ℕ × A) × W) → Exec W A
  unfolding out
  with_result fn w = out (fn w)

  ids_array : Option ℕ × W → Outcome ℕ × W
  ids_array (none, w) = fail (create_error errors w) w
  ids_array (some array, w) = pure array w

  unfoldable pub go_ids_array_to_c : List ℕ → Exec W ℕ
  unfolding ids_array
  go_ids_array_to_c ids w = ids_array (core.id_array ids w)

  -- Use an array of the given identifiers, and free it at the end.
  with_ids : {A : Type 0} → List ℕ → (ℕ → Exec W A) → Exec W A
  unfolding go_ids_array_to_c
  with_ids ids fn = do array ← go_ids_array_to_c ids; finally (fn array) (core.id_array_free array)

  -- CountMax and Count
  unfoldable pub count_max : ℕ → Exec W ℕ
  unfolding with_result
  count_max limit = with_result (core.count limit)

  unfoldable pub count : Exec W ℕ
  unfolding count_max
  count = count_max 0

  -- IsEmpty, Contains and ContainsIds
  unfoldable pub is_empty : Exec W Bool
  unfolding with_result
  is_empty = with_result core.is_empty

  unfoldable pub contains : ℕ → Exec W Bool
  unfolding with_result
  contains id = with_result (core.contains id)

  unfoldable pub contains_ids : List ℕ → Exec W Bool
  unfolding with_result with_ids
  contains_ids ids = with_ids ids (λ array. with_result (core.contains_many array))

  -- RemoveIds
  unfoldable pub remove_ids : List ℕ → Exec W ℕ
  unfolding with_result with_ids
  remove_ids ids = with_ids ids (λ array. with_result (core.remove_many array))

  -- The callback of Get, from the result of obx_box_get on.
  unfoldable pub load_result : (ℕ × List ℕ) × W → Outcome (Option O) × W
  load_result ((zero, bytes), w) = (do object ← binding.load bytes; pure (some object)) w
  load_result ((suc n, bytes), w) =
      if suc n == not_found then pure none w else fail (create_error errors w) w

  -- Get
  unfoldable pub get : ℕ → Exec W (Option O)
  unfolding load_result run_in_read_tx
  get id = run_in_read_tx tx (λ w. load_result (core.get id w))

  -- The loop of readManyObjects: nil bytes stand for an object that was not found.
  unfoldable pub read_items : Bool → S → List (Option (List ℕ)) → Exec W S
  read_items existing_only slice [] = pure slice
  read_items existing_only slice (none ∷ items) =
      read_items existing_only (if existing_only then slice else binding.append_to_slice slice none)
        items
  read_items existing_only slice (some bytes ∷ items) = do
    object ← binding.load bytes
    read_items existing_only (binding.append_to_slice slice (some object)) items

  -- readManyObjects
  unfoldable pub read_many_objects : Bool → (W → Option ℕ × W) → Exec W S
  unfolding read_items run_in_read_tx c_get
  read_many_objects existing_only fn = run_in_read_tx tx (do
    items ← c_get errors core.bytes_array_items core.bytes_array_free fn
    read_items existing_only (binding.make_slice (length items)) items)

  -- GetMany, GetManyExisting and GetAll
  unfoldable pub get_many : List ℕ → Exec W S
  unfolding with_ids read_many_objects
  get_many ids = with_ids ids (λ array. read_many_objects false (core.get_many array))

  unfoldable pub get_many_existing : List ℕ → Exec W S
  unfolding with_ids read_many_objects
  get_many_existing ids = with_ids ids (λ array. read_many_objects true (core.get_many array))

  unfoldable pub get_all : Exec W S
  unfolding read_many_objects
  get_all = read_many_objects true core.get_all
