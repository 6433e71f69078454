-- ===== src/Box/Batch.antt =====
-- objectbox/box.go: PutMany and putManyObjects, with goBytesArrayToC of objectbox/c-arrays.go. The
-- slice of identifiers that a batch fills in is the list that it returns.
use objectbox_go.Base.{
  ℕ, zero, suc, ◌+◌, ◌-◌, ◌*◌, ◌/◌, ◌%◌, ◌^◌, ltb, Option, none, some, Bool, true, nonzero, List,
  [], ◌∷◌, ◌++◌, if◌then◌else◌, length, take, drop, Outcome, ok, err, panic, Exec, fail, pure,
  wrapped, finally, ◌>>=◌, ◌>>◌,
}
use objectbox_go.Native.{create_error, c_call}
use objectbox_go.Transactions.{TxnApi, run_in_write_tx}
use objectbox_go.Box.Api.{Box, PutMode, put, put_id_guaranteed_to_be_new}
use objectbox_go.Box.{with_object_bytes, put_object}

-- An object of a batch with the identifier that it came with, 0 for a new one.
abbrev pub Entry : Type 0 → Type 0
Entry O = O × ℕ

module _ {O : Type 0} where
  -- len(indexesNewObjects)
  unfoldable pub count_new : List (Entry O) → ℕ
  count_new [] = 0
  count_new ((object, zero) ∷ entries) = suc (count_new entries)
  count_new ((object, suc id) ∷ entries) = count_new entries

  -- An object that is not new turns the most efficient mode off.
  unfoldable pub mode_for : List (Entry O) → PutMode
  mode_for [] = put_id_guaranteed_to_be_new
  mode_for ((object, zero) ∷ entries) = mode_for entries
  mode_for ((object, suc id) ∷ entries) = put

  -- outIds: the objects' own identifiers, and consecutive ones (as uint64) for the new objects.
  unfoldable pub assign_ids : ℕ → ℕ → List (Entry O) → List (Entry O)
  assign_ids first i [] = []
  assign_ids first i ((object, zero) ∷ entries) =
      (object, (first + i) % 2 ^ 64) ∷ assign_ids first (suc i) entries
  assign_ids first i ((object, suc id) ∷ entries) = (object, suc id) ∷ assign_ids first i entries

  unfoldable pub ids_of : List (Entry O) → List ℕ
  ids_of [] = []
  ids_of ((object, id) ∷ entries) = id ∷ ids_of entries

abbrev pub chunk_size : ℕ
chunk_size = 10000

unfoldable pub chunk_count : ℕ → ℕ
chunk_count count =
    if nonzero (count % chunk_size) then count / chunk_size + 1 else count / chunk_size

-- objects[start:end] of the chunk `c`
unfoldable pub chunk {ℓ} : {A : Type ℓ} → ℕ → List A → List A
chunk c objects =
    let start = c * chunk_size in
    let end =
      if ltb (length objects) (start + chunk_size) then length objects else start + chunk_size in
    take (end - start) (drop start objects)

module _ {W O S : Type 0} (tx : TxnApi W) (box : Box W O S) where
  open tx use {errors}
  open box use {binding, core, has_relations}

  -- idsForPut
  reserved_first : (ℕ × ℕ) × W → Outcome ℕ × W
  reserved_first ((rc, first), w) =
      if nonzero rc then fail (create_error errors w) w else pure first w

  unfoldable pub ids_for_put : ℕ → Exec W ℕ
  unfolding reserved_first
  ids_for_put zero w = pure 0 w
  ids_for_put (suc n) w = reserved_first (core.ids_for_put (suc n) w)

  unfoldable pub read_ids : List O → Exec W (List (Entry O))
  read_ids [] = pure []
  read_ids (object ∷ objects) = do
    id ← binding.get_id object
    entries ← read_ids objects
    pure ((object, id) ∷ entries)

  unfoldable pub flatten_all : List (Entry O) → Exec W (List (List ℕ))
  unfolding with_object_bytes
  flatten_all [] = pure []
  flatten_all ((object, id) ∷ entries) = do
    if has_relations then binding.put_related object id else pure tt
    bytes ← with_object_bytes tx box object id pure
    rest ← flatten_all entries
    pure (bytes ∷ rest)

  -- goBytesArrayToC; on an error the array is freed first.
  fill : ℕ → ℕ → List (List ℕ) → Exec W Unit
  fill array i [] w = pure tt w
  fill array i (bytes ∷ rest) w =
      let (rc, w') = core.bytes_array_set array i bytes w in
      let more = fill array (suc i) rest w' in
      let freed = core.bytes_array_free array w' in
      if nonzero rc then fail (create_error errors freed) freed else more

  filled : List (List ℕ) → Option ℕ × W → Outcome ℕ × W
  unfolding fill
  filled objects (none, w) = fail (create_error errors w) w
  filled objects (some array, w) = (fill array 0 objects >> pure array) w

  unfoldable pub go_bytes_array_to_c : List (List ℕ) → Exec W ℕ
  unfolding filled
  go_bytes_array_to_c objects w = filled objects (core.bytes_array (length objects) w)

  -- SetId on the new objects; the second list holds what they came with.
  wrap : ℕ → Outcome (Unit {0}) → Outcome (Unit {0})
  wrap index (ok u) = ok u
  wrap index (err e) = err (wrapped "setting ID on objects failed" index e)
  wrap index (panic p) = panic p

  set_new_ids : ℕ → List (Entry O) → List (Entry O) → Exec W Unit
  unfolding wrap
  set_new_ids index ((object, id) ∷ assigned) ((_, zero) ∷ entries) = do
    (λ w. (wrap index (binding.set_id object id w).0, (binding.set_id object id w).1))
    set_new_ids (suc index) assigned entries
  set_new_ids index ((object, id) ∷ assigned) ((_, suc old) ∷ entries) =
      set_new_ids (suc index) assigned entries
  set_new_ids index _ _ = pure tt

  -- What follows once the identifiers are known.
  unfoldable pub put_assigned : ℕ → List (Entry O) → List (Entry O) → Exec W Unit
  unfolding flatten_all go_bytes_array_to_c c_call set_new_ids ids_of mode_for
  put_assigned start entries assigned = do
    objects_bytes ← flatten_all assigned
    array ← go_bytes_array_to_c objects_bytes
    finally
        (do
          c_call errors (core.put_many array (ids_of assigned) (mode_for entries))
          set_new_ids start assigned entries)
        (core.bytes_array_free array)

  -- putManyObjects on objects[start:end]
  unfoldable pub put_many_objects : ℕ → List O → Exec W (List ℕ)
  unfolding read_ids ids_for_put put_assigned count_new assign_ids ids_of
  put_many_objects start objects = do
    entries ← read_ids objects
    first ← ids_for_put (count_new entries)
    put_assigned start entries (assign_ids first 0 entries)
    pure (ids_of (assign_ids first 0 entries))

  -- The loop over the chunks from `c` on.
  unfoldable pub put_chunks : ℕ → ℕ → List O → Exec W (List ℕ)
  unfolding put_many_objects chunk
  put_chunks zero c objects = pure []
  put_chunks (suc n) c objects = do
    ids ← put_many_objects (c * chunk_size) (chunk c objects)
    rest ← put_chunks n (suc c) objects
    pure (ids ++ rest)

  unfoldable pub put_each : List O → Exec W (List ℕ)
  unfolding put_object
  put_each [] = pure []
  put_each (object ∷ objects) = do
    id ← put_object tx box object true put
    ids ← put_each objects
    pure (id ∷ ids)

  -- PutMany
  unfoldable pub put_many : Bool → List O → Exec W (List ℕ)
  unfolding put_chunks put_each chunk_count
  put_many supports_result_array [] = pure []
  put_many supports_result_array (object ∷ objects) =
      let all = object ∷ objects in
      run_in_write_tx tx (
        if supports_result_array then put_chunks (chunk_count (length all)) 0 all else put_each all)
