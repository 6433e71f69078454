-- ===== src/Box/Storing.antt =====
-- What Put, Insert and Update of objectbox/box.go leave in the store.
use objectbox_go.Base.{
  ℕ, zero, suc, ◌≡◌, refl, subst, ap, ◌∙◌, ◌==◌, Bool, false, not, ◌&&◌, List, [], ◌∷◌, Option,
  some, if◌then◌else◌, Bool-cases, ok, err, >>=-eq-ok, ok-injective, inl, inr, message, continue,
}
use objectbox_go.Native.Calls.{c_call-eq-ok}
use objectbox_go.Transactions.{TxnApi, run_in_write_tx}
use objectbox_go.Box.Api.{Box, PutMode, put, insert, update, put_id_guaranteed_to_be_new}
use objectbox_go.Box.{
  reserved, reserve_again, put_object, put_one, put_bytes, choose_id, write_object, update_id,
  id_for_put, with_object_bytes,
}

-- The documented behaviour of a box's C functions and of a binding without relations, for `stored`,
-- the bytes under each identifier: only put5 changes them, and only if it reports success.
pub record StoreLaws {W O S : Type 0} (box : Box W O S) : Type 0 where
  pub stored : W → ℕ → Option (List ℕ)
  pub get_id_keeps : (o : O) (w : W) → stored (box.binding.get_id o w).1 ≡ stored w
  pub set_id_keeps : (o : O) (id : ℕ) (w : W) → stored (box.binding.set_id o id w).1 ≡ stored w
  pub flatten_keeps : (o : O) (id : ℕ) (w : W) → stored (box.binding.flatten o id w).1 ≡ stored w
  pub id_for_put_keeps : (id : ℕ) (w : W) → stored (box.core.id_for_put id w).1 ≡ stored w
  pub put5_stores :
      (id : ℕ) (bytes : List ℕ) (mode : PutMode) (w : W)
      → (box.core.put5 id bytes mode w).0 ≡ 0
      → (j : ℕ)
      → stored (box.core.put5 id bytes mode w).1 j ≡ (if id == j then some bytes else stored w j)

-- A view that neither the binding's GetId nor the reservation of an identifier changes.
module _ {W O S V : Type 0} (tx : TxnApi W) (box : Box W O S) (view : W → V)
    (id_for_put_same : (id : ℕ) (w : W) → view (box.core.id_for_put id w).1 ≡ view w) where
  id_for_put-view : (id : ℕ) (w : W) → view (id_for_put tx box id w).1 ≡ view w
  unfolding id_for_put
  id_for_put-view id w = again (box.core.id_for_put id w) (id_for_put_same id w)
    where
      twice : (r : ℕ × W) → view r.1 ≡ view w → view (reserve_again tx box r).1 ≡ view w
      twice (zero, w') e = e
      twice (suc n, w') e = e

      again : (r : ℕ × W) → view r.1 ≡ view w → view (reserved tx box id r).1 ≡ view w
      again (zero, w') e = twice (box.core.id_for_put id w') (id_for_put_same id w' ∙ e)
      again (suc n, w') e = e

  choose_id-view : (mode : PutMode) (id : ℕ) (w : W) → view (choose_id tx box mode id w).1 ≡ view w
  unfolding choose_id
  choose_id-view update zero w = refl
  choose_id-view update (suc id) w = refl
  choose_id-view put id w = id_for_put-view id w
  choose_id-view insert id w = id_for_put-view id w
  choose_id-view put_id_guaranteed_to_be_new id w = id_for_put-view id w

module _ {W O S : Type 0} (tx : TxnApi W) (box : Box W O S) (laws : StoreLaws box) where
  open tx use {errors}
  open laws use {stored}

  update_id_keeps :
      (object : O) (old id : ℕ) (w : W) → stored (update_id tx box object old id w).1 ≡ stored w
  unfolding update_id
  update_id_keeps object old id w = elim (Bool-cases (old == id)) [
    | inl e ↦ rw e
    | inr e ↦ rw e (laws.set_id_keeps object id w)
  ]

  -- The bytes `bytes` are under `id`, and no other identifier's have changed since `w`.
  abbrev pub Holds : ℕ → List ℕ → W → W → Type 0
  Holds id bytes w after = (j : ℕ) → stored after j ≡ (if id == j then some bytes else stored w j)

  -- The bytes under `id` are those of `object`, and no other identifier's have changed since `w`.
  abbrev pub Stores : O → ℕ → W → W → Type 0
  Stores object id w after =
      (w' : W) × (bytes : List ℕ) × ((box.binding.flatten object id w').0 ≡ ok bytes)
      × ((j : ℕ) → stored after j ≡ (if id == j then some bytes else stored w j))

  put_bytes_stores :
      (id : ℕ) (mode : PutMode) (bytes : List ℕ) (w : W) {u : Unit {0}}
      → (put_bytes tx box id mode bytes w).0 ≡ ok u
      → (j : ℕ)
      → stored (put_bytes tx box id mode bytes w).1 j ≡ (if id == j then some bytes else stored w j)
  unfolding put_bytes
  put_bytes_stores id mode [] w h = cc
  put_bytes_stores id mode (b ∷ bytes) w h =
      let (rc, same) = c_call-eq-ok errors (box.core.put5 id (b ∷ bytes) mode) w h in
      λ j. rw same (laws.put5_stores id (b ∷ bytes) mode w rc j)

  module _ (plain : box.has_relations ≡ false) where
    -- The bytes that are flattened in the state before the object is written.
    abbrev Flattened : O → ℕ → W → W → Type 0
    Flattened object id w after =
        (bytes : List ℕ) × ((box.binding.flatten object id w).0 ≡ ok bytes) × Holds id bytes w after

    put_one-Flattened :
        (id : ℕ) (object : O) (mode : PutMode) (w : W) {u : Unit {0}}
        → (put_one tx box id object mode w).0 ≡ ok u
        → Flattened object id w (put_one tx box id object mode w).1
    unfolding put_one with_object_bytes
    put_one-Flattened id object mode w = rw plain (λ h.
        let (bytes, e, step, h') = >>=-eq-ok (box.binding.flatten object id) _ w h in
        (
          bytes,
          e,
          λ j. rw step (
              put_bytes_stores id mode bytes _ h' j
              ∙ ap (λ s. if id == j then some bytes else s j) (laws.flatten_keeps object id w)),
        ))

    write_object-eq-put_one :
        (object : O) (id : ℕ) (in_tx : Bool) (mode : PutMode)
        → write_object tx box object id in_tx mode ≡ put_one tx box id object mode
    unfolding write_object
    write_object-eq-put_one object id in_tx mode =
        ap
          (λ b.
            if b && not in_tx
            then run_in_write_tx tx (put_one tx box id object mode)
            else put_one tx box id object mode)
          plain

    write_object-Flattened :
        (object : O) (id : ℕ) (in_tx : Bool) (mode : PutMode) (w : W) {u : Unit {0}}
        → (write_object tx box object id in_tx mode w).0 ≡ ok u
        → Flattened object id w (write_object tx box object id in_tx mode w).1
    write_object-Flattened object id in_tx mode w =
        rw (write_object-eq-put_one object id in_tx mode) (put_one-Flattened id object mode w)

    -- A view that GetId and the reservation of an identifier keep is that of the state in which the
    -- object is flattened.
    pub put_object-StoresUnder :
        {V : Type 0} (view : W → V)
        → ((o : O) (w : W) → view (box.binding.get_id o w).1 ≡ view w)
        → ((id : ℕ) (w : W) → view (box.core.id_for_put id w).1 ≡ view w)
        → (object : O) (in_tx : Bool) (mode : PutMode) (w : W) {id : ℕ}
        → (put_object tx box object in_tx mode w).0 ≡ ok id
        → (w' : W) × (view w' ≡ view w)
          × (bytes : List ℕ) × ((box.binding.flatten object id w').0 ≡ ok bytes)
          × Holds id bytes w (put_object tx box object in_tx mode w).1
    unfolding put_object
    put_object-StoresUnder view get_same reserve_same object in_tx mode w h =
        let (old, _, s1, h1) = >>=-eq-ok (box.binding.get_id object) _ w h in
        let w1 = (box.binding.get_id object w).1 in
        let (id, _, s2, h2) = >>=-eq-ok (choose_id tx box mode old) _ w1 h1 in
        let w2 = (choose_id tx box mode old w1).1 in
        let (_, e3, s3, h3) = >>=-eq-ok (write_object tx box object id in_tx mode) _ w2 h2 in
        let w3 = (write_object tx box object id in_tx mode w2).1 in
        let (_, _, s4, h4) = >>=-eq-ok (update_id tx box object old id) _ w3 h3 in
        let (bytes, flat, stores) = write_object-Flattened object id in_tx mode w2 e3 in
        let before =
          choose_id-view tx box stored laws.id_for_put_keeps mode old w1
          ∙ laws.get_id_keeps object w in
        let ids = ok-injective h4 in
        (
          w2,
          choose_id-view tx box view reserve_same mode old w1 ∙ get_same object w,
          bytes,
          subst (λ k. (box.binding.flatten object k w2).0 ≡ ok bytes) ids flat,
          λ j.
              ap (λ r. stored r.1 j) (s1 ∙ s2 ∙ s3 ∙ s4)
              ∙ ap (λ s. s j) (update_id_keeps object old id w3)
              ∙ stores j
              ∙ ap (λ s. if id == j then some bytes else s j) before
              ∙ ap (λ k. if k == j then some bytes else stored w j) ids,
        )

    -- For an entity without relations, in every mode: if a put returns an identifier, then the bytes
    -- that Flatten made of the object with this identifier are stored under it, and what is stored
    -- under every other identifier is what was stored before.
    pub put_object-Stores :
        (object : O) (in_tx : Bool) (mode : PutMode) (w : W) {id : ℕ}
        → (put_object tx box object in_tx mode w).0 ≡ ok id
        → Stores object id w (put_object tx box object in_tx mode w).1
    put_object-Stores object in_tx mode w h =
        let (w', _, bytes, flat, stores) =
          put_object-StoresUnder stored laws.get_id_keeps laws.id_for_put_keeps object in_tx mode w
            h in
        (w', bytes, flat, stores)

  -- An update of an object whose identifier is 0 fails, and nothing has been called but GetId.
  pub update_without_id :
      (object : O) (in_tx : Bool) (w : W)
      → (box.binding.get_id object w).0 ≡ ok 0
      → put_object tx box object in_tx update w ≡ (
        err (
            message
              "cannot update an object with ID 0 - if it's a new object use Put or Insert instead"),
        (box.binding.get_id object w).1,
      )
  unfolding put_object choose_id
  update_without_id object in_tx w h = rw (h, continue)
