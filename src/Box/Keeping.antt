-- ===== src/Box/Keeping.antt =====
-- What a successful put of objectbox/box.go leaves alone.
use objectbox_go.Base.{
  ℕ, zero, suc, ◌≡◌, refl, ◌∙◌, Bool, true, false, not, ◌&&◌, List, [], ◌∷◌, if◌then◌else◌, Exec,
  pure, Preserves, >>=-Preserves, arith,
}
use objectbox_go.Native.{c_call}
use objectbox_go.Transactions.{TxnApi, run_in_write_tx}
use objectbox_go.Transactions.Results.{run_in_write_tx-Preserves}
use objectbox_go.Box.Api.{Box, PutMode, put, insert, update, put_id_guaranteed_to_be_new}
use objectbox_go.Box.{
  put_object, put_one, put_bytes, choose_id, write_object, update_id, id_for_put, reserved,
  reserve_again,
}

-- A view of the world that neither the binding of a box, nor its puts, nor the beginning and the
-- successful end of a transaction change.
pub record Untouched {W O S V : Type 0} (tx : TxnApi W) (box : Box W O S) (view : W → V)
    : Type 0 where
  pub get_id : (o : O) (w : W) → view (box.binding.get_id o w).1 ≡ view w
  pub set_id : (o : O) (id : ℕ) (w : W) → view (box.binding.set_id o id w).1 ≡ view w
  pub put_related : (o : O) (id : ℕ) (w : W) → view (box.binding.put_related o id w).1 ≡ view w
  pub flatten : (o : O) (id : ℕ) (w : W) → view (box.binding.flatten o id w).1 ≡ view w
  pub id_for_put : (id : ℕ) (w : W) → view (box.core.id_for_put id w).1 ≡ view w
  pub put5 :
      (id : ℕ) (bytes : List ℕ) (mode : PutMode) (w : W)
      → view (box.core.put5 id bytes mode w).1 ≡ view w
  pub begin_keeps : (w : W) → view (tx.txn_write w).1 ≡ view w
  pub success_keeps :
      (txn : ℕ) (w : W) → (tx.txn_success txn w).0 ≡ 0 → view (tx.txn_success txn w).1 ≡ view w

module _ {W O S V : Type 0} (tx : TxnApi W) (box : Box W O S) (view : W → V)
    (same : Untouched tx box view) where
  open tx use {errors}

  id_for_put-Preserves : (id : ℕ) → Preserves view (id_for_put tx box id)
  unfolding id_for_put
  id_for_put-Preserves id w a _ = again (box.core.id_for_put id w) (same.id_for_put id w)
    where
      twice : (r : ℕ × W) → view r.1 ≡ view w → view (reserve_again tx box r).1 ≡ view w
      twice (zero, w') e = e
      twice (suc n, w') e = e

      again : (r : ℕ × W) → view r.1 ≡ view w → view (reserved tx box id r).1 ≡ view w
      again (zero, w') e = twice (box.core.id_for_put id w') (same.id_for_put id w' ∙ e)
      again (suc n, w') e = e

  choose_id-Preserves : (mode : PutMode) (id : ℕ) → Preserves view (choose_id tx box mode id)
  unfolding choose_id
  choose_id-Preserves update zero w a h = refl
  choose_id-Preserves update (suc id) w a h = refl
  choose_id-Preserves put id w a h = id_for_put-Preserves id w a h
  choose_id-Preserves insert id w a h = id_for_put-Preserves id w a h
  choose_id-Preserves put_id_guaranteed_to_be_new id w a h = id_for_put-Preserves id w a h

  update_id-Preserves : (object : O) (old id : ℕ) → Preserves view (update_id tx box object old id)
  unfolding update_id
  update_id-Preserves object old id w a h = ground (arith, same.set_id object id w)

  put_bytes-Preserves :
      (id : ℕ) (mode : PutMode) (bytes : List ℕ) → Preserves view (put_bytes tx box id mode bytes)
  unfolding put_bytes c_call
  put_bytes-Preserves id mode [] w a h = refl
  put_bytes-Preserves id mode (b ∷ bytes) w a h = ground (arith, same.put5 id (b ∷ bytes) mode w)

  if-Preserves :
      (b : Bool) (m n : Exec W (Unit {0}))
      → Preserves view m
      → Preserves view n
      → Preserves view (if b then m else n)
  if-Preserves true m n km kn = km
  if-Preserves false m n km kn = kn

  related-Preserves :
      (related : Bool) (id : ℕ) (object : O)
      → Preserves view (if related then box.binding.put_related object id else pure tt)
  related-Preserves true id object w a h = same.put_related object id w
  related-Preserves false id object w a h = refl

  put_one-Preserves :
      (id : ℕ) (object : O) (mode : PutMode) → Preserves view (put_one tx box id object mode)
  unfolding put_one
  put_one-Preserves id object mode =
      >>=-Preserves view (if box.has_relations then box.binding.put_related object id else pure tt)
        _ (related-Preserves box.has_relations id object)
        λ _.
          >>=-Preserves view (box.binding.flatten object id) (put_bytes tx box id mode)
            (λ w a h. same.flatten object id w) (put_bytes-Preserves id mode)

  write_object-Preserves :
      (object : O) (id : ℕ) (in_tx : Bool) (mode : PutMode)
      → Preserves view (write_object tx box object id in_tx mode)
  unfolding write_object
  write_object-Preserves object id in_tx mode =
      if-Preserves (box.has_relations && not in_tx)
        (run_in_write_tx tx (put_one tx box id object mode)) (put_one tx box id object mode)
        (run_in_write_tx-Preserves tx view same.begin_keeps same.success_keeps _
          (put_one-Preserves id object mode))
        (put_one-Preserves id object mode)

  pub put_object-Preserves :
      (object : O) (in_tx : Bool) (mode : PutMode)
      → Preserves view (put_object tx box object in_tx mode)
  unfolding put_object
  put_object-Preserves object in_tx mode =
      >>=-Preserves view (box.binding.get_id object) _ (λ w a h. same.get_id object w)
        λ old. >>=-Preserves view (choose_id tx box mode old) _ (choose_id-Preserves mode old) λ id.
          >>=-Preserves view (write_object tx box object id in_tx mode) _
            (write_object-Preserves object id in_tx mode)
            λ _.
              >>=-Preserves view (update_id tx box object old id) _
                (update_id-Preserves object old id) λ _ w a h. refl
