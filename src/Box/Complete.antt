-- ===== src/Box/Complete.antt =====
-- PutMany of objectbox/box.go returns one identifier for each object.
use objectbox_go.Base.{
  ℕ, zero, suc, ◌*◌, ◌≡◌, ap, ◌∙◌, sym, Bool, true, false, List, [], ◌∷◌, length, length-append,
  arith, ok, >>=-eq-ok, ok-injective,
}
use objectbox_go.Transactions.{TxnApi}
use objectbox_go.Transactions.Results.{run_in_write_tx-eq-ok}
use objectbox_go.Box.Api.{Box, put}
use objectbox_go.Box.{put_object}
use objectbox_go.Box.Batch.{put_many_objects, put_chunks, put_each, put_many, chunk, chunk_size}
use objectbox_go.Box.Chunks.{joined_chunks, chunks_cover}
use objectbox_go.Box.Reserved.{put_many_objects_ids}

module _ {W O S : Type 0} (tx : TxnApi W) (box : Box W O S) where
  length-put_chunks :
      (n c : ℕ) (objects : List O) (w : W) {ids : List ℕ}
      → (put_chunks tx box n c objects w).0 ≡ ok ids
      → length ids ≡ length (joined_chunks n c objects)
  unfolding put_chunks joined_chunks
  length-put_chunks zero c objects w h = ap length (sym (ok-injective h))
  length-put_chunks (suc n) c objects w h =
      let (ids, e, _, h') =
        >>=-eq-ok (put_many_objects tx box (c * chunk_size) (chunk c objects)) _ w h in
      let (rest, e', _, done) = >>=-eq-ok (put_chunks tx box n (suc c) objects) _ _ h' in
      let (_, _, _, _, same, _) =
        put_many_objects_ids tx box (c * chunk_size) (chunk c objects) w e in
      omega (
        arith,
        ap length (ok-injective done),
        length-append ids rest,
        length-append (chunk c objects) (joined_chunks n (suc c) objects),
        same,
        length-put_chunks n (suc c) objects _ e',
      )

  length-put_each :
      (objects : List O) (w : W) {ids : List ℕ}
      → (put_each tx box objects w).0 ≡ ok ids
      → length ids ≡ length objects
  unfolding put_each
  length-put_each [] w h = ap length (sym (ok-injective h))
  length-put_each (object ∷ objects) w h =
      let (id, _, _, h') = >>=-eq-ok (put_object tx box object true put) _ w h in
      let (ids, e, _, done) = >>=-eq-ok (put_each tx box objects) _ _ h' in
      omega (arith, ap length (ok-injective done), length-put_each objects _ e)

  -- If PutMany succeeds, with result arrays or without, it returns as many identifiers as objects.
  pub length-put_many :
      (supports_result_array : Bool) (objects : List O) (w : W) {ids : List ℕ}
      → (put_many tx box supports_result_array objects w).0 ≡ ok ids
      → length ids ≡ length objects
  unfolding put_many
  length-put_many arrays [] w h = ap length (sym (ok-injective h))
  length-put_many true (object ∷ objects) w h =
      length-put_chunks _ 0 (object ∷ objects) _ (run_in_write_tx-eq-ok tx _ w h)
      ∙ ap length (chunks_cover (object ∷ objects)).0
  length-put_many false (object ∷ objects) w h =
      length-put_each (object ∷ objects) _ (run_in_write_tx-eq-ok tx _ w h)
