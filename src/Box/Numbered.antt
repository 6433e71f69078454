-- ===== src/Box/Numbered.antt =====
-- The identifier that Put of objectbox/box.go returns for an object that has one.
use objectbox_go.Base.{ℕ, zero, suc, ◌≡◌, ◌≢◌, sym, ap, ◌∙◌, Bool, ok, >>=-eq-ok, ok-injective}
use objectbox_go.Transactions.{TxnApi}
use objectbox_go.Box.Api.{Box, put}
use objectbox_go.Box.{
  reserved, reserve_again, put_object, choose_id, write_object, update_id, id_for_put,
}

module _ {W O S : Type 0} (tx : TxnApi W) (box : Box W O S)
    (keeps_given : (n : ℕ) (w : W)
      → (box.core.id_for_put (suc n) w).0 ≢ 0
      → (box.core.id_for_put (suc n) w).0 ≡ suc n) where
  again_given :
      (n : ℕ) (r : ℕ × W) {id : ℕ}
      → (r.0 ≢ 0 → r.0 ≡ suc n)
      → (reserve_again tx box r).0 ≡ ok id
      → id ≡ suc n
  unfolding reserve_again
  again_given n (zero, w) k h = cc
  again_given n (suc m, w) k h = sym (ok-injective h) ∙ k (λ e. cc)

  reserved_given :
      (n : ℕ) (r : ℕ × W) {id : ℕ}
      → (r.0 ≢ 0 → r.0 ≡ suc n)
      → (reserved tx box (suc n) r).0 ≡ ok id
      → id ≡ suc n
  unfolding reserved
  reserved_given n (zero, w) k h = again_given n (box.core.id_for_put (suc n) w) (keeps_given n w) h
  reserved_given n (suc m, w) k h = sym (ok-injective h) ∙ k (λ e. cc)

  -- Put of an object that has an identifier returns this identifier.
  pub put_object-given :
      (object : O) (in_tx : Bool) (n : ℕ) (w : W) {id : ℕ}
      → (box.binding.get_id object w).0 ≡ ok (suc n)
      → (put_object tx box object in_tx put w).0 ≡ ok id
      → id ≡ suc n
  unfolding put_object choose_id id_for_put
  put_object-given object in_tx n w g h =
      let (old, e1, _, h1) = >>=-eq-ok (box.binding.get_id object) _ w h in
      let w1 = (box.binding.get_id object w).1 in
      let (id, e2, _, h2) = >>=-eq-ok (choose_id tx box put old) _ w1 h1 in
      let w2 = (choose_id tx box put old w1).1 in
      let (_, _, _, h3) = >>=-eq-ok (write_object tx box object id in_tx put) _ w2 h2 in
      let w3 = (write_object tx box object id in_tx put w2).1 in
      let (_, _, _, h4) = >>=-eq-ok (update_id tx box object old id) _ w3 h3 in
      let given : old ≡ suc n = ok-injective (sym e1 ∙ g) in
      let chosen : (reserved tx box (suc n) (box.core.id_for_put (suc n) w1)).0 ≡ ok id =
        ap (λ k. (choose_id tx box put k w1).0) (sym given) ∙ e2 in
      sym (ok-injective h4)
      ∙ reserved_given n (box.core.id_for_put (suc n) w1) (keeps_given n w1) chosen
