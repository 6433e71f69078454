-- ===== src/Transactions/Results.antt =====
-- What a transaction returns, in terms of its callback.
use objectbox_go.Base.{
  ℕ, ◌≡◌, none, some, true, false, ap, Option, Outcome, ok, err, panic, Exec, Preserves, ◌∙◌, arith,
}
use objectbox_go.Transactions.{
  TxnApi, run_in_txn, run_in_read_tx, run_in_write_tx, run_opened, conclude, close, commit,
}

module _ {W A : Type 0} (api : TxnApi W) where
  conclude-eq-ok :
      (txn : ℕ) (r : Outcome A) (w : W) {a : A} → (conclude api false txn r w).0 ≡ ok a → r ≡ ok a
  unfolding conclude close commit
  conclude-eq-ok txn (ok b) w h = ground arith
  conclude-eq-ok txn (err e) w h = ground arith
  conclude-eq-ok txn (panic p) w h = ground arith

  opened-eq-ok :
      (fn : Exec W A) (txn : Option ℕ) (w : W) {a : A}
      → (run_opened api false fn txn w).0 ≡ ok a
      → (fn w).0 ≡ ok a
  unfolding run_opened
  opened-eq-ok fn none w h = cc
  opened-eq-ok fn (some txn) w h = conclude-eq-ok txn (fn w).0 (fn w).1 h

  pub run_in_write_tx-eq-ok :
      (fn : Exec W A) (w : W) {a : A}
      → (run_in_write_tx api fn w).0 ≡ ok a
      → (fn (api.txn_write w).1).0 ≡ ok a
  unfolding run_in_write_tx run_in_txn
  run_in_write_tx-eq-ok fn w h = opened-eq-ok fn (api.txn_write w).0 (api.txn_write w).1 h

  -- A read transaction that is closed without an error returns what its callback did.
  read_closed :
      (txn : ℕ) (r : Outcome A) (w : W)
      → (api.txn_close txn w).0 ≡ 0
      → conclude api true txn r w ≡ (r, (api.txn_close txn w).1)
  unfolding conclude close
  read_closed txn (ok b) w h = ground (arith, h)
  read_closed txn (err e) w h = ground (arith, h)
  read_closed txn (panic p) w h = ground (arith, h)

  opened_closed :
      (fn : Exec W A) (o : Option ℕ) (txn : ℕ) (w : W)
      → o ≡ some txn
      → ((w' : W) → (api.txn_close txn w').0 ≡ 0)
      → run_opened api true fn o w ≡ ((fn w).0, (api.txn_close txn (fn w).1).1)
  unfolding run_opened
  opened_closed fn o txn w e closes =
      ap (λ p. run_opened api true fn p w) e ∙ read_closed txn (fn w).0 (fn w).1 (closes (fn w).1)

  pub run_in_read_tx-closed :
      (fn : Exec W A) (txn : ℕ) (w : W)
      → (api.txn_read w).0 ≡ some txn
      → ((w' : W) → (api.txn_close txn w').0 ≡ 0)
      → run_in_read_tx api fn w
        ≡ ((fn (api.txn_read w).1).0, (api.txn_close txn (fn (api.txn_read w).1).1).1)
  unfolding run_in_read_tx run_in_txn
  run_in_read_tx-closed fn txn w e closes =
      opened_closed fn (api.txn_read w).0 txn (api.txn_read w).1 e closes

  module _ {V : Type 0} (view : W → V) (begin_keeps : (w : W) → view (api.txn_write w).1 ≡ view w)
      (success_keeps : (txn : ℕ) (w : W)
        → (api.txn_success txn w).0 ≡ 0
        → view (api.txn_success txn w).1 ≡ view w) where
    view-conclude :
        (txn : ℕ) (r : Outcome A) (w : W) {a : A}
        → (conclude api false txn r w).0 ≡ ok a
        → view (conclude api false txn r w).1 ≡ view w
    unfolding conclude close commit
    view-conclude txn (ok b) w h = ground (arith, success_keeps txn w)
    view-conclude txn (err e) w h = ground arith
    view-conclude txn (panic p) w h = ground arith

    opened_view :
        (fn : Exec W A) (txn : Option ℕ) (w : W) {a : A}
        → (run_opened api false fn txn w).0 ≡ ok a
        → view (run_opened api false fn txn w).1 ≡ view (fn w).1
    unfolding run_opened
    opened_view fn none w h = cc
    opened_view fn (some txn) w h = view-conclude txn (fn w).0 (fn w).1 h

    -- What the beginning and a successful end of a transaction keep is, when the transaction has
    -- returned, what its callback left.
    pub run_in_write_tx-view :
        (fn : Exec W A) (w : W) {a : A}
        → (run_in_write_tx api fn w).0 ≡ ok a
        → view (run_in_write_tx api fn w).1 ≡ view (fn (api.txn_write w).1).1
    unfolding run_in_write_tx run_in_txn
    run_in_write_tx-view fn w h = opened_view fn (api.txn_write w).0 (api.txn_write w).1 h

    pub run_in_write_tx-Preserves :
        (fn : Exec W A) → Preserves view fn → Preserves view (run_in_write_tx api fn)
    run_in_write_tx-Preserves fn k w a h =
        run_in_write_tx-view fn w h
        ∙ k (api.txn_write w).1 a (run_in_write_tx-eq-ok fn w h)
        ∙ begin_keeps w
