-- ===== src/Transactions.antt =====
-- The transactions of objectbox/objectbox.go. `W` is the state of the world; a closure that the
-- source hands to a transaction is an action on it, and the variables that it assigns are its value.
pub mod Results
pub mod Atomicity
pub mod Nested
pub mod Examples
use objectbox_go.Base.{
  ℕ, nonzero, Option, none, some, Bool, true, false, not, if◌then◌else◌, Outcome, ok, err, panic,
  Exec, fail, pure, GoError, joined,
}
use objectbox_go.Native.{Errors, create_error}

-- The C functions on transactions; a transaction is a handle, and a null pointer is none.
pub record TxnApi (W : Type 0) : Type 0 where
  pub errors : Errors W
  pub txn_read : W → Option ℕ × W
  pub txn_write : W → Option ℕ × W
  pub txn_close : ℕ → W → ℕ × W
  pub txn_success : ℕ → W → ℕ × W

module _ {W : Type 0} (api : TxnApi W) where
  open api use {errors, txn_read, txn_write, txn_close, txn_success}

  module _ {A : Type 0} where
    -- The deferred function's error, once the C transaction is closed: an error of the close is
    -- reported alone or behind the callback's error, and a panic goes on.
    close_outcome : Outcome A → GoError → Outcome A
    close_outcome (ok a) e = err e
    close_outcome (err e') e = err (joined e' e)
    close_outcome (panic p) e = panic p

    close : ℕ → Outcome A → Exec W A
    unfolding close_outcome
    close txn r w =
        let (rc, w') = txn_close txn w in
        if nonzero rc then (close_outcome r (create_error errors w'), w') else (r, w')

    commit : ℕ → A → Exec W A
    commit txn a w =
        let (rc, w') = txn_success txn w in
        if nonzero rc then fail (create_error errors w') w' else pure a w'

    -- What follows the callback: only a write transaction without an error is committed.
    conclude : Bool → ℕ → Outcome A → Exec W A
    unfolding close commit
    conclude read_only txn (ok a) w = if read_only then close txn (ok a) w else commit txn a w
    conclude read_only txn (err e) w = close txn (err e) w
    conclude read_only txn (panic p) w = close txn (panic p) w

    run_opened : Bool → Exec W A → Option ℕ → Exec W A
    unfolding conclude
    run_opened read_only fn none w = fail (create_error errors w) w
    run_opened read_only fn (some txn) w = conclude read_only txn (fn w).0 (fn w).1

    -- runInTxn
    unfoldable pub run_in_txn : Bool → Exec W A → Exec W A
    unfolding run_opened
    run_in_txn read_only fn w =
        let (txn, w') = if read_only then txn_read w else txn_write w in
        run_opened read_only fn txn w'

    unfoldable pub run_in_read_tx : Exec W A → Exec W A
    unfolding run_in_txn
    run_in_read_tx fn = run_in_txn true fn

    unfoldable pub run_in_write_tx : Exec W A → Exec W A
    unfolding run_in_txn
    run_in_write_tx fn = run_in_txn false fn
