-- ===== src/Transactions/Nested.antt =====
-- Transactions of objectbox/objectbox.go inside transactions, to any depth.
use objectbox_go.Base.{ℕ, suc, ◌≡◌, ◌∙◌, refl, Bool, true, false, inl, inr, Outcome, Exec, arith}
use objectbox_go.Transactions.{TxnApi, run_in_txn, run_in_write_tx}
use objectbox_go.Transactions.Atomicity.{
  TxnLaws, Keeps, Settled, run_in_txn-Keeps, run_in_write_tx_atomic,
}

-- A callback that is made of actions on the data, of RunInReadTx (true) and RunInWriteTx (false) with
-- such callbacks, and of a sequence, whose second part is chosen by what the first one returned.
pub data Callback (W A : Type 0) : Type 0 where
  action : Exec W A → Callback W A
  transaction : Bool → Callback W A → Callback W A
  sequence : Callback W A → (Outcome A → Callback W A) → Callback W A

module _ {W A : Type 0} (api : TxnApi W) where
  unfoldable pub run_callback : Callback W A → Exec W A
  unfolding run_in_txn
  run_callback (action fn) w = fn w
  run_callback (transaction read_only callback) w =
      run_in_txn api read_only (run_callback callback) w
  run_callback (sequence first next) w =
      let (r, w') = run_callback first w in run_callback (next r) w'

module _ {W D A : Type 0} (api : TxnApi W) (laws : TxnLaws api D) where
  open laws use {depth, stored, current}

  -- The actions on the data neither open nor close a transaction, and commit nothing, when they are
  -- run inside one.
  unfoldable pub DataOnly : Callback W A → Type 0
  DataOnly (action fn) = (n : ℕ) → Keeps api laws (suc n) fn
  DataOnly (transaction read_only callback) = DataOnly callback
  DataOnly (sequence first next) = DataOnly first × ((r : Outcome A) → DataOnly (next r))

  run_callback-Keeps :
      (callback : Callback W A) (n : ℕ)
      → DataOnly callback
      → Keeps api laws (suc n) (run_callback api callback)
  unfolding run_callback DataOnly
  run_callback-Keeps (action fn) n plain w h = plain n w h
  run_callback-Keeps (transaction read_only callback) n plain w h =
      run_in_txn-Keeps api laws read_only (suc n) (run_callback api callback) (inr (omega arith))
        (run_callback-Keeps callback (suc n) plain) w h
  run_callback-Keeps (sequence first next) n (plain, later) w h =
      let (open_still, same) = run_callback-Keeps first n plain w h in
      let (open_again, same_again) =
        run_callback-Keeps (next (run_callback api first w).0) n
          (later (run_callback api first w).0) (run_callback api first w).1 open_still in
      (open_again, same_again ∙ same)

  -- How a top-level transaction ends: one for reading stores nothing.
  abbrev pub Ends : Bool → D → D → Outcome A → D → Type 0
  Ends true before left r after = after ≡ before
  Ends false before left r after = Settled api laws before left r after

  -- If a callback is made of read and write transactions nested to any depth and of actions on the
  -- data that neither open nor close a transaction and commit nothing, each of which may return, fail
  -- or panic, then a transaction that is begun with it while none is open ends with none open. A read
  -- transaction stores nothing new, even if it holds write transactions; a write transaction that
  -- returns stores what the callback left, and one that fails or panics stores nothing new.
  pub run_in_txn_nested :
      (read_only : Bool) (callback : Callback W A) (w : W)
      → DataOnly callback
      → depth w ≡ 0
      → (depth (run_in_txn api read_only (run_callback api callback) w).1 ≡ 0)
        × Ends read_only
            (stored w)
            (current (run_callback api callback (api.txn_write w).1).1)
            (run_in_txn api read_only (run_callback api callback) w).0
            (stored (run_in_txn api read_only (run_callback api callback) w).1)
  unfolding run_in_write_tx
  run_in_txn_nested true callback w plain h =
      run_in_txn-Keeps api laws true 0 (run_callback api callback) (inl refl)
        (run_callback-Keeps callback 0 plain) w h
  run_in_txn_nested false callback w plain h =
      let (closed, settled, _) =
        run_in_write_tx_atomic api laws (run_callback api callback) w
          (run_callback-Keeps callback 0 plain) h in
      (closed, settled)
