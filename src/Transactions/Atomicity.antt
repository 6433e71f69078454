-- ===== src/Transactions/Atomicity.antt =====
-- A transaction is closed on every path, and its effects are stored entirely or not at all.
use objectbox_go.Base.{
  ℕ, zero, suc, ◌+◌, ◌<◌, ℕ-cases, ◌≡◌, ◌≢◌, ◌∙◌, ap, Option, none, some, Bool, true, false, ◌⊎◌,
  inl, inr, refl, Outcome, ok, err, panic, Exec, arith,
}
use objectbox_go.Transactions.{
  TxnApi, run_in_txn, run_in_write_tx, run_opened, conclude, close, commit,
}

-- How many transactions a call that begins one has opened.
abbrev pub opened_by : Option ℕ → ℕ
opened_by none = 0
opened_by (some txn) = 1

-- The documented behaviour of transactions (objectbox/objectbox.h), which nest: `depth` counts the
-- open ones, `stored` is what is committed, and `current` what the open transactions see. Only the
-- success of the outermost one commits; success and close both close, also if they fail.
pub record TxnLaws {W : Type 0} (api : TxnApi W) (D : Type 0) : Type 0 where
  pub depth : W → ℕ
  pub stored : W → D
  pub current : W → D
  pub begin_read :
      (w : W)
      → (stored (api.txn_read w).1 ≡ stored w)
        × (depth (api.txn_read w).1 ≡ opened_by (api.txn_read w).0 + depth w)
  pub begin_write :
      (w : W)
      → (stored (api.txn_write w).1 ≡ stored w)
        × (depth (api.txn_write w).1 ≡ opened_by (api.txn_write w).0 + depth w)
  pub close_reverts :
      (t n : ℕ) (w : W)
      → depth w ≡ suc n
      → (depth (api.txn_close t w).1 ≡ n) × (stored (api.txn_close t w).1 ≡ stored w)
  pub success_closes : (t n : ℕ) (w : W) → depth w ≡ suc n → depth (api.txn_success t w).1 ≡ n
  pub success_nested :
      (t n : ℕ) (w : W) → depth w ≡ suc (suc n) → stored (api.txn_success t w).1 ≡ stored w
  pub success_commits :
      (t : ℕ) (w : W)
      → depth w ≡ 1
      → (api.txn_success t w).0 ≡ 0
      → stored (api.txn_success t w).1 ≡ current w
  pub success_fails :
      (t : ℕ) (w : W)
      → depth w ≡ 1
      → (api.txn_success t w).0 ≢ 0
      → stored (api.txn_success t w).1 ≡ stored w

module _ {W D A : Type 0} (api : TxnApi W) (laws : TxnLaws api D) where
  open laws use {depth, stored, current}

  -- An action that, begun with `n` transactions open, ends with as many, and commits nothing.
  abbrev pub Keeps : ℕ → Exec W A → Type 0
  Keeps n fn = (w : W) → depth w ≡ n → (depth (fn w).1 ≡ n) × (stored (fn w).1 ≡ stored w)

  -- What is stored after a transaction that began in a world with `before` stored: nothing new, or
  -- what the callback left, the latter only after a success.
  abbrev pub Settled : D → D → Outcome A → D → Type 0
  Settled before left (ok a) after = after ≡ left
  Settled before left (err e) after = after ≡ before
  Settled before left (panic p) after = after ≡ before

  closes :
      (txn n : ℕ) (r : Outcome A) (w : W)
      → depth w ≡ suc n
      → (depth (close api txn r w).1 ≡ n) × (stored (close api txn r w).1 ≡ stored w)
  unfolding close
  closes txn n r w h = ground (arith, laws.close_reverts txn n w h)

  commit-Settled :
      (txn : ℕ) (a : A) (w : W)
      → depth w ≡ 1
      → (depth (commit api txn a w).1 ≡ 0)
        × Settled (stored w) (current w) (commit api txn a w).0 (stored (commit api txn a w).1)
  unfolding commit
  commit-Settled txn a w h = elim (ℕ-cases (api.txn_success txn w).0) [
    | inl e ↦ rw (e) (laws.success_closes txn 0 w h, laws.success_commits txn w h e)
    | inr (n, e) ↦
        rw (e) (laws.success_closes txn 0 w h, laws.success_fails txn w h (λ z. ground arith))
  ]

  abbrev Failed : Outcome A → Type 0
  Failed (ok a) = ⊥
  Failed (err e) = Unit
  Failed (panic p) = Unit

  close-Settled :
      (txn : ℕ) (r : Outcome A) (w : W) (left : D)
      → depth w ≡ 1
      → Failed r
      → Settled (stored w) left (close api txn r w).0 (stored (close api txn r w).1)
  unfolding close
  close-Settled txn (ok a) w left h f = absurd f
  close-Settled txn (err e) w left h f = elim (ℕ-cases (api.txn_close txn w).0) [
    | inl z ↦ rw z (laws.close_reverts txn 0 w h).1
    | inr (n, z) ↦ rw z (laws.close_reverts txn 0 w h).1
  ]
  close-Settled txn (panic p) w left h f = elim (ℕ-cases (api.txn_close txn w).0) [
    | inl z ↦ rw z (laws.close_reverts txn 0 w h).1
    | inr (n, z) ↦ rw z (laws.close_reverts txn 0 w h).1
  ]

  conclude-Settled :
      (txn : ℕ) (r : Outcome A) (w : W)
      → depth w ≡ 1
      → (depth (conclude api false txn r w).1 ≡ 0)
        × Settled
            (stored w)
            (current w)
            (conclude api false txn r w).0
            (stored (conclude api false txn r w).1)
  unfolding conclude
  conclude-Settled txn (ok a) w h = commit-Settled txn a w h
  conclude-Settled txn (err e) w h =
      ((closes txn 0 (err e) w h).0, close-Settled txn (err e) w _ h tt)
  conclude-Settled txn (panic p) w h =
      ((closes txn 0 (panic p) w h).0, close-Settled txn (panic p) w _ h tt)

  conclude-eq-ok :
      (txn : ℕ) (r : Outcome A) (w : W) (a : A) → (conclude api false txn r w).0 ≡ ok a → r ≡ ok a
  unfolding conclude close commit
  conclude-eq-ok txn (ok b) w a h = ground arith
  conclude-eq-ok txn (err e) w a h = ground arith
  conclude-eq-ok txn (panic p) w a h = ground arith

  opened-Settled :
      (fn : Exec W A) (txn : Option ℕ) (w : W)
      → Keeps 1 fn
      → depth w ≡ opened_by txn
      → (depth (run_opened api false fn txn w).1 ≡ 0)
        × Settled
            (stored w)
            (current (fn w).1)
            (run_opened api false fn txn w).0
            (stored (run_opened api false fn txn w).1)
        × ((a : A) → (run_opened api false fn txn w).0 ≡ ok a → (fn w).0 ≡ ok a)
  unfolding run_opened
  opened-Settled fn none w inside h = (h, refl, λ a p. cc)
  opened-Settled fn (some txn) w inside h =
      let (h', same) = inside w h in
      let (shut, settled) = conclude-Settled txn (fn w).0 (fn w).1 h' in
      (shut, rw same at settled, conclude-eq-ok txn (fn w).0 (fn w).1)

  -- A write transaction that is begun while none is open, and whose callback, whatever it returns,
  -- leaves it open, closes the transactions that it opens itself and commits nothing, ends with no
  -- transaction open. If it returns, then the callback returned the same value, and what the callback
  -- left is stored; if it fails or panics, nothing new is stored.
  pub run_in_write_tx_atomic :
      (fn : Exec W A) (w : W)
      → Keeps 1 fn
      → depth w ≡ 0
      → (depth (run_in_write_tx api fn w).1 ≡ 0)
        × Settled
            (stored w)
            (current (fn (api.txn_write w).1).1)
            (run_in_write_tx api fn w).0
            (stored (run_in_write_tx api fn w).1)
        × ((a : A) → (run_in_write_tx api fn w).0 ≡ ok a → (fn (api.txn_write w).1).0 ≡ ok a)
  unfolding run_in_write_tx run_in_txn
  run_in_write_tx_atomic fn w inside h =
      let (same, opened) = laws.begin_write w in
      let one : depth (api.txn_write w).1 ≡ opened_by (api.txn_write w).0 = omega arith in
      rw (← same) (opened-Settled fn (api.txn_write w).0 (api.txn_write w).1 inside one)

  commits-nothing :
      (txn n : ℕ) (a : A) (w : W)
      → depth w ≡ suc (suc n)
      → (depth (commit api txn a w).1 ≡ suc n) × (stored (commit api txn a w).1 ≡ stored w)
  unfolding commit
  commits-nothing txn n a w h =
      ground (arith, laws.success_closes txn (suc n) w h, laws.success_nested txn n w h)

  -- A transaction that cannot commit: one for reading, or one inside another.
  conclude-Keeps :
      (read_only : Bool) (txn n : ℕ) (r : Outcome A) (w : W)
      → (read_only ≡ true) ⊎ (0 < n)
      → depth w ≡ suc n
      → (depth (conclude api read_only txn r w).1 ≡ n)
        × (stored (conclude api read_only txn r w).1 ≡ stored w)
  unfolding conclude
  conclude-Keeps true txn n (ok a) w k h = closes txn n (ok a) w h
  conclude-Keeps false txn zero (ok a) w k h = absurd (ground arith)
  conclude-Keeps false txn (suc n) (ok a) w k h = commits-nothing txn n a w h
  conclude-Keeps read_only txn n (err e) w k h = closes txn n (err e) w h
  conclude-Keeps read_only txn n (panic p) w k h = closes txn n (panic p) w h

  opened-Keeps :
      (read_only : Bool) (n : ℕ) (fn : Exec W A) (txn : Option ℕ) (w : W)
      → (read_only ≡ true) ⊎ (0 < n)
      → Keeps (suc n) fn
      → depth w ≡ opened_by txn + n
      → (depth (run_opened api read_only fn txn w).1 ≡ n)
        × (stored (run_opened api read_only fn txn w).1 ≡ stored w)
  unfolding run_opened
  opened-Keeps read_only n fn none w k inside h = (omega arith, refl)
  opened-Keeps read_only n fn (some txn) w k inside h =
      let (h', same) = inside w (omega arith) in
      let (shut, settled) = conclude-Keeps read_only txn n (fn w).0 (fn w).1 k h' in
      (shut, settled ∙ same)

  -- A read transaction begun at any depth, and a write transaction begun inside another transaction,
  -- leaves as many transactions open and as much stored as before it, if its callback does inside it.
  pub run_in_txn-Keeps :
      (read_only : Bool) (n : ℕ) (fn : Exec W A)
      → (read_only ≡ true) ⊎ (0 < n)
      → Keeps (suc n) fn
      → Keeps n (run_in_txn api read_only fn)
  unfolding run_in_txn
  run_in_txn-Keeps true n fn k inside w h =
      let (same, opened) = laws.begin_read w in
      let deeper = opened ∙ ap (λ d. opened_by (api.txn_read w).0 + d) h in
      let (shut, kept) =
        opened-Keeps true n fn (api.txn_read w).0 (api.txn_read w).1 k inside deeper in
      (shut, kept ∙ same)
  run_in_txn-Keeps false n fn k inside w h =
      let (same, opened) = laws.begin_write w in
      let deeper = opened ∙ ap (λ d. opened_by (api.txn_write w).0 + d) h in
      let (shut, kept) =
        opened-Keeps false n fn (api.txn_write w).0 (api.txn_write w).1 k inside deeper in
      (shut, kept ∙ same)
