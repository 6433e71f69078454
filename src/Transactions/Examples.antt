-- ===== src/Transactions/Examples.antt =====
-- Transactions of a small store that holds one number.
use objectbox_go.Base.{
  ℕ, zero, suc, ◌+◌, ◌≡◌, ◌≢◌, refl, Option, some, Bool, true, false, if◌then◌else◌, ok, Exec,
  message, arith, pure, fail,
}
use objectbox_go.Transactions.{TxnApi, run_in_write_tx, run_in_txn}
use objectbox_go.Transactions.Atomicity.{TxnLaws, Keeps, Settled, run_in_write_tx_atomic}
use objectbox_go.Transactions.Nested.{
  Callback, action, transaction, sequence, run_callback, DataOnly, Ends, run_in_txn_nested,
}

record Store : Type 0 where
  depth : ℕ
  stored : ℕ
  current : ℕ
  refuses : Bool

-- An inner transaction goes on with what the outer one sees.
entered : ℕ → Store → Store
entered zero s = record s { depth = 1; current = s.stored; refuses = false }
entered (suc n) s = record s { depth = suc (suc n) }

begin : Store → Option ℕ × Store
unfolding entered
begin s = (some s.depth, entered s.depth s)

-- After an inner transaction is aborted, the outermost one refuses to commit.
aborted : ℕ → Store → Store
aborted (suc (suc n)) s = record s { depth = suc n; refuses = true }
aborted _ s = record s { depth = 0 }

abort : ℕ → Store → ℕ × Store
unfolding aborted
abort txn s = (0, aborted s.depth s)

finished : ℕ → Store → ℕ × Store
finished (suc (suc n)) s = (0, record s { depth = suc n })
finished _ s =
    if s.refuses
    then (1, record s { depth = 0 })
    else (0, record s { depth = 0; stored = s.current })

succeed : ℕ → Store → ℕ × Store
unfolding finished
succeed txn s = finished s.depth s

abbrev api : TxnApi Store
api = record {
  errors = record { last_error_message = λ s. some "inner transaction failed" };
  txn_read = begin;
  txn_write = begin;
  txn_close = abort;
  txn_success = succeed;
}

begins : (n : ℕ) (s : Store) → ((entered n s).stored ≡ s.stored) × ((entered n s).depth ≡ 1 + n)
unfolding entered
begins zero s = (refl, refl)
begins (suc n) s = (refl, omega arith)

aborts :
    (d n : ℕ) (s : Store)
    → d ≡ suc n
    → ((aborted d s).depth ≡ n) × ((aborted d s).stored ≡ s.stored)
unfolding aborted
aborts zero n s h = absurd (omega arith)
aborts (suc zero) n s h = (omega arith, refl)
aborts (suc (suc d)) n s h = (omega arith, refl)

finishes : (d n : ℕ) (s : Store) → d ≡ suc n → (finished d s).1.depth ≡ n
unfolding finished
finishes zero n s h = absurd (omega arith)
finishes (suc zero) n s h = ground arith
finishes (suc (suc d)) n s h = omega arith

commits : (d : ℕ) (s : Store) → d ≡ 1 → (finished d s).0 ≡ 0 → (finished d s).1.stored ≡ s.current
unfolding finished
commits zero s h e = absurd (omega arith)
commits (suc zero) s h e = ground arith
commits (suc (suc d)) s h e = absurd (omega arith)

fails : (d : ℕ) (s : Store) → d ≡ 1 → (finished d s).0 ≢ 0 → (finished d s).1.stored ≡ s.stored
unfolding finished
fails zero s h e = absurd (omega arith)
fails (suc zero) s h e = ground arith
fails (suc (suc d)) s h e = absurd (omega arith)

laws : TxnLaws api ℕ
unfolding begin abort succeed finished
laws = record {
  depth = λ s. s.depth;
  stored = λ s. s.stored;
  current = λ s. s.current;
  begin_read = λ s. begins s.depth s;
  begin_write = λ s. begins s.depth s;
  close_reverts = λ t n s h. aborts s.depth n s h;
  success_closes = λ t n s h. finishes s.depth n s h;
  success_nested = λ t n s h. rw h refl;
  success_commits = λ t s h e. commits s.depth s h e;
  success_fails = λ t s h e. fails s.depth s h e;
}

add_one : Exec Store ℕ
add_one s = pure s.current (record s { current = s.current + 1 })

give_up : Exec Store ℕ
give_up s = fail (message "no") (record s { current = s.current + 1 })

abbrev idle : Store
idle = record { depth = 0; stored = 5; current = 5; refuses = false }

add_one-Keeps : (n : ℕ) → Keeps api laws n add_one
unfolding add_one laws
add_one-Keeps n s h = (h, refl)

committed : (run_in_write_tx api add_one idle).1.stored ≡ 6
unfolding run_in_write_tx begin add_one succeed
committed = refl

rolled_back : (run_in_write_tx api give_up idle).1.stored ≡ 5
unfolding run_in_write_tx begin give_up abort
rolled_back = refl

-- An action and then an inner write transaction with another one, which returns or fails.
abbrev inner : Exec Store ℕ → Callback Store ℕ
inner fn = sequence (action add_one) (λ r. transaction false (action fn))

inner_committed : (run_in_write_tx api (run_callback api (inner add_one)) idle).1.stored ≡ 7
unfolding run_in_write_tx run_callback begin add_one succeed
inner_committed = refl

inner_failed : (run_in_write_tx api (run_callback api (inner give_up)) idle).1.stored ≡ 5
unfolding run_in_write_tx run_callback begin add_one give_up abort
inner_failed = refl

inner-DataOnly : DataOnly api laws (inner add_one)
unfolding DataOnly
inner-DataOnly = (λ n. add_one-Keeps (suc n), λ r n. add_one-Keeps (suc n))

run_in_txn_nested_example :
    ((run_in_txn api false (run_callback api (inner add_one)) idle).1.depth ≡ 0)
    × Ends {A = ℕ} api laws false 5 7
        (run_in_txn api false (run_callback api (inner add_one)) idle).0
        (run_in_txn api false (run_callback api (inner add_one)) idle).1.stored
unfolding laws add_one begin run_callback succeed
run_in_txn_nested_example =
    run_in_txn_nested api laws false (inner add_one) idle inner-DataOnly refl

run_in_write_tx_atomic_example :
    ((run_in_write_tx api add_one idle).1.depth ≡ 0)
    × Settled {A = ℕ} api laws 5 6
        (run_in_write_tx api add_one idle).0
        (run_in_write_tx api add_one idle).1.stored
    × ((a : ℕ) → (run_in_write_tx api add_one idle).0 ≡ ok a → (add_one (begin idle).1).0 ≡ ok a)
unfolding laws add_one begin
run_in_write_tx_atomic_example = run_in_write_tx_atomic api laws add_one idle (add_one-Keeps 1) refl
