-- ===== src/Query/Limits.antt =====
-- The errors of Offset and Limit of objectbox/query.go.
use objectbox_go.Base.{ℕ, ◌≡◌, refl, ap, some, true, List, [], ◌∷◌, GoError, Outcome, err, nonzero}
use objectbox_go.Native.{create_error}
use objectbox_go.Transactions.{TxnApi}
use objectbox_go.Box.Api.{Box}
use objectbox_go.Query.{
  Query, QueryState, QueryCalls, check, guarded, unless_failed, offset, limit, find, find_ids,
  count, remove,
}

module _ {W O S F : Type 0} (tx : TxnApi W) (box : Box W O S) (api : QueryCalls W F) where
  -- Everything that reads or removes with a query returns this error, calls nothing and changes
  -- nothing.
  pub record Fails (e : GoError) (s : QueryState W) : Type 0 where
    pub find_fails : find tx box api s ≡ (err e, s)
    pub find_ids_fails : find_ids tx box api s ≡ (err e, s)
    pub count_fails : count tx box api s ≡ (err e, s)
    pub remove_fails : remove tx box api s ≡ (err e, s)

  -- Calls of Offset, one after the other.
  unfoldable pub offsets : List ℕ → QueryState W → QueryState W
  offsets [] s = s
  offsets (n ∷ ns) s = offsets ns (offset tx box api n s)

  guarded-fails :
      {A : Type 0} (m : QueryState W → Outcome A × QueryState W) (e : GoError) (s : QueryState W)
      → check s.query ≡ some e
      → guarded m s ≡ (err e, s)
  unfolding guarded unless_failed
  guarded-fails m e s h = ap (λ c. unless_failed c m s) h

  check-Fails : (e : GoError) (s : QueryState W) → check s.query ≡ some e → Fails e s
  unfolding find find_ids count remove
  check-Fails e s h = record {
    find_fails = guarded-fails _ e s h;
    find_ids_fails = guarded-fails _ e s h;
    count_fails = guarded-fails _ e s h;
    remove_fails = guarded-fails _ e s h;
  }

  check_limit :
      (q : Query) (c : ℕ) (e : GoError)
      → q.c_query ≡ some c
      → q.limit_err ≡ some e
      → check q ≡ some e
  unfolding check
  check_limit q c e h l = rw (h, l) refl

  offsets-Fails :
      (ns : List ℕ) (s : QueryState W) (c : ℕ) (e : GoError)
      → s.query.c_query ≡ some c
      → s.query.limit_err ≡ some e
      → Fails e (offsets ns s)
  unfolding offsets offset
  offsets-Fails [] s c e h l = check-Fails e s (check_limit s.query c e h l)
  offsets-Fails (n ∷ ns) s c e h l = offsets-Fails ns (offset tx box api n s) c e h l

  -- After a Limit that the C library refuses, each operation that reads or removes with the open query
  -- returns that error without a call, however Offset is called in between and whether it succeeds.
  pub limit-Fails :
      (n c : ℕ) (ns : List ℕ) (s : QueryState W)
      → s.query.c_query ≡ some c
      → nonzero (api.limit s.query.c_query n s.world).0 ≡ true
      → Fails
          (create_error tx.errors (api.limit s.query.c_query n s.world).1)
          (offsets ns (limit tx box api n s))
  unfolding limit
  limit-Fails n c ns s h refused = offsets-Fails ns (limit tx box api n s) c _ h (rw refused refl)
