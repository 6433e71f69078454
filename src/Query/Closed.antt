-- ===== src/Query/Closed.antt =====
-- Closed queries, and the identifiers that a query accepts: objectbox/query.go.
use objectbox_go.Base.{
  ℕ, ◌≡◌, refl, ap, ◌==◌, ◌↔◌, Option, none, some, true, ◌||◌, ok, err, contains, Bool-cases, inl,
  inr, Outcome,
}
use objectbox_go.Transactions.{TxnApi}
use objectbox_go.Box.Api.{Box}
use objectbox_go.Query.{
  Query, QueryState, QueryCalls, property, check, check_identifier, was_closed, guarded,
  unless_failed, close, close_pointer, find, find_ids, count, remove,
}

-- A query accepts a property exactly if its entity is the query's own or that of one of its links.
pub check_identifier_lem :
    (entity id : ℕ) (q : Query)
    → (check_identifier (property entity id) q ≡ none)
      ↔ ((q.entity == entity || contains q.linked_entity_ids entity) ≡ true)
unfolding check_identifier
check_identifier_lem entity id q = elim (Bool-cases (q.entity == entity)) [
  | inl a ↦ rw a (λ _. refl, λ _. refl)
  | inr a ↦ elim (Bool-cases (contains q.linked_entity_ids entity)) [
    | inl b ↦ rw (a, b) (λ _. refl, λ _. refl)
    | inr b ↦ rw (a, b) (λ h. cc, λ h. cc)
  ]
]

module _ {W O S F : Type 0} (tx : TxnApi W) (box : Box W O S) (api : QueryCalls W F) where
  -- Everything that reads or removes with a query fails, calls nothing and changes nothing, and Close
  -- does nothing.
  pub record Refuses (s : QueryState W) : Type 0 where
    pub find_fails : find tx box api s ≡ (err was_closed, s)
    pub find_ids_fails : find_ids tx box api s ≡ (err was_closed, s)
    pub count_fails : count tx box api s ≡ (err was_closed, s)
    pub remove_fails : remove tx box api s ≡ (err was_closed, s)
    pub close_again : close tx box api s ≡ (ok tt, s)

  guarded-none :
      {A : Type 0} (m : QueryState W → Outcome A × QueryState W) (s : QueryState W)
      → s.query.c_query ≡ none
      → guarded m s ≡ (err was_closed, s)
  unfolding guarded check unless_failed
  guarded-none m s h =
      ap
        (λ c.
          unless_failed
            (elim c [
              | none ↦ some was_closed
              | some c' ↦ elim s.query.limit_err [ some e ↦ some e | none ↦ s.query.offset_err ]
            ])
            m s)
        h

  none-Refuses : (s : QueryState W) → s.query.c_query ≡ none → Refuses s
  unfolding find find_ids count remove close close_pointer
  none-Refuses s h = record {
    find_fails = guarded-none _ s h;
    find_ids_fails = guarded-none _ s h;
    count_fails = guarded-none _ s h;
    remove_fails = guarded-none _ s h;
    close_again = ap (λ c. close_pointer tx box api c s) h;
  }

  close-none : (s : QueryState W) → (close tx box api s).1.query.c_query ≡ none
  unfolding close close_pointer
  close-none s = go s.query.c_query refl
    where
      go :
          (c : Option ℕ)
          → s.query.c_query ≡ c
          → (close_pointer tx box api c s).1.query.c_query ≡ none
      go none e = e
      go (some c) e = refl

  -- Once a query is closed, also if the C library reports an error for it, each operation that reads
  -- or removes fails without a call of the C library, and a second Close does nothing.
  pub close-Refuses : (s : QueryState W) → Refuses (close tx box api s).1
  close-Refuses s = none-Refuses (close tx box api s).1 (close-none s)
