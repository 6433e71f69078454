-- ===== src/Query.antt =====
-- objectbox/query.go: a query, the operations that run it and those that change its parameters. The
-- mutex of Close and the finalizer are not modelled; the reads here are for a C library with result
-- arrays, Query/Visiting is for one without.
pub mod Api
pub mod Closed
pub mod Making
pub mod Made
pub mod Visiting
pub mod Limits
pub mod Linked
pub mod Examples
pub use Api.*
use objectbox_go.Base.{
  ℕ, zero, suc, ◌==◌, Option, none, some, Bool, true, false, List, [], ◌∷◌, String, if◌then◌else◌,
  nonzero, contains, GoError, message, message_with, message_with_both, Outcome, ok, err, panic,
  Exec, pure, fail,
}
use objectbox_go.Base.Int.{ℤ}
use objectbox_go.Native.{create_error, c_get, c_call}
use objectbox_go.Transactions.{TxnApi}
use objectbox_go.Box.Api.{Box}
use objectbox_go.Box.Reads.{read_many_objects, with_result}

pub record Query : Type 0 where
  pub c_query : Option ℕ
  pub entity : ℕ
  pub linked_entity_ids : List ℕ
  pub offset_err : Option GoError
  pub limit_err : Option GoError

-- A query and the world around it.
pub record QueryState (W : Type 0) : Type 0 where
  pub query : Query
  pub world : W

abbrev pub was_closed : GoError
was_closed = message "illegal state; query was closed"

-- check
unfoldable pub check : Query → Option GoError
check q = elim q.c_query [
  | none ↦ some was_closed
  | some c ↦ elim q.limit_err [ some e ↦ some e | none ↦ q.offset_err ]
]

wrong_entity : ℕ → ℕ → List ℕ → GoError
wrong_entity passed expected [] =
    message_with_both "property from a different entity passed" passed expected
wrong_entity passed expected (id ∷ ids) =
    message_with "property from a different entity passed, expected one of those linked" passed

-- checkIdentifier
unfoldable pub check_identifier : Identifier → Query → Option GoError
unfolding wrong_entity
check_identifier (alias name) q = none
check_identifier (property entity id) q =
    if q.entity == entity
    then none
    else if contains q.linked_entity_ids entity
    then none
    else some (wrong_entity entity q.entity q.linked_entity_ids)

-- An action on the world, as one on a query.
abbrev pub on_world : {W A : Type 0} → Exec W A → Exec (QueryState W) A
on_world m s = let (r, w) = m s.world in (r, record s { world = w })

unfoldable pub unless_failed :
    {W A : Type 0} → Option GoError → Exec (QueryState W) A → Exec (QueryState W) A
unless_failed (some e) m s = fail e s
unless_failed none m s = m s

-- An operation that starts with check.
unfoldable pub guarded : {W A : Type 0} → Exec (QueryState W) A → Exec (QueryState W) A
unfolding check unless_failed
guarded m s = unless_failed (check s.query) m s

-- DescribeParams; the text belongs to the C query.
unfoldable pub describe_params : {W : Type 0} → (Option ℕ → W → String) → Exec (QueryState W) String
unfolding guarded
describe_params describe = guarded (λ s. pure (describe s.query.c_query s.world) s)

-- How the values of the parameters become arguments of the C library.
abbrev pub no_values : GoError
no_values = message "no values given"

abbrev pub too_many_values : GoError
too_many_values = message "too many values given"

module _ {F : Type 0} where
  unfoldable pub string_parameter : List String → Outcome (Parameter F)
  string_parameter [] = err no_values
  string_parameter (v ∷ []) = ok (one_string v)
  string_parameter (v ∷ w ∷ values) = err too_many_values

  unfoldable pub strings_parameter : List String → Outcome (Parameter F)
  strings_parameter [] = err no_values
  strings_parameter (v ∷ values) = ok (strings (v ∷ values))

  unfoldable pub int64_parameter : List ℤ → Outcome (Parameter F)
  int64_parameter [] = err no_values
  int64_parameter (a ∷ []) = ok (one_int a)
  int64_parameter (a ∷ b ∷ []) = ok (two_ints a b)
  int64_parameter (a ∷ b ∷ c ∷ values) = err too_many_values

  unfoldable pub int64s_parameter : List ℤ → Outcome (Parameter F)
  int64s_parameter [] = err no_values
  int64s_parameter (v ∷ values) = ok (int64s (v ∷ values))

  unfoldable pub int32s_parameter : List ℤ → Outcome (Parameter F)
  int32s_parameter [] = err no_values
  int32s_parameter (v ∷ values) = ok (int32s (v ∷ values))

  unfoldable pub float64_parameter : List F → Outcome (Parameter F)
  float64_parameter [] = err no_values
  float64_parameter (a ∷ []) = ok (one_double a)
  float64_parameter (a ∷ b ∷ []) = ok (two_doubles a b)
  float64_parameter (a ∷ b ∷ c ∷ values) = err too_many_values

  unfoldable pub bytes_parameter : List (List ℕ) → Outcome (Parameter F)
  bytes_parameter [] = err no_values
  bytes_parameter (v ∷ []) = ok (bytes v)
  bytes_parameter (v ∷ w ∷ values) = err too_many_values

module _ {W O S F : Type 0} (tx : TxnApi W) (box : Box W O S) (api : QueryCalls W F) where
  open tx use {errors}

  -- Close
  unfoldable pub close_pointer : Option ℕ → Exec (QueryState W) Unit
  close_pointer none s = pure tt s
  close_pointer (some c) s =
      let (r, w) = c_call errors (api.close c) s.world in
      (r, record { query = record s.query { c_query = none }; world = w })

  unfoldable pub close : Exec (QueryState W) Unit
  unfolding close_pointer
  close s = close_pointer s.query.c_query s

  -- Offset and Limit keep the error of their last call.
  abbrev pub call_error : ℕ × W → Option GoError
  call_error (rc, w) = if nonzero rc then some (create_error errors w) else none

  unfoldable pub offset : ℕ → QueryState W → QueryState W
  offset n s =
      let r = api.offset s.query.c_query n s.world in
      record { query = record s.query { offset_err = call_error r }; world = r.1 }

  unfoldable pub limit : ℕ → QueryState W → QueryState W
  limit n s =
      let r = api.limit s.query.c_query n s.world in
      record { query = record s.query { limit_err = call_error r }; world = r.1 }

  -- Find, FindIds, Count and Remove
  unfoldable pub find : Exec (QueryState W) S
  unfolding guarded read_many_objects
  find = guarded (λ s. on_world (read_many_objects tx box true (api.find s.query.c_query)) s)

  unfoldable pub find_ids : Exec (QueryState W) (List ℕ)
  unfolding guarded c_get
  find_ids = guarded (λ s.
      on_world
        (c_get errors box.core.id_array_items box.core.id_array_free (api.find_ids s.query.c_query))
        s)

  unfoldable pub count : Exec (QueryState W) ℕ
  unfolding guarded with_result
  count = guarded (λ s. on_world (with_result tx box (api.count s.query.c_query)) s)

  unfoldable pub remove : Exec (QueryState W) ℕ
  unfolding guarded with_result
  remove = guarded (λ s. on_world (with_result tx box (api.remove s.query.c_query)) s)

  -- What the methods Set…Params share: first the identifier, then the number of values, and then C.
  set_parsed : Identifier → Outcome (Parameter F) → Exec (QueryState W) Unit
  set_parsed identifier (ok p) s =
      on_world (c_call errors (api.param s.query.c_query identifier p)) s
  set_parsed identifier (err e) s = fail e s
  set_parsed identifier (panic e) s = (panic e, s)

  unfoldable pub set_params : Identifier → Outcome (Parameter F) → Exec (QueryState W) Unit
  unfolding check_identifier unless_failed set_parsed
  set_params identifier parameter s =
      unless_failed (check_identifier identifier s.query) (set_parsed identifier parameter) s

  unfoldable pub set_string_params : Identifier → List String → Exec (QueryState W) Unit
  unfolding set_params string_parameter
  set_string_params identifier values = set_params identifier (string_parameter values)

  unfoldable pub set_string_params_in : Identifier → List String → Exec (QueryState W) Unit
  unfolding set_params strings_parameter
  set_string_params_in identifier values = set_params identifier (strings_parameter values)

  unfoldable pub set_int64_params : Identifier → List ℤ → Exec (QueryState W) Unit
  unfolding set_params int64_parameter
  set_int64_params identifier values = set_params identifier (int64_parameter values)

  unfoldable pub set_int64_params_in : Identifier → List ℤ → Exec (QueryState W) Unit
  unfolding set_params int64s_parameter
  set_int64_params_in identifier values = set_params identifier (int64s_parameter values)

  unfoldable pub set_int32_params_in : Identifier → List ℤ → Exec (QueryState W) Unit
  unfolding set_params int32s_parameter
  set_int32_params_in identifier values = set_params identifier (int32s_parameter values)

  unfoldable pub set_float64_params : Identifier → List F → Exec (QueryState W) Unit
  unfolding set_params float64_parameter
  set_float64_params identifier values = set_params identifier (float64_parameter values)

  unfoldable pub set_bytes_params : Identifier → List (List ℕ) → Exec (QueryState W) Unit
  unfolding set_params bytes_parameter
  set_bytes_params identifier values = set_params identifier (bytes_parameter values)
