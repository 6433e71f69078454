-- ===== src/Native.antt =====
-- objectbox/c-tools.go: calls of the C library, whose result code or null pointer becomes an error
-- with the message that the library holds for the thread. `W` is the state of the world, the C
-- library's included. Locking the goroutine to its thread is not modelled: a call is one step.
pub mod Arrays
pub mod Calls
pub mod Examples
pub mod Getters
pub mod Stored
pub mod Words
use objectbox_go.Base.{
  ℕ, nonzero, Option, none, some, Bool, true, false, not, String, if◌then◌else◌, Outcome, ok, err,
  Exec, fail, pure, GoError, core_error, no_error_info,
}

-- obx_last_error_message; none is a null pointer.
pub record Errors (W : Type 0) : Type 0 where
  pub last_error_message : W → Option String

error_of : Option String → GoError
error_of none = no_error_info
error_of (some msg) = core_error msg

module _ {W : Type 0} (errors : Errors W) where
  -- createError
  unfoldable pub create_error : W → GoError
  unfolding error_of
  create_error w = error_of (errors.last_error_message w)

  -- cCall
  unfoldable pub c_call : (W → ℕ × W) → Exec W Unit
  c_call fn w = let (rc, w') = fn w in if nonzero rc then fail (create_error w') w' else pure tt w'

  -- cCallBool
  unfoldable pub c_call_bool : (W → Bool × W) → Exec W Unit
  c_call_bool fn w =
      let (successful, w') = fn w in
      if not successful then fail (create_error w') w' else pure tt w'

  -- cCall of a C function with an out-parameter, whose value counts if the code is 0.
  resulted : {A : Type 0} → (ℕ × A) × W → Outcome A × W
  resulted ((rc, a), w) = if nonzero rc then fail (create_error w) w else pure a w

  unfoldable pub c_result : {A : Type 0} → (W → (ℕ × A) × W) → Exec W A
  unfolding resulted
  c_result fn w = resulted (fn w)

  -- The cGet* functions: read an array that the C library returned, and free it.
  unfoldable pub got : {A : Type 0} → (ℕ → W → A) → (ℕ → W → W) → Option ℕ × W → Outcome A × W
  got items free (none, w) = fail (create_error w) w
  got items free (some array, w) = pure (items array w) (free array w)

  -- cGetIds, cGetBytesArray and their kind
  unfoldable pub c_get : {A : Type 0} → (ℕ → W → A) → (ℕ → W → W) → (W → Option ℕ × W) → Exec W A
  unfolding got
  c_get items free fn w = got items free (fn w)
