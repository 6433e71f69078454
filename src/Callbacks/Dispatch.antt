-- ===== src/Callbacks/Dispatch.antt =====
-- The methods of `cCallable`, and the functions that C calls with the number of a callback.
use objectbox_go.Base.{ℕ, Option, none, some, Exec, pure, panics, GoError, message}
use objectbox_go.Base.Int.{ℤ}
use objectbox_go.Callbacks.{
  Callable, void_callback, void_uint64_callback, void_int64_callback, void_const_void_callback,
  Registry, find,
}

abbrev pub invalid_signature : GoError
invalid_signature = message "invalid callback signature"

module _ {W : Type 0} where
  unfoldable pub call_void : Callable W → Exec W Unit
  call_void (void_callback fn) w = pure tt (fn w)
  call_void (void_uint64_callback fn) w = panics invalid_signature w
  call_void (void_int64_callback fn) w = panics invalid_signature w
  call_void (void_const_void_callback fn) w = panics invalid_signature w

  unfoldable pub call_void_uint64 : ℕ → Callable W → Exec W Unit
  call_void_uint64 arg (void_callback fn) w = panics invalid_signature w
  call_void_uint64 arg (void_uint64_callback fn) w = pure tt (fn arg w)
  call_void_uint64 arg (void_int64_callback fn) w = panics invalid_signature w
  call_void_uint64 arg (void_const_void_callback fn) w = panics invalid_signature w

  unfoldable pub call_void_int64 : ℤ → Callable W → Exec W Unit
  call_void_int64 arg (void_callback fn) w = panics invalid_signature w
  call_void_int64 arg (void_uint64_callback fn) w = panics invalid_signature w
  call_void_int64 arg (void_int64_callback fn) w = pure tt (fn arg w)
  call_void_int64 arg (void_const_void_callback fn) w = panics invalid_signature w

  unfoldable pub call_void_const_void : ℕ → Callable W → Exec W Unit
  call_void_const_void arg (void_callback fn) w = panics invalid_signature w
  call_void_const_void arg (void_uint64_callback fn) w = panics invalid_signature w
  call_void_const_void arg (void_int64_callback fn) w = panics invalid_signature w
  call_void_const_void arg (void_const_void_callback fn) w = pure tt (fn arg w)

  -- if callback != nil { … }
  abbrev pub when_found : Option (Callable W) → (Callable W → Exec W Unit) → Exec W Unit
  when_found none call w = pure tt w
  when_found (some fn) call w = call fn w

  unfoldable pub dispatch_void : Registry W → ℕ → Exec W Unit
  unfolding call_void
  dispatch_void r id = when_found (find id r) call_void

  unfoldable pub dispatch_void_uint64 : Registry W → ℕ → ℕ → Exec W Unit
  unfolding call_void_uint64
  dispatch_void_uint64 r id arg = when_found (find id r) (call_void_uint64 arg)

  unfoldable pub dispatch_void_int64 : Registry W → ℕ → ℤ → Exec W Unit
  unfolding call_void_int64
  dispatch_void_int64 r id arg = when_found (find id r) (call_void_int64 arg)

  unfoldable pub dispatch_void_const_void : Registry W → ℕ → ℕ → Exec W Unit
  unfolding call_void_const_void
  dispatch_void_const_void r id arg = when_found (find id r) (call_void_const_void arg)
