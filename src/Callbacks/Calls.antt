-- ===== src/Callbacks/Calls.antt =====
-- What reaches a registered function when C calls back with its number.
use objectbox_go.Base.{ℕ, ◌≡◌, ◌∙◌, ap, none, some, pure, arith}
use objectbox_go.Base.Int.{ℤ}
use objectbox_go.Callbacks.{Callable, Registry, register, find, unregister}
use objectbox_go.Callbacks.Numbers.{Took, find-register}
use objectbox_go.Callbacks.Dispatch.{
  call_void, call_void_uint64, call_void_int64, call_void_const_void, when_found, dispatch_void,
  dispatch_void_uint64, dispatch_void_int64, dispatch_void_const_void,
}

-- What each of the four dispatchers does at a number, in terms of the function that it should reach.
pub record Reaches {W : Type 0} (r : Registry W) (id : ℕ) (fn : Callable W) : Type 0 where
  pub void : dispatch_void r id ≡ call_void fn
  pub uint64 : (arg : ℕ) → dispatch_void_uint64 r id arg ≡ call_void_uint64 arg fn
  pub int64 : (arg : ℤ) → dispatch_void_int64 r id arg ≡ call_void_int64 arg fn
  pub const_void : (arg : ℕ) → dispatch_void_const_void r id arg ≡ call_void_const_void arg fn

-- All four dispatchers return and change nothing at a number.
pub record Ignores {W : Type 0} (r : Registry W) (id : ℕ) : Type 0 where
  pub void : dispatch_void r id ≡ pure tt
  pub uint64 : (arg : ℕ) → dispatch_void_uint64 r id arg ≡ pure tt
  pub int64 : (arg : ℤ) → dispatch_void_int64 r id arg ≡ pure tt
  pub const_void : (arg : ℕ) → dispatch_void_const_void r id arg ≡ pure tt

module _ {W : Type 0} (r : Registry W) (id : ℕ) where
  pub find-Reaches : (fn : Callable W) → find id r ≡ some fn → Reaches r id fn
  unfolding dispatch_void dispatch_void_uint64 dispatch_void_int64 dispatch_void_const_void
  find-Reaches fn e = record {
    void = ap (λ o. when_found o call_void) e;
    uint64 = λ arg. ap (λ o. when_found o (call_void_uint64 arg)) e;
    int64 = λ arg. ap (λ o. when_found o (call_void_int64 arg)) e;
    const_void = λ arg. ap (λ o. when_found o (call_void_const_void arg)) e;
  }

  pub find-Ignores : find id r ≡ none → Ignores r id
  unfolding dispatch_void dispatch_void_uint64 dispatch_void_int64 dispatch_void_const_void
  find-Ignores e = record {
    void = ap (λ o. when_found o call_void) e;
    uint64 = λ arg. ap (λ o. when_found o (call_void_uint64 arg)) e;
    int64 = λ arg. ap (λ o. when_found o (call_void_int64 arg)) e;
    const_void = λ arg. ap (λ o. when_found o (call_void_const_void arg)) e;
  }

-- After a registration that took a number, each dispatcher calls the registered function at that
-- number; after that number is unregistered again, each dispatcher ignores it.
pub dispatch-register :
    {W : Type 0} (fn : Callable W) (r : Registry W) (id : ℕ)
    → Took fn r id
    → Reaches (register fn r).1 id fn × Ignores (unregister id (register fn r).1) id
unfolding find
dispatch-register fn r id t = (
  find-Reaches (register fn r).1 id fn (find-register fn r id t).0,
  find-Ignores (unregister id (register fn r).1) id
      ((find-register fn r id t).1 id ∙ (ground (arith, t.number, t.was_free))),
)
