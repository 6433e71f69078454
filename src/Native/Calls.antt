-- ===== src/Native/Calls.antt =====
-- What a call of the C library that returned no error says about the C function.
use objectbox_go.Base.{
  ℕ, ◌≡◌, refl, Option, some, none, ok, err, nonzero, if◌then◌else◌, ok-injective, sym, arith,
}
use objectbox_go.Native.{Errors, create_error, c_call, c_get, got}

module _ {W : Type 0} (errors : Errors W) where
  pub c_call-eq-ok :
      (fn : W → ℕ × W) (w : W) {u : Unit {0}}
      → (c_call errors fn w).0 ≡ ok u
      → ((fn w).0 ≡ 0) × ((c_call errors fn w).1 ≡ (fn w).1)
  unfolding c_call
  c_call-eq-ok fn w h = ground arith

  -- The state is the one that the C function left, whatever it returned.
  pub c_call-world : (fn : W → ℕ × W) (w : W) → (c_call errors fn w).1 ≡ (fn w).1
  unfolding c_call
  c_call-world fn w = ground arith

  -- The outcome depends on the code alone.
  pub c_call-outcome :
      (fn : W → ℕ × W) (w : W)
      → c_call errors fn w
        ≡ ((if nonzero (fn w).0 then err (create_error errors (fn w).1) else ok tt), (fn w).1)
  unfolding c_call
  c_call-outcome fn w = ground arith

  pub c_get-eq-ok :
      {A : Type 0} (items : ℕ → W → A) (free : ℕ → W → W) (fn : W → Option ℕ × W) (w : W) {a : A}
      → (c_get errors items free fn w).0 ≡ ok a
      → (array : ℕ) × ((fn w).0 ≡ some array)
        × (a ≡ items array (fn w).1)
        × ((c_get errors items free fn w).1 ≡ free array (fn w).1)
  unfolding c_get
  c_get-eq-ok {A} items free fn w {a} = by (fn w).0 (fn w).1
    where
      by :
          (o : Option ℕ) (w' : W)
          → (got errors items free (o, w')).0 ≡ ok a
          → (array : ℕ) × (o ≡ some array)
            × (a ≡ items array w')
            × ((got errors items free (o, w')).1 ≡ free array w')
      by none w' h = cc
      by (some array) w' h = (array, refl, sym (ok-injective h), refl)
