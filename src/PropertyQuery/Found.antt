-- ===== src/PropertyQuery/Found.antt =====
-- The values that a property query of objectbox/propertyquery.go finds.
use objectbox_go.Base.{
  ℕ, ◌^◌, ◌<◌, ◌≡◌, refl, ap, ◌∙◌, subst, List, [], ◌∷◌, Option, none, some, map, ok, err, Outcome,
  converted,
}
use objectbox_go.Base.Int.{ℤ}
use objectbox_go.Native.{got, c_get, create_error}
use objectbox_go.Native.Words.{to_int64, to_uint64, to_uint64-to_int64}
use objectbox_go.Native.Stored.{Stored, uint64s_to_go-Stored, int64s_to_go-Stored}
use objectbox_go.Native.Getters.{ArrayApi, c_get_int64s, c_get_uint64s}
use objectbox_go.PropertyQuery.{PropertyCalls, find_int64s, find_uint64s}

-- The values of a property over the objects that a query matches, with a value for NULL, or without
-- the objects whose value is NULL.
unfoldable pub filled : {A : Type 0} → Option A → List (Option A) → List A
filled value_if_nil [] = []
filled value_if_nil (some value ∷ values) = value ∷ filled value_if_nil values
filled none (none ∷ values) = filled none values
filled (some default) (none ∷ values) = default ∷ filled (some default) values

filled-map :
    {A B : Type 0} (f : A → B) (value_if_nil : Option A) (values : List (Option A))
    → map f (filled value_if_nil values)
      ≡ filled (converted f value_if_nil) (map (converted f) values)
unfolding filled
filled-map f value_if_nil [] = refl
filled-map f value_if_nil (some value ∷ values) =
    ap (λ l. f value ∷ l) (filled-map f value_if_nil values)
filled-map f none (none ∷ values) = filled-map f none values
filled-map f (some default) (none ∷ values) =
    ap (λ l. f default ∷ l) (filled-map f (some default) values)

-- The documented behaviour of obx_query_prop_find_int64s: the array that it returns, if it returns one
-- and no null pointer, has been written with the 64-bit patterns `stored` of the property, eight bytes
-- each, with the pattern of the value for NULL in the place of each NULL.
pub record FindLaws {W T : Type 0} (arrays : ArrayApi W T) (api : PropertyCalls W T) : Type 0 where
  pub stored : Option ℕ → W → List (Option ℕ)
  pub finds :
      (pq : Option ℕ) (value_if_nil : Option ℤ) (w : W) (handle : ℕ)
      → (api.find_int64s pq value_if_nil w).0 ≡ some handle
      → Stored 8
          (arrays.memory (api.find_int64s pq value_if_nil w).1)
          (arrays.array handle (api.find_int64s pq value_if_nil w).1)
          (filled (converted to_uint64 value_if_nil) (stored pq w))

-- What a find function returns and leaves, by what the C library returned: the error that the library
-- holds, or the values with the array freed.
abbrev pub Found :
    {W T A : Type 0} → ArrayApi W T → List A → Option ℕ × W → Outcome (List A) × W → Type 0
Found arrays values (none, w) result = result ≡ (err (create_error arrays.errors w), w)
Found arrays values (some handle, w) result = result ≡ (ok values, arrays.int64_array_free handle w)

module _ {W T : Type 0} (arrays : ArrayApi W T) (api : PropertyCalls W T)
    (laws : FindLaws arrays api) where
  open laws use {stored}

  got-Found :
      {A : Type 0} (items : ℕ → W → List A) (values : List A) (r : Option ℕ × W)
      → ((handle : ℕ) → r.0 ≡ some handle → items handle r.1 ≡ values)
      → Found arrays values r (got arrays.errors items arrays.int64_array_free r)
  unfolding got
  got-Found items values (none, w) h = refl
  got-Found items values (some handle, w) h =
      ap (λ l. (ok l, arrays.int64_array_free handle w)) (h handle refl)

  in_range :
      (value_if_nil : Option ℕ)
      → ((v : ℕ) → value_if_nil ≡ some v → v < 2 ^ 64)
      → converted to_uint64 (converted to_int64 value_if_nil) ≡ value_if_nil
  in_range none h = refl
  in_range (some v) h = ap some (to_uint64-to_int64 v (h v refl))

  written :
      (pq : Option ℕ) (value_if_nil : Option ℕ) (w : W)
      → ((v : ℕ) → value_if_nil ≡ some v → v < 2 ^ 64)
      → (handle : ℕ) → (api.find_int64s pq (converted to_int64 value_if_nil) w).0 ≡ some handle
      → Stored 8
          (arrays.memory (api.find_int64s pq (converted to_int64 value_if_nil) w).1)
          (arrays.array handle (api.find_int64s pq (converted to_int64 value_if_nil) w).1)
          (filled value_if_nil (stored pq w))
  written pq value_if_nil w h handle returned =
      let r = api.find_int64s pq (converted to_int64 value_if_nil) w in
      subst (λ v. Stored 8 (arrays.memory r.1) (arrays.array handle r.1) (filled v (stored pq w)))
        (in_range value_if_nil h)
        (laws.finds pq (converted to_int64 value_if_nil) w handle returned)

  -- FindUint64s and FindInt64s return the error that the C library holds if it returns a null pointer.
  -- Otherwise they free the array, and FindUint64s returns the stored values as uint64 in their order,
  -- with the given value, a uint64, in the place of each NULL, or without the NULLs if none is given,
  -- although the value goes through an int64. FindInt64s returns the values of the same patterns as
  -- int64, and that of the value's pattern.
  pub find_uint64s-Found :
      (pq : Option ℕ) (value_if_nil : Option ℕ) (w : W)
      → ((v : ℕ) → value_if_nil ≡ some v → v < 2 ^ 64)
      → Found arrays
          (filled value_if_nil (stored pq w))
          (api.find_int64s pq (converted to_int64 value_if_nil) w)
          (find_uint64s arrays api pq value_if_nil w)
        × Found arrays
            (filled (converted to_int64 value_if_nil) (map (converted to_int64) (stored pq w)))
            (api.find_int64s pq (converted to_int64 value_if_nil) w)
            (find_int64s arrays api pq (converted to_int64 value_if_nil) w)
  unfolding find_uint64s find_int64s c_get_uint64s c_get_int64s c_get
  find_uint64s-Found pq value_if_nil w h =
      let r = api.find_int64s pq (converted to_int64 value_if_nil) w in
      let found = written pq value_if_nil w h in
      (
        got-Found _ _ r (λ handle e. uint64s_to_go-Stored _ _ _ (found handle e)),
        got-Found _ _ r (λ handle e.
            int64s_to_go-Stored _ _ _ (found handle e)
            ∙ filled-map to_int64 value_if_nil (stored pq w)),
      )
