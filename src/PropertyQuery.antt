-- ===== src/PropertyQuery.antt =====
-- objectbox/propertyquery.go: queries for the values of one property, and PropertyOrError of
-- objectbox/query.go, which makes them. The mutex and the finalizer are not modelled; a floating-point
-- number is its bit pattern, `T` is the type of texts.
pub mod Found
pub mod Examples
use objectbox_go.Base.{
  ℕ, ◌==◌, Bool, true, false, List, Option, none, some, if◌then◌else◌, is_some, converted, Outcome,
  ok, err, panic, panics, message_wrapping, Exec, pure, fail, message_with_both, ◌>>=◌,
}
use objectbox_go.Base.Int.{ℤ, pos}
use objectbox_go.Native.{create_error, c_call, c_result}
use objectbox_go.Native.Words.{to_int64, to_int32, to_int16, to_int8}
use objectbox_go.Native.Getters.{
  ArrayApi, c_get_ints, c_get_uints, c_get_int64s, c_get_uint64s, c_get_int32s, c_get_uint32s,
  c_get_int16s, c_get_uint16s, c_get_int8s, c_get_uint8s, c_get_bools, c_get_float64s,
  c_get_float32s, c_get_strings,
}
use objectbox_go.Query.{Query}

-- The functions obx_query_prop_*; a value for NULL is none for a null pointer.
pub record PropertyCalls (W T : Type 0) : Type 0 where
  pub query_prop : Option ℕ → ℕ → W → Option ℕ × W
  pub close : ℕ → W → ℕ × W
  pub distinct : Option ℕ → Bool → W → ℕ × W
  pub distinct_case : Option ℕ → Bool → Bool → W → ℕ × W
  pub count : Option ℕ → W → (ℕ × ℕ) × W
  pub avg : Option ℕ → W → (ℕ × ℕ) × W
  pub min : Option ℕ → W → (ℕ × ℕ) × W
  pub max : Option ℕ → W → (ℕ × ℕ) × W
  pub sum : Option ℕ → W → (ℕ × ℕ) × W
  pub min_int : Option ℕ → W → (ℕ × ℤ) × W
  pub max_int : Option ℕ → W → (ℕ × ℤ) × W
  pub sum_int : Option ℕ → W → (ℕ × ℤ) × W
  pub find_int64s : Option ℕ → Option ℤ → W → Option ℕ × W
  pub find_int32s : Option ℕ → Option ℤ → W → Option ℕ × W
  pub find_int16s : Option ℕ → Option ℤ → W → Option ℕ × W
  pub find_int8s : Option ℕ → Option ℤ → W → Option ℕ × W
  pub find_doubles : Option ℕ → Option ℕ → W → Option ℕ × W
  pub find_floats : Option ℕ → Option ℕ → W → Option ℕ × W
  pub find_strings : Option ℕ → Option T → W → Option ℕ × W

-- The C pointer of a property query, and the world around it.
pub record PropertyState (W : Type 0) : Type 0 where
  pub pointer : Option ℕ
  pub world : W

unfoldable pub bool_to_int8 : Bool → ℤ
bool_to_int8 value = if value then pos 1 else pos 0

module _ {W T : Type 0} (arrays : ArrayApi W T) (api : PropertyCalls W T) where
  open arrays use {errors}

  made : Option ℕ × W → Outcome (Option ℕ) × W
  made (none, w) = fail (create_error errors w) w
  made (some pointer, w) = pure (some pointer) w

  -- newPropertyQuery
  unfoldable pub new_property_query : Query → ℕ → Exec W (Option ℕ)
  unfolding made
  new_property_query query property w = made (api.query_prop query.c_query property w)

  -- PropertyOrError
  unfoldable pub property_or_error : Query → ℕ → ℕ → Exec W (Option ℕ)
  unfolding new_property_query
  property_or_error query entity property w =
      if query.entity == entity
      then new_property_query query property w
      else fail (message_with_both "property from a different entity passed" entity query.entity) w

  or_panic : Outcome (Option ℕ) × W → Outcome (Option ℕ) × W
  or_panic (ok pointer, w) = pure pointer w
  or_panic (err e, w) =
      panics (message_wrapping "Could not create query - please check your query conditions" e) w
  or_panic (panic e, w) = panics e w

  -- Property
  unfoldable pub property_or_panic : Query → ℕ → ℕ → Exec W (Option ℕ)
  unfolding property_or_error or_panic
  property_or_panic query entity id w = or_panic (property_or_error query entity id w)

  -- Close
  close_pointer : Option ℕ → Exec (PropertyState W) Unit
  close_pointer none s = pure tt s
  close_pointer (some pointer) s =
      let (r, w) = c_call errors (api.close pointer) s.world in
      (r, record { pointer = none; world = w })

  unfoldable pub close : Exec (PropertyState W) Unit
  unfolding close_pointer
  close s = close_pointer s.pointer s

  -- Distinct and DistinctString
  unfoldable pub distinct : Option ℕ → Bool → Exec W Unit
  unfolding c_call
  distinct pq value = c_call errors (api.distinct pq value)

  unfoldable pub distinct_string : Option ℕ → Bool → Bool → Exec W Unit
  unfolding c_call
  distinct_string pq value case_sensitive =
      c_call errors (api.distinct_case pq value case_sensitive)

  -- The aggregates
  unfoldable pub count : Option ℕ → Exec W ℕ
  unfolding c_result
  count pq = c_result errors (api.count pq)

  unfoldable pub average : Option ℕ → Exec W ℕ
  unfolding c_result
  average pq = c_result errors (api.avg pq)

  unfoldable pub min_float64 : Option ℕ → Exec W ℕ
  unfolding c_result
  min_float64 pq = c_result errors (api.min pq)

  unfoldable pub max_float64 : Option ℕ → Exec W ℕ
  unfolding c_result
  max_float64 pq = c_result errors (api.max pq)

  unfoldable pub sum_float64 : Option ℕ → Exec W ℕ
  unfolding c_result
  sum_float64 pq = c_result errors (api.sum pq)

  unfoldable pub min : Option ℕ → Exec W ℤ
  unfolding c_result
  min pq = c_result errors (api.min_int pq)

  unfoldable pub max : Option ℕ → Exec W ℤ
  unfolding c_result
  max pq = c_result errors (api.max_int pq)

  unfoldable pub sum : Option ℕ → Exec W ℤ
  unfolding c_result
  sum pq = c_result errors (api.sum_int pq)

  -- FindInts and its kind
  unfoldable pub find_ints : Option ℕ → Option ℤ → Exec W (List ℤ)
  unfolding c_get_ints
  find_ints pq value_if_nil = c_get_ints arrays (api.find_int64s pq value_if_nil)

  unfoldable pub find_uints : Option ℕ → Option ℕ → Exec W (List ℕ)
  unfolding c_get_uints to_int64
  find_uints pq value_if_nil =
      c_get_uints arrays (api.find_int64s pq (converted to_int64 value_if_nil))

  unfoldable pub find_int64s : Option ℕ → Option ℤ → Exec W (List ℤ)
  unfolding c_get_int64s
  find_int64s pq value_if_nil = c_get_int64s arrays (api.find_int64s pq value_if_nil)

  unfoldable pub find_uint64s : Option ℕ → Option ℕ → Exec W (List ℕ)
  unfolding c_get_uint64s to_int64
  find_uint64s pq value_if_nil =
      c_get_uint64s arrays (api.find_int64s pq (converted to_int64 value_if_nil))

  unfoldable pub find_int32s : Option ℕ → Option ℤ → Exec W (List ℤ)
  unfolding c_get_int32s
  find_int32s pq value_if_nil = c_get_int32s arrays (api.find_int32s pq value_if_nil)

  unfoldable pub find_uint32s : Option ℕ → Option ℕ → Exec W (List ℕ)
  unfolding c_get_uint32s to_int32
  find_uint32s pq value_if_nil =
      c_get_uint32s arrays (api.find_int32s pq (converted to_int32 value_if_nil))

  unfoldable pub find_int16s : Option ℕ → Option ℤ → Exec W (List ℤ)
  unfolding c_get_int16s
  find_int16s pq value_if_nil = c_get_int16s arrays (api.find_int16s pq value_if_nil)

  unfoldable pub find_uint16s : Option ℕ → Option ℕ → Exec W (List ℕ)
  unfolding c_get_uint16s to_int16
  find_uint16s pq value_if_nil =
      c_get_uint16s arrays (api.find_int16s pq (converted to_int16 value_if_nil))

  unfoldable pub find_int8s : Option ℕ → Option ℤ → Exec W (List ℤ)
  unfolding c_get_int8s
  find_int8s pq value_if_nil = c_get_int8s arrays (api.find_int8s pq value_if_nil)

  unfoldable pub find_uint8s : Option ℕ → Option ℕ → Exec W (List ℕ)
  unfolding c_get_uint8s to_int8
  find_uint8s pq value_if_nil =
      c_get_uint8s arrays (api.find_int8s pq (converted to_int8 value_if_nil))

  unfoldable pub find_bools : Option ℕ → Option Bool → Exec W (List Bool)
  unfolding c_get_bools bool_to_int8
  find_bools pq value_if_nil =
      c_get_bools arrays (api.find_int8s pq (converted bool_to_int8 value_if_nil))

  unfoldable pub find_float64s : Option ℕ → Option ℕ → Exec W (List ℕ)
  unfolding c_get_float64s
  find_float64s pq value_if_nil = c_get_float64s arrays (api.find_doubles pq value_if_nil)

  unfoldable pub find_float32s : Option ℕ → Option ℕ → Exec W (List ℕ)
  unfolding c_get_float32s
  find_float32s pq value_if_nil = c_get_float32s arrays (api.find_floats pq value_if_nil)

  unfoldable pub find_strings : Option ℕ → Option T → Exec W (List T)
  unfolding c_get_strings
  find_strings pq value_if_nil = c_get_strings arrays (api.find_strings pq value_if_nil)
