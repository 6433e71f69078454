-- ===== src/Native/Getters.antt =====
-- objectbox/c-tools.go: the functions that convert an array of the C library and free it.
use objectbox_go.Base.{ℕ, Bool, List, Option, Exec}
use objectbox_go.Base.Int.{ℤ}
use objectbox_go.Native.{Errors, c_get}
use objectbox_go.Native.Arrays.{
  Memory, CArray, strings_to_go, bytes_array_to_go, ids_to_go, ints_to_go, uints_to_go,
  int64s_to_go, uint64s_to_go, int32s_to_go, uint32s_to_go, int16s_to_go, uint16s_to_go,
  int8s_to_go, uint8s_to_go, bools_to_go, float64s_to_go, float32s_to_go,
}

-- The memory, the array that a handle stands for, and the functions obx_*_array_free. `T` is the type
-- of texts.
pub record ArrayApi (W T : Type 0) : Type 0 where
  pub errors : Errors W
  pub memory : W → Memory
  pub array : ℕ → W → CArray
  pub text : W → ℕ → T
  pub id_array_free : ℕ → W → W
  pub bytes_array_free : ℕ → W → W
  pub string_array_free : ℕ → W → W
  pub int64_array_free : ℕ → W → W
  pub int32_array_free : ℕ → W → W
  pub int16_array_free : ℕ → W → W
  pub int8_array_free : ℕ → W → W
  pub double_array_free : ℕ → W → W
  pub float_array_free : ℕ → W → W

module _ {W T : Type 0} (api : ArrayApi W T) where
  open api use {errors}

  -- cGetIds
  unfoldable pub c_get_ids : (W → Option ℕ × W) → Exec W (List ℕ)
  unfolding c_get ids_to_go
  c_get_ids =
      c_get errors (λ handle w. ids_to_go (api.memory w) (api.array handle w)) api.id_array_free

  -- cGetInts
  unfoldable pub c_get_ints : (W → Option ℕ × W) → Exec W (List ℤ)
  unfolding c_get ints_to_go
  c_get_ints =
      c_get errors (λ handle w. ints_to_go (api.memory w) (api.array handle w)) api.int64_array_free

  -- cGetUints
  unfoldable pub c_get_uints : (W → Option ℕ × W) → Exec W (List ℕ)
  unfolding c_get uints_to_go
  c_get_uints =
      c_get errors (λ handle w. uints_to_go (api.memory w) (api.array handle w))
        api.int64_array_free

  -- cGetInt64s
  unfoldable pub c_get_int64s : (W → Option ℕ × W) → Exec W (List ℤ)
  unfolding c_get int64s_to_go
  c_get_int64s =
      c_get errors (λ handle w. int64s_to_go (api.memory w) (api.array handle w))
        api.int64_array_free

  -- cGetUint64s
  unfoldable pub c_get_uint64s : (W → Option ℕ × W) → Exec W (List ℕ)
  unfolding c_get uint64s_to_go
  c_get_uint64s =
      c_get errors (λ handle w. uint64s_to_go (api.memory w) (api.array handle w))
        api.int64_array_free

  -- cGetInt32s
  unfoldable pub c_get_int32s : (W → Option ℕ × W) → Exec W (List ℤ)
  unfolding c_get int32s_to_go
  c_get_int32s =
      c_get errors (λ handle w. int32s_to_go (api.memory w) (api.array handle w))
        api.int32_array_free

  -- cGetUint32s
  unfoldable pub c_get_uint32s : (W → Option ℕ × W) → Exec W (List ℕ)
  unfolding c_get uint32s_to_go
  c_get_uint32s =
      c_get errors (λ handle w. uint32s_to_go (api.memory w) (api.array handle w))
        api.int32_array_free

  -- cGetInt16s
  unfoldable pub c_get_int16s : (W → Option ℕ × W) → Exec W (List ℤ)
  unfolding c_get int16s_to_go
  c_get_int16s =
      c_get errors (λ handle w. int16s_to_go (api.memory w) (api.array handle w))
        api.int16_array_free

  -- cGetUint16s
  unfoldable pub c_get_uint16s : (W → Option ℕ × W) → Exec W (List ℕ)
  unfolding c_get uint16s_to_go
  c_get_uint16s =
      c_get errors (λ handle w. uint16s_to_go (api.memory w) (api.array handle w))
        api.int16_array_free

  -- cGetInt8s
  unfoldable pub c_get_int8s : (W → Option ℕ × W) → Exec W (List ℤ)
  unfolding c_get int8s_to_go
  c_get_int8s =
      c_get errors (λ handle w. int8s_to_go (api.memory w) (api.array handle w)) api.int8_array_free

  -- cGetUint8s
  unfoldable pub c_get_uint8s : (W → Option ℕ × W) → Exec W (List ℕ)
  unfolding c_get uint8s_to_go
  c_get_uint8s =
      c_get errors (λ handle w. uint8s_to_go (api.memory w) (api.array handle w))
        api.int8_array_free

  -- cGetBools
  unfoldable pub c_get_bools : (W → Option ℕ × W) → Exec W (List Bool)
  unfolding c_get bools_to_go
  c_get_bools =
      c_get errors (λ handle w. bools_to_go (api.memory w) (api.array handle w)) api.int8_array_free

  -- cGetFloat64s
  unfoldable pub c_get_float64s : (W → Option ℕ × W) → Exec W (List ℕ)
  unfolding c_get float64s_to_go
  c_get_float64s =
      c_get errors (λ handle w. float64s_to_go (api.memory w) (api.array handle w))
        api.double_array_free

  -- cGetFloat32s
  unfoldable pub c_get_float32s : (W → Option ℕ × W) → Exec W (List ℕ)
  unfolding c_get float32s_to_go
  c_get_float32s =
      c_get errors (λ handle w. float32s_to_go (api.memory w) (api.array handle w))
        api.float_array_free

  -- cGetBytesArray
  unfoldable pub c_get_bytes_array : (W → Option ℕ × W) → Exec W (List (Option (List ℕ)))
  unfolding c_get bytes_array_to_go
  c_get_bytes_array =
      c_get errors (λ handle w. bytes_array_to_go (api.memory w) (api.array handle w))
        api.bytes_array_free

  -- cGetStrings
  unfoldable pub c_get_strings : (W → Option ℕ × W) → Exec W (List T)
  unfolding c_get strings_to_go
  c_get_strings =
      c_get errors (λ handle w. strings_to_go (api.text w) (api.memory w) (api.array handle w))
        api.string_array_free
