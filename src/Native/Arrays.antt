-- ===== src/Native/Arrays.antt =====
-- objectbox/c-arrays.go: the arrays of the C library as Go slices, and Go slices as arguments of the C
-- library. The memory is a function from addresses to bytes; numbers stand in it with their lowest
-- byte first, and a floating-point number is its bit pattern.
use objectbox_go.Base.{ℕ, zero, suc, ◌+◌, ◌*◌, ◌==◌, Bool, List, [], ◌∷◌, Option, none, some}
use objectbox_go.Base.Int.{ℤ}
use objectbox_go.Native.Words.{to_int64, to_int32, to_int16, to_int8}

abbrev pub Memory : Type 0
Memory = ℕ → ℕ

-- The address of the first item, and the number of items.
pub record CArray : Type 0 where
  pub start : ℕ
  pub count : ℕ

-- The number in `width` bytes.
unfoldable pub read_word : ℕ → Memory → ℕ → ℕ
read_word zero memory address = 0
read_word (suc width) memory address = memory address + 256 * read_word width memory (suc address)

-- The loop over the items of `size` bytes from the i-th on.
unfoldable pub read_items {ℓ} : {A : Type ℓ} → (ℕ → A) → ℕ → ℕ → ℕ → ℕ → List A
read_items read start size i zero = []
read_items read start size i (suc n) =
    read (start + i * size) ∷ read_items read start size (suc i) n

unfoldable pub array_to_go {ℓ} : {A : Type ℓ} → (ℕ → A) → ℕ → CArray → List A
unfolding read_items
array_to_go read size array = read_items read array.start size 0 array.count

-- cIdsArrayToGo
unfoldable pub ids_to_go : Memory → CArray → List ℕ
unfolding array_to_go read_word
ids_to_go memory = array_to_go (λ address. read_word 8 memory address) 8

-- cIntsArrayToGo
unfoldable pub ints_to_go : Memory → CArray → List ℤ
unfolding array_to_go read_word to_int64
ints_to_go memory = array_to_go (λ address. to_int64 (read_word 8 memory address)) 8

-- cUintsArrayToGo
unfoldable pub uints_to_go : Memory → CArray → List ℕ
unfolding array_to_go read_word
uints_to_go memory = array_to_go (λ address. read_word 8 memory address) 8

-- cInt64sArrayToGo
unfoldable pub int64s_to_go : Memory → CArray → List ℤ
unfolding array_to_go read_word to_int64
int64s_to_go memory = array_to_go (λ address. to_int64 (read_word 8 memory address)) 8

-- cUint64sArrayToGo
unfoldable pub uint64s_to_go : Memory → CArray → List ℕ
unfolding array_to_go read_word
uint64s_to_go memory = array_to_go (λ address. read_word 8 memory address) 8

-- cInt32sArrayToGo
unfoldable pub int32s_to_go : Memory → CArray → List ℤ
unfolding array_to_go read_word to_int32
int32s_to_go memory = array_to_go (λ address. to_int32 (read_word 4 memory address)) 4

-- cUint32sArrayToGo
unfoldable pub uint32s_to_go : Memory → CArray → List ℕ
unfolding array_to_go read_word
uint32s_to_go memory = array_to_go (λ address. read_word 4 memory address) 4

-- cInt16sArrayToGo
unfoldable pub int16s_to_go : Memory → CArray → List ℤ
unfolding array_to_go read_word to_int16
int16s_to_go memory = array_to_go (λ address. to_int16 (read_word 2 memory address)) 2

-- cUint16sArrayToGo
unfoldable pub uint16s_to_go : Memory → CArray → List ℕ
unfolding array_to_go read_word
uint16s_to_go memory = array_to_go (λ address. read_word 2 memory address) 2

-- cInt8sArrayToGo
unfoldable pub int8s_to_go : Memory → CArray → List ℤ
unfolding array_to_go read_word to_int8
int8s_to_go memory = array_to_go (λ address. to_int8 (read_word 1 memory address)) 1

-- cUint8sArrayToGo
unfoldable pub uint8s_to_go : Memory → CArray → List ℕ
unfolding array_to_go read_word
uint8s_to_go memory = array_to_go (λ address. read_word 1 memory address) 1

-- cBoolsArrayToGo
unfoldable pub bools_to_go : Memory → CArray → List Bool
unfolding array_to_go read_word
bools_to_go memory = array_to_go (λ address. 1 == read_word 1 memory address) 1

-- cFloat64sArrayToGo
unfoldable pub float64s_to_go : Memory → CArray → List ℕ
unfolding array_to_go read_word
float64s_to_go memory = array_to_go (λ address. read_word 8 memory address) 8

-- cFloat32sArrayToGo
unfoldable pub float32s_to_go : Memory → CArray → List ℕ
unfolding array_to_go read_word
float32s_to_go memory = array_to_go (λ address. read_word 4 memory address) 4

-- cVoidPtrToByteSlice: the bytes at an address; a slice at address 0 is nil.
unfoldable pub bytes_at : Memory → ℕ → ℕ → List ℕ
bytes_at memory address zero = []
bytes_at memory address (suc size) = memory address ∷ bytes_at memory (suc address) size

unfoldable pub byte_slice : Memory → ℕ → ℕ → Option (List ℕ)
unfolding bytes_at
byte_slice memory zero size = none
byte_slice memory (suc address) size = some (bytes_at memory (suc address) size)

-- cBytesArrayToGo: each item is the address of its bytes and their number.
unfoldable pub bytes_array_to_go : Memory → CArray → List (Option (List ℕ))
unfolding array_to_go read_word byte_slice
bytes_array_to_go memory =
    array_to_go
      (λ address. byte_slice memory (read_word 8 memory address) (read_word 8 memory (address + 8)))
      16

-- cStringsArrayToGo: each item is the address of a text; `text` is C.GoString.
unfoldable pub strings_to_go {ℓ} : {A : Type ℓ} → (ℕ → A) → Memory → CArray → List A
unfolding array_to_go read_word
strings_to_go text memory = array_to_go (λ address. text (read_word 8 memory address)) 8
