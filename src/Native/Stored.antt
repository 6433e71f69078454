-- ===== src/Native/Stored.antt =====
-- Arrays that the C library has written into the memory, and what objectbox/c-arrays.go reads there.
use objectbox_go.Base.{
  ℕ, zero, suc, ◌+◌, ◌*◌, ◌/◌, ◌%◌, ◌==◌, ◌≡◌, refl, ap, ◌∙◌, subst, List, [], ◌∷◌, length, map,
  arith,
}
use objectbox_go.Native.Words.{to_int64, to_int32, to_int16, to_int8}
use objectbox_go.Native.Arrays.{
  Memory, CArray, read_word, read_items, array_to_go, ids_to_go, ints_to_go, uints_to_go,
  int64s_to_go, uint64s_to_go, int32s_to_go, uint32s_to_go, int16s_to_go, uint16s_to_go,
  int8s_to_go, uint8s_to_go, bools_to_go, float64s_to_go, float32s_to_go, strings_to_go,
}

-- The bytes from an address on are those of a number, the lowest first.
abbrev pub Holds : ℕ → Memory → ℕ → ℕ → Type 0
Holds zero memory address value = value ≡ 0
Holds (suc width) memory address value =
    (memory address ≡ value % 256) × Holds width memory (suc address) (value / 256)

-- Numbers of `width` bytes stand one behind the other.
abbrev pub HoldsAll : ℕ → Memory → ℕ → List ℕ → Type 0
HoldsAll width memory address [] = Unit
HoldsAll width memory address (value ∷ values) =
    Holds width memory address value × HoldsAll width memory (address + width) values

abbrev pub Stored : ℕ → Memory → CArray → List ℕ → Type 0
Stored width memory array values =
    (array.count ≡ length values) × HoldsAll width memory array.start values

map-read_items {ℓ} :
    {A : Type ℓ} (convert : ℕ → A) (read : ℕ → ℕ) (start size i n : ℕ)
    → read_items (λ address. convert (read address)) start size i n
      ≡ map convert (read_items read start size i n)
unfolding read_items
map-read_items convert read start size i zero = refl
map-read_items convert read start size i (suc n) =
    ap (λ l. convert (read (start + i * size)) ∷ l)
      (map-read_items convert read start size (suc i) n)

read_word-Holds :
    (width : ℕ) (m : Memory) (address value : ℕ)
    → Holds width m address value
    → read_word width m address ≡ value
unfolding read_word
read_word-Holds zero m address value h = omega (arith, h)
read_word-Holds (suc width) m address value (h, rest) =
    omega (arith, h, read_word-Holds width m (suc address) (value / 256) rest)

read_items-HoldsAll :
    (width : ℕ) (m : Memory) (start i : ℕ) (values : List ℕ)
    → HoldsAll width m (start + i * width) values
    → read_items (read_word width m) start width i (length values) ≡ values
unfolding read_items
read_items-HoldsAll width m start i [] h = refl
read_items-HoldsAll width m start i (value ∷ values) (h, rest) =
    let next : start + i * width + width ≡ start + suc i * width = grind arith in
    let later : HoldsAll width m (start + suc i * width) values =
      subst (λ a. HoldsAll width m a values) next rest in
    rw
      (
        read_word-Holds width m (start + i * width) value h,
        read_items-HoldsAll width m start (suc i) values later,
      )
      refl

-- Items that stay as they are.
array_to_go-words :
    (width : ℕ) (m : Memory) (array : CArray) (values : List ℕ)
    → Stored width m array values
    → array_to_go (read_word width m) width array ≡ values
unfolding array_to_go
array_to_go-words width m array values (counted, h) =
    ap (read_items (read_word width m) array.start width 0) counted
    ∙ read_items-HoldsAll width m array.start 0 values
        (subst (λ a. HoldsAll width m a values) (omega arith) h)

array_to_go-Stored {ℓ} :
    {A : Type ℓ} (convert : ℕ → A) (width : ℕ) (m : Memory) (array : CArray) (values : List ℕ)
    → Stored width m array values
    → array_to_go (λ address. convert (read_word width m address)) width array ≡ map convert values
unfolding array_to_go
array_to_go-Stored convert width m array values (counted, h) =
    map-read_items convert (read_word width m) array.start width 0 array.count
    ∙ ap (map convert) (array_to_go-words width m array values (counted, h))

pub uint64s_to_go-Stored :
    (m : Memory) (array : CArray) (values : List ℕ)
    → Stored 8 m array values
    → uint64s_to_go m array ≡ values
unfolding uint64s_to_go
uint64s_to_go-Stored m array values h = array_to_go-words 8 m array values h

pub int64s_to_go-Stored :
    (m : Memory) (array : CArray) (values : List ℕ)
    → Stored 8 m array values
    → int64s_to_go m array ≡ map to_int64 values
unfolding int64s_to_go
int64s_to_go-Stored m array values h = array_to_go-Stored to_int64 8 m array values h

-- The Go slices of C arrays hold what the C library wrote, whatever else is in the memory: items of
-- eight bytes as identifiers, uint, uint64 and float64 (bit patterns), as int and int64 in two's
-- complement, and as the texts at these addresses; items of four bytes as uint32, float32 (bit
-- patterns) and int32; of two as uint16 and int16; of one as uint8, int8 and as a bool that is true
-- for 1 alone.
pub arrays_read {ℓ} :
    {A : Type ℓ} (text : ℕ → A) (m : Memory) (a8 a4 a2 a1 : CArray) (l8 l4 l2 l1 : List ℕ)
    → Stored 8 m a8 l8
    → Stored 4 m a4 l4
    → Stored 2 m a2 l2
    → Stored 1 m a1 l1
    → ((ids_to_go m a8 ≡ l8)
        × (uints_to_go m a8 ≡ l8)
        × (uint64s_to_go m a8 ≡ l8)
        × (float64s_to_go m a8 ≡ l8)
        × (ints_to_go m a8 ≡ map to_int64 l8)
        × (int64s_to_go m a8 ≡ map to_int64 l8)
        × (strings_to_go text m a8 ≡ map text l8))
      × ((uint32s_to_go m a4 ≡ l4)
          × (float32s_to_go m a4 ≡ l4)
          × (int32s_to_go m a4 ≡ map to_int32 l4))
      × ((uint16s_to_go m a2 ≡ l2) × (int16s_to_go m a2 ≡ map to_int16 l2))
      × ((uint8s_to_go m a1 ≡ l1)
          × (int8s_to_go m a1 ≡ map to_int8 l1)
          × (bools_to_go m a1 ≡ map (λ v. 1 == v) l1))
unfolding ids_to_go uints_to_go uint64s_to_go float64s_to_go ints_to_go int64s_to_go strings_to_go
    uint32s_to_go float32s_to_go int32s_to_go uint16s_to_go int16s_to_go uint8s_to_go int8s_to_go
    bools_to_go
arrays_read text m a8 a4 a2 a1 l8 l4 l2 l1 h8 h4 h2 h1 =
    let eight = array_to_go-words 8 m a8 l8 h8 in
    let four = array_to_go-words 4 m a4 l4 h4 in
    let one = array_to_go-words 1 m a1 l1 h1 in
    (
      (
        eight,
        eight,
        eight,
        eight,
        array_to_go-Stored to_int64 8 m a8 l8 h8,
        array_to_go-Stored to_int64 8 m a8 l8 h8,
        array_to_go-Stored text 8 m a8 l8 h8,
      ),
      (four, four, array_to_go-Stored to_int32 4 m a4 l4 h4),
      (array_to_go-words 2 m a2 l2 h2, array_to_go-Stored to_int16 2 m a2 l2 h2),
      (one, array_to_go-Stored to_int8 1 m a1 l1 h1, array_to_go-Stored (λ v. 1 == v) 1 m a1 l1 h1),
    )
