-- ===== src/Native/Examples.antt =====
-- Arrays of C with two items, or with one.
use objectbox_go.Base.{ℕ, suc, ltb, if◌then◌else◌, true, false, ◌≡◌, refl, List, [], ◌∷◌}
use objectbox_go.Base.Int.{pos, negsuc}
use objectbox_go.Native.Words.{to_int64, to_int32, to_int16, to_int8}
use objectbox_go.Native.Arrays.{
  Memory, CArray, ids_to_go, ints_to_go, uints_to_go, int64s_to_go, uint64s_to_go, int32s_to_go,
  uint32s_to_go, int16s_to_go, uint16s_to_go, int8s_to_go, uint8s_to_go, bools_to_go,
  float64s_to_go, float32s_to_go, strings_to_go,
}
use objectbox_go.Native.Stored.{arrays_read}

-- Two bytes 255 and then bytes 1.
abbrev memory : Memory
memory address = if ltb address 3 then 255 else 1

abbrev array : ℕ → CArray
array n = record { start = 1; count = n }

read : int16s_to_go memory (array 2) ≡ negsuc 0 ∷ pos 257 ∷ []
unfolding int16s_to_go
read = refl

-- One number of eight bytes, two of four and of two, and three of one.
abbrev eights : List ℕ
eights = 72340172838141951 ∷ []

abbrev fours : List ℕ
fours = 16908287 ∷ 16843009 ∷ []

abbrev twos : List ℕ
twos = 65535 ∷ 257 ∷ []

abbrev ones : List ℕ
ones = 255 ∷ 255 ∷ 1 ∷ []

arrays_read_example :
    ((ids_to_go memory (array 1) ≡ eights)
      × (uints_to_go memory (array 1) ≡ eights)
      × (uint64s_to_go memory (array 1) ≡ eights)
      × (float64s_to_go memory (array 1) ≡ eights)
      × (ints_to_go memory (array 1) ≡ pos 72340172838141951 ∷ [])
      × (int64s_to_go memory (array 1) ≡ pos 72340172838141951 ∷ [])
      × (strings_to_go suc memory (array 1) ≡ 72340172838141952 ∷ []))
    × ((uint32s_to_go memory (array 2) ≡ fours)
        × (float32s_to_go memory (array 2) ≡ fours)
        × (int32s_to_go memory (array 2) ≡ pos 16908287 ∷ pos 16843009 ∷ []))
    × ((uint16s_to_go memory (array 2) ≡ twos)
        × (int16s_to_go memory (array 2) ≡ negsuc 0 ∷ pos 257 ∷ []))
    × ((uint8s_to_go memory (array 3) ≡ ones)
        × (int8s_to_go memory (array 3) ≡ negsuc 0 ∷ negsuc 0 ∷ pos 1 ∷ [])
        × (bools_to_go memory (array 3) ≡ false ∷ false ∷ true ∷ []))
unfolding to_int64 to_int32 to_int16 to_int8
arrays_read_example =
    arrays_read suc memory (array 1) (array 2) (array 2) (array 3) eights fours twos ones
      (refl, ((refl, (refl, (refl, (refl, (refl, (refl, (refl, (refl, refl)))))))), tt))
      (refl, ((refl, (refl, (refl, (refl, refl)))), ((refl, (refl, (refl, (refl, refl)))), tt)))
      (refl, ((refl, (refl, refl)), ((refl, (refl, refl)), tt)))
      (refl, ((refl, refl), ((refl, refl), ((refl, refl), tt))))
