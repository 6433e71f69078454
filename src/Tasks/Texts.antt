-- ===== src/Tasks/Texts.antt =====
-- What examples/tasks/main.go uses of the packages bufio and strings: reading a line, TrimSpace, Fields,
-- Join and ToLower. A text is its bytes, in UTF-8.
use objectbox_go.Base.{
  ℕ, zero, suc, ◌+◌, ◌-◌, ◌==◌, leb, Bool, true, false, ◌&&◌, ◌||◌, List, [], ◌∷◌, ◌++◌,
  if◌then◌else◌,
}

abbrev pub newline : ℕ
newline = 10

-- ReadString('\n'): the line with its end, whether the input has ended in it, and what is left.
unfoldable pub read_string : List ℕ → List ℕ × Bool × List ℕ
read_string [] = ([], true, [])
read_string (c ∷ input) =
    let (line, ended, rest) = read_string input in
    if c == newline then (c ∷ [], false, input) else (c ∷ line, ended, rest)

abbrev pub between : ℕ → ℕ → ℕ → Bool
between low c high = leb low c && leb c high

-- The number of bytes of the white space that a text begins with, as unicode.IsSpace tells it: the
-- ASCII ones, U+0085, U+00A0, U+1680, U+2000 to U+200A, U+2028, U+2029, U+202F, U+205F and U+3000.
-- The first byte of a character is never the inner byte of another, so that bytes can be compared.
space_of_two : ℕ → ℕ → Bool
space_of_two a b = a == 0xC2 && (b == 0x85 || b == 0xA0)

space_of_three : ℕ → ℕ → ℕ → Bool
space_of_three a b c =
    a == 0xE1 && b == 0x9A && c == 0x80
    || a == 0xE2 && b == 0x80 && (between 0x80 c 0x8A || c == 0xA8 || c == 0xA9 || c == 0xAF)
    || a == 0xE2 && b == 0x81 && c == 0x9F
    || a == 0xE3 && b == 0x80 && c == 0x80

unfoldable pub space : List ℕ → ℕ
unfolding space_of_two space_of_three
space [] = 0
space (a ∷ []) = if between 9 a 13 || a == 32 then 1 else 0
space (a ∷ b ∷ []) = if between 9 a 13 || a == 32 then 1 else if space_of_two a b then 2 else 0
space (a ∷ b ∷ c ∷ text) =
    if between 9 a 13 || a == 32
    then 1
    else if space_of_two a b
    then 2
    else if space_of_three a b c
    then 3
    else 0

-- The word that a byte ends or goes on with, by the width of the white space that it begins.
next_word : ℕ → List ℕ → ℕ → List ℕ
next_word zero word c = word ++ (c ∷ [])
next_word (suc n) word c = []

add_word : List ℕ → List (List ℕ) → List (List ℕ)
add_word [] words = words
add_word (c ∷ word) words = (c ∷ word) ∷ words

ended_word : ℕ → List ℕ → List (List ℕ) → List (List ℕ)
unfolding add_word
ended_word zero word words = words
ended_word (suc n) word words = add_word word words

-- The words of a text after `word` was read, once the bytes of a white space are passed over.
fields_from : ℕ → List ℕ → List ℕ → List (List ℕ)
unfolding space next_word add_word ended_word
fields_from skip word [] = add_word word []
fields_from zero word (c ∷ text) =
    let n = space (c ∷ text) in ended_word n word (fields_from (n - 1) (next_word n word c) text)
fields_from (suc skip) word (c ∷ text) = fields_from skip word text

unfoldable pub fields : List ℕ → List (List ℕ)
unfolding fields_from
fields text = fields_from 0 [] text

trim_left : ℕ → List ℕ → List ℕ
unfolding space
trim_left skip [] = []
trim_left (suc skip) (c ∷ text) = trim_left skip text
trim_left zero (c ∷ text) =
    let n = space (c ∷ text) in
    let rest = trim_left (n - 1) text in if n == 0 then c ∷ text else rest

-- A text of which nothing but white space is left is cut off.
trim_right : List ℕ → List ℕ
unfolding trim_left
trim_right [] = []
trim_right (c ∷ text) =
    let rest = trim_right text in elim (trim_left 0 (c ∷ text)) [ [] ↦ [] | d ∷ left ↦ c ∷ rest ]

-- TrimSpace
unfoldable pub trim_space : List ℕ → List ℕ
unfolding trim_left trim_right
trim_space text = trim_right (trim_left 0 text)

-- Join with a blank
unfoldable pub join_blank : List (List ℕ) → List ℕ
join_blank [] = []
join_blank (word ∷ []) = word
join_blank (word ∷ next ∷ words) = word ++ (32 ∷ join_blank (next ∷ words))

-- ToLower as far as it makes letters of ASCII: of those, of U+0130 and of the Kelvin sign. Every other
-- character becomes one that is not of ASCII, or stays, and is left as it is here.
lower_ascii : ℕ → ℕ
lower_ascii a = if between 65 a 90 then a + 32 else a

-- The first byte in lower case, with the number of bytes after it that belong to the same letter.
lower_first : List ℕ → ℕ × ℕ
unfolding lower_ascii
lower_first [] = (0, 0)
lower_first (a ∷ []) = (lower_ascii a, 0)
lower_first (a ∷ b ∷ []) = if a == 0xC4 && b == 0xB0 then (b'i', 1) else (lower_ascii a, 0)
lower_first (a ∷ b ∷ c ∷ text) =
    if a == 0xC4 && b == 0xB0
    then (b'i', 1)
    else if a == 0xE2 && b == 0x84 && c == 0xAA
    then (b'k', 2)
    else (lower_ascii a, 0)

lower_from : ℕ → List ℕ → List ℕ
unfolding lower_first
lower_from skip [] = []
lower_from (suc skip) (c ∷ text) = lower_from skip text
lower_from zero (c ∷ text) = let (d, n) = lower_first (c ∷ text) in d ∷ lower_from n text

unfoldable pub to_lower : List ℕ → List ℕ
unfolding lower_from
to_lower text = lower_from 0 text

unfoldable pub same_text : List ℕ → List ℕ → Bool
same_text [] [] = true
same_text (a ∷ s) (b ∷ t) = a == b && same_text s t
same_text _ _ = false
