-- ===== src/Tasks/Lines.antt =====
-- The lines that the shell of examples/tasks/main.go reads.
use objectbox_go.Base.{
  ℕ, ◌≤◌, ◌==◌, ◌≡◌, refl, ap, arith, Bool, true, false, List, [], ◌∷◌, ◌++◌, length, if◌then◌else◌,
  Bool-cases, inl, inr,
}
use objectbox_go.Tasks.Texts.{newline, read_string, trim_space, fields, to_lower, same_text}

-- A line that tells the shell to end: its first word is exit, in letters of any case.
unfoldable pub exit_word : List (List ℕ) → Bool
exit_word [] = false
exit_word (name ∷ args) = same_text (to_lower name) (b'e' ∷ b'x' ∷ b'i' ∷ b't' ∷ [])

unfoldable pub is_exit : List ℕ → Bool
unfolding exit_word
is_exit line = exit_word (fields (trim_space line))

-- The lines of an input, each with its end, and what stands behind the last one.
unfoldable pub onto : ℕ → List (List ℕ) → List (List ℕ)
onto c [] = (c ∷ []) ∷ []
onto c (line ∷ lines) = (c ∷ line) ∷ lines

unfoldable pub split_lines : List ℕ → List (List ℕ)
unfolding onto
split_lines [] = [] ∷ []
split_lines (c ∷ input) =
    let rest = split_lines input in if c == newline then (c ∷ []) ∷ rest else onto c rest

-- A line with its end, and nothing behind it.
unfoldable pub is_line : List ℕ → Bool
is_line [] = false
is_line (c ∷ line) = if c == newline then length line == 0 else is_line line

abbrev pub NoneExits : List (List ℕ) → Type 0
NoneExits [] = Unit
NoneExits (line ∷ lines) = (is_exit line ≡ false) × NoneExits lines

-- ReadString takes the first line.
pub read_string-split :
    (input : List ℕ)
    → split_lines input ≡ (
        let (line, ended, rest) = read_string input in
        line ∷ (if ended then [] else split_lines rest))
unfolding split_lines read_string
read_string-split [] = refl
read_string-split (c ∷ input) = elim (Bool-cases (c == newline)) [
  | inl e ↦ rw e refl
  | inr e ↦ rw e (ap (onto c) (read_string-split input))
]

read_string-shorter : (input : List ℕ) → length (read_string input).2 ≤ length input
unfolding read_string
read_string-shorter [] = omega arith
read_string-shorter (c ∷ input) = elim (Bool-cases (c == newline)) [
  | inl e ↦ rw e (omega arith)
  | inr e ↦ rw e (omega (arith, read_string-shorter input))
]

pub read_string-length :
    (c : ℕ) (input : List ℕ) → length (read_string (c ∷ input)).2 ≤ length input
unfolding read_string
read_string-length c input = elim (Bool-cases (c == newline)) [
  | inl e ↦ rw e (omega arith)
  | inr e ↦ rw e (read_string-shorter input)
]

end_of_line :
    (c : ℕ) (line rest : List ℕ)
    → (c == newline) ≡ true
    → (length line == 0) ≡ true
    → read_string ((c ∷ line) ++ rest) ≡ (c ∷ line, false, rest)
unfolding read_string
end_of_line c [] rest e h = rw e refl
end_of_line c (d ∷ line) rest e h = absurd (ground arith)

pub read_string-line :
    (line rest : List ℕ) → is_line line ≡ true → read_string (line ++ rest) ≡ (line, false, rest)
unfolding read_string is_line
read_string-line [] rest = λ h. cc
read_string-line (c ∷ line) rest = elim (Bool-cases (c == newline)) [
  | inl e ↦ λ h. end_of_line c line rest e (ground (arith, h, e))
  | inr e ↦ rw e (λ h. ap (λ r. (c ∷ r.0, r.1, r.2)) (read_string-line line rest h))
]

-- After the end of the input nothing is left.
pub read_string-ended : (input : List ℕ) → (read_string input).1 ≡ true → (read_string input).2 ≡ []
unfolding read_string
read_string-ended [] = λ h. refl
read_string-ended (c ∷ input) = elim (Bool-cases (c == newline)) [
  | inl e ↦ rw e (λ h. cc)
  | inr e ↦ rw e (read_string-ended input)
]

pub line_length : (line : List ℕ) → is_line line ≡ true → 1 ≤ length line
unfolding is_line
line_length [] h = absurd (ground arith)
line_length (c ∷ line) h = omega arith
