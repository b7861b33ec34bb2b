-- ===== src/Errors/Positions.antt =====
-- Where an error of PostgreSQL is in a text (internal/db/error_line_extract.go). A byte is a number; the
-- position is not negative.
pub mod Located
use provisioning_backend.Common.{
  ℕ, ◌+◌, ◌-◌, Bool, true, false, Option, none, some, List, [], ◌∷◌, length, leb, ltb, ◌==◌,
  if◌then◌else◌,
}
use provisioning_backend.Errors.{Error, opaque, wrapped}

abbrev pub newline : ℕ
newline = 10

-- ErrorLineExtract
pub record Extract : Type 0 where
  pub line_num : ℕ
  pub column_num : ℕ
  pub text : List ℕ

abbrev pub push_front : ℕ → List (List ℕ) → List (List ℕ)
push_front c [] = (c ∷ []) ∷ []
push_front c (line ∷ lines) = (c ∷ line) ∷ lines

-- strings.SplitAfter(source, "\n")
unfoldable pub split_after : List ℕ → List (List ℕ)
split_after [] = [] ∷ []
split_after (c ∷ s) =
    let rest = split_after s in if c == newline then (c ∷ []) ∷ rest else push_front c rest

-- strings.TrimSuffix(text, "\n")
unfoldable pub trim_newline : List ℕ → List ℕ
trim_newline [] = []
trim_newline (c ∷ []) = if c == newline then [] else c ∷ []
trim_newline (c ∷ d ∷ s) = c ∷ trim_newline (d ∷ s)

-- The loop over the lines; `text` is the line before.
unfoldable pub find_line : ℕ → ℕ → List ℕ → List (List ℕ) → Extract
find_line line_num position text [] = record { line_num = line_num; column_num = 0; text = text }
find_line line_num position text (line ∷ lines) =
    let rest = find_line (line_num + 1) (position - length line) line lines in
    if leb position (length line)
    then record { line_num = line_num; column_num = position; text = line }
    else rest

abbrev pub position_big : Error
position_big = wrapped "position is greater than source length" (opaque "position argument error")

-- ExtractErrorLine
unfoldable pub extract_error_line : List ℕ → ℕ → Extract × Option Error
unfolding split_after trim_newline find_line
extract_error_line source position =
    let found = find_line 1 position [] (split_after source) in
    if ltb (length source) position
    then (record { line_num = 1; column_num = 0; text = [] }, some position_big)
    else (record found { text = trim_newline found.text }, none)
