-- ===== src/Errors/Positions/Located.antt =====
-- The line and column of a position, in terms of the text.
use mathlib.Core.List.{append_assoc, append-nil}
use mathlib.Core.Path.{subst}
use provisioning_backend.Common.{
  ℕ, ◌+◌, ◌-◌, ◌≤◌, ◌<◌, ◌≡◌, ◌⊎◌, inl, inr, refl, sym, ap, ◌∙◌, Option, none, some, List, [], ◌∷◌,
  ◌++◌, length, length-append, leb, ltb, ◌==◌, if◌then◌else◌, if_elim, Bool-cases, arith, leb→le,
}
use provisioning_backend.Errors.{Error}
use provisioning_backend.Errors.Positions.{
  Extract, newline, split_after, trim_newline, find_line, extract_error_line, position_big,
}

-- The number of newlines.
abbrev pub newlines : List ℕ → ℕ
newlines [] = 0
newlines (c ∷ s) = if c == newline then newlines s + 1 else newlines s

-- Nothing, or a text that ends in a newline.
abbrev pub Whole : List ℕ → Type 0
Whole s = (s ≡ []) ⊎ ((t : List ℕ) × (s ≡ t ++ newline ∷ []))

-- Nothing, or a text that starts with a newline.
abbrev pub Ended : List ℕ → Type 0
Ended s = (s ≡ []) ⊎ ((t : List ℕ) × (s ≡ newline ∷ t))

newlines-append : (s t : List ℕ) → newlines (s ++ t) ≡ newlines s + newlines t
newlines-append [] t = omega arith
newlines-append (c ∷ s) t = let ih = newlines-append s t in ground arith

-- The first line and the rest.
split_after-cases :
    (s : List ℕ)
    → ((newlines s ≡ 0) × (split_after s ≡ s ∷ []))
      ⊎ ((line : List ℕ) × (rest : List ℕ) × (newlines line ≡ 0)
          × (s ≡ line ++ newline ∷ rest)
          × (split_after s ≡ (line ++ newline ∷ []) ∷ split_after rest))
unfolding split_after
split_after-cases [] = inl (refl, refl)
split_after-cases (c ∷ s) = elim (Bool-cases (c == newline)) [
  | inl e ↦
      let same : c ≡ newline = ground arith in inr ([], s, refl, ap (λ x. x ∷ s) same, rw same refl)
  | inr e ↦ elim (split_after-cases s) [
    | inl (none_in, whole) ↦ inl (ground arith, rw e (rw whole refl))
    | inr (line, rest, none_in, cut, lines) ↦
        inr (c ∷ line, rest, ground arith, ap (λ t. c ∷ t) cut, rw e (rw lines refl))
  ]
]

trim_newline_whole : (s : List ℕ) → newlines s ≡ 0 → trim_newline s ≡ s
unfolding trim_newline
trim_newline_whole [] h = refl
trim_newline_whole (c ∷ []) h = ground arith
trim_newline_whole (c ∷ d ∷ s) h = ap (λ t. c ∷ t) (trim_newline_whole (d ∷ s) (ground arith))

trim_newline_ended : (s : List ℕ) → trim_newline (s ++ newline ∷ []) ≡ s
unfolding trim_newline
trim_newline_ended [] = refl
trim_newline_ended (c ∷ []) = refl
trim_newline_ended (c ∷ d ∷ s) = ap (λ t. c ∷ t) (trim_newline_ended (d ∷ s))

-- The line that holds the position, with the text before and after it: `n` newlines before the text are counted.
abbrev pub At : ℕ → List ℕ → ℕ → ℕ → ℕ → List ℕ → Type 0
At n source position line_num column_num text =
    (before : List ℕ) × (after : List ℕ) × (source ≡ before ++ (text ++ after))
    × (newlines text ≡ 0)
    × (line_num ≡ n + newlines before)
    × Whole before
    × Ended after
    × (position ≡ length before + column_num)
    × (column_num ≤ length text + 1)
    × (1 ≤ position → 1 ≤ column_num)

-- A position in the first line.
At-first :
    (n : ℕ) (line after : List ℕ) (position : ℕ)
    → newlines line ≡ 0
    → Ended after
    → position ≤ length line + 1
    → At n (line ++ after) position n position line
At-first n line after position none_in ended k =
    ([], after, refl, none_in, omega arith, inl refl, ended, omega arith, k, λ one. one)

Whole-append : (line b : List ℕ) → Whole b → Whole (line ++ newline ∷ b)
Whole-append line b h = elim h [
  | inl e ↦ inr (line, ap (λ y. line ++ newline ∷ y) e)
  | inr (t, e) ↦ inr (
    line ++ newline ∷ t,
    ap (λ y. line ++ newline ∷ y) e ∙ sym (append_assoc line (newline ∷ t) (newline ∷ [])),
  )
]

-- A position after the first line.
At-later :
    (n : ℕ) (line rest : List ℕ) (position line_num column_num : ℕ) (text : List ℕ)
    → newlines line ≡ 0
    → length line + 1 < position
    → At (n + 1) rest (position - (length line + 1)) line_num column_num text
    → At n (line ++ newline ∷ rest) position line_num column_num text
At-later n line rest position line_num column_num text clean k
      (b, a, cut, none_in, num, whole, ended, col, within, first) =
    let counted = newlines-append line (newline ∷ b) in
    let long = length-append line (newline ∷ b) in
    (
      line ++ newline ∷ b,
      a,
      ap (λ y. line ++ newline ∷ y) cut ∙ sym (append_assoc line (newline ∷ b) (text ++ a)),
      none_in,
      omega (arith),
      Whole-append line b whole,
      ended,
      omega arith,
      within,
      λ one. first (omega arith),
    )

find_line-At :
    (lines : List (List ℕ)) (s : List ℕ) (n position : ℕ) (text : List ℕ)
    → split_after s ≡ lines
    → position ≤ length s
    → let e = find_line n position text lines in
      At n s position e.line_num e.column_num (trim_newline e.text)
unfolding find_line
find_line-At [] s n position text h k = absurd (nonempty)
  where
    nonempty : ⊥
    nonempty = elim (split_after-cases s) [ inl (a, b) ↦ cc | inr (l, r, a, b, c) ↦ cc ]
find_line-At (x ∷ xs) s n position text h k =
    if_elim Found (leb position (length x))
      (record { line_num = n; column_num = position; text = x })
      (find_line (n + 1) (position - length x) x xs) (λ e. in_line (leb→le position (length x) e))
      (λ e.
        beyond (λ l. ground arith) (λ rest. find_line-At xs rest (n + 1) (position - length x) x))
  where
    Found : Extract → Type 0
    Found e = At n s position e.line_num e.column_num (trim_newline e.text)

    in_line : position ≤ length x → At n s position n position (trim_newline x)
    in_line e = elim (split_after-cases s) [
      | inl (none_in, whole) ↦
          let same : s ≡ x = cc in
          let clean : newlines x ≡ 0 = rw same at none_in in
          let tr = trim_newline_whole x clean in
          rw tr (
            rw same (
              subst (λ t. At n t position n position x) (append-nil x)
                (At-first n x [] position clean (inl refl) (omega arith))))
      | inr (line, rest, none_in, cut, lines) ↦
          let same : x ≡ line ++ newline ∷ [] = cc in
          let long = ap (length) same ∙ length-append line (newline ∷ []) in
          let tr : trim_newline x ≡ line = rw same (trim_newline_ended line) in
          rw tr (
            rw cut
              (At-first n line (newline ∷ rest) position none_in (inr (rest, refl)) (omega arith)))
    ]

    beyond :
        (position ≤ length x → ⊥)
        → ((rest : List ℕ)
            → split_after rest ≡ xs
            → position - length x ≤ length rest
            → let e' = find_line (n + 1) (position - length x) x xs in
              At
                (n + 1)
                rest
                (position - length x)
                e'.line_num
                e'.column_num
                (trim_newline e'.text))
        → Found (find_line (n + 1) (position - length x) x xs)
    beyond e in_rest = elim (split_after-cases s) [
      | inl (none_in, whole) ↦
          let same : s ≡ x = cc in let long = ap (length) same in absurd (e (omega arith))
      | inr (line, rest, none_in, cut, lines) ↦
          let same : x ≡ line ++ newline ∷ [] = cc in
          let later : split_after rest ≡ xs = cc in
          let long : length x ≡ length line + 1 =
            ap (length) same ∙ length-append line (newline ∷ []) in
          let total = ap (length) cut ∙ length-append line (newline ∷ rest) in
          let far : length line + 1 < position = ground arith in
          let ih = in_rest rest later (omega arith) in
          let e' = find_line (n + 1) (position - length x) x xs in
          rw cut (
            At-later n line rest position e'.line_num e'.column_num (trim_newline e'.text) none_in
              far
              (subst
                (λ m.
                  At (n + 1) rest (position - m) e'.line_num e'.column_num (trim_newline e'.text))
                long ih))
    ]

-- For a position up to the length of the source there is no error: the source is the text before a line, that
-- line, which has no newline, and the text after it, where lines are cut at newlines; the line number counts the
-- newlines before the line from 1, and the column counts from its start to the position, from 1 for a position from
-- 1, which is in the line or at its newline.
pub extract_error_line-At :
    (source : List ℕ) (position : ℕ)
    → position ≤ length source
    → let (e, x) = extract_error_line source position in
      (x ≡ none) × At 1 source position e.line_num e.column_num e.text
unfolding extract_error_line
extract_error_line-At source position k =
    let found = find_line 1 position [] (split_after source) in
    if_elim
      (λ (p : Extract × Option Error).
        (p.1 ≡ none) × At 1 source position (p.0).line_num (p.0).column_num (p.0).text)
      (ltb (length source) position)
      (record { line_num = 1; column_num = 0; text = [] }, some position_big)
      (record found { text = trim_newline found.text }, none) (λ e. absurd (ground arith))
      (λ e. (refl, find_line-At (split_after source) source 1 position [] refl k))
