-- ===== src/Common/Texts.antt =====
-- Texts, as Go's package strings treats them.
use Prim.Native.Nat.{ℕ, zero, suc, ◌/◌, ◌%◌}
use Prim.Native.Char.{Char, code}
use Prim.Native.String
use Prim.Native.String.{String}
use mathlib.Core.List.{List, [], ◌∷◌}
use mathlib.Core.Bool.{Bool, true, false, ◌&&◌, ◌||◌}
use provisioning_backend.Common.Tests.{◌==◌, if◌then◌else◌}

abbrev push_front : Char → List String → List String
push_front c [] = (String.◌∷◌ c String.[]) ∷ []
push_front c (p ∷ ps) = (String.◌∷◌ c p) ∷ ps

-- strings.Split by a separator of one character, given by its code.
abbrev pub split : String → ℕ → List String
split String.[] sep = "" ∷ []
split (String.◌∷◌ c s) sep =
    let rest = split s sep in if code c == sep then "" ∷ rest else push_front c rest

-- strings.Join of the parts with a separator.
abbrev pub join : List String → String → String
join [] sep = ""
join (p ∷ []) sep = p
join (p ∷ q ∷ ps) sep = String.◌++◌ p (String.◌++◌ sep (join (q ∷ ps) sep))

-- strings.HasPrefix
abbrev pub has_prefix : String → String → Bool
has_prefix s String.[] = true
has_prefix String.[] (String.◌∷◌ p ps) = false
has_prefix (String.◌∷◌ c s) (String.◌∷◌ p ps) = (code c == code p) && has_prefix s ps

-- strings.Contains
abbrev pub contains : String → String → Bool
contains String.[] substr = has_prefix String.[] substr
contains (String.◌∷◌ c s) substr = has_prefix (String.◌∷◌ c s) substr || contains s substr

abbrev digit_of : String → ℕ → String
digit_of String.[] n = ""
digit_of (String.◌∷◌ c s) zero = String.◌∷◌ c String.[]
digit_of (String.◌∷◌ c s) (suc n) = digit_of s n

abbrev digits : ℕ → ℕ → String
digits zero n = ""
digits (suc k) n =
    let rest = digits k (n / 10) in
    if n / 10 == 0
    then digit_of "0123456789" n
    else String.◌++◌ rest (digit_of "0123456789" (n % 10))

-- strconv.FormatInt of a number that is not negative, in base 10; an int64 has at most 19 digits.
abbrev pub format_int : ℕ → String
format_int n = digits 19 n
