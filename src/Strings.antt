-- ===== src/Strings.antt =====
-- The functions of Go's `strings` and `strconv` that the program calls, on texts as lists of bytes.
-- White space and case are those of ASCII.
pub mod Splits
use looking_glass.Common.{
  ℕ, zero, suc, ◌+◌, ◌-◌, ◌*◌, ◌^◌, List, [], ◌∷◌, ◌++◌, Bool, true, false, ◌&&◌, ◌||◌, Option,
  none, some, ltb, leb, ◌==◌, if◌then◌else◌, Text,
}

abbrev pub in_first : ℕ → List Text → List Text
in_first c [] = (c ∷ []) ∷ []
in_first c (part ∷ parts) = (c ∷ part) ∷ parts

-- `strings.Split`, at a separator of one byte
unfoldable pub split : ℕ → Text → List Text
split sep [] = [] ∷ []
split sep (c ∷ s) = let parts = split sep s in if c == sep then [] ∷ parts else in_first c parts

unfoldable pub is_space : ℕ → Bool
is_space c = (leb 9 c && leb c 13) || c == 32

abbrev pub trim_left : Text → Text
trim_left [] = []
trim_left (c ∷ s) = let rest = trim_left s in if is_space c then rest else c ∷ s

-- A text that ends in white space only is cut there.
abbrev pub cons_trimmed : ℕ → Text → Text
cons_trimmed c [] = if is_space c then [] else c ∷ []
cons_trimmed c (d ∷ s) = c ∷ d ∷ s

abbrev pub trim_right : Text → Text
trim_right [] = []
trim_right (c ∷ s) = cons_trimmed c (trim_right s)

-- `strings.TrimSpace`
unfoldable pub trim_space : Text → Text
unfolding is_space
trim_space s = trim_right (trim_left s)

abbrev pub upper : ℕ → ℕ
upper c = if leb b'a' c && leb c b'z' then c - 32 else c

abbrev pub to_upper : Text → Text
to_upper [] = []
to_upper (c ∷ s) = upper c ∷ to_upper s

abbrev pub lower : ℕ → ℕ
lower c = if leb b'A' c && leb c b'Z' then c + 32 else c

abbrev pub to_lower : Text → Text
to_lower [] = []
to_lower (c ∷ s) = lower c ∷ to_lower s

-- `strings.CutPrefix`: `none` if the prefix is not there.
unfoldable pub cut_prefix : Text → Text → Option Text
cut_prefix [] s = some s
cut_prefix (p ∷ prefix) [] = none
cut_prefix (p ∷ prefix) (c ∷ s) = let rest = cut_prefix prefix s in if c == p then rest else none

abbrev pub or_whole : Text → Option Text → Text
or_whole s none = s
or_whole s (some rest) = rest

-- `strings.TrimPrefix`
abbrev pub trim_prefix : Text → Text → Text
trim_prefix prefix s = or_whole s (cut_prefix prefix s)

-- `strings.TrimSuffix`, of one byte
unfoldable pub trim_last : ℕ → Text → Text
trim_last end [] = []
trim_last end (c ∷ []) = if c == end then [] else c ∷ []
trim_last end (c ∷ d ∷ s) = c ∷ trim_last end (d ∷ s)

abbrev pub is_some : Option Text → Bool
is_some none = false
is_some (some s) = true

-- `strings.HasPrefix`
abbrev pub has_prefix : Text → Text → Bool
has_prefix prefix s = is_some (cut_prefix prefix s)

-- What stands behind the first occurrence of a text: `s[strings.Index(s, sub) + len(sub):]`.
unfoldable pub after_first : Text → Text → Option Text
unfolding cut_prefix
after_first sub [] = cut_prefix sub []
after_first sub (c ∷ s) = elim (cut_prefix sub (c ∷ s)) [
  | some rest ↦ some rest
  | none ↦ after_first sub s
]

-- `strings.Contains`
abbrev pub contains : Text → Text → Bool
contains sub s = is_some (after_first sub s)

-- A character before the fields of a text: it begins one, or stands in the first.
abbrev pub before_fields : ℕ → Text → List Text → List Text
before_fields c [] parts = (c ∷ []) ∷ parts
before_fields c (d ∷ s) parts = if is_space d then (c ∷ []) ∷ parts else in_first c parts

-- `strings.Fields`
unfoldable pub fields : Text → List Text
unfolding is_space
fields [] = []
fields (c ∷ s) = let parts = fields s in if is_space c then parts else before_fields c s parts

-- `strings.Join`, with a space
abbrev pub join_spaced : List Text → Text
join_spaced [] = []
join_spaced (part ∷ []) = part
join_spaced (part ∷ next ∷ parts) = part ++ 32 ∷ join_spaced (next ∷ parts)

-- The value of a text of digits.
unfoldable pub digits_value : ℕ → Text → Option ℕ
digits_value acc [] = some acc
digits_value acc (c ∷ s) =
    let rest = digits_value (acc * 10 + (c - b'0')) s in
    if leb b'0' c && leb c b'9' then rest else none

-- An `int`.
pub data ℤ : Type 0 where
  pos negsuc : ℕ → ℤ

abbrev pub negated : ℕ → ℤ
negated zero = pos zero
negated (suc n) = negsuc n

abbrev pub in_range : (ℕ → ℤ) → ℕ → Option ℕ → Option ℤ
in_range sign limit none = none
in_range sign limit (some n) = if leb n limit then some (sign n) else none

-- At least one digit, after the sign.
abbrev pub unsigned : Text → Option ℕ
unsigned [] = none
unsigned (c ∷ s) = digits_value 0 (c ∷ s)

-- `strconv.Atoi`
unfoldable pub atoi : Text → Option ℤ
unfolding digits_value
atoi [] = none
atoi (c ∷ s) =
    if c == b'-'
    then in_range negated (2 ^ 63) (unsigned s)
    else if c == b'+'
    then in_range pos (2 ^ 63 - 1) (unsigned s)
    else in_range pos (2 ^ 63 - 1) (unsigned (c ∷ s))
