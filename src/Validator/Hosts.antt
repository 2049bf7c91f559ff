-- ===== src/Validator/Hosts.antt =====
-- What a target is, that is accepted as a host name.
use looking_glass.Common.{
  ℕ, ◌-◌, ◌≤◌, ◌≡◌, refl, [], ◌∷◌, Bool, true, ◌||◌, none, arith, ◌==◌, Text, length, All,
  Bool-cases, inl, inr,
}
use looking_glass.Ip.{Parsers}
use looking_glass.Validator.{is_alnum, match_rest, match_hostname, validate_target}

abbrev pub host_char : ℕ → Bool
host_char c = is_alnum c || (c == b'-' || c == b'.')

match_rest-All :
    (left : ℕ) (last : Bool) (s : Text)
    → match_rest left last s ≡ true
    → All (λ c. host_char c ≡ true) s
unfolding match_rest
match_rest-All left last [] h = tt
match_rest-All left last (c ∷ []) h = (ground arith, tt)
match_rest-All left last (c ∷ d ∷ s) h = elim (Bool-cases (c == b'.')) [
  | inl dot ↦ (ground arith, (ground arith, match_rest-All 62 true s (ground arith)))
  | inr other ↦ (ground arith, match_rest-All (left - 1) (is_alnum c) (d ∷ s) (ground arith))
]

-- A target that is accepted and is no address has at most 253 characters, each a letter, a digit, a
-- hyphen or a dot, of which the first is a letter or a digit: it is never read as an option, and
-- it has no character that a shell gives a meaning to.
pub validate_target-host :
    (net : Parsers) (s : Text)
    → validate_target net s ≡ none
    → net.parse_ip s ≡ none
    → (length s ≤ 253)
      × All (λ c. host_char c ≡ true) s
      × (c : ℕ) × (rest : Text) × (s ≡ c ∷ rest)
      × (is_alnum c ≡ true)
unfolding validate_target match_hostname
validate_target-host net [] h e = cc h
validate_target-host net (c ∷ s) h e = (
  ground arith,
  (ground arith, match_rest-All 62 true s (ground arith)),
  c,
  s,
  refl,
  ground arith,
)
