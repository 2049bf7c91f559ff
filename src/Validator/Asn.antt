-- ===== src/Validator/Asn.antt =====
-- The AS numbers that are accepted, and how they may be written.
use looking_glass.Common.{
  ℕ, ◌+◌, ◌-◌, ◌*◌, ◌≤◌, ◌≡◌, refl, ap, ◌∙◌, [], ◌∷◌, ◌++◌, false, Option, none, some, arith, Text,
  codes, All,
}
use looking_glass.Strings.{
  is_space, trim_left, trim_right, trim_space, to_upper, digits_value, ℤ, pos, negsuc, atoi,
}
use looking_glass.Validator.{ok, trim_as, max_asn, check_asn, validate_asn}

abbrev pub IsDigit : ℕ → Type 0
IsDigit c = (b'0' ≤ c) × (c ≤ b'9')

-- The number that digits stand for.
unfoldable pub value : ℕ → Text → ℕ
value acc [] = acc
value acc (c ∷ s) = value (acc * 10 + (c - b'0')) s

digits_value-value : (acc : ℕ) (s : Text) → All IsDigit s → digits_value acc s ≡ some (value acc s)
unfolding digits_value value
digits_value-value acc [] h = refl
digits_value-value acc (c ∷ s) h = ground (arith, digits_value-value (acc * 10 + (c - b'0')) s h.1)

trim_left-digits : (c : ℕ) (s : Text) → is_space c ≡ false → trim_left (c ∷ s) ≡ c ∷ s
trim_left-digits c s h = rw h refl

NotSpace : ℕ → Type 0
NotSpace c = is_space c ≡ false

trim_right-kept : (s : Text) → All NotSpace s → trim_right s ≡ s
unfolding NotSpace
trim_right-kept [] h = refl
trim_right-kept (c ∷ []) h = rw (h.0) refl
trim_right-kept (c ∷ d ∷ s) h = rw (trim_right-kept (d ∷ s) h.1) refl

trim_space-kept : (s : Text) → All NotSpace s → trim_space s ≡ s
unfolding trim_space NotSpace
trim_space-kept [] h = refl
trim_space-kept (c ∷ s) h = ap trim_right (trim_left-digits c s h.0) ∙ trim_right-kept (c ∷ s) h

digits-NotSpace : (s : Text) → All IsDigit s → All NotSpace s
unfolding NotSpace is_space
digits-NotSpace [] h = tt
digits-NotSpace (c ∷ s) h = (ground arith, digits-NotSpace s h.1)

to_upper-digits : (s : Text) → All IsDigit s → to_upper s ≡ s
to_upper-digits [] h = refl
to_upper-digits (c ∷ s) h = ground (arith, to_upper-digits s h.1)

trim_as-digits : (s : Text) → All IsDigit s → trim_as s ≡ s
trim_as-digits [] h = refl
trim_as-digits (c ∷ []) h = refl
trim_as-digits (c ∷ d ∷ s) h = ground arith

atoi-digits :
    (c : ℕ) (s : Text)
    → All IsDigit (c ∷ s)
    → value 0 (c ∷ s) ≤ max_asn
    → atoi (c ∷ s) ≡ some (pos (value 0 (c ∷ s)))
unfolding atoi
atoi-digits c s h small = ground (arith, digits_value-value 0 (c ∷ s) h)

check_asn-value : (n : ℕ) → 1 ≤ n → n ≤ max_asn → check_asn (some (pos n)) ≡ ok n
unfolding check_asn
check_asn-value n low high = ground arith

-- The spellings of a prefix, and none.
pub data Spelling : Text → Type 0 where
  bare : Spelling []
  capitals : Spelling (codes "AS")
  small : Spelling (codes "as")
  capital_a : Spelling (codes "As")
  capital_s : Spelling (codes "aS")

after_prefix :
    (p s : Text)
    → All NotSpace (p ++ s)
    → trim_as (to_upper (p ++ s)) ≡ to_upper s
    → All IsDigit s
    → trim_as (to_upper (trim_space (p ++ s))) ≡ s
after_prefix p s kept dropped h =
    ap (λ t. trim_as (to_upper t)) (trim_space-kept (p ++ s) kept) ∙ dropped ∙ to_upper-digits s h

prepared :
    (p : Text) (s : Text)
    → Spelling p
    → All IsDigit s
    → trim_as (to_upper (trim_space (p ++ s))) ≡ s
unfolding NotSpace is_space
prepared p s bare h =
    after_prefix [] s (digits-NotSpace s h) (rw (to_upper-digits s h) (trim_as-digits s h)) h
prepared p s capitals h = after_prefix (codes "AS") s (refl, (refl, digits-NotSpace s h)) refl h
prepared p s small h = after_prefix (codes "as") s (refl, (refl, digits-NotSpace s h)) refl h
prepared p s capital_a h = after_prefix (codes "As") s (refl, (refl, digits-NotSpace s h)) refl h
prepared p s capital_s h = after_prefix (codes "aS") s (refl, (refl, digits-NotSpace s h)) refl h

-- A number from 1 to 4294967295 is accepted, with its value, written in digits after AS in any case
-- or after nothing.
pub validate_asn-digits :
    (p : Text) (c : ℕ) (s : Text)
    → Spelling p
    → All IsDigit (c ∷ s)
    → 1 ≤ value 0 (c ∷ s)
    → value 0 (c ∷ s) ≤ 4_294_967_295
    → validate_asn (p ++ c ∷ s) ≡ ok (value 0 (c ∷ s))
unfolding validate_asn
validate_asn-digits p c s sp h low high =
    ap (λ t. check_asn (atoi t)) (prepared p (c ∷ s) sp h)
    ∙ ap check_asn (atoi-digits c s h high)
    ∙ check_asn-value (value 0 (c ∷ s)) low high

check_asn-bounds : (o : Option ℤ) (n : ℕ) → check_asn o ≡ ok n → (1 ≤ n) × (n ≤ max_asn)
unfolding check_asn
check_asn-bounds none n h = cc h
check_asn-bounds (some (negsuc m)) n h = cc h
check_asn-bounds (some (pos m)) n h = ground arith

-- A number that is accepted, however it was written, is from 1 to 4294967295.
pub validate_asn-bounds : (s : Text) (n : ℕ) → validate_asn s ≡ ok n → (1 ≤ n) × (n ≤ 4_294_967_295)
unfolding validate_asn
validate_asn-bounds s n h = check_asn-bounds (atoi (trim_as (to_upper (trim_space s)))) n h
