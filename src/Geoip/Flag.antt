-- ===== src/Geoip/Flag.antt =====
-- The flags of `CountryFlag`.
use looking_glass.Common.{
  ℕ, ◌+◌, ◌-◌, ◌%◌, ◌≤◌, ◌≡◌, refl, ◌≢◌, ◌⊎◌, inl, inr, [], ◌∷◌, arith, Text, All, length,
}
use looking_glass.Geoip.{flag_rune, country_flag}

abbrev pub IsUpper : ℕ → Type 0
IsUpper c = (b'A' ≤ c) × (c ≤ b'Z')

-- The letter of a regional indicator symbol.
pub letter : ℕ → ℕ
letter r = (r - 127462) % 26 + b'A'

letter-flag_rune : (c : ℕ) → IsUpper c → letter (flag_rune c) ≡ c
unfolding letter flag_rune
letter-flag_rune c h = omega (arith, h.0, h.1)

-- The flag of a code of two capital letters is two regional indicator symbols, from which the code
-- can be read back; a code of any other length has no flag.
pub country_flag_lem :
    (code : Text)
    → All IsUpper code
    → ((length code ≡ 2)
        × (a b : ℕ) × (country_flag code ≡ a ∷ b ∷ [])
        × ((127462 ≤ a) × (a ≤ 127487))
        × ((127462 ≤ b) × (b ≤ 127487))
        × (code ≡ letter a ∷ letter b ∷ []))
      ⊎ ((length code ≢ 2) × (country_flag code ≡ []))
unfolding country_flag flag_rune
country_flag_lem [] h = inr ((λ e. omega arith), refl)
country_flag_lem (a ∷ []) h = inr ((λ e. omega arith), refl)
country_flag_lem (a ∷ b ∷ []) h = inl (
  omega arith,
  flag_rune a,
  flag_rune b,
  refl,
  omega (arith, h.0),
  omega (arith, h.1.0),
  cc (letter-flag_rune a h.0, letter-flag_rune b h.1.0),
)
country_flag_lem (a ∷ b ∷ c ∷ code) h = inr ((λ e. omega arith), refl)
