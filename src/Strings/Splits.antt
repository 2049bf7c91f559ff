-- ===== src/Strings/Splits.antt =====
-- How texts split at a separator.
use looking_glass.Common.{
  ℕ, ◌≡◌, refl, ap, inl, inr, List, [], ◌∷◌, ◌++◌, true, false, ◌==◌, Text, All, Bool-cases, arith,
}
use looking_glass.Strings.{split}

abbrev pub Lacks : ℕ → Text → Type 0
Lacks sep s = All (λ c. (c == sep) ≡ false) s

module _ (sep : ℕ) where
  pub split-Lacks : (s : Text) → Lacks sep s → split sep s ≡ s ∷ []
  unfolding split
  split-Lacks [] h = refl
  split-Lacks (c ∷ s) h = rw (h.0, split-Lacks s h.1) refl

  split-nonempty : (s : Text) → (part : Text) × (parts : List Text) × (split sep s ≡ part ∷ parts)
  unfolding split
  split-nonempty [] = ([], [], refl)
  split-nonempty (c ∷ s) = elim (Bool-cases (c == sep)) [
    | inl here ↦ ([], split sep s, rw here refl)
    | inr other ↦ let (part, parts, e) = split-nonempty s in (c ∷ part, parts, rw (other, e) refl)
  ]

  self_eq : (sep == sep) ≡ true
  self_eq = ground arith

  -- A separator ends the parts of what stands before it.
  pub split-append : (s t : Text) → split sep (s ++ sep ∷ t) ≡ split sep s ++ split sep t
  unfolding split
  split-append [] t = rw self_eq refl
  split-append (c ∷ s) t = elim (Bool-cases (c == sep)) [
    | inl here ↦ rw here (ap (λ parts. [] ∷ parts) (split-append s t))
    | inr other ↦ let (part, parts, e) = split-nonempty s in rw (other, split-append s t, e) refl
  ]
