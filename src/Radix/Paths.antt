-- ===== src/Radix/Paths.antt =====
-- A trie as a table from bit strings to what they hold.
use looking_glass.Common.{
  ℕ, zero, suc, ◌≡◌, refl, List, [], ◌∷◌, Bool, true, false, Option, none, some, arith, ite,
}
use looking_glass.Radix.{Node, nil, node, bit, update, find}

abbrev pub Bits : Type 0
Bits = List Bool

unfoldable pub Bits-discrete : Discrete Bits
Bits-discrete = hlevel

-- The bits of the rounds of a loop.
unfoldable pub path : List ℕ → ℕ → ℕ → Bits
unfolding bit
path b i zero = []
path b i (suc k) = bit b i ∷ path b (suc i) k

module _ {ℓ} {P : Type ℓ} (empty : P) where
  -- What a bit string holds.
  unfoldable pub at : Node P → Bits → P
  at nil q = empty
  at (node p l r) [] = p
  at (node p l r) (false ∷ q) = at l q
  at (node p l r) (true ∷ q) = at r q

  unfoldable pub get_or_empty : Option P → P
  get_or_empty none = empty
  get_or_empty (some p) = p

  pub find-at :
      (k i : ℕ) (b : List ℕ) (t : Node P) → get_or_empty (find k i b t) ≡ at t (path b i k)
  unfolding find at path get_or_empty
  find-at zero i b nil = refl
  find-at zero i b (node p l r) = refl
  find-at (suc k) i b nil = refl
  find-at (suc k) i b (node p l r) = ground (arith, find-at k (suc i) b l, find-at k (suc i) b r)

  -- An update changes what its path holds, and nothing else.
  pub at-update :
      (change : P → P) (k i : ℕ) (b : List ℕ) (t : Node P) (q : Bits)
      → at (update empty change k i b t) q
        ≡ ite (Bits-discrete (path b i k) q) (change (at t q)) (at t q)
  unfolding update at path
  at-update change zero i b nil [] = ground arith
  at-update change zero i b nil (false ∷ q) = ground arith
  at-update change zero i b nil (true ∷ q) = ground arith
  at-update change zero i b (node p l r) [] = ground arith
  at-update change zero i b (node p l r) (false ∷ q) = ground arith
  at-update change zero i b (node p l r) (true ∷ q) = ground arith
  at-update change (suc k) i b nil [] = ground arith
  at-update change (suc k) i b nil (false ∷ q) = ground (arith, at-update change k (suc i) b nil q)
  at-update change (suc k) i b nil (true ∷ q) = ground (arith, at-update change k (suc i) b nil q)
  at-update change (suc k) i b (node p l r) [] = ground arith
  at-update change (suc k) i b (node p l r) (false ∷ q) =
      ground (arith, at-update change k (suc i) b l q)
  at-update change (suc k) i b (node p l r) (true ∷ q) =
      ground (arith, at-update change k (suc i) b r q)
