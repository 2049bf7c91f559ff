-- ===== src/Radix.antt =====
-- The binary radix tries of internal/bgp/trie.go and internal/geoip/geoip.go: the loops that both
-- files have, over what a node holds. `nil` is a nil child; the update of a path in place is the
-- tree with the nodes on that path replaced. A loop takes the rounds that are left and the index
-- of the round.
pub mod Paths
pub mod Longest
use looking_glass.Common.{
  ℕ, zero, suc, ◌-◌, ◌/◌, ◌%◌, ◌^◌, List, [], ◌∷◌, Bool, true, false, Option, none, some, ◌==◌,
  get_or,
}

pub data Node {ℓ} (P : Type ℓ) : Type ℓ where
  nil : Node P
  node : P → Node P → Node P → Node P

-- `(b[i/8] >> (7 - uint(i%8))) & 1`, and 0 past the last byte, where the source panics: the users of
-- the loops test that the rounds are within the bytes, or have only prefixes that are.
unfoldable pub bit : List ℕ → ℕ → Bool
bit bytes i = (get_or bytes (i / 8) 0 / 2 ^ (7 - i % 8)) % 2 == 1

abbrev pub pick {ℓ} : {B : Type ℓ} → Option B → Option B → Option B
pick none best = best
pick (some b) best = some b

module _ {ℓ} {P : Type ℓ} (empty : P) where
  -- The loop of an insertion, and `change` at the node where it ends.
  unfoldable pub update : (P → P) → ℕ → ℕ → List ℕ → Node P → Node P
  unfolding bit
  update change zero i b nil = node (change empty) nil nil
  update change zero i b (node p l r) = node (change p) l r
  update change (suc k) i b nil = elim (bit b i) [
    | false ↦ node empty (update change k (suc i) b nil) nil
    | true ↦ node empty nil (update change k (suc i) b nil)
  ]
  update change (suc k) i b (node p l r) = elim (bit b i) [
    | false ↦ node p (update change k (suc i) b l) r
    | true ↦ node p l (update change k (suc i) b r)
  ]

module _ {ℓ} {P : Type ℓ} where
  abbrev pub child : Bool → Node P → Node P → Node P
  child false l r = l
  child true l r = r

  -- The walk to the end of a prefix, which a missing child ends.
  unfoldable pub find : ℕ → ℕ → List ℕ → Node P → Option P
  unfolding bit
  find zero i b nil = none
  find zero i b (node p l r) = some p
  find (suc k) i b nil = none
  find (suc k) i b (node p l r) = find k (suc i) b (child (bit b i) l r)

  -- The walk along an address, with the last answer that a node on the way gives.
  unfoldable pub best_match {κ} :
      {B : Type κ} → (P → Option B) → ℕ → ℕ → List ℕ → Option B → Node P → Option B
  unfolding bit
  best_match answer zero i b best nil = best
  best_match answer zero i b best (node p l r) = pick (answer p) best
  best_match answer (suc k) i b best nil = best
  best_match answer (suc k) i b best (node p l r) =
      best_match answer k (suc i) b (pick (answer p) best) (child (bit b i) l r)
