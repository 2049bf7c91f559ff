-- ===== src/Radix/Longest.antt =====
-- The walk along an address finds the longest prefix that has an answer.
use looking_glass.Common.{
  ℕ, zero, suc, ◌≤◌, ◌<◌, ◌≡◌, refl, inl, inr, List, [], ◌∷◌, Bool, true, false, Option, none, some,
  arith, length, take, Option-cases, subst, sym,
}
use looking_glass.Radix.{Node, nil, node, bit, pick, child, best_match}
use looking_glass.Radix.Paths.{Bits, path, at}

-- The answer for the longest prefix of the bits that has one, or the given best where none has.
pub data Deepest {ℓ} {B : Type ℓ} (answers : Bits → Option B) (bits : Bits) (best : Option B)
    (r : Option B) : Type ℓ where
  at_prefix :
      (n : ℕ) (x : B)
      → n ≤ length bits
      → answers (take n bits) ≡ some x
      → r ≡ some x
      → ((m : ℕ) → n < m → m ≤ length bits → answers (take m bits) ≡ none)
      → Deepest answers bits best r
  nowhere :
      r ≡ best
      → ((m : ℕ) → m ≤ length bits → answers (take m bits) ≡ none)
      → Deepest answers bits best r

module _ {ℓ} {B : Type ℓ} (answers : Bits → Option B) (best : Option B) where
  at_root :
      (bits : Bits)
      → ((m : ℕ) → suc m ≤ length bits → answers (take (suc m) bits) ≡ none)
      → Deepest answers bits best (pick (answers []) best)
  at_root bits none_below = elim (Option-cases (answers [])) [
    | inl e ↦ nowhere (rw e) (λ m h. root_none e m h)
    | inr (x, e) ↦ at_prefix zero x (omega arith) e (rw e) (λ m lt h. below m lt h)
  ]
    where
      root_none : answers [] ≡ none → (m : ℕ) → m ≤ length bits → answers (take m bits) ≡ none
      root_none e zero h = e
      root_none e (suc m) h = none_below m h

      below : (m : ℕ) → zero < m → m ≤ length bits → answers (take m bits) ≡ none
      below zero lt h = absurd (omega arith)
      below (suc m) lt h = none_below m h

  -- One bit further down.
  extend :
      (c : Bool) (bits : Bits) (r : Option B)
      → Deepest (λ q. answers (c ∷ q)) bits (pick (answers []) best) r
      → Deepest answers (c ∷ bits) best r
  extend c bits r (at_prefix n x le e is above) =
      at_prefix (suc n) x (omega arith) e is (λ m lt h. further m lt h)
    where
      further : (m : ℕ) → suc n < m → m ≤ length (c ∷ bits) → answers (take m (c ∷ bits)) ≡ none
      further zero lt h = absurd (omega arith)
      further (suc m) lt h = above m (omega arith) (omega arith)
  extend c bits r (nowhere is nothing) =
      subst (Deepest answers (c ∷ bits) best) (sym is)
        (at_root (c ∷ bits) (λ m h. nothing m (omega arith)))

module _ {ℓ κ} {P : Type ℓ} {B : Type κ} (empty : P) (answer : P → Option B) where
  abbrev pub answers_at : Node P → Bits → Option B
  answers_at t q = answer (at empty t q)

  walk :
      (c : Bool) (p : P) (l r : Node P) (bits : Bits) (best found : Option B)
      → Deepest (answers_at (child c l r)) bits (pick (answer p) best) found
      → Deepest (answers_at (node p l r)) (c ∷ bits) best found
  unfolding at
  walk false p l r bits best found d = extend (answers_at (node p l r)) best false bits found d
  walk true p l r bits best found d = extend (answers_at (node p l r)) best true bits found d

  pub best_match-Deepest :
      (k i : ℕ) (b : List ℕ) (best : Option B) (t : Node P)
      → answer empty ≡ none
      → Deepest (answers_at t) (path b i k) best (best_match answer k i b best t)
  unfolding best_match path at
  best_match-Deepest zero i b best nil e = nowhere refl (λ m h. e)
  best_match-Deepest zero i b best (node p l r) e =
      at_root (answers_at (node p l r)) best [] (λ m h. absurd (omega arith))
  best_match-Deepest (suc k) i b best nil e = nowhere refl (λ m h. e)
  best_match-Deepest (suc k) i b best (node p l r) e =
      walk (bit b i) p l r (path b (suc i) k) best _
        (best_match-Deepest k (suc i) b (pick (answer p) best) (child (bit b i) l r) e)
