-- ===== src/Handler/FanOut/Orders.antt =====
-- The results do not depend on the order in which the agents answer.
use looking_glass.Common.{
  ℕ, zero, suc, ◌<◌, ◌≡◌, refl, ap, sym, ◌∙◌, List, [], ◌∷◌, Bool, true, false, ◌==◌, ◌||◌, Option,
  none, some, if◌then◌else◌, map, length, get_elem?, Bool-cases, Option-cases, inl, inr, arith,
}
use looking_glass.Handler.FanOut.{set_at, write_result, fan_out}

unfoldable pub is_done : ℕ → List ℕ → Bool
is_done i [] = false
is_done i (j ∷ order) = i == j || is_done i order

abbrev map_option : {A B : Type 0} → (A → B) → Option A → Option B
map_option f none = none
map_option f (some a) = some (f a)

-- Every place of a list is among those that are written.
abbrev pub Covers : {A : Type 0} → List ℕ → List A → Type 0
Covers order xs = (i : ℕ) → i < length xs → is_done i order ≡ true

or_assoc : (a b c : Bool) → ((a || b) || c) ≡ (a || (b || c))
or_assoc true b c = refl
or_assoc false b c = refl

or_false : (a : Bool) → (a || false) ≡ a
or_false true = refl
or_false false = refl

or_true : (a : Bool) → (a || true) ≡ true
or_true true = refl
or_true false = refl

list_ext : {A : Type 0} (xs ys : List A) → ((i : ℕ) → get_elem? xs i ≡ get_elem? ys i) → xs ≡ ys
list_ext [] [] h = refl
list_ext [] (y ∷ ys) h = cc (h 0)
list_ext (x ∷ xs) [] h = cc (h 0)
list_ext (x ∷ xs) (y ∷ ys) h =
    let e : x ≡ y = cc (h 0) in
    ap (λ z. z ∷ xs) e ∙ ap (λ zs. y ∷ zs) (list_ext xs ys (λ i. h (suc i)))

get_elem?-lt : {A : Type 0} (xs : List A) (i : ℕ) (x : A) → get_elem? xs i ≡ some x → i < length xs
get_elem?-lt [] i x h = cc h
get_elem?-lt (y ∷ xs) zero x h = omega arith
get_elem?-lt (y ∷ xs) (suc i) x h = omega (arith, get_elem?-lt xs i x h)

get_elem?-set_at :
    {B : Type 0} (i j : ℕ) (b : B) (xs : List B)
    → get_elem? (set_at i b xs) j
      ≡ (if j == i then map_option (λ x. b) (get_elem? xs j) else get_elem? xs j)
unfolding set_at
get_elem?-set_at i j b [] = ground arith
get_elem?-set_at zero zero b (x ∷ xs) = refl
get_elem?-set_at zero (suc j) b (x ∷ xs) = ground arith
get_elem?-set_at (suc i) zero b (x ∷ xs) = ground arith
get_elem?-set_at (suc i) (suc j) b (x ∷ xs) = ground (arith, get_elem?-set_at i j b xs)

module _ {A B : Type 0} where
  pub get_elem?-map :
      (f : A → B) (xs : List A) (i : ℕ) → get_elem? (map f xs) i ≡ map_option f (get_elem? xs i)
  get_elem?-map f [] i = refl
  get_elem?-map f (x ∷ xs) zero = refl
  get_elem?-map f (x ∷ xs) (suc i) = get_elem?-map f xs i

  module _ (check pending : A → B) where
    -- A place holds the result if it is written, and else what it held before.
    abbrev held : Bool → Option A → Option B
    held written o = map_option (λ n. if written then check n else pending n) o

    held_again :
        (written : Bool) (n : A) (o : Option A)
        → o ≡ some n
        → map_option (λ x. check n) (held written o) ≡ held true o
    held_again written n none e = cc e
    held_again written n (some m) e = let same : m ≡ n = cc e in ap (λ z. some (check z)) (sym same)

    write_result-at :
        (nodes : List A) (written : Bool) (results : List B) (i j : ℕ) (o : Option A)
        → get_elem? nodes i ≡ o
        → get_elem? results j ≡ held written (get_elem? nodes j)
        → get_elem? (write_result check i o results) j
          ≡ held (written || (j == i)) (get_elem? nodes j)
    write_result-at nodes written results i j none e h = elim (Bool-cases (j == i)) [
      | inl same ↦
          let is : j ≡ i = ground arith in
          let gone : get_elem? nodes j ≡ none = ap (get_elem? nodes) is ∙ e in
          h ∙ ap (held written) gone ∙ sym (ap (held (written || (j == i))) gone)
      | inr other ↦
          h
          ∙ ap (λ b. held b (get_elem? nodes j))
              (sym (or_false written) ∙ ap (λ b. written || b) (sym other))
    ]
    write_result-at nodes written results i j (some n) e h = elim (Bool-cases (j == i)) [
      | inl same ↦
          let is : j ≡ i = ground arith in
          let there : get_elem? nodes j ≡ some n = ap (get_elem? nodes) is ∙ e in
          get_elem?-set_at i j (check n) results
          ∙ ap
              (λ b.
                if b then map_option (λ x. check n) (get_elem? results j) else get_elem? results j)
              same
          ∙ ap (map_option (λ x. check n)) h
          ∙ held_again written n (get_elem? nodes j) there
          ∙ ap (λ b. held b (get_elem? nodes j))
              (sym (or_true written) ∙ ap (λ b. written || b) (sym same))
      | inr other ↦
          get_elem?-set_at i j (check n) results
          ∙ ap
              (λ b.
                if b then map_option (λ x. check n) (get_elem? results j) else get_elem? results j)
              other
          ∙ h
          ∙ ap (λ b. held b (get_elem? nodes j))
              (sym (or_false written) ∙ ap (λ b. written || b) (sym other))
    ]

    fan_out-at :
        (nodes : List A) (order : List ℕ) (written : ℕ → Bool) (results : List B)
        → ((j : ℕ) → get_elem? results j ≡ held (written j) (get_elem? nodes j))
        → (j : ℕ)
        → get_elem? (fan_out check nodes order results) j
          ≡ held (written j || is_done j order) (get_elem? nodes j)
    unfolding fan_out is_done
    fan_out-at nodes [] written results h j =
        h j ∙ ap (λ b. held b (get_elem? nodes j)) (sym (or_false (written j)))
    fan_out-at nodes (i ∷ order) written results h j =
        fan_out-at nodes order (λ k. written k || (k == i))
          (write_result check i (get_elem? nodes i) results)
          (λ k. write_result-at nodes (written k) results i k (get_elem? nodes i) refl (h k)) j
        ∙ ap (λ b. held b (get_elem? nodes j)) (or_assoc (written j) (j == i) (is_done j order))

    all_done :
        (nodes : List A) (order : List ℕ) (j : ℕ)
        → Covers order nodes
        → held (is_done j order) (get_elem? nodes j) ≡ map_option check (get_elem? nodes j)
    all_done nodes order j h = elim (Option-cases (get_elem? nodes j)) [
      | inl gone ↦ rw gone refl
      | inr (n, there) ↦ ap (λ b. held b (get_elem? nodes j)) (h j (get_elem?-lt nodes j n there))
    ]

    -- In whatever order they are written, all results are there in the end, each at its node's place.
    pub fan_out-map :
        (nodes : List A) (order : List ℕ)
        → Covers order nodes
        → fan_out check nodes order (map pending nodes) ≡ map check nodes
    fan_out-map nodes order h =
        list_ext (fan_out check nodes order (map pending nodes)) (map check nodes) (λ j.
          fan_out-at nodes order (λ k. false) (map pending nodes)
            (λ k. get_elem?-map pending nodes k) j
          ∙ all_done nodes order j h
          ∙ sym (get_elem?-map check nodes j))
