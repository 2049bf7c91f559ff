-- ===== src/Handler/Dig/Votes.antt =====
-- How many resolvers gave a record.
use mathlib.Core.List.{Permᴰ}
use looking_glass.Common.{
  ℕ, ◌+◌, ◌-◌, min, ◌≡◌, refl, ap, sym, ◌∙◌, List, [], ◌∷◌, Bool, true, false, ite, if◌then◌else◌,
  Text, Text-discrete, lookup, lookup-assign, arith,
}
use looking_glass.Nodes.{or_zero}
use looking_glass.Handler.Dig.{
  read_answers, Run, no_pipe, no_start, ran, Tally, bump, bump_all, noted, count_answers, count_run,
  count_runs, no_votes,
}

-- How often a record is in a list.
unfoldable pub occurrences : Text → List Text → ℕ
occurrences r [] = 0
occurrences r (x ∷ records) = ite (Text-discrete x r) 1 0 + occurrences r records

abbrev pub records_of : Run → List Text
records_of no_pipe = []
records_of no_start = []
records_of (ran lines) = (read_answers false lines).1

abbrev pub has_answer : Run → Bool
has_answer no_pipe = false
has_answer no_start = false
has_answer (ran lines) = (read_answers false lines).0

-- The sums over the resolvers.
votes : Text → List (Text × Run) → ℕ
votes r [] = 0
votes r (x ∷ runs) = occurrences r (records_of x.1) + votes r runs

-- How many resolvers returned the record, and how often one of them returned it again.
unfoldable pub resolvers : Text → List (Text × Run) → ℕ
resolvers r [] = 0
resolvers r (x ∷ runs) = min 1 (occurrences r (records_of x.1)) + resolvers r runs

unfoldable pub repeats : Text → List (Text × Run) → ℕ
repeats r [] = 0
repeats r (x ∷ runs) = (occurrences r (records_of x.1) - 1) + repeats r runs

votes-resolvers :
    (r : Text) (runs : List (Text × Run)) → votes r runs ≡ resolvers r runs + repeats r runs
unfolding votes resolvers repeats
votes-resolvers r [] = omega arith
votes-resolvers r (x ∷ runs) = omega (arith, votes-resolvers r runs)

unfoldable pub answered : List (Text × Run) → ℕ
answered [] = 0
answered (x ∷ runs) = (if has_answer x.1 then 1 else 0) + answered runs

votes-Perm : (r : Text) (xs ys : List (Text × Run)) → Permᴰ xs ys → votes r xs ≡ votes r ys
unfolding votes
votes-Perm r _ _ Permᴰ.nil = refl
votes-Perm r (x ∷ xs) (y ∷ ys) (Permᴰ.cons e p) =
    omega (arith, votes-Perm r xs ys p, ap (λ z. occurrences r (records_of z.1)) e)
votes-Perm r (x ∷ y ∷ xs) (z ∷ w ∷ _) (Permᴰ.swap e f) =
    omega (
      arith,
      ap (λ u. occurrences r (records_of u.1)) e,
      ap (λ u. occurrences r (records_of u.1)) f,
    )
votes-Perm r xs zs (Permᴰ.trans {l₂ = ys} p q) = votes-Perm r xs ys p ∙ votes-Perm r ys zs q

abbrev point : Text × Run → ℕ
point x = if has_answer x.1 then 1 else 0

answered-Perm : (xs ys : List (Text × Run)) → Permᴰ xs ys → answered xs ≡ answered ys
unfolding answered
answered-Perm _ _ Permᴰ.nil = refl
answered-Perm (x ∷ xs) (y ∷ ys) (Permᴰ.cons e p) = omega (arith, answered-Perm xs ys p, ap point e)
answered-Perm (x ∷ y ∷ xs) (z ∷ w ∷ _) (Permᴰ.swap e f) = omega (arith, ap point e, ap point f)
answered-Perm xs zs (Permᴰ.trans {l₂ = ys} p q) = answered-Perm xs ys p ∙ answered-Perm ys zs q

abbrev pub count_of : Text → List (Text × ℕ) → ℕ
count_of r m = or_zero (lookup Text-discrete r m)

count_of-bump :
    (r x : Text) (m : List (Text × ℕ))
    → count_of r (bump x m) ≡ count_of r m + ite (Text-discrete x r) 1 0
unfolding bump
count_of-bump r x m = ground (arith, lookup-assign Text-discrete r x (count_of x m + 1) m)

count_of-bump_all :
    (r : Text) (records : List Text) (m : List (Text × ℕ))
    → count_of r (bump_all records m) ≡ count_of r m + occurrences r records
unfolding bump_all occurrences
count_of-bump_all r [] m = omega arith
count_of-bump_all r (x ∷ records) m =
    omega (arith, count_of-bump_all r records (bump x m), count_of-bump r x m)

-- What a run adds to a tally.
record Counts (r : Text) (t u : Tally) (run : Run) : Type 0 where
  votes : count_of r u.answers ≡ count_of r t.answers + occurrences r (records_of run)
  successes : u.successes ≡ t.successes + (if has_answer run then 1 else 0)

noted-Counts :
    (debug : Bool) (resolver what r : Text) (t u : Tally) (run : Run)
    → Counts r t u run
    → Counts r t (noted debug resolver what u) run
noted-Counts true resolver what r t u run c = record { votes = c.votes; successes = c.successes }
noted-Counts false resolver what r t u run c = c

no_more : (n : ℕ) → n ≡ n + 0
no_more n = omega arith

count_answers-Counts :
    (debug : Bool) (r : Text) (t : Tally) (resolver : Text) (lines : List Text)
    (p : Bool × List Text)
    → read_answers false lines ≡ p
    → Counts r t (count_answers debug resolver p t) (ran lines)
count_answers-Counts debug r t resolver lines (true, records) e = record {
  votes =
      count_of-bump_all r records t.answers
      ∙ ap (λ q. count_of r t.answers + occurrences r q.1) (sym e);
  successes = ap (λ q. t.successes + (if q.0 then 1 else 0)) (sym e);
}
count_answers-Counts debug r t resolver lines (false, records) e =
    noted-Counts debug resolver _ r t (record t { answers = bump_all records t.answers })
      (ran lines)
      (record {
        votes =
            count_of-bump_all r records t.answers
            ∙ ap (λ q. count_of r t.answers + occurrences r q.1) (sym e);
        successes = no_more t.successes ∙ ap (λ q. t.successes + (if q.0 then 1 else 0)) (sym e);
      })

count_run-Counts :
    (debug : Bool) (r : Text) (t : Tally) (resolver : Text) (run : Run)
    → Counts r t (count_run debug t (resolver, run)) run
unfolding count_run occurrences
count_run-Counts debug r t resolver no_pipe =
    noted-Counts debug resolver _ r t t no_pipe
      (record { votes = omega arith; successes = omega arith })
count_run-Counts debug r t resolver no_start =
    noted-Counts debug resolver _ r t t no_start
      (record { votes = omega arith; successes = omega arith })
count_run-Counts debug r t resolver (ran lines) =
    count_answers-Counts debug r t resolver lines (read_answers false lines) refl

tallied :
    (debug : Bool) (r : Text) (t : Tally) (runs : List (Text × Run))
    → (count_of r (count_runs debug t runs).answers ≡ count_of r t.answers + votes r runs)
      × ((count_runs debug t runs).successes ≡ t.successes + answered runs)
unfolding count_runs votes answered
tallied debug r t [] = (omega arith, omega arith)
tallied debug r t (x ∷ runs) =
    let c = count_run-Counts debug r t x.0 x.1 in
    let (v, n) = tallied debug r (count_run debug t x) runs in
    (omega (arith, v, c.votes), omega (arith, n, c.successes))

-- The number at a record is how many resolvers returned it and, on top, how often one of them
-- returned it again in the same output: each line of an output counts. The resolvers with an answer
-- are counted. If the resolvers end in another order, none of this changes.
pub count_runs-Perm :
    (debug : Bool) (r : Text) (xs ys : List (Text × Run))
    → Permᴰ xs ys
    → (count_of r (count_runs debug no_votes xs).answers ≡ resolvers r xs + repeats r xs)
      × ((count_runs debug no_votes xs).successes ≡ answered xs)
      × (count_of r (count_runs debug no_votes ys).answers ≡ resolvers r xs + repeats r xs)
      × ((count_runs debug no_votes ys).successes ≡ answered xs)
count_runs-Perm debug r xs ys p =
    let (v, n) = tallied debug r no_votes xs in
    let (v', n') = tallied debug r no_votes ys in
    let start : count_of r [] ≡ 0 = unfold lookup in refl in
    let a = votes-Perm r xs ys p in
    let b = answered-Perm xs ys p in
    let c = votes-resolvers r xs in
    (
      omega (arith, v, start, c),
      omega (arith, n),
      omega (arith, v', start, a, c),
      omega (arith, n', b),
    )
