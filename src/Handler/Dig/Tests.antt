-- ===== src/Handler/Dig/Tests.antt =====
-- Two resolvers, in both orders.
use mathlib.Core.List.{Permᴰ}
use looking_glass.Common.{
  ◌+◌, ◌≡◌, refl, List, [], ◌∷◌, ◌++◌, false, Text, Text-discrete, ℕ_discrete, codes, lookup,
  assign,
}
use looking_glass.Strings.{is_space, fields, trim_space, cut_prefix, after_first}
use looking_glass.Handler.Dig.{
  Run, ran, choose_qtype, qtypes, normalized, read_answers, bump, bump_all, count_run, count_runs,
  no_votes,
}
use looking_glass.Handler.Dig.Votes.{count_of, resolvers, repeats, answered, count_runs-Perm}

abbrev output : List Text
output =
    codes ";; ANSWER SECTION:" ∷ codes "example.org.  300 IN A 192.0.2.1" ∷ codes "; a comment" ∷ []

abbrev one : Text × Run
one = (codes "8.8.8.8", ran output)

abbrev two : Text × Run
two = (codes "1.1.1.1", ran [])

abbrev found : Text
found = codes "example.org. IN A 192.0.2.1"

program : Unit {0}
unfolding is_space fields trim_space cut_prefix after_first choose_qtype normalized read_answers
    bump bump_all count_run count_runs lookup assign Text-discrete ℕ_discrete
program = tt

counted :
    count_runs false no_votes (one ∷ two ∷ one ∷ [])
    ≡ record { answers = (found, 2) ∷ []; successes = 2; debug_lines = [] }
unfolding program
counted = refl

other_type : choose_qtype qtypes (codes "ANY") ≡ codes "A"
unfolding program
other_type = refl

-- One resolver that gives a record twice has two votes.
twice :
    count_runs false no_votes
      ((codes "8.8.8.8", ran (output ++ codes "example.org. 300 IN A 192.0.2.1" ∷ [])) ∷ [])
    ≡ record { answers = (found, 2) ∷ []; successes = 1; debug_lines = [] }
unfolding program
twice = refl

count_runs-Perm_example :
    (count_of found (count_runs false no_votes (one ∷ two ∷ [])).answers
      ≡ resolvers found (one ∷ two ∷ []) + repeats found (one ∷ two ∷ []))
    × ((count_runs false no_votes (one ∷ two ∷ [])).successes ≡ answered (one ∷ two ∷ []))
    × (count_of found (count_runs false no_votes (two ∷ one ∷ [])).answers
        ≡ resolvers found (one ∷ two ∷ []) + repeats found (one ∷ two ∷ []))
    × ((count_runs false no_votes (two ∷ one ∷ [])).successes ≡ answered (one ∷ two ∷ []))
count_runs-Perm_example =
    count_runs-Perm false found (one ∷ two ∷ []) (two ∷ one ∷ []) (Permᴰ.swap refl refl)
