-- ===== src/Nodes/Tests.antt =====
use looking_glass.Common.{
  ◌≡◌, refl, List, [], ◌∷◌, false, inl, inr, ltb, Text, Text-discrete, ℕ_discrete, codes, lookup,
  assign,
}
use looking_glass.Nodes.{
  Node, sample_node, node_list, dead_after_misses, mark_live, new_liveness, misses_of,
  record_failure, record_success, is_live, live_nodes, Health, no_response, status, is_healthy,
  check_one, check_all,
}
use looking_glass.Nodes.Rounds.{streak, is_live-streak}

abbrev a : Node
a = record sample_node { id = codes "a" }

abbrev b : Node
b = record sample_node { id = codes "b" }

abbrev two : List Node
two = a ∷ b ∷ []

abbrev rounds : List (Text × Health)
rounds =
    (codes "a", status 200)
    ∷ (codes "b", no_response)
    ∷ (codes "b", status 503)
    ∷ (codes "a", no_response)
    ∷ []

program : Unit {0}
unfolding Text-discrete ℕ_discrete lookup assign mark_live new_liveness misses_of record_failure
    record_success is_live live_nodes is_healthy check_one check_all
program = tt

b_dead : live_nodes (check_all (new_liveness two) rounds) two ≡ a ∷ []
unfolding program
b_dead = refl

-- With one identifier in every row of `List`, a single round of failures marks the node dead.
one_round :
    is_live
      (check_all (new_liveness node_list) (
        (codes "node1", no_response)
        ∷ (codes "node1", no_response)
        ∷ (codes "node1", no_response)
        ∷ (codes "node1", no_response)
        ∷ []))
      (codes "node1")
    ≡ false
unfolding program
one_round = refl

is_live-streak_example :
    is_live (check_all (new_liveness two) rounds) (codes "b")
    ≡ ltb (streak (codes "b") 0 rounds) dead_after_misses
is_live-streak_example = is_live-streak two (codes "b") rounds (inr (inl refl))
