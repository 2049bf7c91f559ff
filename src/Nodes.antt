-- ===== src/Nodes.antt =====
-- internal/nodes: the registered measurement nodes and their liveness. The two maps are association
-- lists; each recording runs under the tracker's mutex and is one step. A round of health checks is
-- the list of its results in the order in which the goroutines record them.
pub mod Rounds
mod Tests
use looking_glass.Common.{
  ℕ, ◌+◌, List, [], ◌∷◌, Bool, true, false, Option, none, some, leb, ◌==◌, if◌then◌else◌, Text,
  Text-discrete, codes, lookup, assign, foldl, keep,
}

pub record Node : Type 0 where
  pub id : Text
  pub name : Text
  pub location : Text
  pub ip : Text
  pub url : Text

-- `List`, as the repository has it.
abbrev pub sample_node : Node
sample_node = record {
  id = codes "node1";
  name = 67 ∷ 105 ∷ 116 ∷ 121 ∷ 32 ∷ 226 ∷ 128 ∷ 148 ∷ 32 ∷ 73 ∷ 83 ∷ 80 ∷ [];
  location = codes "City";
  ip = codes "0.0.0.0";
  url = codes "http://127.0.0.1:9090";
}

abbrev pub node_list : List Node
node_list = sample_node ∷ sample_node ∷ sample_node ∷ sample_node ∷ []

abbrev pub dead_after_misses : ℕ
dead_after_misses = 2

pub record Liveness : Type 0 where
  pub live : List (Text × Bool)
  pub misses : List (Text × ℕ)

-- A map read of Go: the zero value for a key that is missing.
abbrev pub or_zero : Option ℕ → ℕ
or_zero none = 0
or_zero (some n) = n

abbrev pub or_false : Option Bool → Bool
or_false none = false
or_false (some b) = b

unfoldable pub mark_live : List (Text × Bool) → List Node → List (Text × Bool)
mark_live live [] = live
mark_live live (n ∷ nodes) = mark_live (assign Text-discrete n.id true live) nodes

unfoldable pub new_liveness : List Node → Liveness
unfolding mark_live
new_liveness nodes = record { live = mark_live [] nodes; misses = [] }

pub misses_of : Liveness → Text → ℕ
misses_of l id = or_zero (lookup Text-discrete id l.misses)

pub record_failure : Liveness → Text → Liveness
unfolding misses_of
record_failure l id =
    let n = misses_of l id + 1 in
    record {
      live = if leb dead_after_misses n then assign Text-discrete id false l.live else l.live;
      misses = assign Text-discrete id n l.misses;
    }

pub record_success : Liveness → Text → Liveness
record_success l id = record {
  live = assign Text-discrete id true l.live;
  misses = assign Text-discrete id 0 l.misses;
}

unfoldable pub is_live : Liveness → Text → Bool
is_live l id = or_false (lookup Text-discrete id l.live)

unfoldable pub live_nodes : Liveness → List Node → List Node
unfolding is_live
live_nodes l nodes = keep (λ n. is_live l n.id) nodes

-- What a health check of a node comes to: no request, no response, or a status code.
pub data Health : Type 0 where
  no_request no_response : Health
  status : ℕ → Health

pub is_healthy : Health → Bool
is_healthy no_request = false
is_healthy no_response = false
is_healthy (status code) = code == 200

pub check_one : Liveness → Text × Health → Liveness
unfolding record_failure record_success is_healthy
check_one l (id, health) = if is_healthy health then record_success l id else record_failure l id

-- Rounds of checks, by the order in which they are recorded.
pub check_all : Liveness → List (Text × Health) → Liveness
unfolding check_one
check_all l [] = l
check_all l (x ∷ xs) = check_all (check_one l x) xs
