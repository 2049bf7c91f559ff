-- ===== src/Handler/Agents.antt =====
-- What the handlers of internal/handler/proxy.go share: the nodes and their liveness as a request
-- finds them, the HTTP client, and `sanitizeErr` of internal/handler/handler.go. What asking an agent
-- comes to is a function of the URL; the secret that goes with it is the same for all.
use looking_glass.Common.{
  ℕ, List, [], ◌∷◌, Bool, true, false, ◌||◌, Option, none, some, ite, if◌then◌else◌, Text,
  Text-discrete, codes,
}
use looking_glass.Nodes.{Node, Liveness, is_live, live_nodes}
use looking_glass.Strings.{cut_prefix, after_first, contains, or_whole}
use looking_glass.Handler.Gate.{go, stop, Action}
use looking_glass.Handler.State.{Response, refused, said, json}

pub record Site : Type 0 where
  pub nodes : List Node
  pub liveness : Liveness

-- A response's body: what `io.ReadAll` reads and whether it comes to the end, the lines that a
-- scanner gives, and the pieces that `Read` gives, these with the answers of `r.Context().Done()`.
pub record Body : Type 0 where
  pub whole : Text
  pub complete : Bool
  pub lines : List (Bool × Text)
  pub chunks : List (Bool × Text)

pub data Fetched : Type 0 where
  bad_request : Text → Fetched
  no_response : Fetched
  response : ℕ → Body → Fetched

-- `client.Do`, and `url.Values.Encode`.
pub record Agents : Type 0 where
  pub fetch : Text → Fetched
  pub encode : List (Text × Text) → Text

-- The clock at the limiter, at the slot and at the cache, whether the writer can flush, and the
-- random bytes.
pub record Moment : Type 0 where
  pub now : ℕ
  pub acquired : ℕ
  pub stored : ℕ
  pub flusher : Bool
  pub random : Option (List ℕ)

-- `sanitizeErr`, of an error
unfoldable pub sanitize_err : Text → Text
unfolding cut_prefix after_first
sanitize_err msg =
    if contains (codes "dial tcp ") msg
      || (contains (codes "read tcp ") msg || contains (codes "write tcp ") msg)
    then or_whole msg (after_first (codes "->") msg)
    else msg

abbrev pub agent_unreachable : Text
agent_unreachable = codes "agent unreachable"

-- The loop that looks for a node.
unfoldable pub find_node : Text → List Node → Option Node
find_node id [] = none
find_node id (n ∷ nodes) =
    let rest = find_node id nodes in ite (Text-discrete n.id id) (some n) rest

abbrev pub is_live_at : Site → Node → Bool
is_live_at site n = is_live site.liveness n.id

module _ {R : Type 0} where
  abbrev pub known_node : Option Node → Action R Node
  known_node none s = (stop (refused 400 (said (codes "unknown node"))), s)
  known_node (some n) s = (go n, s)

  -- The node of an identifier, or an answer that there is none.
  unfoldable pub require_node : Site → Text → Action R Node
  unfolding find_node
  require_node site id = known_node (find_node id site.nodes)

  abbrev pub go_if : Bool → Response R → Action R (Unit {0})
  go_if true x s = (go tt, s)
  go_if false x s = (stop x, s)

  -- `nodes.IsLive`
  unfoldable pub require_live : Site → Node → Response R → Action R (Unit {0})
  require_live site n dead = go_if (is_live_at site n) dead

-- `publicNode`
pub record PublicNode : Type 0 where
  pub id : Text
  pub name : Text
  pub location : Text

abbrev pub public_nodes : List Node → List PublicNode
public_nodes [] = []
public_nodes (n ∷ nodes) =
    record { id = n.id; name = n.name; location = n.location } ∷ public_nodes nodes

-- `Nodes`
unfoldable pub list_nodes : Site → Response (List PublicNode)
list_nodes site = json (public_nodes (live_nodes site.liveness site.nodes))
