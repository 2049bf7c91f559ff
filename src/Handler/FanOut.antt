-- ===== src/Handler/FanOut.antt =====
-- `PingAll` of internal/handler/proxy.go, and what `HTTPCheckAll` shares with it: a goroutine for each live node writes to
-- its own place of the results. The order in which they write is an argument, a list of places; the
-- bound of eight at a time restricts it only. What asking an agent comes to, with its decoded JSON, is
-- a function of the URL.
pub mod HttpChecks
pub mod Orders
pub mod Results
mod Tests
use looking_glass.Common.{
  ℕ, zero, suc, List, [], ◌∷◌, ◌++◌, Bool, true, false, Option, none, some, if◌then◌else◌, Text,
  codes, map, get_elem?,
}
use looking_glass.Nodes.{Node, live_nodes}
use looking_glass.Strings.{ℤ, pos}
use looking_glass.Validator.{validate_http_target}
use looking_glass.Handler.{Request, query_get}
use looking_glass.Handler.Agents.{Site, agent_unreachable}
use looking_glass.Handler.Gate.{
  Env, Outcome, go, Action, ◌>>=◌, ◌>>◌, unless_fault, require_target, require_public, require_rate,
  respond,
}
use looking_glass.Handler.Routes.{Keeping, captured, not_blank}
use looking_glass.Handler.State.{State, Response, json}

module _ {B : Type 0} where
  unfoldable pub set_at : ℕ → B → List B → List B
  set_at i b [] = []
  set_at zero b (x ∷ xs) = b ∷ xs
  set_at (suc i) b (x ∷ xs) = x ∷ set_at i b xs

  abbrev pub write_result : {A : Type 0} → (A → B) → ℕ → Option A → List B → List B
  write_result check i none results = results
  write_result check i (some n) results = set_at i (check n) results

  -- The goroutines, in the order in which they write.
  unfoldable pub fan_out : {A : Type 0} → (A → B) → List A → List ℕ → List B → List B
  unfolding set_at
  fan_out check nodes [] results = results
  fan_out check nodes (i ∷ order) results =
      fan_out check nodes order (write_result check i (get_elem? nodes i) results)

pub data AgentReply (A : Type 0) : Type 0 where
  no_request : Text → AgentReply A
  no_reply undecoded : AgentReply A
  decoded : A → AgentReply A

pub record AllAnswer (B : Type 0) : Type 0 where
  pub target : Text
  pub results : List B
  pub request_id : Option Text

abbrev pub answer_all :
    {B : Type 0}
    → Keeping (AllAnswer B)
    → Text
    → Text
    → List B
    → Action (AllAnswer B) (Response (AllAnswer B))
answer_all {B} k kind target results s =
    let a : AllAnswer B = record { target = target; results = results; request_id = none } in
    let (t, id) = captured k kind target (k.marshal a) s in
    (go (json (record a { request_id = id })), t)

-- The tests of a float64, and its zero value.
pub record Floats (F : Type 0) : Type 0 where
  pub zero : F
  pub is_hundred : F → Bool
  pub is_positive : F → Bool

-- `agentResp` of `PingAll`
pub record Pinged (F : Type 0) : Type 0 where
  pub sent : ℤ
  pub received : ℤ
  pub loss : F
  pub rtt_min : F
  pub rtt_avg : F
  pub rtt_max : F
  pub error : Text

-- `nodeResult`
pub record PingResult (F : Type 0) : Type 0 where
  pub id : Text
  pub name : Text
  pub ping : Pinged F
  pub status : Text

module _ {F : Type 0} (floats : Floats F) where
  abbrev pub not_pinged : Text → Pinged F
  not_pinged e = record {
    sent = pos 0;
    received = pos 0;
    loss = floats.zero;
    rtt_min = floats.zero;
    rtt_avg = floats.zero;
    rtt_max = floats.zero;
    error = e;
  }

  abbrev pub pending_ping : Node → PingResult F
  pending_ping n = record {
    id = n.id;
    name = n.name;
    ping = not_pinged [];
    status = codes "pending";
  }

  abbrev pub failed_ping : Node → Text → PingResult F
  failed_ping n e = record { id = n.id; name = n.name; ping = not_pinged e; status = codes "error" }

  unfoldable pub ping_status : Pinged F → Text
  ping_status p =
      if not_blank p.error
      then codes "error"
      else if floats.is_hundred p.loss
      then codes "down"
      else if floats.is_positive p.loss
      then codes "degraded"
      else codes "ok"

  unfoldable pub ping_result : Node → AgentReply (Pinged F) → PingResult F
  unfolding ping_status
  ping_result n (no_request e) = failed_ping n e
  ping_result n no_reply = failed_ping n agent_unreachable
  ping_result n undecoded = failed_ping n (codes "invalid response")
  ping_result n (decoded p) = record { id = n.id; name = n.name; ping = p; status = ping_status p }

  unfoldable pub ping_url : Node → Text → Text
  ping_url n target = n.url ++ (codes "/ping-summary?target=" ++ (target ++ codes "&count=4"))

  abbrev pub ping_node : (Text → AgentReply (Pinged F)) → Text → Node → PingResult F
  ping_node fetch target n = ping_result n (fetch (ping_url n target))

  unfoldable pub ping_all_steps :
      Env
      → Site
      → (Text → AgentReply (Pinged F))
      → List ℕ
      → ℕ
      → Keeping (AllAnswer (PingResult F))
      → Request
      → Action (AllAnswer (PingResult F)) (Response (AllAnswer (PingResult F)))
  unfolding require_target require_public require_rate ping_result ping_url fan_out
  ping_all_steps env site fetch order now k r = do
    let target = query_get r (codes "target")
    let live = live_nodes site.liveness site.nodes
    require_target env target
    require_public env target
    require_rate env r now
    answer_all k (codes "ping-all") target
        (fan_out (ping_node fetch target) live order (map pending_ping live))

  -- `PingAll`
  unfoldable pub ping_all :
      Env
      → Site
      → (Text → AgentReply (Pinged F))
      → List ℕ
      → ℕ
      → Keeping (AllAnswer (PingResult F))
      → Request
      → State
      → Response (AllAnswer (PingResult F)) × State
  unfolding ping_all_steps
  ping_all env site fetch order now k r s = respond (ping_all_steps env site fetch order now k r s)
