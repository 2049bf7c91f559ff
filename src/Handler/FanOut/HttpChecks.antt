-- ===== src/Handler/FanOut/HttpChecks.antt =====
-- `HTTPCheckAll` of internal/handler/proxy.go.
use looking_glass.Common.{ℕ, List, [], ◌∷◌, ◌++◌, if◌then◌else◌, Text, codes, map}
use looking_glass.Nodes.{Node, live_nodes}
use looking_glass.Strings.{ℤ, pos}
use looking_glass.Validator.{validate_http_target}
use looking_glass.Handler.{Request, query_get}
use looking_glass.Handler.Agents.{Site}
use looking_glass.Handler.FanOut.{
  fan_out, AgentReply, no_request, no_reply, undecoded, decoded, AllAnswer, answer_all, Floats,
}
use looking_glass.Handler.Gate.{Env, Action, ◌>>◌, unless_fault, require_rate, respond}
use looking_glass.Handler.Routes.{Keeping, not_blank}
use looking_glass.Handler.State.{State, Response}

module _ {F : Type 0} (floats : Floats F) where
  -- `agentResp` of `HTTPCheckAll`
  pub record HttpChecked : Type 0 where
    pub status_code : ℤ
    pub reason : Text
    pub elapsed_ms : F
    pub ip : Text
    pub error : Text

  pub record HttpResult : Type 0 where
    pub id : Text
    pub name : Text
    pub check : HttpChecked
    pub status : Text

  abbrev pub not_checked : Text → HttpChecked
  not_checked e = record {
    status_code = pos 0;
    reason = [];
    elapsed_ms = floats.zero;
    ip = [];
    error = e;
  }

  abbrev pub pending_check : Node → HttpResult
  pending_check n = record {
    id = n.id;
    name = n.name;
    check = not_checked [];
    status = codes "pending";
  }

  abbrev pub failed_check : Node → Text → HttpResult
  failed_check n e = record {
    id = n.id;
    name = n.name;
    check = not_checked e;
    status = codes "error";
  }

  unfoldable pub http_result : Node → AgentReply HttpChecked → HttpResult
  http_result n (no_request e) = failed_check n (codes "connection_failed")
  http_result n no_reply = failed_check n (codes "agent_unreachable")
  http_result n undecoded = failed_check n (codes "invalid_response")
  http_result n (decoded c) =
      if not_blank c.error
      then failed_check n c.error
      else record { id = n.id; name = n.name; check = c; status = codes "ok" }

  unfoldable pub http_url : (List (Text × Text) → Text) → Node → Text → Text
  http_url encode n target =
      n.url ++ (codes "/http-check?" ++ encode ((codes "target", target) ∷ []))

  abbrev pub check_node :
      (List (Text × Text) → Text) → (Text → AgentReply HttpChecked) → Text → Node → HttpResult
  check_node encode fetch target n = http_result n (fetch (http_url encode n target))

  unfoldable pub http_check_all_steps :
      Env
      → Site
      → (List (Text × Text) → Text)
      → (Text → AgentReply HttpChecked)
      → List ℕ
      → ℕ
      → Keeping (AllAnswer HttpResult)
      → Request
      → Action (AllAnswer HttpResult) (Response (AllAnswer HttpResult))
  unfolding require_rate http_result http_url fan_out
  http_check_all_steps env site encode fetch order now k r = do
    let target = query_get r (codes "target")
    let live = live_nodes site.liveness site.nodes
    unless_fault (validate_http_target env.network target)
    require_rate env r now
    answer_all k (codes "http-check") target
        (fan_out (check_node encode fetch target) live order (map pending_check live))

  -- `HTTPCheckAll`
  unfoldable pub http_check_all :
      Env
      → Site
      → (List (Text × Text) → Text)
      → (Text → AgentReply HttpChecked)
      → List ℕ
      → ℕ
      → Keeping (AllAnswer HttpResult)
      → Request
      → State
      → Response (AllAnswer HttpResult) × State
  unfolding http_check_all_steps
  http_check_all env site encode fetch order now k r s =
      respond (http_check_all_steps env site encode fetch order now k r s)
