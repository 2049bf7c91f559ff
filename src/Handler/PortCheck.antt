-- ===== src/Handler/PortCheck.antt =====
-- `PortCheck` of internal/handler/proxy.go. What `json.Unmarshal` makes of a body is an argument; a
-- body that is null gives a nil map, to which nothing can be assigned.
pub mod Slots
use looking_glass.Common.{
  ℕ, List, [], ◌∷◌, ◌++◌, Bool, true, false, ◌&&◌, Option, none, some, ◌==◌, leb, ite,
  if◌then◌else◌, Text, Text-discrete, codes,
}
use looking_glass.Nodes.{Node}
use looking_glass.Strings.{ℤ, pos, negsuc, atoi}
use looking_glass.Handler.{Request, client_ip, query_get}
use looking_glass.Handler.Agents.{
  Site, Body, Fetched, bad_request, no_response, response, Agents, Moment, sanitize_err,
  agent_unreachable, require_node, require_live,
}
use looking_glass.Handler.Capture.{capture_json}
use looking_glass.Handler.Gate.{
  Env, Outcome, go, Action, ◌>>=◌, ◌>>◌, require, require_target, require_public, require_rate,
  with_semaphore, with_ip, respond,
}
use looking_glass.Handler.State.{State, Response, refused, said, json, busy, already_active}

pub data Decoded : Type 0 where
  no_object null object : Decoded

-- The body as it is, its object with the identifier if there is one, or nothing, after a panic.
pub data PortAnswer : Type 0 where
  forwarded : Text → PortAnswer
  annotated : Text → Option Text → PortAnswer
  panicked : PortAnswer

unfoldable pub is_port : Option ℤ → Bool
is_port none = false
is_port (some (negsuc n)) = false
is_port (some (pos n)) = leb 1 n && leb n 65_535

abbrev pub with_request_id :
    Decoded → Text → State × Option Text → Outcome PortAnswer (Response PortAnswer) × State
with_request_id null body (s, some id) = (go (json panicked), s)
with_request_id d body (s, id) = (go (json (annotated body id)), s)

unfoldable pub annotate : Moment → Text → Decoded → Text → Action PortAnswer (Response PortAnswer)
unfolding capture_json
annotate w target no_object body s = (go (json (forwarded body)), s)
annotate w target null body s =
    with_request_id null body (capture_json w.stored w.random (codes "portcheck") target body s)
annotate w target object body s =
    with_request_id object body (capture_json w.stored w.random (codes "portcheck") target body s)

abbrev pub bad_gateway : Response PortAnswer
bad_gateway = refused 502 (said agent_unreachable)

unfoldable pub port_reply :
    Moment → (Text → Decoded) → Text → Fetched → Action PortAnswer (Response PortAnswer)
unfolding sanitize_err annotate
port_reply w decode target (bad_request e) s =
    (go (refused 500 (said (codes "internal error: " ++ sanitize_err e))), s)
port_reply w decode target no_response s = (go bad_gateway, s)
port_reply w decode target (response status body) s =
    if body.complete
    then annotate w target (decode body.whole) body.whole s
    else (go bad_gateway, s)

unfoldable pub port_url : Agents → Node → Text → Text → Text
port_url agents node target port =
    node.url
    ++ (codes "/portcheck?" ++ agents.encode ((codes "target", target) ∷ (codes "port", port) ∷ []))

-- `PortCheck`, up to the response.
unfoldable pub port_check_steps :
    Env
    → Site
    → Agents
    → (Text → Decoded)
    → Moment
    → Request
    → Action PortAnswer (Response PortAnswer)
unfolding is_port require_target require_public require_rate require_node require_live
    with_semaphore with_ip port_url port_reply
port_check_steps env site agents decode w r = do
  let target = query_get r (codes "target")
  let port = query_get r (codes "port")
  require_target env target
  require_public env target
  require (is_port (atoi port)) (codes "invalid port")
  require_rate env r w.now
  node ← require_node site (query_get r (codes "node"))
  require_live site node bad_gateway
  with_semaphore (refused 429 (said busy)) (
      with_ip (client_ip env.client r) w.acquired (refused 429 (said already_active))
        (port_reply w decode target (agents.fetch (port_url agents node target port))))

unfoldable pub port_check :
    Env → Site → Agents → (Text → Decoded) → Moment → Request → State → Response PortAnswer × State
unfolding port_check_steps
port_check env site agents decode w r s = respond (port_check_steps env site agents decode w r s)
