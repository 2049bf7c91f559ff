-- ===== src/Handler/Proxy.antt =====
-- `Proxy` of internal/handler/proxy.go: a check that an agent runs.
pub mod Targets
pub mod Slots
pub mod Urls
mod Tests
use looking_glass.Common.{
  ℕ, List, [], ◌∷◌, ◌++◌, Bool, true, false, ◌||◌, Option, none, some, ◌==◌, ite, if◌then◌else◌,
  Text, Text-discrete, codes,
}
use looking_glass.Ip.{Address}
use looking_glass.Nodes.{Node}
use looking_glass.Strings.{trim_prefix, trim_last, trim_space, split}
use looking_glass.Handler.{Request, client_ip, query_get}
use looking_glass.Handler.Agents.{
  Site, Body, Fetched, bad_request, no_response, response, Agents, Moment, sanitize_err,
  agent_unreachable, require_node, require_live,
}
use looking_glass.Handler.Gate.{
  Env, Outcome, go, Action, ◌>>=◌, ◌>>◌, require, require_target, require_public, require_rate,
  require_flusher, with_semaphore, with_ip, respond,
}
use looking_glass.Handler.Relay.{stream_proxy}
use looking_glass.Handler.Routes.{not_blank}
use looking_glass.Handler.State.{State, Frame, failed, raw, Response, stream, busy, already_active}

abbrev pub first_part : List Text → Text
first_part [] = []
first_part (part ∷ parts) = part

-- The host of a target that may be a URL.
unfoldable pub host_of : Text → Text
unfolding trim_last split
host_of target = first_part (
    split b'/'
      (trim_last b'/' (trim_prefix (codes "http://") (trim_prefix (codes "https://") target))))

abbrev pub is_text : Text → Text → Bool
is_text a b = ite (Text-discrete a b) true false

abbrev pub is_streamed : Text → Bool
is_streamed action = is_text action (codes "ping") || is_text action (codes "traceroute")

unfoldable pub is_action : Text → Bool
is_action action = is_streamed action || is_text action (codes "portcheck")

-- The parameter that goes on to the agent.
abbrev pub option_of : Text → Text
option_of action =
    if is_text action (codes "ping")
    then codes "count"
    else if is_text action (codes "traceroute")
    then codes "maxhops"
    else codes "port"

abbrev pub with_option : Text → Text → List (Text × Text) → List (Text × Text)
with_option name v q = if not_blank v then (name, v) ∷ q else q

unfoldable pub agent_url : Agents → Node → Text → Text → Request → Text
agent_url agents node action target r =
    node.url
    ++ (b'/' ∷ action
        ++ (b'?'
            ∷ agents.encode (
                with_option (option_of action) (query_get r (option_of action))
                  ((codes "target", target) ∷ []))))

-- The loop over the pieces of the body.
unfoldable pub raw_chunks : List (Bool × Text) → List Frame
raw_chunks [] = []
raw_chunks ((gone, chunk) ∷ chunks) =
    let rest = raw chunk ∷ raw_chunks chunks in if gone then [] else rest

abbrev pub streamed : List Frame × State → Outcome (Unit {0}) (Response (Unit {0})) × State
streamed (frames, s) = (go (stream frames), s)

abbrev pub pass_on : Env → Moment → Text → Text → Body → Action (Unit {0}) (Response (Unit {0}))
pass_on env w action target body s =
    if is_streamed action
    then streamed (stream_proxy env w.random w.stored action target body.lines s)
    else (go (stream (raw_chunks body.chunks)), s)

-- What is answered for what the agent says.
unfoldable pub give_reply :
    Env → Moment → Text → Text → Fetched → Action (Unit {0}) (Response (Unit {0}))
unfolding sanitize_err raw_chunks stream_proxy
give_reply env w action target (bad_request e) s =
    (go (stream (failed (codes "failed to create request: " ++ sanitize_err e) ∷ [])), s)
give_reply env w action target no_response s = (go (stream (failed agent_unreachable ∷ [])), s)
give_reply env w action target (response status body) s =
    if status == 200
    then pass_on env w action target body s
    else (go (stream (failed (codes "agent error: " ++ trim_space body.whole) ∷ [])), s)

-- `Proxy`, up to the response.
unfoldable pub proxy_steps :
    Env → Site → Agents → Moment → Request → Action (Unit {0}) (Response (Unit {0}))
unfolding host_of is_action require_target require_public require_rate require_node require_flusher
    require_live with_semaphore with_ip agent_url give_reply
proxy_steps env site agents w r = do
  let action = query_get r (codes "action")
  let target = host_of (query_get r (codes "target"))
  require_target env target
  require_public env target
  require (is_action action) (codes "action must be ping, traceroute, or portcheck")
  require_rate env r w.now
  node ← require_node site (query_get r (codes "node"))
  require_flusher w.flusher
  require_live site node (stream (failed agent_unreachable ∷ []))
  with_semaphore (stream (failed busy ∷ [])) (
      with_ip (client_ip env.client r) w.acquired (stream (failed already_active ∷ []))
        (give_reply env w action target (agents.fetch (agent_url agents node action target r))))

unfoldable pub proxy : Env → Site → Agents → Moment → Request → State → Response (Unit {0}) × State
unfolding proxy_steps
proxy env site agents w r s = respond (proxy_steps env site agents w r s)
