-- ===== src/Handler/Proxy/Tests.antt =====
-- A check that an agent runs.
use looking_glass.Common.{
  ◌≡◌, refl, ap, ◌∙◌, [], ◌∷◌, ◌++◌, true, false, some, Text, Text-discrete, ℕ_discrete, codes,
  lookup, assign, delete,
}
use looking_glass.Nodes.{sample_node, new_liveness, mark_live, is_live}
use looking_glass.RateLimit.{allow, allow_entry}
use looking_glass.Report.Ephemeral as Ephemeral
use looking_glass.Report.Id.{new_id, encode_to_string}
use looking_glass.Strings.{is_space, trim_space, cut_prefix, after_first, trim_last, split}
use looking_glass.Validator.{
  is_alnum, match_rest, match_hostname, member, contains_any, validate_target, is_private_ip,
  any_private, check_resolved, check_literal, validate_not_private,
}
use looking_glass.Validator.Sample.{parse_four, starts, resolve_name}
use looking_glass.Handler.{Request, client_ip, acquire_ip, release_ip}
use looking_glass.Handler.Agents.{
  Site, Fetched, no_response, response, Agents, Moment, find_node, require_node, require_live,
}
use looking_glass.Handler.Capture.{begin_capture, finish_capture, remember}
use looking_glass.Handler.Gate.{
  require_target, require_public, require_rate, require_flusher, with_semaphore, with_ip,
}
use looking_glass.Handler.Proxy.{
  host_of, is_action, agent_url, raw_chunks, give_reply, proxy_steps, proxy,
}
use looking_glass.Handler.Proxy.Targets.{host_of-url}
use looking_glass.Handler.Proxy.Urls.{IsSafeUrl, proxy-fetch}
use looking_glass.Handler.Relay.{is_end, relay, stream_proxy}
use looking_glass.Handler.Sample.{env, request, random, id, join_lines, state}
use looking_glass.Handler.State.{line, event, stream}

abbrev site : Site
site = record { nodes = sample_node ∷ []; liveness = new_liveness (sample_node ∷ []) }

-- Every URL leads to an agent.
answer_all : Text → Fetched
answer_all url = response 200 (record {
  whole = [];
  complete = true;
  lines = (false, codes "data: hop") ∷ (false, []) ∷ (false, codes "data: [DONE]") ∷ [];
  chunks = [];
})

-- Only one does.
answer_one : Text → Fetched
answer_one url = elim (Text-discrete url (codes "http://127.0.0.1:9090/ping?q")) [
  | yes same ↦ answer_all url
  | no other ↦ no_response
]

abbrev agents : Agents
agents = record { fetch = answer_all; encode = λ q. codes "q" }

abbrev moment : Moment
moment = record { now = 5; acquired = 6; stored = 7; flusher = true; random = some random }

abbrev asked : Request
asked = request (
    (codes "node", codes "node1")
    ∷ (codes "action", codes "ping")
    ∷ (codes "target", codes "https://example.org/index")
    ∷ [])

program : Unit {0}
unfolding parse_four starts resolve_name is_alnum match_rest match_hostname member contains_any
    validate_target is_private_ip any_private check_resolved check_literal validate_not_private
    is_space trim_space cut_prefix after_first trim_last split Text-discrete ℕ_discrete new_id
    encode_to_string lookup assign delete Ephemeral.get Ephemeral.put allow allow_entry acquire_ip
    release_ip client_ip begin_capture finish_capture remember require_target require_public
    require_rate require_flusher with_semaphore with_ip join_lines mark_live new_liveness is_live
    find_node require_node require_live host_of is_action agent_url raw_chunks give_reply
    proxy_steps proxy is_end relay stream_proxy answer_all answer_one
program = tt

passed_on :
    (proxy env site agents moment asked state).0
    ≡ stream (event (codes "request_id") id ∷ line (codes "hop") ∷ line (codes "[DONE]") ∷ [])
unfolding program
passed_on = refl

host_of-url_example :
    (host_of (codes "example.org/index") ≡ codes "example.org")
    × (host_of (codes "http://example.org/index") ≡ codes "example.org")
    × (host_of (codes "https://example.org/index") ≡ codes "example.org")
host_of-url_example =
    host_of-url (codes "example.org") (some (codes "index"))
      (refl, (refl, (refl, (refl, (refl, (refl, (refl, (refl, (refl, (refl, (refl, tt)))))))))))
      (refl, (refl, (refl, (refl, (refl, (refl, (refl, (refl, (refl, (refl, (refl, tt)))))))))))

answer_one-same :
    (url : Text) → IsSafeUrl env site agents asked url → answer_all url ≡ answer_one url
unfolding program
answer_one-same url h =
    let is : h.node ≡ sample_node = cc (h.named) in
    let spelled : url ≡ codes "http://127.0.0.1:9090/ping?q" =
      h.spelled ∙ ap (λ n. n.url ++ codes "/ping?q") is in
    rw spelled refl

proxy-fetch_example :
    proxy env site agents moment asked state
    ≡ proxy env site (record agents { fetch = answer_one }) moment asked state
proxy-fetch_example = proxy-fetch env site agents moment answer_one asked state answer_one-same
