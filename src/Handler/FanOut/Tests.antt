-- ===== src/Handler/FanOut/Tests.antt =====
-- All live nodes are asked.
use looking_glass.Common.{
  ℕ, suc, zero, ◌<◌, ◌≡◌, refl, List, [], ◌∷◌, Bool, true, false, Option, some, ◌==◌, arith, Text,
  Text-discrete, ℕ_discrete, codes, map, lookup, assign,
}
use looking_glass.Nodes.{Node, sample_node, new_liveness, mark_live, is_live, live_nodes}
use looking_glass.RateLimit.{allow, allow_entry}
use looking_glass.Strings.{pos, trim_space, is_space}
use looking_glass.Validator.{
  is_alnum, match_rest, match_hostname, member, contains_any, validate_target, is_private_ip,
  any_private, check_resolved, check_literal, validate_not_private, check_url, validate_http_target,
}
use looking_glass.Validator.Sample.{parse_four, starts, resolve_name, public_ip}
use looking_glass.Handler.{Request, client_ip}
use looking_glass.Handler.Agents.{Site}
use looking_glass.Handler.FanOut.{
  AgentReply, no_reply, decoded, Floats, Pinged, ping_node, ping_all,
}
use looking_glass.Handler.FanOut.HttpChecks.{HttpChecked}
use looking_glass.Handler.FanOut.Orders.{is_done}
use looking_glass.Handler.FanOut.Results.{ping_all-results}
use looking_glass.Handler.Routes.{Keeping}
use looking_glass.Handler.Sample.{env, request, random, state}
use looking_glass.Handler.State.{json}

abbrev other_node : Node
other_node = record sample_node { id = codes "node2"; url = codes "http://127.0.0.1:9091" }

abbrev nodes : List Node
nodes = sample_node ∷ other_node ∷ []

abbrev site : Site
site = record { nodes = nodes; liveness = new_liveness nodes }

-- Whole numbers in place of floats.
abbrev floats : Floats ℕ
floats = record { zero = 0; is_hundred = λ n. n == 100; is_positive = λ n. if_zero n }
  where
    if_zero : ℕ → Bool
    if_zero zero = false
    if_zero (suc n) = true

abbrev asked : Request
asked = request ((codes "target", codes "example.org") ∷ [])

abbrev asked_http : Request
asked_http = request ((codes "target", codes "https://example.org") ∷ [])

-- The second node answers, the first does not.
reply : Text → AgentReply (Pinged ℕ)
reply [] = no_reply
reply (c ∷ url) = decoded (record {
  sent = pos 4;
  received = pos 3;
  loss = 25;
  rtt_min = 1;
  rtt_avg = 2;
  rtt_max = 3;
  error = [];
})

check_reply : Text → AgentReply (HttpChecked floats)
check_reply url = no_reply

abbrev keeping : {A : Type 0} → Keeping A
keeping = record { random = some random; stored = 7; marshal = λ a. some (codes "json") }

covered : (i : ℕ) → i < 2 → is_done i (1 ∷ 0 ∷ []) ≡ true
unfolding is_done
covered i h = ground arith

program : Unit {0}
unfolding parse_four starts resolve_name is_alnum match_rest match_hostname member contains_any
    validate_target is_private_ip any_private check_resolved check_literal validate_not_private
    check_url validate_http_target Text-discrete ℕ_discrete lookup assign allow allow_entry
    client_ip trim_space is_space mark_live new_liveness is_live live_nodes
program = tt

ping_all-results_example :
    (id : Option Text) × ((ping_all floats env site reply (1 ∷ 0 ∷ []) 5 keeping asked state).0
      ≡ json (record {
        target = codes "example.org";
        results =
            map
              (ping_node floats reply (codes "example.org"))
              (live_nodes site.liveness site.nodes);
        request_id = id;
      }))
unfolding program
ping_all-results_example =
    ping_all-results floats env site (1 ∷ 0 ∷ []) 5 asked state reply keeping (some public_ip)
      covered refl refl refl
