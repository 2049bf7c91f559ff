-- ===== src/Handler/FanOut/Results.antt =====
-- What `PingAll` and `HTTPCheckAll` answer.
use looking_glass.Common.{ℕ, ◌≡◌, ap, ◌∙◌, List, true, Option, none, Text, codes, map}
use looking_glass.Ip.{Address}
use looking_glass.RateLimit.{allow}
use looking_glass.Nodes.{live_nodes}
use looking_glass.Validator.{ok, validate_target, validate_not_private, validate_http_target}
use looking_glass.Handler.{Request, client_ip, query_get}
use looking_glass.Handler.Agents.{Site}
use looking_glass.Handler.FanOut.{
  AgentReply, AllAnswer, answer_all, Floats, Pinged, PingResult, pending_ping, ping_node, fan_out,
  ping_all_steps, ping_all,
}
use looking_glass.Handler.FanOut.HttpChecks.{
  HttpChecked, HttpResult, pending_check, check_node, http_check_all_steps, http_check_all,
}
use looking_glass.Handler.FanOut.Orders.{Covers, fan_out-map}
use looking_glass.Handler.Gate.{
  Env, Action, ◌>>◌, refuse_if, unless_fault, require_target, require_public, require_rate, respond,
}
use looking_glass.Handler.Gate.Passing.{
  counted, >>=-go, refuse_if-none, unless_fault-ok, require_rate-go,
}
use looking_glass.Handler.Routes.{Keeping, captured}
use looking_glass.Handler.State.{State, Response, json}

module _ {F : Type 0} (floats : Floats F) (env : Env) (site : Site) (order : List ℕ) (now : ℕ)
    (r : Request) (s : State) where
  rate_then :
      {B : Type 0} (m : Action B (Response B))
      → (allow s.rl (client_ip env.client r) now).1 ≡ true
      → (require_rate env r now >> m) s ≡ m (counted env r now s)
  rate_then {B} m allowed =
      >>=-go (require_rate env r now) (λ u. m) s (counted env r now s) tt
        (require_rate-go B env r now s allowed)

  -- A request to ping from all nodes that passes the guards is answered with the results of the live
  -- nodes, in the order of the list, each as its own agent's reply decides, in whatever order the
  -- agents answer.
  pub ping_all-results :
      (fetch : Text → AgentReply (Pinged F)) (k : Keeping (AllAnswer (PingResult F)))
      (resolved : Option Address)
      → Covers order (live_nodes site.liveness site.nodes)
      → validate_target env.network.parsers (query_get r (codes "target")) ≡ none
      → validate_not_private env.network (query_get r (codes "target")) ≡ ok resolved
      → (allow s.rl (client_ip env.client r) now).1 ≡ true
      → (id : Option Text) × ((ping_all floats env site fetch order now k r s).0
          ≡ json (record {
            target = query_get r (codes "target");
            results =
                map
                  (ping_node floats fetch (query_get r (codes "target")))
                  (live_nodes site.liveness site.nodes);
            request_id = id;
          }))
  unfolding ping_all ping_all_steps require_target require_public
  ping_all-results fetch k resolved covers valid outside allowed =
      let target = query_get r (codes "target") in
      let live = live_nodes site.liveness site.nodes in
      let check = ping_node floats fetch target in
      let answer =
        λ (results : List (PingResult F)). answer_all k (codes "ping-all") target results in
      let results = fan_out check live order (map (pending_ping floats) live) in
      let a : AllAnswer (PingResult F) = record {
        target = target;
        results = map check live;
        request_id = none;
      } in
      (
        (captured k (codes "ping-all") target (k.marshal a) (counted env r now s)).1,
        ap (λ p. (respond p).0)
            (>>=-go (refuse_if (validate_target env.network.parsers target))
                (λ u.
                  unless_fault (validate_not_private env.network target)
                  >> (require_rate env r now >> answer results))
                s s tt
                (refuse_if-none (AllAnswer (PingResult F))
                  (validate_target env.network.parsers target) s valid)
              ∙ >>=-go (unless_fault (validate_not_private env.network target))
                  (λ o. require_rate env r now >> answer results) s s resolved
                  (unless_fault-ok (AllAnswer (PingResult F))
                    (validate_not_private env.network target) resolved s outside)
              ∙ rate_then (answer results) allowed
              ∙ ap (λ xs. answer xs (counted env r now s))
                  (fan_out-map check (pending_ping floats) live order covers)),
      )

  -- The same for checks over HTTP.
  pub http_check_all-results :
      (encode : List (Text × Text) → Text) (fetch : Text → AgentReply (HttpChecked floats))
      (k : Keeping (AllAnswer (HttpResult floats))) (resolved : Option Address)
      → Covers order (live_nodes site.liveness site.nodes)
      → validate_http_target env.network (query_get r (codes "target")) ≡ ok resolved
      → (allow s.rl (client_ip env.client r) now).1 ≡ true
      → (id : Option Text) × ((http_check_all floats env site encode fetch order now k r s).0
          ≡ json (record {
            target = query_get r (codes "target");
            results =
                map
                  (check_node floats encode fetch (query_get r (codes "target")))
                  (live_nodes site.liveness site.nodes);
            request_id = id;
          }))
  unfolding http_check_all http_check_all_steps
  http_check_all-results encode fetch k resolved covers valid allowed =
      let target = query_get r (codes "target") in
      let live = live_nodes site.liveness site.nodes in
      let check = check_node floats encode fetch target in
      let answer =
        λ (results : List (HttpResult floats)). answer_all k (codes "http-check") target results in
      let results = fan_out check live order (map (pending_check floats) live) in
      let a : AllAnswer (HttpResult floats) = record {
        target = target;
        results = map check live;
        request_id = none;
      } in
      (
        (captured k (codes "http-check") target (k.marshal a) (counted env r now s)).1,
        ap (λ p. (respond p).0)
            (>>=-go (unless_fault (validate_http_target env.network target))
                (λ o. require_rate env r now >> answer results) s s resolved
                (unless_fault-ok (AllAnswer (HttpResult floats))
                  (validate_http_target env.network target) resolved s valid)
              ∙ rate_then (answer results) allowed
              ∙ ap (λ xs. answer xs (counted env r now s))
                  (fan_out-map check (pending_check floats) live order covers)),
      )
