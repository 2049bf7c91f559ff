-- ===== src/Handler/Proxy/Urls.antt =====
-- The URLs that `Proxy` can ask for.
use looking_glass.Common.{
  ◌≡◌, refl, ap, [], ◌∷◌, Bool, true, false, Option, none, some, Text, codes,
}
use looking_glass.Ip.{Address}
use looking_glass.Nodes.{Node, is_live}
use looking_glass.Validator.{ok, validate_target, validate_not_private}
use looking_glass.Handler.{Request, client_ip, query_get}
use looking_glass.Handler.Agents.{
  Site, Fetched, Agents, Moment, known_node, find_node, require_node, is_live_at, go_if,
  require_live, agent_unreachable,
}
use looking_glass.Handler.Gate.{
  Env, go, Action, ◌>>=◌, ◌>>◌, require, require_target, require_public, require_rate,
  require_flusher, with_semaphore, with_ip, respond,
}
use looking_glass.Handler.Gate.Agree.{
  Agree, >>=-Agree, with_semaphore-Agree, with_ip-Agree, refuse_if-go, unless_fault-go,
  require-if_go,
}
use looking_glass.Handler.Proxy.{host_of, is_action, agent_url, give_reply, proxy_steps, proxy}
use looking_glass.Handler.State.{State, Response, stream, failed, busy, already_active}

-- A URL that a request may lead to: of a live node of the list, with a target that passed the checks.
pub record IsSafeUrl (env : Env) (site : Site) (agents : Agents) (r : Request) (url : Text)
    : Type 0 where
  pub node : Node
  pub resolved : Option Address
  pub named : find_node (query_get r (codes "node")) site.nodes ≡ some node
  pub live : is_live site.liveness node.id ≡ true
  pub checked : validate_target env.network.parsers (host_of (query_get r (codes "target"))) ≡ none
  pub outside :
      validate_not_private env.network (host_of (query_get r (codes "target"))) ≡ ok resolved
  pub action : is_action (query_get r (codes "action")) ≡ true
  pub spelled :
      url
      ≡ agent_url agents node
          (query_get r (codes "action"))
          (host_of (query_get r (codes "target")))
          r

known_node-go :
    (R : Type 0) (o : Option Node) (n : Node) (s : State)
    → (known_node {R = R} o s).0 ≡ go n
    → o ≡ some n
known_node-go R none n s h = cc h
known_node-go R (some m) n s h = cc h

go_if-go :
    (R : Type 0) (b : Bool) (x : Response R) (u : Unit {0}) (s : State)
    → (go_if b x s).0 ≡ go u
    → b ≡ true
go_if-go R true x u s h = refl
go_if-go R false x u s h = cc h

safe :
    (env : Env) (site : Site) (agents : Agents) (r : Request) (node : Node) (o : Option Address)
    (u v w : Unit {0}) (s0 s1 s2 s3 s4 : State)
    → (require_target {R = Unit {0}} env (host_of (query_get r (codes "target"))) s0).0 ≡ go u
    → (require_public {R = Unit {0}} env (host_of (query_get r (codes "target"))) s1).0 ≡ go o
    → (require {R = Unit {0}}
        (is_action (query_get r (codes "action")))
        (codes "action must be ping, traceroute, or portcheck")
        s2).0
      ≡ go v
    → (require_node {R = Unit {0}} site (query_get r (codes "node")) s3).0 ≡ go node
    → (require_live {R = Unit {0}} site node (stream (failed agent_unreachable ∷ [])) s4).0 ≡ go w
    → IsSafeUrl env site agents r (
        agent_url agents node
          (query_get r (codes "action"))
          (host_of (query_get r (codes "target")))
          r)
unfolding require_target require_public require_node require_live
safe env site agents r node o u v w s0 s1 s2 s3 s4 h0 h1 h2 h3 h4 =
    let target = host_of (query_get r (codes "target")) in
    record {
      node = node;
      resolved = o;
      named =
          known_node-go (Unit {0}) (find_node (query_get r (codes "node")) site.nodes) node s3 h3;
      live =
          go_if-go (Unit {0}) (is_live_at site node) (stream (failed agent_unreachable ∷ [])) w s4
            h4;
      checked = refuse_if-go (Unit {0}) (validate_target env.network.parsers target) u s0 h0;
      outside = unless_fault-go (Unit {0}) (validate_not_private env.network target) o s1 h1;
      action =
          require-if_go (Unit {0}) (is_action (query_get r (codes "action")))
            (codes "action must be ping, traceroute, or portcheck") v s2 h2;
      spelled = refl;
    }

proxy_steps-Agree :
    (env : Env) (site : Site) (agents : Agents) (w : Moment) (other : Text → Fetched) (r : Request)
    → ((url : Text) → IsSafeUrl env site agents r url → agents.fetch url ≡ other url)
    → Agree
        (proxy_steps env site agents w r)
        (proxy_steps env site (record agents { fetch = other }) w r)
unfolding proxy_steps agent_url
proxy_steps-Agree env site agents w other r same =
    let action = query_get r (codes "action") in
    let target = host_of (query_get r (codes "target")) in
    let msg = codes "action must be ping, traceroute, or portcheck" in
    let dead : Response (Unit {0}) = stream (failed agent_unreachable ∷ []) in
    let ask : Agents → Node → Action (Unit {0}) (Response (Unit {0})) = λ a node.
      with_semaphore (stream (failed busy ∷ [])) (
        with_ip (client_ip env.client r) w.acquired (stream (failed already_active ∷ []))
          (give_reply env w action target (a.fetch (agent_url a node action target r)))) in
    let if_live : Agents → Node → Action (Unit {0}) (Response (Unit {0})) =
      λ a node. require_flusher w.flusher >> (require_live site node dead >> ask a node) in
    let at_node : Agents → Action (Unit {0}) (Response (Unit {0})) =
      λ a. require_node site (query_get r (codes "node")) >>= if_live a in
    let rated : Agents → Action (Unit {0}) (Response (Unit {0})) =
      λ a. require (is_action action) msg >> (require_rate env r w.now >> at_node a) in
    let b = record agents { fetch = other } in
    >>=-Agree (require_target env target) (λ u. require_public env target >> rated agents)
      (λ u. require_public env target >> rated b)
      (λ s0 u h0.
        >>=-Agree (require_public env target) (λ o. rated agents) (λ o. rated b)
          (λ s1 o h1.
            >>=-Agree (require (is_action action) msg)
              (λ v. require_rate env r w.now >> at_node agents)
              (λ v. require_rate env r w.now >> at_node b)
              (λ s2 v h2.
                >>=-Agree (require_rate env r w.now) (λ x. at_node agents) (λ x. at_node b)
                  (λ s5 x h5.
                    >>=-Agree (require_node site (query_get r (codes "node"))) (if_live agents)
                      (if_live b)
                      (λ s3 node h3.
                        >>=-Agree (require_flusher w.flusher)
                          (λ y. require_live site node dead >> ask agents node)
                          (λ y. require_live site node dead >> ask b node)
                          (λ s6 y h6.
                            >>=-Agree (require_live site node dead) (λ z. ask agents node)
                              (λ z. ask b node)
                              (λ s4 z h4. with_semaphore-Agree _ _ _ (
                                with_ip-Agree _ _ _ _ _ (record {
                                  at = λ t.
                                      ap (λ f. give_reply env w action target f t)
                                        (same (agent_url agents node action target r) (
                                          safe env site agents r node o u v z s0 s1 s2 s3 s4 h0 h1
                                            h2 h3 h4));
                                })))))))))

-- What a request to pass on comes to depends on no answer but those to URLs of a live node of the
-- list, for a target that is well formed and stands for no private address, and for one of the three
-- checks: whatever else is there to ask, it is not asked.
pub proxy-fetch :
    (env : Env) (site : Site) (agents : Agents) (w : Moment) (other : Text → Fetched) (r : Request)
    (s : State)
    → ((url : Text) → IsSafeUrl env site agents r url → agents.fetch url ≡ other url)
    → proxy env site agents w r s ≡ proxy env site (record agents { fetch = other }) w r s
unfolding proxy
proxy-fetch env site agents w other r s same =
    ap respond ((proxy_steps-Agree env site agents w other r same).at s)
