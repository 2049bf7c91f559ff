-- ===== src/Handler/Routes/Answers.antt =====
-- What `BGP` answers from a file of routes, and what is kept of an answer.
use looking_glass.Common.{
  ℕ, ◌≡◌, ap, ◌∙◌, List, [], true, Option, none, some, if◌then◌else◌, Text, Text-discrete, codes,
  lookup-assign_self,
}
use looking_glass.Ip.{Address}
use looking_glass.Radix.Longest.{Deepest}
use looking_glass.RateLimit.{allow}
use looking_glass.Report.Ephemeral as Ephemeral
use looking_glass.Report.Ephemeral.{get, put}
use looking_glass.Report.Id.{new_id}
use looking_glass.Bgp.Trie.{Route, or_nil, root_for}
use looking_glass.Bgp.Table.{address_bits, routes_for, listed}
use looking_glass.Bgp.Store as Bgp
use looking_glass.Bgp.Store.{decoded, load, has_default, store_lookup_ip}
use looking_glass.Bgp.Store.Index.{parsed}
use looking_glass.Bgp.Store.Load.{loaded-AddressAnswer}
use looking_glass.Strings.{trim_space, to_lower}
use looking_glass.Validator.{validate_target}
use looking_glass.Handler.{Request, query_get, client_ip}
use looking_glass.Handler.Capture.Kept.{with_entry, capture_json-with_entry}
use looking_glass.Handler.Gate.{
  Env, Action, go, ◌>>=◌, ◌>>◌, refuse_if, require, require_target, require_rate, respond,
}
use looking_glass.Handler.Gate.Passing.{
  counted, >>=-go, require-go, refuse_if-none, require_rate-go,
}
use looking_glass.Handler.Routes.{
  Answer, Lookups, Keeping, type_ip, ip_routes, or_lookup_error, find_routes, to_answer, captured,
  answer_captured, give_answer, not_blank, bgp_steps, bgp,
}
use looking_glass.Handler.State.{State, Response, json}

-- A request of type ip whose query passes the guards.
pub record Passes (env : Env) (l : Lookups) (r : Request) (s : State) (query : Text) : Type 0 where
  pub of_ip : to_lower (trim_space (query_get r (codes "type"))) ≡ type_ip
  pub named : trim_space (query_get r (codes "query")) ≡ query
  pub not_empty : not_blank query ≡ true
  pub allowed : (allow s.rl (client_ip env.client r) l.now).1 ≡ true
  pub valid : validate_target env.network.parsers query ≡ none

find_routes-ip :
    (env : Env) (query : Text) (s : State) (routes : List Route)
    → validate_target env.network.parsers query ≡ none
    → store_lookup_ip env.network.parsers s.store query ≡ Bgp.ok routes
    → find_routes {R = Answer} env type_ip query s ≡ (go routes, s)
unfolding find_routes require_target Text-discrete
find_routes-ip env query s routes valid found =
    >>=-go (refuse_if (validate_target env.network.parsers query)) (λ u. ip_routes env query) s s tt
      (refuse_if-none Answer (validate_target env.network.parsers query) s valid)
    ∙ ap (λ o. or_lookup_error o s) found

-- The handler on a type and a query.
abbrev steps_on :
    Env → Lookups → Keeping Answer → Request → Text → Text → Action Answer (Response Answer)
steps_on env l k r qtype query =
    require (not_blank query) (codes "query parameter is required")
    >> (require_rate env r l.now
        >> (find_routes env qtype query >>= give_answer env l k qtype query))

steps_on-ip :
    (env : Env) (l : Lookups) (k : Keeping Answer) (r : Request) (s : State) (query : Text)
    (routes : List Route)
    → Passes env l r s query
    → store_lookup_ip env.network.parsers s.store query ≡ Bgp.ok routes
    → steps_on env l k r type_ip query s
      ≡ give_answer env l k type_ip query routes (counted env r l.now s)
steps_on-ip env l k r s query routes p found =
    let t = counted env r l.now s in
    let find = find_routes env type_ip query >>= give_answer env l k type_ip query in
    >>=-go (require (not_blank query) (codes "query parameter is required"))
      (λ u. require_rate env r l.now >> find) s s tt
      (require-go Answer (not_blank query) (codes "query parameter is required") s p.not_empty)
    ∙ >>=-go (require_rate env r l.now) (λ u. find) s t tt
        (require_rate-go Answer env r l.now s p.allowed)
    ∙ >>=-go (find_routes env type_ip query) (give_answer env l k type_ip query) t t routes
        (find_routes-ip env query t routes p.valid found)

bgp-ip :
    (env : Env) (l : Lookups) (k : Keeping Answer) (r : Request) (s : State) (query : Text)
    (routes : List Route)
    → Passes env l r s query
    → store_lookup_ip env.network.parsers s.store query ≡ Bgp.ok routes
    → bgp env l k r s ≡ respond (give_answer env l k type_ip query routes (counted env r l.now s))
unfolding bgp bgp_steps
bgp-ip env l k r s query routes p found =
    ap (λ qtype. respond (steps_on env l k r qtype (trim_space (query_get r (codes "query"))) s))
      p.of_ip
    ∙ ap (λ q. respond (steps_on env l k r type_ip q s)) p.named
    ∙ ap respond (steps_on-ip env l k r s query routes p found)

answered_with_entry :
    (k : Keeping Answer) (query id payload : Text) (a : Answer) (s : State)
    (cache : Ephemeral.Cache)
    → s.ephemeral ≡ some cache
    → new_id k.random ≡ some id
    → k.marshal a ≡ some payload
    → respond (answer_captured k query a s) ≡ (
      json (record a { request_id = some id }),
      with_entry cache id
          (record { kind = codes "bgp"; target = query; payload = payload; created_at = k.stored })
          s,
    )
unfolding answer_captured
answered_with_entry k query id payload a s cache has made json_of =
    ap
      (λ o.
        let (t, i) = captured k (codes "bgp") query o s in (json (record a { request_id = i }), t))
      json_of
    ∙ ap (λ p. (json (record a { request_id = p.1 }), p.0))
        (capture_json-with_entry k.stored k.random (codes "bgp") query payload id s cache has made)

-- The answer before it is captured.
abbrev pub answer_of : Env → Lookups → State → Text → List Route → Answer
answer_of env l s query routes = to_answer env l.netip type_ip query routes s

module _ (env : Env) (l : Lookups) (k : Keeping Answer) (r : Request) (s : State) (query : Text)
    (passes : Passes env l r s query) where
  -- A request for the routes of an address, where the store is what a load of a file has left, is
  -- answered with the routes of the longest network of the file that holds the address, counted and
  -- each with what the database has on the address, and with the AS path of the first; or with no
  -- routes, where none of the networks holds it or the routes include a default route.
  pub bgp-loaded :
      (now mtime : ℕ) (routes : List Route) (before : Bgp.Store) (ip : Address)
      → load env.network.parsers now (decoded mtime routes) before ≡ some (s.store, none)
      → env.network.parsers.parse_ip query ≡ some ip
      → (best : Option (List Route)) × (id : Option Text) × ((bgp env l k r s).0
          ≡ json
              (record (answer_of env l s query
                (if has_default (or_nil best) then [] else or_nil best)) { request_id = id }))
        × Deepest
            (λ q. listed (routes_for (root_for ip).0 q (parsed env.network.parsers routes)))
            (address_bits ip)
            none
            best
  unfolding answer_captured
  bgp-loaded now mtime routes before ip has parses =
      let (best, found, deepest) =
        loaded-AddressAnswer env.network.parsers now mtime routes before s.store query ip has
          parses in
      let shown = if has_default (or_nil best) then [] else or_nil best in
      let a = answer_of env l s query shown in
      (
        best,
        (captured k (codes "bgp") query (k.marshal a) (counted env r l.now s)).1,
        ap (λ p. p.0) (bgp-ip env l k r s query shown passes found),
        deepest,
      )

  -- The answer to a request for the routes of an address names an identifier, under which the cache
  -- has the JSON of the answer from then on. (The address can be looked up, an identifier made, and
  -- the answer be written as JSON.)
  pub bgp-kept :
      (routes : List Route) (id payload : Text) (cache : Ephemeral.Cache)
      → store_lookup_ip env.network.parsers s.store query ≡ Bgp.ok routes
      → s.ephemeral ≡ some cache
      → new_id k.random ≡ some id
      → k.marshal (answer_of env l s query routes) ≡ some payload
      → ((bgp env l k r s).0
          ≡ json (record (answer_of env l s query routes) { request_id = some id }))
        × (kept : Ephemeral.Cache) × ((bgp env l k r s).1.ephemeral ≡ some kept)
        × (get kept id
            ≡ some (record {
              kind = codes "bgp";
              target = query;
              payload = payload;
              created_at = k.stored;
            }))
  unfolding get put
  bgp-kept routes id payload cache found has made json_of =
      let entry : Ephemeral.Ephemeral = record {
        kind = codes "bgp";
        target = query;
        payload = payload;
        created_at = k.stored;
      } in
      let whole =
        bgp-ip env l k r s query routes passes found
        ∙ answered_with_entry k query id payload (answer_of env l s query routes)
            (counted env r l.now s) cache has made json_of in
      (
        ap (λ p. p.0) whole,
        put cache id entry,
        ap (λ p. p.1.ephemeral) whole,
        lookup-assign_self Text-discrete id entry (Ephemeral.make_room cache),
      )
