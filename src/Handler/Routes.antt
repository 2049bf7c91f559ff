-- ===== src/Handler/Routes.antt =====
-- `BGP` of internal/handler/handler.go, on the store of routes and the database of networks. The
-- JSON of the answer is an argument. A nil list and an empty one are the same here.
pub mod Answers
mod Tests
use looking_glass.Common.{
  ℕ, List, [], ◌∷◌, Bool, true, false, ◌&&◌, Option, none, some, ite, Text, Text-discrete, codes,
  length, map,
}
use looking_glass.Ip.{Parsers}
use looking_glass.Bgp.Trie.{Route}
use looking_glass.Bgp.Store as Bgp
use looking_glass.Bgp.Store.{store_lookup_ip, store_lookup_prefix, lookup_asn}
use looking_glass.Geoip as Geoip
use looking_glass.Geoip.{Netip, db_lookup, db_lookup_asn}
use looking_glass.Strings.{trim_space, to_lower}
use looking_glass.Validator.{Checked, validate_prefix, validate_asn}
use looking_glass.Handler.{Request, query_get}
use looking_glass.Handler.Capture.{capture_json}
use looking_glass.Handler.Gate.{
  Env, Outcome, go, stop, Action, ◌>>=◌, ◌>>◌, refuse_if, unless_fault, require, require_target,
  require_rate, respond,
}
use looking_glass.Handler.State.{State, no_lookup, Response, refused, json, aborted}

-- `enrichedRoute`
pub record EnrichedRoute : Type 0 where
  pub route : Route
  pub geo : Option Geoip.Record

-- An entry of `aspathEnriched`.
pub record AsInfo : Type 0 where
  pub asn : ℕ
  pub name : Text
  pub domain : Text

pub record Answer : Type 0 where
  pub qtype : Text
  pub count : ℕ
  pub routes : List EnrichedRoute
  pub aspath_enriched : List AsInfo
  pub request_id : Option Text

-- What `BGP` and `IPInfo` call besides: `net/netip`, and the clock at the limiter.
pub record Lookups : Type 0 where
  pub netip : Netip
  pub now : ℕ

-- The random bytes, the clock at the cache, and `json.Marshal` of the answer.
pub record Keeping (A : Type 0) : Type 0 where
  pub random : Option (List ℕ)
  pub stored : ℕ
  pub marshal : A → Option Text

abbrev pub type_ip : Text
type_ip = codes "ip"

abbrev pub type_prefix : Text
type_prefix = codes "prefix"

abbrev pub type_asn : Text
type_asn = codes "asn"

abbrev pub or_lookup_error : {R : Type 0} → Bgp.Result (List Route) → Action R (List Route)
or_lookup_error (Bgp.ok routes) s = (go routes, s)
or_lookup_error (Bgp.err e) s = (stop (refused 400 (no_lookup e)), s)

abbrev pub ip_routes : {R : Type 0} → Env → Text → Action R (List Route)
ip_routes env query s = or_lookup_error (store_lookup_ip env.network.parsers s.store query) s

-- A lookup that panics ends the request.
abbrev pub or_abort : {R : Type 0} → Option (Bgp.Result (List Route)) → Action R (List Route)
or_abort none s = (stop aborted, s)
or_abort (some result) s = or_lookup_error result s

abbrev pub prefix_routes : {R : Type 0} → Env → Text → Action R (List Route)
prefix_routes env query s = or_abort (store_lookup_prefix env.network.parsers s.store query) s

abbrev pub asn_routes : {R : Type 0} → ℕ → Action R (List Route)
asn_routes asn s = (go (lookup_asn s.store asn), s)

-- The `switch` on the type.
unfoldable pub find_routes : {R : Type 0} → Env → Text → Text → Action R (List Route)
unfolding require_target
find_routes env qtype query =
    ite (Text-discrete qtype type_ip) (require_target env query >> ip_routes env query) (
      ite (Text-discrete qtype type_prefix)
        (refuse_if (validate_prefix env.network.parsers query) >> prefix_routes env query)
        (ite (Text-discrete qtype type_asn) (unless_fault (validate_asn query) >>= asn_routes)
          (require false (codes "type must be ip, prefix, or asn") >> λ s. (go [], s))))

abbrev pub geo_of : Netip → Text → Option Geoip.Db → Option Geoip.Record
geo_of netip query none = none
geo_of netip query (some db) = db_lookup netip db query

-- The record of the query, where it is an address.
abbrev pub geo_for : Netip → Text → Text → Option Geoip.Db → Option Geoip.Record
geo_for netip qtype query geo = ite (Text-discrete qtype type_ip) (geo_of netip query geo) none

abbrev pub enrich : Option Geoip.Record → List Route → List EnrichedRoute
enrich geo routes = map (λ r. record { route = r; geo = geo }) routes

abbrev pub info_of : ℕ → Option Geoip.Record → AsInfo
info_of asn none = record { asn = asn; name = []; domain = [] }
info_of asn (some rec) = record { asn = asn; name = rec.as_name; domain = rec.as_domain }

-- The AS path of the first route.
abbrev pub enrich_path : (ℕ → Text) → Option Geoip.Db → List Route → List AsInfo
enrich_path itoa none routes = []
enrich_path itoa (some db) [] = []
enrich_path itoa (some db) (r ∷ routes) =
    map (λ asn. info_of asn (db_lookup_asn itoa db asn)) r.as_path

abbrev pub to_answer : Env → Netip → Text → Text → List Route → State → Answer
to_answer env netip qtype query routes s = record {
  qtype = qtype;
  count = length (enrich (geo_for netip qtype query s.geo) routes);
  routes = enrich (geo_for netip qtype query s.geo) routes;
  aspath_enriched = enrich_path env.itoa s.geo routes;
  request_id = none;
}

-- `captureJSON`, where there is a JSON to capture.
abbrev pub captured :
    {A : Type 0} → Keeping A → Text → Text → Option Text → State → State × Option Text
captured k kind target none s = (s, none)
captured k kind target (some payload) s = capture_json k.stored k.random kind target payload s

unfoldable pub answer_captured : Keeping Answer → Text → Answer → Action Answer (Response Answer)
unfolding capture_json
answer_captured k query a s =
    let (t, id) = captured k (codes "bgp") query (k.marshal a) s in
    (go (json (record a { request_id = id })), t)

abbrev pub give_answer :
    Env → Lookups → Keeping Answer → Text → Text → List Route → Action Answer (Response Answer)
give_answer env l k qtype query routes s =
    answer_captured k query (to_answer env l.netip qtype query routes s) s

abbrev pub not_blank : Text → Bool
not_blank [] = false
not_blank (c ∷ s) = true

unfoldable pub bgp_steps :
    Env → Lookups → Keeping Answer → Request → Action Answer (Response Answer)
unfolding require_rate find_routes answer_captured
bgp_steps env l k r = do
  let qtype = to_lower (trim_space (query_get r (codes "type")))
  let query = trim_space (query_get r (codes "query"))
  require (not_blank query) (codes "query parameter is required")
  require_rate env r l.now
  routes ← find_routes env qtype query
  give_answer env l k qtype query routes

-- `BGP`
unfoldable pub bgp : Env → Lookups → Keeping Answer → Request → State → Response Answer × State
unfolding bgp_steps
bgp env l k r s = respond (bgp_steps env l k r s)
