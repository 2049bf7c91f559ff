-- ===== src/Server.antt =====
-- main.go: what the server starts with. The environment is a list of names and values; what is found
-- at the paths is an argument.
pub mod Rates
mod Tests
use looking_glass.Common.{
  ℕ, List, [], ◌∷◌, Bool, true, false, ◌||◌, not, Option, none, some, if◌then◌else◌, Text,
  Text-discrete, codes, lookup,
}
use looking_glass.Ip.{Parsers}
use looking_glass.RateLimit.{new, new_per_hour}
use looking_glass.Bgp.Store as Bgp
use looking_glass.Bgp.Store.{Opened}
use looking_glass.Geoip as Geoip
use looking_glass.Geoip.{Netip, Source, open_db}
use looking_glass.Nodes.{node_list, new_liveness}
use looking_glass.Report.Store as Reports
use looking_glass.Handler.{or_empty}
use looking_glass.Handler.Agents.{Site}
use looking_glass.Handler.Routes.{not_blank}
use looking_glass.Handler.State.{State, new_handler}

abbrev pub Environment : Type 0
Environment = List (Text × Text)

-- `os.Getenv`
abbrev pub getenv : Environment → Text → Text
getenv env key = or_empty (lookup Text-discrete key env)

-- `envOr`
unfoldable pub env_or : Environment → Text → Text → Text
env_or env key fallback = let v = getenv env key in if not_blank v then v else fallback

-- The libraries, the clock, and what is at a path: the routes, the networks, and the directory of the
-- reports with whether it could be made and read.
pub record Machine : Type 0 where
  pub parsers : Parsers
  pub netip : Netip
  pub codec : Reports.Codec
  pub now : ℕ
  pub routes_at : Text → Opened
  pub networks_at : Text → Source
  pub made : Text → Bool
  pub readable : Text → Bool
  pub reports_at : Text → Reports.Disk

abbrev pub opened_geo : Geoip.Loaded Geoip.Db → Option Geoip.Db
opened_geo (Geoip.ok db) = some db
opened_geo (Geoip.err e) = none

-- A server that takes requests: the handler, the nodes, and the address it listens on.
pub record Running : Type 0 where
  pub handler : State
  pub site : Site
  pub listen_addr : Text

-- `main` from the store of routes on.
abbrev pub start_with : Machine → Environment → Option Bgp.Store → Option Running
start_with m env none = none
start_with m env (some store) = some (record {
  handler =
      new_handler store
        (opened_geo (
          open_db m.netip (
            m.networks_at (
              env_or env (codes "GEOIP_PATH")
                (codes "/var/lib/looking-glass/ipinfo_lite.csv.gz")))))
        (new 20 5) (some [])
        (let dir = env_or env (codes "REPORTS_DIR") (codes "/var/lib/looking-glass/reports") in
          Reports.new_store m.codec m.now (m.made dir) (m.readable dir) (m.reports_at dir))
        (new_per_hour 10 3) (getenv env (codes "LOOKING_GLASS_RESOLVERS"));
  site = record { nodes = node_list; liveness = new_liveness node_list };
  listen_addr = env_or env (codes "LISTEN_ADDR") (codes "127.0.0.1:8082");
})

-- `main`, up to the requests; `none` if it refuses to start, or if the load of the routes panics. The
-- secret of the agents is checked before, by `init` of internal/nodes/nodes.go.
unfoldable pub start : Machine → Environment → Option Running
unfolding env_or
start m env =
    if not (not_blank (getenv env (codes "AGENT_SECRET")))
      || not_blank (getenv env (codes "GEOIP_PATH2"))
    then none
    else start_with m env (
        Bgp.new_store m.parsers m.now (
          m.routes_at
            (env_or env (codes "BGP_DATA_PATH") (codes "/var/lib/looking-glass/bgp.json"))))
