-- ===== src/Server/Tests.antt =====
-- A server that starts, and one that does not.
use looking_glass.Common.{
  ◌+◌, ◌-◌, ◌*◌, ◌≤◌, ◌≡◌, refl, [], ◌∷◌, true, false, Option, none, some, arith, Text,
  Text-discrete, ℕ_discrete, codes, lookup,
}
use looking_glass.RateLimit.{second}
use looking_glass.RateLimit.Window.{allows, cleans, grants, end_time}
use looking_glass.Bgp.Sample as Bgp
use looking_glass.Bgp.Store.{open_error, load, new_store}
use looking_glass.Geoip.Sample as Geoip
use looking_glass.Geoip.{no_file}
use looking_glass.Nodes.{node_list, new_liveness}
use looking_glass.Report.Store.Sample.{sample}
use looking_glass.Handler.Sample.{state}
use looking_glass.Server.{Environment, Machine, Running, env_or, start}
use looking_glass.Server.Rates.{start-grants}

abbrev machine : Machine
machine = record {
  parsers = Bgp.net;
  netip = Geoip.net;
  codec = sample;
  now = 3;
  routes_at = λ path. open_error;
  networks_at = λ path. no_file;
  made = λ path. false;
  readable = λ path. true;
  reports_at = λ path. [];
}

abbrev with_secret : Environment
with_secret = (codes "AGENT_SECRET", codes "s") ∷ (codes "LISTEN_ADDR", codes "[::1]:80") ∷ []

abbrev running : Running
running = record {
  handler = record state { rl = state.rl };
  site = record { nodes = node_list; liveness = new_liveness node_list };
  listen_addr = codes "[::1]:80";
}

program : Unit {0}
unfolding env_or start load new_store lookup Text-discrete ℕ_discrete
program = tt

no_secret : start machine [] ≡ none
unfolding program
no_secret = refl

old_setting : start machine ((codes "GEOIP_PATH2", codes "x") ∷ with_secret) ≡ none
unfolding program
old_setting = refl

abbrev the_running : Option Running → Running
the_running none = running
the_running (some r) = r

started : start machine with_secret ≡ some (the_running (start machine with_secret))
unfolding program
started = refl

abbrev alice : Text
alice = codes "alice"

start-grants_example :
    ((60 * second)
        * grants
            (the_running (start machine with_secret)).handler.rl
            alice
            ((5, allows alice) ∷ (9, cleans) ∷ [])
      ≤ 5 * (60 * second) + (end_time 0 ((5, allows alice) ∷ (9, cleans) ∷ []) - 0) * 20)
    × ((3600 * second)
          * grants
              (the_running (start machine with_secret)).handler.promote_rl
              alice
              ((5, allows alice) ∷ (9, cleans) ∷ [])
        ≤ 3 * (3600 * second) + (end_time 0 ((5, allows alice) ∷ (9, cleans) ∷ []) - 0) * 10)
start-grants_example =
    start-grants machine with_secret (the_running (start machine with_secret)) 0 alice
      ((5, allows alice) ∷ (9, cleans) ∷ []) started (omega arith, (omega arith, tt))
