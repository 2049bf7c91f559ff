-- ===== src/Handler/Sample.antt =====
-- Surroundings to run the handlers in.
use looking_glass.Common.{ℕ, ◌+◌, List, [], ◌∷◌, ◌++◌, Option, none, some, Text, codes}
use looking_glass.Ip.{Address}
use looking_glass.RateLimit.{new, new_per_hour}
use looking_glass.Report.Ephemeral as Ephemeral
use looking_glass.Validator.Sample.{net}
use looking_glass.Handler.{Request, Net}
use looking_glass.Handler.Gate.{Env, Extra}
use looking_glass.Handler.State.{State, default_resolvers}

-- Addresses are in their canonical form, and peers have no port.
abbrev pub client_net : Net
client_net = record { canonical = some; host_of = λ s. none }

unfoldable pub spell : Address → Text
spell ip = codes "the address"

unfoldable pub spell_number : ℕ → Text
spell_number n = (48 + n) ∷ []

unfoldable pub join_lines : Text → Extra → List Text → Option Text
join_lines target extra [] = some target
join_lines target extra (l ∷ lines) = some (target ++ l)

abbrev pub env : Env
env = record {
  network = net;
  client = client_net;
  to_string = spell;
  itoa = spell_number;
  marshal_lines = join_lines;
}

abbrev pub request : List (Text × Text) → Request
request query = record { forwarded_for = []; real_ip = codes "a"; remote_addr = []; query = query }

abbrev pub random : List ℕ
random =
    0 ∷ 1 ∷ 15 ∷ 16 ∷ 171 ∷ 255 ∷ 7 ∷ 8 ∷ 9 ∷ 10 ∷ 11 ∷ 12 ∷ 13 ∷ 14 ∷ 200 ∷ 201 ∷ 202 ∷ 203 ∷ 204
    ∷ 205 ∷ []

abbrev pub id : Text
id = codes "00010f10abff0708090a0b0c0d0ec8c9cacbcccd"

abbrev pub cache : Ephemeral.Cache
cache = []

abbrev pub state : State
state = record {
  ephemeral = some cache;
  reports = none;
  store = record { current = none };
  geo = none;
  semaphore = 0;
  ip_sem = [];
  resolvers = default_resolvers;
  rl = new 60 10;
  promote_rl = new_per_hour 10 10;
}
