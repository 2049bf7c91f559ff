-- ===== src/Handler/State.antt =====
-- The struct `Handler` and `New` of internal/handler/handler.go, and the responses of the handlers.
-- `index` is not kept: the server passes nil, and the files of the site are served by another
-- handler. A semaphore is the number of its slots that are taken.
use looking_glass.Common.{ℕ, List, [], ◌∷◌, ◌++◌, Option, Text, codes, map}
use looking_glass.Strings.{split, trim_space}
use looking_glass.Bgp.Store as Bgp
use looking_glass.Geoip as Geoip
use looking_glass.RateLimit.{Limiter}
use looking_glass.Report.Ephemeral as Ephemeral
use looking_glass.Report.Store as Store
use looking_glass.Validator.{Fault}
use looking_glass.Handler.{Sem}

pub record State : Type 0 where
  pub store : Bgp.Store
  pub geo : Option Geoip.Db
  pub rl : Limiter
  pub semaphore : ℕ
  pub ip_sem : Sem
  pub resolvers : List Text
  pub ephemeral : Option Ephemeral.Cache
  pub reports : Option Store.Store
  pub promote_rl : Limiter

abbrev pub max_probes : ℕ
max_probes = 30

abbrev pub default_resolvers : List Text
default_resolvers =
    codes "8.8.8.8"
    ∷ codes "8.8.4.4"
    ∷ codes "1.1.1.1"
    ∷ codes "1.0.0.1"
    ∷ codes "9.9.9.9"
    ∷ codes "149.112.112.112"
    ∷ []

-- `LOOKING_GLASS_RESOLVERS`, where it is set.
unfoldable pub choose_resolvers : Text → List Text
choose_resolvers [] = default_resolvers
choose_resolvers (c ∷ env) = map trim_space (split b',' (c ∷ env))

-- `New`
unfoldable pub new_handler :
    Bgp.Store
    → Option Geoip.Db
    → Limiter
    → Option Ephemeral.Cache
    → Option Store.Store
    → Limiter
    → Text
    → State
unfolding choose_resolvers
new_handler store geo rl ephemeral reports promote_rl env = record {
  store = store;
  geo = geo;
  rl = rl;
  semaphore = 0;
  ip_sem = [];
  resolvers = choose_resolvers env;
  ephemeral = ephemeral;
  reports = reports;
  promote_rl = promote_rl;
}

-- The message of an error: that of a validator or of the BGP store, or a text.
pub data Problem : Type 0 where
  invalid : Fault → Problem
  no_lookup : Bgp.LookupError → Problem
  said : Text → Problem

-- What is written to an event stream: by `sseLine`, `sseErr`, `sseDone` and `sseEvent`, or bytes as
-- they came from an agent.
pub data Frame : Type 0 where
  line failed raw : Text → Frame
  done : Frame
  event : Text → Text → Frame

-- `writeError` with its status, the plain error where streaming is not supported, an event stream, or
-- `writeJSON`; `aborted` for a handler that panics, of which net/http drops the connection.
pub data Response {ℓ} (R : Type ℓ) : Type ℓ where
  refused : ℕ → Problem → Response R
  no_streaming : Response R
  stream : List Frame → Response R
  json : R → Response R
  aborted : Response R

-- The texts of errors that several handlers share.
abbrev pub dash : Text
dash = 32 ∷ 226 ∷ 128 ∷ 148 ∷ 32 ∷ []

abbrev pub rate_limited : Text
rate_limited = codes "rate limited" ++ (dash ++ codes "try again in a minute")

abbrev pub busy : Text
busy = codes "server busy" ++ (dash ++ codes "too many concurrent requests")

abbrev pub already_active : Text
already_active = codes "you already have an active request" ++ (dash ++ codes "please wait")
