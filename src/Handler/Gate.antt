-- ===== src/Handler/Gate.antt =====
-- The guards that the handlers of internal/handler begin with, as actions on the handler's state
-- that may answer early. The slots that a `defer` gives back are given back whatever the rest of the
-- handler answers.
pub mod Balance
pub mod Agree
pub mod Passing
use looking_glass.Common.{
  ℕ, ◌+◌, ◌-◌, List, Bool, true, false, Option, none, some, leb, if◌then◌else◌, Text, codes,
}
use looking_glass.Ip.{Address}
use looking_glass.RateLimit.{allow}
use looking_glass.Validator.{
  Fault, Checked, ok, err, Network, validate_target, validate_not_private,
}
use looking_glass.Handler.{Request, Net, client_ip, acquire_ip, release_ip}
use looking_glass.Handler.State.{
  State, Problem, invalid, said, Response, refused, no_streaming, max_probes, rate_limited,
}

-- The libraries that the handlers call, besides those of the validator and of `clientIP`: the texts
-- of addresses and numbers, and the JSON of a result with its lines.
pub data Extra : Type 0 where
  nothing : Extra
  number : Text → ℕ → Extra
  word : Text → Text → Extra

pub record Env : Type 0 where
  pub network : Network
  pub client : Net
  pub to_string : Address → Text
  pub itoa : ℕ → Text
  pub marshal_lines : Text → Extra → List Text → Option Text

-- What a handler goes on with, or its answer.
pub data Outcome (R A : Type 0) : Type 0 where
  go : A → Outcome R A
  stop : Response R → Outcome R A

abbrev pub Action : Type 0 → Type 0 → Type 0
Action R A = State → Outcome R A × State

infixl 5 ◌>>=◌ ◌>>◌
abbrev pub ◌>>=◌ : {R A B : Type 0} → Action R A → (A → Action R B) → Action R B
◌>>=◌ m f s = let (r, t) = m s in elim r [ go a ↦ f a t | stop x ↦ (stop x, t) ]

abbrev pub ◌>>◌ : {R A B : Type 0} → Action R A → Action R B → Action R B
m >> k = m >>= λ _. k

abbrev pub take_slot : State → State
take_slot s = record s { semaphore = s.semaphore + 1 }

module _ {R : Type 0} where
  abbrev pub refuse_if : Option Fault → Action R (Unit {0})
  refuse_if none s = (go tt, s)
  refuse_if (some f) s = (stop (refused 400 (invalid f)), s)

  abbrev pub unless_fault : {A : Type 0} → Checked A → Action R A
  unless_fault (ok a) s = (go a, s)
  unless_fault (err f) s = (stop (refused 400 (invalid f)), s)

  -- `validator.ValidateTarget`
  unfoldable pub require_target : Env → Text → Action R (Unit {0})
  require_target env target = refuse_if (validate_target env.network.parsers target)

  -- `validator.ValidateNotPrivate`
  unfoldable pub require_public : Env → Text → Action R (Option Address)
  require_public env target = unless_fault (validate_not_private env.network target)

  -- A guard that answers 400 with a text.
  abbrev pub require : Bool → Text → Action R (Unit {0})
  require true msg s = (go tt, s)
  require false msg s = (stop (refused 400 (said msg)), s)

  abbrev pub when_allowed : Bool → Response R → Outcome R (Unit {0})
  when_allowed true x = go tt
  when_allowed false x = stop x

  -- `h.rl.Allow(clientIP(r))`
  unfoldable pub require_rate : Env → Request → ℕ → Action R (Unit {0})
  require_rate env r now s =
      let (l, granted) = allow s.rl (client_ip env.client r) now in
      (when_allowed granted (refused 429 (said rate_limited)), record s { rl = l })

  -- `sseHeaders`
  unfoldable pub require_flusher : Bool → Action R (Unit {0})
  require_flusher flusher s = (when_allowed flusher no_streaming, s)

  module _ {A : Type 0} where
    abbrev pub give_slot_back : Outcome R A × State → Outcome R A × State
    give_slot_back (r, s) = (r, record s { semaphore = s.semaphore - 1 })

    -- The `select` on `h.semaphore` with its `defer`.
    unfoldable pub with_semaphore : Response R → Action R A → Action R A
    with_semaphore full m s =
        if leb max_probes s.semaphore then (stop full, s) else give_slot_back (m (take_slot s))

    abbrev pub release_after : Text → Outcome R A × State → Outcome R A × State
    release_after ip (r, s) = (r, record s { ip_sem = release_ip s.ip_sem ip })

    abbrev pub if_acquired : Text → Response R → Action R A → Bool → Action R A
    if_acquired ip taken m true s = release_after ip (m s)
    if_acquired ip taken m false s = (stop taken, s)

    -- `h.acquireIP(ip)` with its `defer`.
    unfoldable pub with_ip : Text → ℕ → Response R → Action R A → Action R A
    with_ip ip now taken m s =
        let (sem, granted) = acquire_ip s.ip_sem ip now in
        if_acquired ip taken m granted (record s { ip_sem = sem })

-- The response of a handler.
abbrev pub respond : {R : Type 0} → Outcome R (Response R) × State → Response R × State
respond (go x, s) = (x, s)
respond (stop x, s) = (x, s)
