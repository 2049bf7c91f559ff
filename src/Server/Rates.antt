-- ===== src/Server/Rates.antt =====
-- The rates that the server grants.
use looking_glass.Common.{
  ℕ, ◌+◌, ◌-◌, ◌*◌, ◌≤◌, ◌≡◌, refl, subst, ap, List, Bool, true, false, Option, none, some, arith,
  if◌then◌else◌, Text,
}
use mathlib.Core.Option.{some-injective}
use looking_glass.Bgp.Store as Bgp
use looking_glass.RateLimit.{new, new_per_hour, second}
use looking_glass.RateLimit.Window.{Event, IsConfigured, Ordered, grants, end_time, grants-le}
use looking_glass.Handler.State.{new_handler}
use looking_glass.Server.{Environment, Machine, Running, start_with, start}

-- A server that starts has a store of routes.
started_with :
    (m : Machine) (env : Environment) (refused : Bool) (store : Option Bgp.Store)
    (running : Running)
    → (if refused then none else start_with m env store) ≡ some running
    → (s : Bgp.Store) × (start_with m env (some s) ≡ some running)
started_with m env true store running h = cc
started_with m env false none running h = cc
started_with m env false (some s) running h = (s, h)

-- A server that starts has the limiters of `main`.
start-limiters :
    (m : Machine) (env : Environment) (running : Running)
    → start m env ≡ some running
    → (new 20 5 ≡ running.handler.rl) × (new_per_hour 10 3 ≡ running.handler.promote_rl)
unfolding start new_handler
start-limiters m env running h =
    let (s, e) = started_with m env _ _ running h in
    (
      ap (λ r. r.handler.rl) (some-injective _ _ e),
      ap (λ r. r.handler.promote_rl) (some-injective _ _ e),
    )

new-IsConfigured : IsConfigured (new 20 5)
new-IsConfigured = record { one = omega arith; refills = omega arith }

new_per_hour-IsConfigured : IsConfigured (new_per_hour 10 3)
new_per_hour-IsConfigured = record { one = omega arith; refills = omega arith }

-- From the start of the server on, whatever calls and cleanups come, a client is granted no more
-- than 5 checks and 20 a minute, and no more than 3 promotions and 10 an hour: in nanoseconds, where
-- a minute or an hour of them pays for one at the rate of one a minute or one an hour.
pub start-grants :
    (m : Machine) (env : Environment) (running : Running) (t : ℕ) (key : Text)
    (xs : List (ℕ × Event))
    → start m env ≡ some running
    → Ordered t xs
    → ((60 * second) * grants running.handler.rl key xs
        ≤ 5 * (60 * second) + (end_time t xs - t) * 20)
      × ((3600 * second) * grants running.handler.promote_rl key xs
          ≤ 3 * (3600 * second) + (end_time t xs - t) * 10)
start-grants m env running t key xs up ordered = (
  subst (λ l. (60 * second) * grants l key xs ≤ 5 * (60 * second) + (end_time t xs - t) * 20)
      (start-limiters m env running up).0
      (grants-le (new 20 5) t key xs refl new-IsConfigured ordered),
  subst (λ l. (3600 * second) * grants l key xs ≤ 3 * (3600 * second) + (end_time t xs - t) * 10)
      (start-limiters m env running up).1
      (grants-le (new_per_hour 10 3) t key xs refl new_per_hour-IsConfigured ordered),
)
