-- ===== src/RateLimit/Tests.antt =====
-- The limiters of main.go: 20 a minute with a burst of 5, and 10 an hour with a burst of 3.
use looking_glass.Common.{
  ℕ, ◌+◌, ◌-◌, ◌*◌, ◌≤◌, ◌≡◌, refl, List, [], ◌∷◌, arith, Text, Text-discrete, codes, lookup,
  assign, ℕ_discrete,
}
use looking_glass.RateLimit.{
  Limiter, second, new, new_per_hour, refill, spend, fresh, allow_entry, allow, stale, drop_stale,
  cleanup,
}
use looking_glass.RateLimit.Window.{IsConfigured, Event, allows, cleans, grants, grants-le}

abbrev general : Limiter
general = new 20 5

abbrev promotions : Limiter
promotions = new_per_hour 10 3

general-IsConfigured : IsConfigured general
general-IsConfigured = omega arith

promotions-IsConfigured : IsConfigured promotions
promotions-IsConfigured = omega arith

abbrev alice : Text
alice = codes "192.0.2.1"

abbrev bob : Text
bob = codes "192.0.2.2"

abbrev day : List (ℕ × Event)
day =
    (0, allows alice)
    ∷ (0, allows bob)
    ∷ (second, allows alice)
    ∷ (7 * second, cleans)
    ∷ (9 * second, allows alice)
    ∷ []

program : Unit {0}
unfolding lookup assign Text-discrete ℕ_discrete refill spend fresh allow_entry allow stale
    drop_stale cleanup grants
program = tt

day-grants : grants general alice day ≡ 3
unfolding program
day-grants = refl

grants-le_example :
    general.scale * grants general alice day ≤ general.max_tok + (9 * second - 0) * 20
grants-le_example = grants-le general 0 alice day refl general-IsConfigured (omega arith)

-- Alice has spent four of her five tokens.
abbrev used : Limiter
used = record general {
  entries = (alice, record { credit = 2 * general.scale; last_check = 0 }) ∷ [];
}

used-IsConfigured : IsConfigured used
used-IsConfigured = omega arith
