-- ===== src/RateLimit.antt =====
-- internal/ratelimit/limit.go: the token bucket of each key and its cleanup.
-- A `float64` number of tokens is a natural number of units, of which `scale` make one token, so
-- that one nanosecond is worth `rate` units exactly: `New` has 60 * 10^9 units to the token and
-- `NewPerHour` has 3600 * 10^9. `credit` is `tokens` plus one token, since `tokens` starts at
-- `maxTok - 1`, which is -1 for an empty burst. Times are nanoseconds of Go's monotonic clock.
-- A call of `Allow` is one step. In the source the lookup in the map and the mutex of the entry are
-- apart, and a cleanup between them can delete the entry that the call goes on to use; that is left
-- out, as are other calls that overlap.
pub mod Window
pub mod Cleanup
pub mod Burst
mod Tests
use looking_glass.Common.{
  ℕ, ◌+◌, ◌-◌, ◌*◌, List, [], ◌∷◌, Bool, true, false, Option, none, some, min, ltb, leb,
  if◌then◌else◌, Text, Text-discrete, lookup, assign,
}

pub record Entry : Type 0 where
  pub credit : ℕ
  pub last_check : ℕ

pub record Limiter : Type 0 where
  pub entries : List (Text × Entry)
  pub rate : ℕ
  pub max_tok : ℕ
  pub scale : ℕ

abbrev pub second : ℕ
second = 1_000_000_000

abbrev pub idle_limit : ℕ
idle_limit = 30 * 60 * second

abbrev pub new : ℕ → ℕ → Limiter
new rpm burst = record {
  entries = [];
  rate = rpm;
  max_tok = burst * (60 * second);
  scale = 60 * second;
}

abbrev pub new_per_hour : ℕ → ℕ → Limiter
new_per_hour rph burst = record {
  entries = [];
  rate = rph;
  max_tok = burst * (3600 * second);
  scale = 3600 * second;
}

-- The assignments to `e.tokens` and `e.lastCheck` before the test.
pub refill : Limiter → ℕ → Entry → Entry
refill l now e = record {
  credit = min (l.max_tok + l.scale) (e.credit + (now - e.last_check) * l.rate);
  last_check = now;
}

-- `e.tokens >= 1.0`, and the token taken.
pub spend : Limiter → Entry → Entry × Bool
spend l e =
    if leb (2 * l.scale) e.credit
    then (record e { credit = e.credit - l.scale }, true)
    else (e, false)

pub fresh : Limiter → ℕ → Entry
fresh l now = record { credit = l.max_tok; last_check = now }

unfoldable pub allow_entry : Limiter → ℕ → Option Entry → Entry × Bool
unfolding refill spend fresh
allow_entry l now none = (fresh l now, true)
allow_entry l now (some e) = spend l (refill l now e)

unfoldable pub allow : Limiter → Text → ℕ → Limiter × Bool
allow l key now =
    let (e, granted) = allow_entry l now (lookup Text-discrete key l.entries) in
    (record l { entries = assign Text-discrete key e l.entries }, granted)

pub stale : ℕ → Entry → Bool
stale now e = ltb idle_limit (now - e.last_check)

pub drop_stale : ℕ → List (Text × Entry) → List (Text × Entry)
drop_stale now [] = []
drop_stale now (e ∷ m) = if stale now e.1 then drop_stale now m else e ∷ drop_stale now m

-- One tick of the goroutine that `New` starts.
pub cleanup : Limiter → ℕ → Limiter
cleanup l now = record l { entries = drop_stale now l.entries }
