-- ===== src/Report/Ephemeral.antt =====
-- internal/report/ephemeral.go: the cache of finished checks, at most 2000 of them. The map is an
-- association list, whose order stands for the order in which Go happens to walk the map. Times
-- are nanoseconds, and `put` and `sweep` are given the value of `time.Now()`. Each runs under the
-- cache's mutex, so each is one step.
pub mod Bounds
pub mod Eviction
pub mod Retention
mod Tests
use looking_glass.Common.{
  ℕ, ◌+◌, ◌*◌, List, [], ◌∷◌, Bool, true, false, ◌||◌, Option, none, some, ltb, leb, ite,
  if◌then◌else◌, Text, Text-discrete, length, lookup, assign, delete,
}

abbrev pub minute : ℕ
minute = 60 * 1_000_000_000

abbrev pub ephemeral_ttl : ℕ
ephemeral_ttl = 30 * minute

abbrev pub max_ephemeral_size : ℕ
max_ephemeral_size = 2000

pub record Ephemeral : Type 0 where
  pub kind : Text
  pub target : Text
  pub payload : Text
  pub created_at : ℕ

abbrev pub Cache : Type 0
Cache = List (Text × Ephemeral)

-- The variables of the search for the oldest entry.
pub record Oldest : Type 0 where
  pub oldest_id : Text
  pub oldest_at : ℕ
  pub first : Bool

abbrev pub search_start : Oldest
search_start = record { oldest_id = []; oldest_at = 0; first = true }

pub search_step : Oldest → Text × Ephemeral → Oldest
search_step o (k, v) =
    if o.first || ltb v.created_at o.oldest_at
    then record { oldest_id = k; oldest_at = v.created_at; first = false }
    else o

pub find_oldest : Oldest → Cache → Oldest
unfolding search_step
find_oldest o [] = o
find_oldest o (e ∷ c) = find_oldest (search_step o e) c

-- `oldestID` after the loop.
pub victim : Cache → Text
victim c = (find_oldest search_start c).oldest_id

-- The `if` of `Put`.
pub make_room : Cache → Cache
make_room c =
    if leb max_ephemeral_size (length c)
    then ite (Text-discrete (victim c) []) c (delete Text-discrete (victim c) c)
    else c

unfoldable pub put : Cache → Text → Ephemeral → Cache
unfolding make_room
put c id e = assign Text-discrete id e (make_room c)

unfoldable pub get : Cache → Text → Option Ephemeral
get c id = lookup Text-discrete id c

-- One tick of the sweep loop: `CreatedAt` before the time less the retention.
unfoldable pub sweep : ℕ → Cache → Cache
sweep now [] = []
sweep now (e ∷ c) =
    if ltb (e.1.created_at + ephemeral_ttl) now then sweep now c else e ∷ sweep now c
