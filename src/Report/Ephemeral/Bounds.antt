-- ===== src/Report/Ephemeral/Bounds.antt =====
-- The cap of the cache, over every history of puts and sweeps.
use looking_glass.Common.{
  ℕ, ◌+◌, ◌≤◌, ◌<◌, ◌≡◌, refl, ◌≢◌, List, [], ◌∷◌, Option, none, some, arith, ltb, if◌then◌else◌,
  if_neg, Text, Text-discrete, length, lookup, delete, lookup-assign, lookup-delete, Distinct,
  assign-Distinct, delete-Distinct, length-assign-le, length-delete-lt, le→leb, dec_le,
}
use looking_glass.Report.Ephemeral.{
  Ephemeral, Cache, ephemeral_ttl, max_ephemeral_size, victim, make_room, put, get, sweep,
}
use looking_glass.Report.Ephemeral.Eviction.{victim-Found}

-- What a sweep leaves of what a key reads.
abbrev pub unexpired : ℕ → Option Ephemeral → Option Ephemeral
unexpired now none = none
unexpired now (some e) = if ltb (e.created_at + ephemeral_ttl) now then none else some e

-- At most 2000 checks, a key for each, and none under the empty key.
pub record IsValid (c : Cache) : Type 0 where
  pub bounded : length c ≤ max_ephemeral_size
  pub distinct : Distinct Text-discrete c
  pub named : lookup Text-discrete [] c ≡ none

pub nonempty : (c : Cache) → max_ephemeral_size ≤ length c → c ≢ []
nonempty [] h e = omega arith
nonempty (x ∷ c) h e = cc

pub victim-named :
    (c : Cache)
    → IsValid c
    → max_ephemeral_size ≤ length c
    → (e : Ephemeral) × (lookup Text-discrete (victim c) c ≡ some e) × (victim c ≢ [])
unfolding victim
victim-named c v h =
    let (f, least) = victim-Found c v.distinct (nonempty c h) in
    (f.entry, f.held, λ p. cc (f.held, v.named))

pub make_room_full :
    (c : Cache)
    → IsValid c
    → max_ephemeral_size ≤ length c
    → make_room c ≡ delete Text-discrete (victim c) c
unfolding make_room
make_room_full c v h =
    rw (le→leb max_ephemeral_size (length c) h, if_neg (Text-discrete _ []) (victim-named c v h).2)

pub make_room_free : (c : Cache) → length c < max_ephemeral_size → make_room c ≡ c
unfolding make_room
make_room_free c h = ground arith

record HasRoom (c : Cache) : Type 0 where
  below : length c < max_ephemeral_size
  distinct : Distinct Text-discrete c
  named : lookup Text-discrete [] c ≡ none

make_room-HasRoom : (c : Cache) → IsValid c → HasRoom (make_room c)
make_room-HasRoom c v = elim (dec_le max_ephemeral_size (length c)) [
  | yes full ↦
      let (e, held, _) = victim-named c v full in
      rw (make_room_full c v full) (record {
        below = omega (arith, length-delete-lt Text-discrete (victim c) c held, v.bounded);
        distinct = delete-Distinct Text-discrete (victim c) c v.distinct;
        named = ground (arith, lookup-delete Text-discrete [] (victim c) c);
      })
  | no room ↦
      rw (make_room_free c (omega arith))
        (record { below = omega arith; distinct = v.distinct; named = v.named })
]

-- A check put under a key that is not empty leaves the cache valid.
pub put-IsValid :
    (c : Cache) (id : Text) (e : Ephemeral) → id ≢ [] → IsValid c → IsValid (put c id e)
unfolding put
put-IsValid c id e n v =
    let r = make_room-HasRoom c v in
    record {
      bounded = omega (arith, length-assign-le Text-discrete id e (make_room c), r.below);
      distinct = assign-Distinct Text-discrete id e (make_room c) r.distinct;
      named = ground (arith, lookup-assign Text-discrete [] id e (make_room c), r.named);
    }

length-sweep-le : (now : ℕ) (c : Cache) → length (sweep now c) ≤ length c
unfolding sweep
length-sweep-le now [] = omega arith
length-sweep-le now (e ∷ c) = ground (arith, length-sweep-le now c)

lookup-sweep-none :
    (now : ℕ) (k : Text) (c : Cache)
    → lookup Text-discrete k c ≡ none
    → lookup Text-discrete k (sweep now c) ≡ none
unfolding sweep lookup
lookup-sweep-none now k [] h = refl
lookup-sweep-none now k (e ∷ c) h = ground (arith, lookup-sweep-none now k c)

sweep-Distinct :
    (now : ℕ) (c : Cache) → Distinct Text-discrete c → Distinct Text-discrete (sweep now c)
unfolding sweep
sweep-Distinct now [] d = tt
sweep-Distinct now (e ∷ c) d = ground (arith, sweep-Distinct now c d.1, lookup-sweep-none now e.0 c)

pub sweep-IsValid : (now : ℕ) (c : Cache) → IsValid c → IsValid (sweep now c)
sweep-IsValid now c v = record {
  bounded = omega (arith, length-sweep-le now c);
  distinct = sweep-Distinct now c v.distinct;
  named = lookup-sweep-none now [] c v.named;
}

-- After a sweep a key reads what it did, unless that check is past its retention.
pub get-sweep :
    (now : ℕ) (c : Cache) (k : Text)
    → Distinct Text-discrete c
    → get (sweep now c) k ≡ unexpired now (get c k)
unfolding sweep get lookup
get-sweep now [] k d = refl
get-sweep now (e ∷ c) k d = ground (arith, get-sweep now c k d.1, lookup-sweep-none now k c)

pub data Event : Type 0 where
  puts : Text → Ephemeral → Event
  sweeps : ℕ → Event

unfoldable pub step : Cache → Event → Cache
step c (puts id e) = put c id e
step c (sweeps now) = sweep now c

unfoldable pub run : Cache → List Event → Cache
unfolding step
run c [] = c
run c (x ∷ xs) = run (step c x) xs

-- `NewID` makes no empty identifier.
abbrev pub Named : List Event → Type 0
Named [] = Unit {0}
Named (puts id e ∷ xs) = (id ≢ []) × Named xs
Named (sweeps now ∷ xs) = Named xs

run-IsValid_from : (c : Cache) (xs : List Event) → Named xs → IsValid c → IsValid (run c xs)
unfolding run
run-IsValid_from c [] n v = v
run-IsValid_from c (puts id e ∷ xs) n v =
    run-IsValid_from (put c id e) xs n.1 (put-IsValid c id e n.0 v)
run-IsValid_from c (sweeps now ∷ xs) n v =
    run-IsValid_from (sweep now c) xs n (sweep-IsValid now c v)

-- From the empty cache no history of puts, under keys that are not empty, and sweeps makes it hold
-- more than 2000 checks, or two for one key.
pub run-IsValid : (xs : List Event) → Named xs → IsValid (run [] xs)
unfolding lookup
run-IsValid xs n =
    run-IsValid_from [] xs n (record { bounded = omega arith; distinct = tt; named = refl })
