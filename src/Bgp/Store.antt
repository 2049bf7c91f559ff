-- ===== src/Bgp/Store.antt =====
-- internal/bgp/store.go: snapshots of the routing table, loaded from a file and replaced whole.
-- What the file system and the JSON decoder answer is an argument (`Opened`), and so is the clock.
pub mod Index
pub mod Range
pub mod Load
pub mod Ticks
use looking_glass.Common.{
  ℕ, zero, suc, ◌+◌, List, [], ◌∷◌, ◌++◌, Bool, true, false, ◌||◌, Option, none, some, ltb, leb,
  ◌==◌, ite, if◌then◌else◌, Text, Text-discrete, ℕ_discrete, codes, length, take, lookup, assign,
}
use looking_glass.Ip.{Address, IpNet, Parsers}
use looking_glass.Bgp.Trie.{Route, Trie, empty_trie, insert, lookup_ip, lookup_exact_prefix, or_nil}

pub record Snapshot : Type 0 where
  pub trie : Trie
  pub by_asn : List (ℕ × List Route)
  pub route_count : ℕ
  pub loaded_at : ℕ
  pub file_mtime : ℕ

pub record Store : Type 0 where
  pub current : Option Snapshot

-- What opening, inspecting and decoding the file comes to.
pub data Opened : Type 0 where
  open_error stat_error decode_error : Opened
  decoded : ℕ → List Route → Opened

pub data LoadError : Type 0 where
  not_opened no_stat no_json : LoadError

-- `_, ok := seenASNs[asn]`
pub seen_asn : List ℕ → ℕ → Bool
seen_asn [] asn = false
seen_asn (a ∷ seen) asn = a == asn || seen_asn seen asn

-- The loop over the AS path of a route.
pub index_path : List ℕ → List ℕ → Route → List (ℕ × List Route) → List (ℕ × List Route)
unfolding seen_asn
index_path seen [] r m = m
index_path seen (a ∷ path) r m = elim (seen_asn seen a) [
  | true ↦ index_path seen path r m
  | false ↦
      index_path (a ∷ seen) path r
        (assign ℕ_discrete a (or_nil (lookup ℕ_discrete a m) ++ r ∷ []) m)
]

-- `snap.trie.Insert` and the loop over the AS path; `none` if it panics.
pub add_parsed : Route → IpNet → Snapshot → Option Snapshot
unfolding insert index_path
add_parsed r n snap = elim (insert snap.trie n r) [
  | none ↦ none
  | some t ↦ some (record snap {
    trie = t;
    by_asn = index_path [] r.as_path r snap.by_asn;
    route_count = snap.route_count + 1;
  })
]

-- One round of the loop over the routes, with the count of the routes that are skipped.
pub load_parsed : Route → Option IpNet → Snapshot × ℕ → Option (Snapshot × ℕ)
unfolding add_parsed
load_parsed r none (snap, skipped) = some (snap, skipped + 1)
load_parsed r (some n) (snap, skipped) = elim (add_parsed r n snap) [
  | none ↦ none
  | some grown ↦ some (grown, skipped)
]

pub load_route : Parsers → Snapshot × ℕ → Route → Option (Snapshot × ℕ)
unfolding load_parsed
load_route net s r = load_parsed r (net.parse_cidr r.prefix) s

pub load_routes : Parsers → Snapshot × ℕ → List Route → Option (Snapshot × ℕ)
unfolding load_route
load_routes net s [] = some s
load_routes net s (r ∷ routes) = elim (load_route net s r) [
  | none ↦ none
  | some t ↦ load_routes net t routes
]

abbrev pub new_snapshot : ℕ → ℕ → Snapshot
new_snapshot now mtime = record {
  trie = empty_trie;
  by_asn = [];
  route_count = 0;
  loaded_at = now;
  file_mtime = mtime;
}

-- `load`; `none` if it panics, which nothing recovers: the program ends.
unfoldable pub load : Parsers → ℕ → Opened → Store → Option (Store × Option LoadError)
unfolding load_routes
load net now open_error s = some (s, some not_opened)
load net now stat_error s = some (s, some no_stat)
load net now decode_error s = some (s, some no_json)
load net now (decoded mtime routes) s = elim (load_routes net (new_snapshot now mtime, 0) routes) [
  | none ↦ none
  | some (snap, skipped) ↦ some (record { current = some snap }, none)
]

-- The store after a load whose error is only logged.
abbrev pub logged : Option (Store × Option LoadError) → Option Store
logged none = none
logged (some (s, e)) = some s

-- `NewStore`: an error is logged and left to the ticks.
unfoldable pub new_store : Parsers → ℕ → Opened → Option Store
unfolding load
new_store net now opened = logged (load net now opened (record { current = none }))

-- `cur == nil || info.ModTime().After(cur.fileMtime)`
pub is_due : Option Snapshot → ℕ → Bool
is_due none mtime = true
is_due (some cur) mtime = ltb cur.file_mtime mtime

-- One tick of `Start`; `none` for a file that `os.Stat` does not find.
unfoldable pub tick : Parsers → ℕ → Option ℕ → Opened → Store → Option Store
unfolding load is_due
tick net now none opened s = some s
tick net now (some mtime) opened s =
    if is_due s.current mtime then logged (load net now opened s) else some s

pub data LookupError : Type 0 where
  invalid_ip invalid_cidr : LookupError

pub data Result {ℓ} (A : Type ℓ) : Type ℓ where
  ok : A → Result A
  err : LookupError → Result A

abbrev pub default_v4 : Text
default_v4 = codes "0.0.0.0/0"

abbrev pub default_v6 : Text
default_v6 = codes "::/0"

-- The loop that looks for a default route.
unfoldable pub has_default : List Route → Bool
has_default [] = false
has_default (r ∷ routes) =
    ite (Text-discrete r.prefix default_v4) true
      (ite (Text-discrete r.prefix default_v6) true (has_default routes))

abbrev pub from_snapshot : Option Snapshot → (Snapshot → List Route) → List Route
from_snapshot none f = []
from_snapshot (some snap) f = f snap

abbrev pub hide_default : List Route → List Route
hide_default routes = if has_default routes then [] else routes

unfoldable pub store_lookup_ip : Parsers → Store → Text → Result (List Route)
unfolding has_default
store_lookup_ip net s text = elim (net.parse_ip text) [
  | none ↦ err invalid_ip
  | some ip ↦ ok (from_snapshot s.current (λ snap. hide_default (lookup_ip snap.trie ip)))
]

-- A trie that is asked panics or answers.
abbrev pub from_trie : Option Snapshot → (Snapshot → Option (List Route)) → Option (List Route)
from_trie none f = some []
from_trie (some snap) f = f snap

abbrev pub ok_or_panic : Option (List Route) → Option (Result (List Route))
ok_or_panic none = none
ok_or_panic (some routes) = some (ok routes)

abbrev pub prefix_result :
    Option IpNet → (IpNet → Option (List Route)) → Option (Result (List Route))
prefix_result none f = some (err invalid_cidr)
prefix_result (some n) f = ok_or_panic (f n)

-- `LookupPrefix`; `none` if it panics.
unfoldable pub store_lookup_prefix : Parsers → Store → Text → Option (Result (List Route))
store_lookup_prefix net s text =
    prefix_result (net.parse_cidr text)
      (λ n. from_trie s.current (λ snap. lookup_exact_prefix snap.trie n))

abbrev pub max_asn_routes : ℕ
max_asn_routes = 1000

abbrev pub first_routes : List Route → List Route
first_routes routes =
    if ltb max_asn_routes (length routes) then take max_asn_routes routes else routes

unfoldable pub lookup_asn : Store → ℕ → List Route
lookup_asn s asn =
    from_snapshot s.current (λ snap. first_routes (or_nil (lookup ℕ_discrete asn snap.by_asn)))

-- The count, and the time of loading if there is one.
unfoldable pub stats : Store → ℕ × Option ℕ
stats s = elim s.current [ none ↦ (0, none) | some snap ↦ (snap.route_count, some snap.loaded_at) ]
