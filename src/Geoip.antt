-- ===== src/Geoip.antt =====
-- internal/geoip/geoip.go: the database of networks, read once from a CSV file.
-- `net/netip` is the parameter `Netip`: an address is its family and its bytes, a prefix is an
-- address and a number of bits. What opening the file and reading its records comes to is an
-- argument (`Source`): `encoding/csv` gives a row or an error, and the end of the list is `io.EOF`.
pub mod Csv
pub mod Table
pub mod Load
pub mod Flag
pub mod Sample
mod Tests
use looking_glass.Common.{
  ℕ, suc, ◌+◌, ◌-◌, ◌%◌, ◌⊎◌, inl, inr, List, [], ◌∷◌, ◌++◌, Bool, true, false, ◌&&◌, Option, none,
  some, ◌==◌, ite, if◌then◌else◌, Text, Text-discrete, codes, length, lookup, assign,
}
use looking_glass.Ip.{Address, Family, v4, v6, max_bits}
use looking_glass.Radix.{Node, nil, node, update, best_match}

pub record Record : Type 0 where
  pub country : Text
  pub country_code : Text
  pub continent : Text
  pub continent_code : Text
  pub asn : Text
  pub as_name : Text
  pub as_domain : Text

pub record Addr : Type 0 where
  pub family : Family
  pub bytes : Address

pub record Prefix : Type 0 where
  pub addr : Addr
  pub bits : ℕ

pub record Netip : Type 0 where
  pub parse_addr : Text → Option Addr
  pub parse_prefix : Text → Option Prefix
  pub masked : Prefix → Prefix

pub record Snapshot : Type 0 where
  pub root4 : Node (Option Record)
  pub root6 : Node (Option Record)
  pub asn_idx : List (Text × Record)
  pub count : ℕ

abbrev pub empty_snapshot : Snapshot
empty_snapshot = record {
  root4 = node none nil nil;
  root6 = node none nil nil;
  asn_idx = [];
  count = 0;
}

-- `rootFor`, and the write to the root.
abbrev pub root : Snapshot → Family → Node (Option Record)
root s v4 = s.root4
root s v6 = s.root6

abbrev pub set_root : Snapshot → Family → Node (Option Record) → Snapshot
set_root s v4 n = record s { root4 = n }
set_root s v6 n = record s { root6 = n }

unfoldable pub insert : Snapshot → Prefix → Record → Snapshot
insert s prefix rec =
    let f = prefix.addr.family in
    set_root s f (update none (λ _. some rec) prefix.bits 0 prefix.addr.bytes (root s f))

abbrev pub rec_of : Option Record → Option Record
rec_of p = p

unfoldable pub lookup_ip : Snapshot → Addr → Option Record
lookup_ip s ip = best_match rec_of (max_bits ip.family) 0 ip.bytes none (root s ip.family)

abbrev pub unless_known : Option Record → Record → List (Text × Record) → List (Text × Record)
unless_known none rec m = assign Text-discrete rec.asn rec m
unless_known (some old) rec m = m

-- The first record of an AS number is the one that is kept.
unfoldable pub note_asn : Record → List (Text × Record) → List (Text × Record)
note_asn rec m =
    ite (Text-discrete rec.asn []) m (unless_known (lookup Text-discrete rec.asn m) rec m)

-- A round of the loop over the records, past its checks.
unfoldable pub add_record : Netip → Snapshot → Prefix → Record → Snapshot
unfolding note_asn
add_record net s prefix rec =
    let inserted = insert s (net.masked prefix) rec in
    record inserted { asn_idx = note_asn rec inserted.asn_idx; count = inserted.count + 1 }

abbrev pub canonical_header : List Text
canonical_header =
    codes "network"
    ∷ codes "country"
    ∷ codes "country_code"
    ∷ codes "continent"
    ∷ codes "continent_code"
    ∷ codes "asn"
    ∷ codes "as_name"
    ∷ codes "as_domain"
    ∷ []

-- The loop over the fields of the header.
pub same_fields : List Text → List Text → Bool
same_fields [] header = true
same_fields (f ∷ fields) [] = false
same_fields (f ∷ fields) (h ∷ header) =
    ite (Text-discrete h f) true false && same_fields fields header

unfoldable pub check_header : List Text → Bool
unfolding same_fields
check_header header =
    (length header == length canonical_header) && same_fields canonical_header header

pub data Row : Type 0 where
  wrong_length bad_network : Row
  good : Prefix → Record → Row

abbrev pub with_prefix : Option Prefix → Record → Row
with_prefix none rec = bad_network
with_prefix (some prefix) rec = good prefix rec

unfoldable pub make_row : Netip → List Text → Row
make_row net (network ∷ a ∷ b ∷ c ∷ d ∷ e ∷ f ∷ g ∷ []) =
    with_prefix (net.parse_prefix network) (record {
      country = a;
      country_code = b;
      continent = c;
      continent_code = d;
      asn = e;
      as_name = f;
      as_domain = g;
    })
make_row net _ = wrong_length

-- What a `Read` of the CSV reader comes to, but for the end of the file.
pub data Line : Type 0 where
  broken : Line
  fields : List Text → Line

pub data Fault : Type 0 where
  csv_error field_count network_error : Fault

pub data LoadError : Type 0 where
  not_opened not_gzip no_header bad_header : LoadError
  at_record : ℕ → Fault → LoadError

pub data Loaded {ℓ} (A : Type ℓ) : Type ℓ where
  ok : A → Loaded A
  err : LoadError → Loaded A

pub check_line : Netip → Line → Fault ⊎ (Prefix × Record)
unfolding make_row
check_line net broken = inl csv_error
check_line net (fields row) = elim (make_row net row) [
  | wrong_length ↦ inl field_count
  | bad_network ↦ inl network_error
  | good prefix rec ↦ inr (prefix, rec)
]

-- The loop over the records.
pub load_rows : Netip → ℕ → List Line → Snapshot → Loaded Snapshot
unfolding check_line
load_rows net number [] s = ok s
load_rows net number (line ∷ lines) s = elim (check_line net line) [
  | inl fault ↦ err (at_record number fault)
  | inr (prefix, rec) ↦ load_rows net (suc number) lines (add_record net s prefix rec)
]

pub data Source : Type 0 where
  no_file no_gzip : Source
  lines_of : List Line → Source

unfoldable pub load_file : Netip → Source → Snapshot → Loaded Snapshot
unfolding load_rows
load_file net no_file s = err not_opened
load_file net no_gzip s = err not_gzip
load_file net (lines_of []) s = err no_header
load_file net (lines_of (broken ∷ lines)) s = err no_header
load_file net (lines_of (fields header ∷ lines)) s =
    if check_header header then load_rows net 2 lines s else err bad_header

pub record Db : Type 0 where
  pub current : Option Snapshot

abbrev pub serve : Loaded Snapshot → Loaded Db
serve (ok s) = ok (record { current = some s })
serve (err e) = err e

-- `Open`
unfoldable pub open_db : Netip → Source → Loaded Db
open_db net source = serve (load_file net source empty_snapshot)

abbrev pub lookup_parsed : Option Addr → Snapshot → Option Record
lookup_parsed none s = none
lookup_parsed (some ip) s = lookup_ip s ip

unfoldable pub db_lookup : Netip → Db → Text → Option Record
db_lookup net db text = elim db.current [
  | none ↦ none
  | some s ↦ lookup_parsed (net.parse_addr text) s
]

-- `LookupASN`, with `strconv.Itoa` as an argument.
unfoldable pub db_lookup_asn : (ℕ → Text) → Db → ℕ → Option Record
db_lookup_asn itoa db asn = elim db.current [
  | none ↦ none
  | some s ↦ lookup Text-discrete (codes "AS" ++ itoa asn) s.asn_idx
]

-- `rune(c - 'A') + 0x1F1E6`, where the subtraction is on bytes and wraps around.
unfoldable pub flag_rune : ℕ → ℕ
flag_rune c = (c + 256 - b'A') % 256 + 127462

-- `CountryFlag`, as runes.
unfoldable pub country_flag : Text → List ℕ
unfolding flag_rune
country_flag (a ∷ b ∷ []) = flag_rune a ∷ flag_rune b ∷ []
country_flag _ = []
