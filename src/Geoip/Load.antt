-- ===== src/Geoip/Load.antt =====
-- What a database answers once its file is loaded, and which files are refused.
use looking_glass.Common.{
  ℕ, suc, ◌+◌, ◌<◌, ◌≡◌, refl, ◌≢◌, ap, ◌∙◌, ◌⊎◌, inl, inr, ◌↔◌, List, [], ◌∷◌, ◌++◌, true, none,
  some, arith, Text, Text-discrete, ℕ_discrete, codes, length, lookup, Bool-cases,
}
use looking_glass.Radix.Longest.{Deepest}
use looking_glass.Geoip.{
  Record, Addr, Prefix, Netip, Snapshot, empty_snapshot, add_record, canonical_header, same_fields,
  check_header, Line, fields, Fault, bad_header, at_record, Loaded, ok, err, check_line, load_rows,
  lines_of, load_file, Db, serve, open_db, db_lookup, db_lookup_asn,
}
use looking_glass.Geoip.Table.{
  addr_bits, last_for, first_with, add_all, masked_all, lookup_ip-add_all, asn_idx-add_all,
}

abbrev keep_good : Fault ⊎ (Prefix × Record) → List (Prefix × Record) → List (Prefix × Record)
keep_good (inl fault) es = []
keep_good (inr e) es = e ∷ es

-- The records before the first line that is refused.
unfoldable pub good_lines : Netip → List Line → List (Prefix × Record)
good_lines net [] = []
good_lines net (line ∷ lines) = keep_good (check_line net line) (good_lines net lines)

-- What a load of lines comes to, from the number of the first.
pub data Outcome (net : Netip) (number : ℕ) (lines : List Line) (s : Snapshot) (r : Loaded Snapshot)
    : Type 0 where
  complete :
      length (good_lines net lines) ≡ length lines
      → r ≡ ok (add_all net s (good_lines net lines))
      → Outcome net number lines s r
  refused :
      (fault : Fault)
      → length (good_lines net lines) < length lines
      → r ≡ err (at_record (number + length (good_lines net lines)) fault)
      → Outcome net number lines s r

first_refused :
    (net : Netip) (number : ℕ) (line : Line) (lines : List Line) (s : Snapshot) (fault : Fault)
    → check_line net line ≡ inl fault
    → load_rows net number (line ∷ lines) s ≡ err (at_record number fault)
unfolding load_rows
first_refused net number line lines s fault e = rw (e, load_rows) refl

first_accepted :
    (net : Netip) (number : ℕ) (line : Line) (lines : List Line) (s : Snapshot) (p : Prefix)
    (rec : Record)
    → check_line net line ≡ inr (p, rec)
    → load_rows net number (line ∷ lines) s
      ≡ load_rows net (suc number) lines (add_record net s p rec)
unfolding load_rows
first_accepted net number line lines s p rec e = rw (e, load_rows) refl

abbrev failed_at : Fault → ℕ → Loaded Snapshot
failed_at fault n = err (at_record n fault)

renumber : (m n : ℕ) (fault : Fault) → m ≡ n → failed_at fault m ≡ failed_at fault n
renumber m n fault e = ap (failed_at fault) e

load_line-Outcome :
    (net : Netip) (number : ℕ) (line : Line) (lines : List Line) (s : Snapshot)
    (c : Fault ⊎ (Prefix × Record))
    → check_line net line ≡ c
    → ((t : Snapshot) → Outcome net (suc number) lines t (load_rows net (suc number) lines t))
    → Outcome net number (line ∷ lines) s (load_rows net number (line ∷ lines) s)
unfolding good_lines add_all
load_line-Outcome net number line lines s (inl fault) e h = refused fault (rw e (omega arith)) (
    first_refused net number line lines s fault e
    ∙ rw e (renumber number (number + 0) fault (omega arith)))
load_line-Outcome net number line lines s (inr (p, rec)) e h = elim (h (add_record net s p rec)) [
  | complete all is ↦
      complete (rw e (omega arith)) (first_accepted net number line lines s p rec e ∙ rw e is)
  | refused fault fewer is ↦ refused fault (rw e (omega arith)) (
      first_accepted net number line lines s p rec e
      ∙ is
      ∙ rw e (renumber _ (number + suc (length (good_lines net lines))) fault (omega arith)))
]

pub load_rows-Outcome :
    (net : Netip) (number : ℕ) (lines : List Line) (s : Snapshot)
    → Outcome net number lines s (load_rows net number lines s)
unfolding load_rows good_lines add_all
load_rows-Outcome net number [] s = complete refl refl
load_rows-Outcome net number (line ∷ lines) s =
    load_line-Outcome net number line lines s (check_line net line) refl
      (load_rows-Outcome net (suc number) lines)

-- The database over a file with a canonical header and lines that are all accepted.
abbrev pub whole : Netip → List Line → Snapshot
whole net lines = add_all net empty_snapshot (good_lines net lines)

abbrev pub opened : Netip → List Text → List Line → Loaded Db
opened net header lines = open_db net (lines_of (fields header ∷ lines))

same_fields_iff :
    (expected header : List Text)
    → length header ≡ length expected
    → same_fields expected header ≡ true
    → header ≡ expected
unfolding same_fields
same_fields_iff [] [] l e = refl
same_fields_iff [] (h ∷ header) l e = absurd (omega arith)
same_fields_iff (f ∷ expected) [] l e = absurd (omega arith)
same_fields_iff (f ∷ expected) (h ∷ header) l e = elim (Text-discrete h f) [
  | yes p ↦ cc (p, same_fields_iff expected header (omega arith) (by_tail p))
  | no p ↦ absurd (ground arith)
]
  where
    by_tail : h ≡ f → same_fields expected header ≡ true
    by_tail p = ground arith

check_header_iff : (header : List Text) → (check_header header ≡ true) ↔ (header ≡ canonical_header)
unfolding check_header same_fields Text-discrete ℕ_discrete
check_header_iff header =
    (λ e. same_fields_iff canonical_header header (ground arith) (ground arith), λ e. rw e refl)

-- A file is loaded if its header is the canonical one and no line is refused. Otherwise the error
-- says so of the header, or gives the number of the first line that is refused, counted from the
-- header as 1.
pub opened-cases :
    (net : Netip) (header : List Text) (lines : List Line)
    → ((header ≢ canonical_header) × (opened net header lines ≡ err bad_header))
      ⊎ ((header ≡ canonical_header)
          × (length (good_lines net lines) ≡ length lines)
          × (opened net header lines ≡ ok (record { current = some (whole net lines) })))
      ⊎ ((header ≡ canonical_header)
          × (length (good_lines net lines) < length lines)
          × (fault : Fault) × (opened net header lines
              ≡ err (at_record (2 + length (good_lines net lines)) fault)))
unfolding open_db load_file
opened-cases net header lines = elim (Bool-cases (check_header header)) [
  | inr different ↦
      inl (λ same. cc (different, (check_header_iff header).1 same), rw different refl)
  | inl checked ↦ rw checked (elim (load_rows-Outcome net 2 lines empty_snapshot) [
    | complete all is ↦ inr (inl ((check_header_iff header).0 checked, all, ap serve is))
    | refused fault fewer is ↦
        inr (inr ((check_header_iff header).0 checked, fewer, fault, ap serve is))
  ])
]

module _ (net : Netip) (header : List Text) (lines : List Line) (db : Db)
    (h : opened net header lines ≡ ok db) where
  pub opened-whole :
      (length (good_lines net lines) ≡ length lines)
      × (db ≡ record { current = some (whole net lines) })
  opened-whole = elim (opened-cases net header lines) [
    | inl (e, is) ↦ cc (h, is)
    | inr (inl (e, all, is)) ↦ (all, cc (h, is))
    | inr (inr (e, fewer, fault, is)) ↦ cc (h, is)
  ]

  -- A database that was opened answers for the text of an address with the longest network of the
  -- file that holds the address, with the last line for that network, and every line counts.
  pub db_lookup-opened :
      (text : Text) (ip : Addr)
      → net.parse_addr text ≡ some ip
      → (length (good_lines net lines) ≡ length lines)
        × Deepest
            (λ q. last_for ip.family q (masked_all net (good_lines net lines)))
            (addr_bits ip)
            none
            (db_lookup net db text)
  unfolding db_lookup
  db_lookup-opened text ip e =
      (opened-whole.0, rw (opened-whole.1, e) (lookup_ip-add_all net (good_lines net lines) ip))

  -- A database that was opened answers for an AS number with the first line of the file that has it.
  pub db_lookup_asn-opened :
      (itoa : ℕ → Text) (asn : ℕ)
      → db_lookup_asn itoa db asn ≡ first_with (codes "AS" ++ itoa asn) (good_lines net lines)
  unfolding db_lookup_asn lookup
  db_lookup_asn-opened itoa asn =
      rw opened-whole.1 (
        asn_idx-add_all net empty_snapshot (good_lines net lines) (codes "AS" ++ itoa asn)
          (λ e. cc))
