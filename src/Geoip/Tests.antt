-- ===== src/Geoip/Tests.antt =====
-- Runs of the geographic database on small files, and the theorems on them.
use looking_glass.Common.{
  ℕ, ◌+◌, ◌<◌, ◌≡◌, refl, ◌≢◌, ◌⊎◌, List, [], ◌∷◌, ◌++◌, none, some, arith, Text, Text-discrete,
  ℕ_discrete, codes, length, lookup, assign,
}
use looking_glass.Ip.{v4, Family-discrete}
use looking_glass.Radix.Longest.{Deepest}
use looking_glass.Radix.Paths.{path, Bits-discrete}
use looking_glass.Radix.{bit, update, best_match}
use looking_glass.Geoip.{
  Addr, insert, lookup_ip, note_asn, add_record, canonical_header, same_fields, check_header,
  fields, Fault, field_count, bad_header, at_record, ok, err, check_line, make_row, load_rows,
  load_file, open_db, db_lookup, db_lookup_asn, flag_rune, country_flag,
}
use looking_glass.Geoip.Csv.{
  new_reader, blank_line, next_state, consume, ends_blank, advance, scan, blank_error, read,
}
use looking_glass.Geoip.Csv.Chunks.{read_all, passes, concat, read_all-concat}
use looking_glass.Geoip.Csv.Lines.{lines_from, any_blank, scan-lines}
use looking_glass.Geoip.Load.{good_lines, whole, opened, opened-cases, db_lookup-opened}
use looking_glass.Geoip.Sample.{
  parse_four, parse_five, net, digits, line_for, record_for, file_lines, file_db,
}
use looking_glass.Geoip.Table.{addr_bits, last_for, add_all, masked_all}

abbrev inside : Text
inside = 10 ∷ 1 ∷ 2 ∷ 3 ∷ []

abbrev inside_addr : Addr
inside_addr = record { family = v4; bytes = inside }

program : Unit {0}
unfolding net parse_four parse_five Text-discrete ℕ_discrete Family-discrete Bits-discrete lookup
    assign bit update best_match insert lookup_ip note_asn add_record same_fields check_header
    check_line make_row load_rows load_file open_db db_lookup db_lookup_asn good_lines add_all path
program = tt

file_opened : opened net canonical_header file_lines ≡ ok file_db
unfolding program
file_opened = refl

inside_found : db_lookup net file_db inside ≡ some (record_for (codes "AS" ++ digits 9))
unfolding program
inside_found = refl

-- The second line has one field.
second_refused :
    opened net canonical_header (line_for (1 ∷ 2 ∷ 3 ∷ 4 ∷ 32 ∷ []) [] ∷ fields ([] ∷ []) ∷ [])
    ≡ err (at_record 3 field_count)
unfolding program
second_refused = refl

opened-cases_example :
    ((canonical_header ≢ canonical_header)
      × (opened net canonical_header file_lines ≡ err bad_header))
    ⊎ ((canonical_header ≡ canonical_header)
        × (length (good_lines net file_lines) ≡ length file_lines)
        × (opened net canonical_header file_lines
            ≡ ok (record { current = some (whole net file_lines) })))
    ⊎ ((canonical_header ≡ canonical_header)
        × (length (good_lines net file_lines) < length file_lines)
        × (fault : Fault) × (opened net canonical_header file_lines
            ≡ err (at_record (2 + length (good_lines net file_lines)) fault)))
opened-cases_example = opened-cases net canonical_header file_lines

db_lookup-opened_example :
    (length (good_lines net file_lines) ≡ length file_lines)
    × Deepest
        (λ q. last_for v4 q (masked_all net (good_lines net file_lines)))
        (addr_bits inside_addr)
        none
        (db_lookup net file_db inside)
db_lookup-opened_example =
    db_lookup-opened net canonical_header file_lines file_db file_opened inside inside_addr
      (unfold net parse_four in refl)

-- A quoted line feed, and then a blank line.
abbrev quoted_feed : Text
quoted_feed = codes "a,\"b" ++ 10 ∷ 10 ∷ codes "c\"" ++ 10 ∷ 10 ∷ codes "d"

reader : Unit {0}
unfolding next_state consume ends_blank advance scan blank_error read read_all concat
reader = tt

quoted_passes :
    passes new_reader quoted_feed
    ≡ (codes "a,\"b" ++ 10 ∷ 10 ∷ codes "c\"" ++ 10 ∷ [], some blank_line)
unfolding reader
quoted_passes = refl

abbrev two_chunks : List (List ℕ)
two_chunks = (codes "a" ++ 10 ∷ []) ∷ (10 ∷ codes "b") ∷ []

read_all-concat_example : read_all new_reader two_chunks ≡ passes new_reader (concat two_chunks)
read_all-concat_example = read_all-concat new_reader two_chunks refl

scan-lines_example :
    (scan new_reader (codes "a" ++ 10 ∷ 13 ∷ 10 ∷ [])).blank
    ≡ any_blank (lines_from [] (codes "a" ++ 10 ∷ 13 ∷ 10 ∷ []))
scan-lines_example = scan-lines (codes "a" ++ 10 ∷ 13 ∷ 10 ∷ []) (omega arith)

german_flag : country_flag (codes "DE") ≡ 127465 ∷ 127466 ∷ []
unfolding country_flag flag_rune
german_flag = refl
