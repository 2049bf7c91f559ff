-- ===== src/Geoip/Csv.antt =====
-- `csvLineReader` of internal/geoip/geoip.go: the reader in front of `encoding/csv` that refuses a
-- file with a blank line. The bytes of a chunk and the error that came with it are arguments.
pub mod Chunks
pub mod Lines
use looking_glass.Common.{
  ℕ, suc, ◌+◌, List, [], ◌∷◌, Bool, true, false, ◌&&◌, ◌||◌, not, Option, none, some, ◌==◌,
  if◌then◌else◌, Text,
}

pub data QuoteState : Type 0 where
  field_start unquoted quoted after_quote : QuoteState

-- The errors of a reader: the end, a failure by its text, and a blank line, alone or joined to a
-- failure.
pub data ReadError : Type 0 where
  eof blank_line : ReadError
  failure blank_and : Text → ReadError

pub record LineReader : Type 0 where
  pub line_size : ℕ
  pub line_ends_cr : Bool
  pub state : QuoteState
  pub terminal_err : Option ReadError

-- `&csvLineReader{reader: r}`
abbrev pub new_reader : LineReader
new_reader = record {
  line_size = 0;
  line_ends_cr = false;
  state = field_start;
  terminal_err = none;
}

abbrev pub is_quoted : QuoteState → Bool
is_quoted quoted = true
is_quoted field_start = false
is_quoted unquoted = false
is_quoted after_quote = false

-- The switch of `consume`.
unfoldable pub next_state : QuoteState → ℕ → QuoteState
next_state field_start value =
    if value == b'"' then quoted else if value == b',' then field_start else unquoted
next_state unquoted value = if value == b',' then field_start else unquoted
next_state quoted value = if value == b'"' then after_quote else quoted
next_state after_quote value =
    if value == b'"'
    then quoted
    else if value == b','
    then field_start
    else if value == b'\r'
    then after_quote
    else unquoted

unfoldable pub consume : QuoteState → ℕ → QuoteState
unfolding next_state
consume state value =
    if (value == b'\n') && not (is_quoted state) then field_start else next_state state value

-- The test for a blank line at the head of the loop.
unfoldable pub ends_blank : LineReader → ℕ → Bool
ends_blank r value =
    (value == b'\n')
    && not (is_quoted r.state)
    && ((r.line_size == 0) || ((r.line_size == 1) && r.line_ends_cr))

-- The rest of the loop's body.
unfoldable pub advance : LineReader → ℕ → LineReader
unfolding consume
advance r value =
    if value == b'\n'
    then record r { state = consume r.state value; line_size = 0; line_ends_cr = false }
    else record r {
      state = consume r.state value;
      line_size = r.line_size + 1;
      line_ends_cr = value == b'\r';
    }

-- The loop: how many bytes passed, the reader after them, and whether a blank line stopped it.
pub record Scan : Type 0 where
  pub passed : ℕ
  pub reader : LineReader
  pub blank : Bool

abbrev pub one_more : Scan → Scan
one_more s = record s { passed = suc s.passed }

unfoldable pub scan : LineReader → List ℕ → Scan
unfolding ends_blank advance
scan r [] = record { passed = 0; reader = r; blank = false }
scan r (value ∷ rest) = elim (ends_blank r value) [
  | true ↦ record { passed = 0; reader = r; blank = true }
  | false ↦ one_more (scan (advance r value) rest)
]

-- `errBlankCSVLine`, joined to an error of the reader that is not the end.
unfoldable pub blank_error : Option ReadError → ReadError
blank_error none = blank_line
blank_error (some eof) = blank_line
blank_error (some blank_line) = blank_line
blank_error (some (failure text)) = blank_and text
blank_error (some (blank_and text)) = blank_and text

abbrev pub finish : Scan → Option ReadError → (ℕ × Option ReadError) × LineReader
finish s e = elim s.blank [
  | true ↦
      ((s.passed, some (blank_error e)), record s.reader { terminal_err = some (blank_error e) })
  | false ↦ ((s.passed, e), s.reader)
]

-- `Read`, with what the reader underneath gives.
unfoldable pub read : LineReader → List ℕ → Option ReadError → (ℕ × Option ReadError) × LineReader
unfolding scan
read r chunk e = elim r.terminal_err [ some t ↦ ((0, some t), r) | none ↦ finish (scan r chunk) e ]
