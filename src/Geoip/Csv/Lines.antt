-- ===== src/Geoip/Csv/Lines.antt =====
-- What the reader refuses of a file without quotes, by its lines.
use looking_glass.Common.{
  ℕ, ◌≡◌, refl, ◌≢◌, ap, ◌∙◌, List, [], ◌∷◌, ◌++◌, Bool, true, false, ◌||◌, arith, ◌==◌,
  if◌then◌else◌, Text, length, length-append, All, ℕ_discrete,
}
use looking_glass.Geoip.Csv.{
  QuoteState, field_start, unquoted, quoted, after_quote, LineReader, new_reader, is_quoted,
  next_state, consume, ends_blank, advance, scan,
}
use looking_glass.Geoip.Csv.Chunks.{scan_goes, scan_stops}

-- The lines that a line feed ends, without it; `line` is the beginning of the first.
pub lines_from : Text → Text → List Text
lines_from line [] = []
lines_from line (x ∷ xs) =
    if x == b'\n' then line ∷ lines_from [] xs else lines_from (line ++ x ∷ []) xs

-- A line of nothing, or of a carriage return.
unfoldable pub is_blank : Text → Bool
is_blank [] = true
is_blank (c ∷ []) = c == b'\r'
is_blank (c ∷ d ∷ line) = false

pub any_blank : List Text → Bool
any_blank [] = false
any_blank (line ∷ lines) = is_blank line || any_blank lines

ends_cr : Text → Bool
ends_cr [] = false
ends_cr (c ∷ []) = c == b'\r'
ends_cr (c ∷ d ∷ line) = ends_cr (d ∷ line)

ends_cr-snoc : (line : Text) (x : ℕ) → ends_cr (line ++ x ∷ []) ≡ (x == b'\r')
unfolding ends_cr
ends_cr-snoc [] x = refl
ends_cr-snoc (c ∷ []) x = refl
ends_cr-snoc (c ∷ d ∷ line) x = ends_cr-snoc (d ∷ line) x

-- The reader is past the beginning of a line, outside quotes.
record Tracks (r : LineReader) (line : Text) : Type 0 where
  size : r.line_size ≡ length line
  cr : r.line_ends_cr ≡ ends_cr line
  outside : is_quoted r.state ≡ false

next_state-outside :
    (s : QuoteState) (x : ℕ) → x ≢ b'"' → is_quoted s ≡ false → is_quoted (next_state s x) ≡ false
unfolding next_state
next_state-outside field_start x n e = ground arith
next_state-outside unquoted x n e = ground arith
next_state-outside quoted x n e = cc e
next_state-outside after_quote x n e = ground arith

advance-feed : (r : LineReader) (line : Text) → Tracks r line → Tracks (advance r b'\n') []
unfolding advance consume ends_cr
advance-feed r line t = record { size = refl; cr = refl; outside = rw (t.outside) refl }

advance-Tracks :
    (r : LineReader) (line : Text) (x : ℕ)
    → x ≢ b'"'
    → x ≢ b'\n'
    → Tracks r line
    → Tracks (advance r x) (line ++ x ∷ [])
unfolding advance consume
advance-Tracks r line x q n t = record {
  size = ground (arith, t.size, length-append line (x ∷ []));
  cr = ground (arith, ends_cr-snoc line x);
  outside = ground (arith, next_state-outside r.state x q t.outside);
}

ends_blank-is_blank :
    (r : LineReader) (line : Text) → Tracks r line → ends_blank r b'\n' ≡ is_blank line
unfolding ends_blank is_blank ends_cr
ends_blank-is_blank r [] t = ground (arith, t.size, t.cr, t.outside)
ends_blank-is_blank r (c ∷ []) t = ground (arith, t.size, t.cr, t.outside)
ends_blank-is_blank r (c ∷ d ∷ line) t = ground (arith, t.size, t.cr, t.outside)

ends_blank-other : (r : LineReader) (x : ℕ) → x ≢ b'\n' → ends_blank r x ≡ false
unfolding ends_blank
ends_blank-other r x n = ground arith

line_feed :
    (r : LineReader) (line xs : Text) (rest b : Bool)
    → Tracks r line
    → is_blank line ≡ b
    → (scan (advance r b'\n') xs).blank ≡ rest
    → (scan r (b'\n' ∷ xs)).blank ≡ (b || rest)
line_feed r line xs rest true t e h =
    ap (λ s. s.blank) (scan_stops r b'\n' xs (ends_blank-is_blank r line t ∙ e))
line_feed r line xs rest false t e h =
    ap (λ s. s.blank) (scan_goes r b'\n' xs (ends_blank-is_blank r line t ∙ e)) ∙ h

scan-lines_from :
    (r : LineReader) (line xs : Text)
    → All (λ x. x ≢ b'"') xs
    → Tracks r line
    → (scan r xs).blank ≡ any_blank (lines_from line xs)
unfolding lines_from any_blank
scan-lines_from r line [] q t = unfold scan in refl
scan-lines_from r line (x ∷ xs) q t = elim (ℕ_discrete x b'\n') [
  | yes feed ↦ rw feed (
      line_feed r line xs (any_blank (lines_from [] xs)) (is_blank line) t refl
        (scan-lines_from (advance r b'\n') [] xs q.1 (advance-feed r line t)))
  | no other ↦
      ap (λ s. s.blank) (scan_goes r x xs (ends_blank-other r x other))
      ∙ scan-lines_from (advance r x) (line ++ x ∷ []) xs q.1 (advance-Tracks r line x q.0 other t)
      ∙ ground arith
]

-- A file without quotes is refused for a blank line exactly if one of the lines that a line feed
-- ends is empty, or is a lone carriage return.
pub scan-lines :
    (xs : Text) → All (λ x. x ≢ b'"') xs → (scan new_reader xs).blank ≡ any_blank (lines_from [] xs)
unfolding ends_cr
scan-lines xs q =
    scan-lines_from new_reader [] xs q (record { size = refl; cr = refl; outside = refl })
