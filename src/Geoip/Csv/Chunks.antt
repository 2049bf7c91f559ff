-- ===== src/Geoip/Csv/Chunks.antt =====
-- How the reader below cuts the file into chunks does not matter.
use looking_glass.Common.{
  ℕ, ◌≡◌, refl, ap, sym, ◌∙◌, List, [], ◌∷◌, ◌++◌, Bool, true, false, Option, none, some, arith,
  take, Bool-cases, if◌then◌else◌, inl, inr,
}
use looking_glass.Geoip.Csv.{
  ReadError, LineReader, ends_blank, advance, Scan, one_more, scan, finish, read, blank_line,
  blank_error,
}

abbrev add_to : List ℕ → List ℕ × Option ReadError → List ℕ × Option ReadError
add_to xs (ys, e) = (xs ++ ys, e)

abbrev stop_at : Option ReadError → List ℕ → List ℕ × Option ReadError → List ℕ × Option ReadError
stop_at (some e) xs rest = (xs, some e)
stop_at none xs rest = add_to xs rest

-- What a client has after it read the chunks one by one, up to an error: the bytes, and the error.
unfoldable pub read_all : LineReader → List (List ℕ) → List ℕ × Option ReadError
read_all r [] = ([], none)
read_all r (chunk ∷ chunks) =
    let rest = read_all (read r chunk none).1 chunks in
    stop_at (read r chunk none).0.1 (take (read r chunk none).0.0 chunk) rest

unfoldable pub concat : List (List ℕ) → List ℕ
concat [] = []
concat (xs ∷ xss) = xs ++ concat xss

-- The bytes that a scan lets through, and the error that it ends with.
abbrev pub passes : LineReader → List ℕ → List ℕ × Option ReadError
passes r xs = (take (scan r xs).passed xs, if (scan r xs).blank then some blank_line else none)

abbrev in_front : ℕ → List ℕ × Option ReadError → List ℕ × Option ReadError
in_front x (xs, e) = (x ∷ xs, e)

pub scan_stops :
    (r : LineReader) (x : ℕ) (xs : List ℕ)
    → ends_blank r x ≡ true
    → scan r (x ∷ xs) ≡ record { passed = 0; reader = r; blank = true }
unfolding scan
scan_stops r x xs e = rw (e, scan) refl

pub scan_goes :
    (r : LineReader) (x : ℕ) (xs : List ℕ)
    → ends_blank r x ≡ false
    → scan r (x ∷ xs) ≡ one_more (scan (advance r x) xs)
unfolding scan
scan_goes r x xs e = rw (e, scan) refl

-- What a scan of two texts, one after the other, lets through, given the scan of the first.
abbrev then_on : Scan → List ℕ → List ℕ → List ℕ × Option ReadError
then_on s xs ys =
    if s.blank then (take s.passed xs, some blank_line) else add_to xs (passes s.reader ys)

in_front-then_on :
    (x : ℕ) (s : Scan) (xs ys : List ℕ)
    → in_front x (then_on s xs ys) ≡ then_on (one_more s) (x ∷ xs) ys
in_front-then_on x s xs ys = elim (Bool-cases s.blank) [ inl e ↦ rw e refl | inr e ↦ rw e refl ]

pub passes-append :
    (r : LineReader) (xs ys : List ℕ) → passes r (xs ++ ys) ≡ then_on (scan r xs) xs ys
passes-append r [] ys = unfold scan in refl
passes-append r (x ∷ xs) ys = elim (Bool-cases (ends_blank r x)) [
  | inl stop ↦ rw (scan_stops r x (xs ++ ys) stop, scan_stops r x xs stop) refl
  | inr go ↦
      rw (scan_goes r x (xs ++ ys) go, scan_goes r x xs go)
        (ap (in_front x) (passes-append (advance r x) xs ys)
          ∙ in_front-then_on x (scan (advance r x) xs) xs ys)
]

scan_whole :
    (r : LineReader) (xs : List ℕ) → (scan r xs).blank ≡ false → take (scan r xs).passed xs ≡ xs
scan_whole r [] e = unfold scan in refl
scan_whole r (x ∷ xs) e = elim (Bool-cases (ends_blank r x)) [
  | inl stop ↦ cc (scan_stops r x xs stop, e)
  | inr go ↦
      let same = scan_goes r x xs go in
      rw same (ap (λ ys. x ∷ ys) (scan_whole (advance r x) xs (sym (ap (λ s. s.blank) same) ∙ e)))
]

advance-terminal_err : (r : LineReader) (x : ℕ) → (advance r x).terminal_err ≡ r.terminal_err
unfolding advance
advance-terminal_err r x = ground arith

still_running :
    (r : LineReader) (xs : List ℕ) → r.terminal_err ≡ none → (scan r xs).reader.terminal_err ≡ none
still_running r [] e = unfold scan in e
still_running r (x ∷ xs) e = elim (Bool-cases (ends_blank r x)) [
  | inl stop ↦ rw (scan_stops r x xs stop) e
  | inr go ↦
      rw (scan_goes r x xs go) (still_running (advance r x) xs (advance-terminal_err r x ∙ e))
]

read-finish :
    (r : LineReader) (chunk : List ℕ) (e : Option ReadError)
    → r.terminal_err ≡ none
    → read r chunk e ≡ finish (scan r chunk) e
unfolding read
read-finish r chunk e h = rw h refl

next_chunk :
    (s : Scan) (chunk : List ℕ) (chunks : List (List ℕ)) (b : Bool)
    → s.blank ≡ b
    → (b ≡ false → take s.passed chunk ≡ chunk)
    → (b ≡ false → read_all s.reader chunks ≡ passes s.reader (concat chunks))
    → stop_at
        (finish s none).0.1
        (take (finish s none).0.0 chunk)
        (read_all (finish s none).1 chunks)
      ≡ then_on s chunk (concat chunks)
unfolding blank_error
next_chunk s chunk chunks true e whole h = rw e refl
next_chunk s chunk chunks false e whole h = rw (e, whole refl, h refl) refl

-- A client that reads a file in chunks, up to an error, has the same bytes and the same error,
-- however the file is cut into chunks: those of a single scan of the whole file.
pub read_all-concat :
    (r : LineReader) (chunks : List (List ℕ))
    → r.terminal_err ≡ none
    → read_all r chunks ≡ passes r (concat chunks)
unfolding read_all concat
read_all-concat r [] e = unfold scan in refl
read_all-concat r (chunk ∷ chunks) e =
    let s = scan r chunk in
    rw (read-finish r chunk none e) (
      next_chunk s chunk chunks s.blank refl (scan_whole r chunk)
        (λ b. read_all-concat s.reader chunks (still_running r chunk e)))
    ∙ sym (passes-append r chunk (concat chunks))
