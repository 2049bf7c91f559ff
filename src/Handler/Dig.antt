-- ===== src/Handler/Dig.antt =====
-- `Dig` of internal/handler/handler.go: a query to all resolvers. The goroutines for the resolvers are
-- steps in the order in which they end; the order in which Go walks the map of answers is an argument.
pub mod Votes
mod Tests
use looking_glass.Common.{
  ℕ, ◌+◌, List, [], ◌∷◌, ◌++◌, Bool, true, false, ◌&&◌, not, Option, none, some, ite, if◌then◌else◌,
  Text, Text-discrete, codes, length, map, foldl, lookup, assign,
}
use looking_glass.Nodes.{or_zero}
use looking_glass.Strings.{
  contains, has_prefix, trim_space, fields, join_spaced, cut_prefix, after_first, split,
}
use looking_glass.Handler.{Request, client_ip, query_get}
use looking_glass.Handler.Capture.{SseCapture, begin_capture, announce, add, finish_capture}
use looking_glass.Handler.Gate.{
  Env, word, Outcome, go, Action, ◌>>=◌, ◌>>◌, require_target, require_rate, require_flusher,
  with_semaphore, with_ip, respond,
}
use looking_glass.Handler.Agents.{Moment}
use looking_glass.Handler.Routes.{not_blank}
use looking_glass.Handler.State.{
  State, Frame, line, failed, done, Response, stream, busy, already_active,
}

abbrev pub qtypes : List Text
qtypes =
    codes "A"
    ∷ codes "AAAA"
    ∷ codes "MX"
    ∷ codes "NS"
    ∷ codes "TXT"
    ∷ codes "CNAME"
    ∷ codes "SOA"
    ∷ codes "PTR"
    ∷ []

-- The `switch` on the type: a type of the list, or A.
unfoldable pub choose_qtype : List Text → Text → Text
choose_qtype [] qtype = codes "A"
choose_qtype (t ∷ types) qtype =
    let other = choose_qtype types qtype in ite (Text-discrete t qtype) qtype other

unfoldable pub normalized : List Text → Option Text
normalized (name ∷ ttl ∷ class ∷ kind ∷ value ∷ more) =
    some (name ++ (codes " IN " ++ (kind ++ 32 ∷ join_spaced (value ∷ more))))
normalized _ = none

abbrev pub is_record : Text → Bool
is_record l = not_blank (trim_space l) && not (has_prefix (codes ";") (trim_space l))

abbrev pub with_record : Option Text → Bool × List Text → Bool × List Text
with_record none p = p
with_record (some r) (has, records) = (has, r ∷ records)

-- The loop over the lines of `dig`: whether there is an answer, and the records.
unfoldable pub read_answers : Bool → List Text → Bool × List Text
unfolding after_first cut_prefix normalized
read_answers has [] = (has, [])
read_answers has (l ∷ lines) = elim (contains (codes "ANSWER SECTION") l) [
  | true ↦ read_answers true lines
  | false ↦ elim (has && is_record l) [
    | true ↦ with_record (normalized (fields l)) (read_answers has lines)
    | false ↦ read_answers has lines
  ]
]

pub data Run : Type 0 where
  no_pipe no_start : Run
  ran : List Text → Run

pub record Tally : Type 0 where
  pub answers : List (Text × ℕ)
  pub successes : ℕ
  pub debug_lines : List Text

-- `answers[normalized]++`
unfoldable pub bump : Text → List (Text × ℕ) → List (Text × ℕ)
bump r m = assign Text-discrete r (or_zero (lookup Text-discrete r m) + 1) m

unfoldable pub bump_all : List Text → List (Text × ℕ) → List (Text × ℕ)
unfolding bump
bump_all [] m = m
bump_all (r ∷ records) m = bump_all records (bump r m)

abbrev pub noted : Bool → Text → Text → Tally → Tally
noted debug resolver what t =
    if debug
    then record t {
      debug_lines =
          t.debug_lines ++ (codes "[Resolver " ++ (resolver ++ (codes "] " ++ what))) ∷ [];
    }
    else t

abbrev pub count_answers : Bool → Text → Bool × List Text → Tally → Tally
count_answers debug resolver (true, records) t = record t {
  answers = bump_all records t.answers;
  successes = t.successes + 1;
}
count_answers debug resolver (false, records) t =
    noted debug resolver (codes "NOERROR (no record) or SERVFAIL/timeout")
      (record t { answers = bump_all records t.answers })

-- The goroutine for a resolver.
unfoldable pub count_run : Bool → Tally → Text × Run → Tally
unfolding read_answers bump_all
count_run debug t (resolver, no_pipe) = noted debug resolver (codes "internal error") t
count_run debug t (resolver, no_start) = noted debug resolver (codes "dig failed to start") t
count_run debug t (resolver, ran lines) = count_answers debug resolver (read_answers false lines) t

unfoldable pub count_runs : Bool → Tally → List (Text × Run) → Tally
unfolding count_run
count_runs debug t [] = t
count_runs debug t (x ∷ runs) = count_runs debug (count_run debug t x) runs

abbrev pub no_votes : Tally
no_votes = record { answers = []; successes = 0; debug_lines = [] }

abbrev pub answer_line : (ℕ → Text) → Text × ℕ → Text
answer_line itoa (r, n) = r ++ (codes "   (found on " ++ (itoa n ++ codes " resolvers)"))

-- The lines for the answers, in the order of the walk.
unfoldable pub answer_lines : (ℕ → Text) → List (Text × ℕ) → List Text
answer_lines itoa [] = codes "No record found on any resolver" ∷ []
answer_lines itoa (a ∷ answers) = map (answer_line itoa) (a ∷ answers)

abbrev pub summary : (ℕ → Text) → ℕ → ℕ → Text
summary itoa found total =
    codes "=== Summary ==="
    ++ b'\n'
      ∷ (codes "Record found on "
          ++ (itoa found ++ (codes " out of " ++ (itoa total ++ codes " resolvers"))))

abbrev pub add_lines : List Text → Option SseCapture → Option SseCapture
add_lines [] c = c
add_lines (l ∷ lines) c = add_lines lines (add l c)

-- What `dig` does for a resolver, a target and a type, as the resolvers end; and the walk.
pub record Resolving : Type 0 where
  pub runs : List Text → Text → Text → List (Text × Run)
  pub walk : List (Text × ℕ) → List (Text × ℕ)

unfoldable pub resolve :
    Env → Moment → Resolving → Text → Text → Bool → Action (Unit {0}) (Response (Unit {0}))
unfolding count_runs answer_lines begin_capture finish_capture split
resolve env w d target qtype debug s =
    let c = begin_capture w.random in
    let t = count_runs debug no_votes (d.runs s.resolvers target qtype) in
    let lines = answer_lines env.itoa (d.walk t.answers) in
    let last = summary env.itoa t.successes (length s.resolvers) in
    (
      go (
          stream
            (announce c ++ (map line t.debug_lines ++ (map line lines ++ line last ∷ done ∷ [])))),
      finish_capture (env.marshal_lines target (word (codes "qtype") qtype)) w.stored
          (add_lines (split b'\n' last) (add_lines lines c)) (codes "dns") target s,
    )

unfoldable pub dig_steps :
    Env → Moment → Resolving → Request → Action (Unit {0}) (Response (Unit {0}))
unfolding require_target require_rate require_flusher with_semaphore with_ip choose_qtype resolve
dig_steps env w d r = do
  let target = query_get r (codes "target")
  require_target env target
  require_rate env r w.now
  let qtype = choose_qtype qtypes (query_get r (codes "qtype"))
  let debug = ite (Text-discrete (query_get r (codes "debug")) (codes "1")) true false
  require_flusher w.flusher
  with_semaphore (stream (failed busy ∷ [])) (
      with_ip (client_ip env.client r) w.acquired (stream (failed already_active ∷ []))
        (resolve env w d target qtype debug))

-- `Dig`
unfoldable pub dig : Env → Moment → Resolving → Request → State → Response (Unit {0}) × State
unfolding dig_steps
dig env w d r s = respond (dig_steps env w d r s)
