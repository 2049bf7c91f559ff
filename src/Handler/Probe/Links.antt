-- ===== src/Handler/Probe/Links.antt =====
-- What is kept of the output of a probe.
use looking_glass.Common.{
  ℕ, ◌≡◌, refl, ap, ◌∙◌, List, [], ◌∷◌, ◌++◌, Bool, true, false, Option, none, some, arith, Text,
  Text-discrete, codes, All, map, append_assoc, append-nil, lookup-assign_self,
}
use looking_glass.Report.Ephemeral as Ephemeral
use looking_glass.Report.Ephemeral.{get, put}
use looking_glass.Report.Id.{new_id}
use looking_glass.Handler.Capture.{
  SseCapture, start_capture, begin_capture, announce, add, remember, put_in, finish_capture,
}
use looking_glass.Handler.Gate.{Env, number, go}
use looking_glass.Handler.Probe.{
  Tool, ran, World, Streamed, stream_lines, before, conclude, going, run_tool,
}
use looking_glass.Handler.State.{State, line, done, event, stream}

abbrev pub texts : List (Bool × Text) → List Text
texts lines = map (λ l. l.1) lines

abbrev pub Attended : List (Bool × Text) → Type 0
Attended lines = All (λ l. l.0 ≡ false) lines

-- The capture with lines added.
abbrev pub add_all : List Text → Option SseCapture → Option SseCapture
add_all lines none = none
add_all lines (some c) = some (record c { lines = c.lines ++ lines })

abbrev whole : Option SseCapture → List Text → Streamed
whole c lines = record { frames = map line lines; capture = add_all lines c; finished = true }

pub add_all-add :
    (text : Text) (lines : List Text) (c : Option SseCapture)
    → add_all lines (add text c) ≡ add_all (text ∷ lines) c
add_all-add text lines none = refl
add_all-add text lines (some c) = ground (arith, append_assoc c.lines (text ∷ []) lines)

pub add_all-nil : (c : Option SseCapture) → c ≡ add_all [] c
add_all-nil none = refl
add_all-nil (some c) = ground (arith, append-nil c.lines)

stream_lines-whole :
    (c : Option SseCapture) (lines : List (Bool × Text))
    → Attended lines
    → stream_lines c lines ≡ whole c (texts lines)
unfolding stream_lines
stream_lines-whole c [] h =
    ap (λ k. record { frames = []; capture = k; finished = true }) (add_all-nil c)
stream_lines-whole c ((gone, text) ∷ rest) h = rw h.0 (
    ap (before text) (stream_lines-whole (add text c) rest h.1)
    ∙ ap (λ k. record { frames = line text ∷ map line (texts rest); capture = k; finished = true })
        (add_all-add text (texts rest) c))

pub run_tool-whole :
    (env : Env) (w : World) (tool : Tool) (target : Text) (n : ℕ) (lines : List (Bool × Text))
    (s : State)
    → Attended lines
    → run_tool env w tool target n (ran lines) s ≡ (
      go (stream (announce (begin_capture w.random) ++ (map line (texts lines) ++ done ∷ []))),
      finish_capture
          (env.marshal_lines target (number tool.option n))
          w.stored
          (add_all (texts lines) (begin_capture w.random))
          tool.kind
          target
          s,
    )
unfolding run_tool
run_tool-whole env w tool target n lines s h =
    let c = begin_capture w.random in
    ap
      (λ out. going (
        conclude
          (λ capture.
            finish_capture (env.marshal_lines target (number tool.option n)) w.stored capture
              tool.kind target)
          (announce c) out s))
      (stream_lines-whole c lines h)

pub stored :
    (marshal : List Text → Option Text) (now : ℕ) (id kind target payload : Text)
    (lines : List Text) (s : State) (cache : Ephemeral.Cache)
    → marshal lines ≡ some payload
    → s.ephemeral ≡ some cache
    → (finish_capture marshal now
        (some (record { id = id; lines = lines }))
        kind
        target
        s).ephemeral
      ≡ some (
          put cache id
            (record { kind = kind; target = target; payload = payload; created_at = now }))
unfolding finish_capture remember
stored marshal now id kind target payload lines s cache json has =
    rw json (ap (put_in now id kind target payload) has)

-- Once the output of a probe has been written to the end, the cache has it under the identifier that
-- was announced: its lines, each as it was written, with the tool, the target and the number. (It
-- has to be possible to make an identifier and to write the lines as JSON.)
pub run_tool-kept :
    (env : Env) (w : World) (tool : Tool) (target id payload : Text) (n : ℕ)
    (lines : List (Bool × Text)) (s : State) (cache : Ephemeral.Cache)
    → Attended lines
    → new_id w.random ≡ some id
    → s.ephemeral ≡ some cache
    → env.marshal_lines target (number tool.option n) (texts lines) ≡ some payload
    → ((run_tool env w tool target n (ran lines) s).0
        ≡ go (stream (event (codes "request_id") id ∷ (map line (texts lines) ++ done ∷ []))))
      × (kept : Ephemeral.Cache) × ((run_tool env w tool target n (ran lines) s).1.ephemeral
          ≡ some kept)
      × (get kept id
          ≡ some (record {
            kind = tool.kind;
            target = target;
            payload = payload;
            created_at = w.stored;
          }))
unfolding begin_capture get put
run_tool-kept env w tool target id payload n lines s cache all made has json =
    let entry : Ephemeral.Ephemeral = record {
      kind = tool.kind;
      target = target;
      payload = payload;
      created_at = w.stored;
    } in
    let keep =
      stored (env.marshal_lines target (number tool.option n)) w.stored id tool.kind target payload
        (texts lines) s cache json has in
    let ran_whole : run_tool env w tool target n (ran lines) s ≡ (
      go (stream (event (codes "request_id") id ∷ (map line (texts lines) ++ done ∷ []))),
      finish_capture (env.marshal_lines target (number tool.option n)) w.stored
          (some (record { id = id; lines = texts lines })) tool.kind target s,
    ) =
      run_tool-whole env w tool target n lines s all
      ∙ ap
          (λ o. (
            go (stream (announce (start_capture o) ++ (map line (texts lines) ++ done ∷ []))),
            finish_capture (env.marshal_lines target (number tool.option n)) w.stored
                (add_all (texts lines) (start_capture o)) tool.kind target s,
          ))
          made in
    (
      ap (λ p. p.0) ran_whole,
      put cache id entry,
      ap (λ p. p.1.ephemeral) ran_whole ∙ keep,
      lookup-assign_self Text-discrete id entry (Ephemeral.make_room cache),
    )
