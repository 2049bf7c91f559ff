-- ===== src/Handler/Relay/Links.antt =====
-- The stream of an agent that writes as this server does.
use looking_glass.Common.{
  ℕ, ◌<◌, ◌≡◌, refl, ap, sym, ◌∙◌, List, [], ◌∷◌, ◌++◌, Bool, true, false, ◌==◌, ◌&&◌, not,
  if◌then◌else◌, Option, some, Text, Text-discrete, codes, All, map, append_assoc, append-nil,
  arith, length, lookup-assign_self,
}
use looking_glass.Report.Ephemeral as Ephemeral
use looking_glass.Report.Ephemeral.{get, put}
use looking_glass.Report.Id.{new_id}
use looking_glass.Strings.{cut_prefix, split}
use looking_glass.Strings.Splits.{Lacks, split-Lacks}
use looking_glass.Handler.Capture.{
  SseCapture, start_capture, begin_capture, announce, finish_capture,
}
use looking_glass.Handler.Gate.{Env, nothing}
use looking_glass.Handler.Probe.Links.{add_all, stored}
use looking_glass.Handler.Relay.{Relayed, is_end, relay, stream_proxy}
use looking_glass.Handler.Relay.Contents.{
  contents, captured, any_end, attended, relayed, relay-relayed,
}
use looking_glass.Handler.Sse.{data_prefix, done_text, data_line, render, render_all}
use looking_glass.Handler.State.{State, Frame, line, done, event}

abbrev pub ends_in : ℕ → Text → Bool
ends_in c [] = false
ends_in c (d ∷ []) = d == c
ends_in c (d ∷ e ∷ s) = ends_in c (e ∷ s)

-- A line that the scanner gives as it stands: without a line feed, or a carriage return at its end,
-- and shorter than the scanner's buffer.
pub record IsLine (s : Text) : Type 0 where
  pub lacks : Lacks b'\n' s
  pub ends : ends_in b'\r' s ≡ false
  pub fits : length s < 65_535

-- `bufio.Scanner` on a text: its lines.
pub record IsScanner (scan : Text → List Text) : Type 0 where
  pub at_end : scan [] ≡ []
  pub at_line : (s rest : Text) → IsLine s → scan (s ++ b'\n' ∷ rest) ≡ s ∷ scan rest

-- A line of output that is no end mark, and fits the scanner with `data: ` before it.
pub record IsOutput (s : Text) : Type 0 where
  pub proper : IsLine (data_prefix ++ s)
  pub lacks : Lacks b'\n' s
  pub goes : is_end s ≡ false

done-IsLine : IsLine (data_prefix ++ done_text)
done-IsLine = record {
  lacks = (
    refl,
    (refl, (refl, (refl, (refl, (refl, (refl, (refl, (refl, (refl, (refl, (refl, tt))))))))))),
  );
  ends = refl;
  fits = omega arith;
}

blank-IsLine : IsLine []
blank-IsLine = record { lacks = tt; ends = refl; fits = omega arith }

-- What the scanner gives of a data line: the line, and a blank one.
scan-data_line :
    (scan : Text → List Text) (s rest : Text)
    → IsScanner scan
    → IsLine (data_prefix ++ s)
    → scan (data_line s ++ rest) ≡ (data_prefix ++ s) ∷ [] ∷ scan rest
scan-data_line scan s rest h p =
    ap scan (
      append_assoc data_prefix (s ++ b'\n' ∷ b'\n' ∷ []) rest
      ∙ ap (λ t. data_prefix ++ t) (append_assoc s (b'\n' ∷ b'\n' ∷ []) rest)
      ∙ sym (append_assoc data_prefix s (b'\n' ∷ b'\n' ∷ rest)))
    ∙ h.at_line (data_prefix ++ s) (b'\n' ∷ rest) p
    ∙ ap (λ lines. (data_prefix ++ s) ∷ lines) (h.at_line [] rest blank-IsLine)

render-line : (s : Text) → Lacks b'\n' s → render (line s) ≡ data_line s
unfolding render
render-line s h = rw (split-Lacks b'\n' s h) (append-nil (data_line s))

contents-data_line :
    (s : Text) (texts : List Text) → contents ((data_prefix ++ s) ∷ [] ∷ texts) ≡ s ∷ contents texts
unfolding contents cut_prefix
contents-data_line s texts = refl

-- The contents of what was rendered are the lines, and the end mark.
contents-render_all :
    (scan : Text → List Text) (lines : List Text)
    → IsScanner scan
    → All IsOutput lines
    → contents (scan (render_all (map line lines ++ done ∷ []))) ≡ lines ++ done_text ∷ []
unfolding render_all render
contents-render_all scan [] h all =
    ap contents (scan-data_line scan done_text [] h done-IsLine)
    ∙ contents-data_line done_text (scan [])
    ∙ ap (λ texts. done_text ∷ contents texts) h.at_end
    ∙ ap (λ texts. done_text ∷ texts) (unfold contents in refl)
contents-render_all scan (s ∷ lines) h all =
    let rest = render_all (map line lines ++ done ∷ []) in
    ap (λ t. contents (scan (t ++ rest))) (render-line s all.0.lacks)
    ∙ ap contents (scan-data_line scan s rest h all.0.proper)
    ∙ contents-data_line s (scan rest)
    ∙ ap (λ texts. s ∷ texts) (contents-render_all scan lines h all.1)

captured-output :
    (lines : List Text) → All IsOutput lines → captured (lines ++ done_text ∷ []) ≡ lines
unfolding is_end Text-discrete
captured-output [] all = refl
captured-output (s ∷ lines) all = ground (arith, all.0.goes, captured-output lines all.1)

any_end-done : (lines : List Text) → any_end (lines ++ done_text ∷ []) ≡ true
unfolding any_end is_end Text-discrete
any_end-done [] = refl
any_end-done (s ∷ lines) = ground (arith, any_end-done lines)

render_all-done :
    (lines : List Text)
    → render_all (map line (lines ++ done_text ∷ [])) ≡ render_all (map line lines ++ done ∷ [])
unfolding render_all render split
render_all-done [] = refl
render_all-done (s ∷ lines) = ap (λ t. render (line s) ++ t) (render_all-done lines)

abbrev outcome : Env → ℕ → Text → Text → State → Option SseCapture → Relayed → List Frame × State
outcome env now kind target s c r = (
  announce c ++ r.frames,
  if not r.gone && r.finished
      then finish_capture (env.marshal_lines target nothing) now r.capture kind target s
      else s,
)

stream_proxy-whole :
    (env : Env) (random : Option (List ℕ)) (now : ℕ) (kind target id : Text)
    (scan : Text → List Text) (lines : List Text) (s : State)
    → IsScanner scan
    → All IsOutput lines
    → new_id random ≡ some id
    → stream_proxy env random now kind target
        (attended (scan (render_all (map line lines ++ done ∷ []))))
        s
      ≡ (
        event (codes "request_id") id ∷ map line (lines ++ done_text ∷ []),
        finish_capture
            (env.marshal_lines target nothing)
            now
            (some (record { id = id; lines = lines }))
            kind
            target
            s,
      )
unfolding stream_proxy begin_capture
stream_proxy-whole env random now kind target id scan lines s h all made =
    let texts = scan (render_all (map line lines ++ done ∷ [])) in
    let c = some (record { id = id; lines = [] }) in
    let all_contents = lines ++ done_text ∷ [] in
    ap
      (λ o.
        outcome env now kind target s (start_capture o)
          (relay false (start_capture o) (attended texts)))
      made
    ∙ ap (outcome env now kind target s c) (relay-relayed false c texts)
    ∙ ap (λ cs. outcome env now kind target s c (relayed false c cs))
        (contents-render_all scan lines h all)
    ∙ ap
        (λ b. outcome env now kind target s c (record {
          frames = map line all_contents;
          capture = add_all (captured all_contents) c;
          finished = b;
          gone = false;
        }))
        (any_end-done lines)
    ∙ ap
        (λ ls. outcome env now kind target s c (record {
          frames = map line all_contents;
          capture = add_all ls c;
          finished = true;
          gone = false;
        }))
        (captured-output lines all)

-- An agent's stream of lines and the end mark is written on byte for byte, after the identifier; and
-- the cache then has the lines under that identifier. (The scanner splits lines as documented; none
-- of the lines looks like an end mark or is too long for it; an identifier can be made, and the lines
-- be written as JSON.)
pub stream_proxy-kept :
    (env : Env) (random : Option (List ℕ)) (now : ℕ) (kind target id payload : Text)
    (scan : Text → List Text) (lines : List Text) (s : State) (cache : Ephemeral.Cache)
    → IsScanner scan
    → All IsOutput lines
    → new_id random ≡ some id
    → s.ephemeral ≡ some cache
    → env.marshal_lines target nothing lines ≡ some payload
    → (render_all
          (stream_proxy env random now kind target
            (attended (scan (render_all (map line lines ++ done ∷ []))))
            s).0
        ≡ render (event (codes "request_id") id) ++ render_all (map line lines ++ done ∷ []))
      × (kept : Ephemeral.Cache) × ((stream_proxy env random now kind target
            (attended (scan (render_all (map line lines ++ done ∷ []))))
            s).1.ephemeral
          ≡ some kept)
      × (get kept id
          ≡ some (record { kind = kind; target = target; payload = payload; created_at = now }))
unfolding get put
stream_proxy-kept env random now kind target id payload scan lines s cache h all made has json =
    let entry : Ephemeral.Ephemeral = record {
      kind = kind;
      target = target;
      payload = payload;
      created_at = now;
    } in
    let whole = stream_proxy-whole env random now kind target id scan lines s h all made in
    (
      ap (λ p. render_all p.0) whole
          ∙ unfold render_all in
            ap (λ t. render (event (codes "request_id") id) ++ t) (render_all-done lines),
      put cache id entry,
      ap (λ p. p.1.ephemeral) whole
          ∙ stored (env.marshal_lines target nothing) now id kind target payload lines s cache json
              has,
      lookup-assign_self Text-discrete id entry (Ephemeral.make_room cache),
    )
