-- ===== src/Handler/Probe/Shared.antt =====
-- A probe, the promotion of its result, and the report that is read.
use looking_glass.Common.{
  ℕ, ◌-◌, ◌≤◌, ◌≡◌, refl, ap, ◌∙◌, List, Bool, true, Option, none, some, Text,
}
use looking_glass.RateLimit.{allow}
use looking_glass.Report.Ephemeral as Ephemeral
use looking_glass.Report.Id.{new_id}
use looking_glass.Report.Id.Hex.{IsRandom}
use looking_glass.Report.Store as Store
use looking_glass.Report.Store.Reading.{RoundTrips, IsAscii}
use looking_glass.Handler.Capture.{
  SseCapture, begin_capture, finish_capture, remember, remember_lines,
}
use looking_glass.Handler.Gate.{Env, number}
use looking_glass.Handler.Probe.{Tool, ran, World, run_tool}
use looking_glass.Handler.Probe.Links.{texts, Attended, add_all, run_tool-whole, run_tool-kept}
use looking_glass.Handler.Reports.{created, found, promote_report, read_report}
use looking_glass.Handler.Reports.Links.{read_report-promote_report}
use looking_glass.Handler.State.{State}

remembered-reports :
    (now : ℕ) (id kind target : Text) (o : Option Text) (s : State)
    → (remember_lines now id kind target o s).reports ≡ s.reports
unfolding remember
remembered-reports now id kind target none s = refl
remembered-reports now id kind target (some payload) s = refl

finish_capture-reports :
    (marshal : List Text → Option Text) (now : ℕ) (c : Option SseCapture) (kind target : Text)
    (s : State)
    → (finish_capture marshal now c kind target s).reports ≡ s.reports
unfolding finish_capture
finish_capture-reports marshal now none kind target s = refl
finish_capture-reports marshal now (some c) kind target s =
    remembered-reports now c.id kind target (marshal c.lines) s

run_tool-reports :
    (env : Env) (w : World) (tool : Tool) (target : Text) (n : ℕ) (lines : List (Bool × Text))
    (s : State)
    → Attended lines
    → (run_tool env w tool target n (ran lines) s).1.reports ≡ s.reports
run_tool-reports env w tool target n lines s h =
    ap (λ p. p.1.reports) (run_tool-whole env w tool target n lines s h)
    ∙ finish_capture-reports (env.marshal_lines target (number tool.option n)) w.stored
        (add_all (texts lines) (begin_capture w.random)) tool.kind target s

-- What a client saw of a probe can be shared: if the output was written to its end, and the request to
-- keep the result under the identifier that was announced is answered with an identifier, then for 24
-- hours a request for that identifier that the limiter lets through is answered with the tool, the
-- target and the lines as they were written, as JSON (compacted). (An identifier can be made and the
-- lines be written as JSON; the JSON library reads back what it wrote of ASCII texts, and the target is
-- such; rand.Read gave 20 bytes.)
pub read_report-run_tool :
    (codec : Store.Codec)
    → RoundTrips codec
    → (env : Env) (w : World) (tool : Tool) (target id payload ip other_ip shared : Text) (n : ℕ)
      (lines : List (Bool × Text)) (s u : State) (cache : Ephemeral.Cache) (store : Store.Store)
      (now later : ℕ) (p : Store.World) (b : List ℕ)
    → Attended lines
    → new_id w.random ≡ some id
    → s.ephemeral ≡ some cache
    → s.reports ≡ some store
    → env.marshal_lines target (number tool.option n) (texts lines) ≡ some payload
    → IsAscii tool.kind
    → IsAscii target
    → p.random ≡ some b
    → IsRandom b
    → promote_report codec (run_tool env w tool target n (ran lines) s).1 ip now (some id) p
      ≡ (u, created shared)
    → (allow u.rl other_ip later).1 ≡ true
    → later - p.now ≤ Store.report_ttl
    → (read_report codec u other_ip shared later).1
      ≡ found (record {
        id = shared;
        kind = tool.kind;
        target = target;
        captured_at = p.now;
        payload = codec.compact payload;
      })
read_report-run_tool codec law env w tool target id payload ip other_ip shared n lines s u cache
      store now later p b all made has stores json k g random fill promoted allowed fresh =
    let (shown, kept, keeps, got) =
      run_tool-kept env w tool target id payload n lines s cache all made has json in
    let entry : Ephemeral.Ephemeral = record {
      kind = tool.kind;
      target = target;
      payload = payload;
      created_at = w.stored;
    } in
    read_report-promote_report codec law (run_tool env w tool target n (ran lines) s).1 u kept store
      entry ip other_ip id shared now later p b keeps
      (run_tool-reports env w tool target n lines s all ∙ stores) got k g random fill promoted
      allowed fresh
