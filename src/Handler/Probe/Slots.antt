-- ===== src/Handler/Probe/Slots.antt =====
-- What `Ping` and `Traceroute` leave of the slots.
use looking_glass.Common.{ℕ, ◌≡◌, refl, List, Bool, true, false, Option, none, some, Text, codes}
use looking_glass.Handler.{Request, query_get}
use looking_glass.Handler.Capture.{
  SseCapture, begin_capture, announce, remember, remember_lines, finish_capture,
}
use looking_glass.Handler.Gate.{Env, number}
use looking_glass.Handler.Gate.Balance.{
  Balanced, Balances, Balanced-refl, >>=-Balances, with_semaphore-Balances, with_ip-Balances,
  require_target-Balances, require_public-Balances, require_rate-Balances, require_flusher-Balances,
  respond-Balanced,
}
use looking_glass.Handler.Probe.{
  Tool, Exec, no_pipe, no_start, ran, World, Streamed, stream_lines, conclude, going, run_tool,
  probe_steps, probe,
}
use looking_glass.Handler.State.{State, Frame}

pub finish_capture-Balanced :
    (marshal : List Text → Option Text) (now : ℕ) (c : Option SseCapture) (kind target : Text)
    (s : State)
    → Balanced s (finish_capture marshal now c kind target s)
unfolding finish_capture remember
finish_capture-Balanced marshal now none kind target s = Balanced-refl s
finish_capture-Balanced marshal now (some c) kind target s = by_json (marshal c.lines)
  where
    by_json : (o : Option Text) → Balanced s (remember_lines now c.id kind target o s)
    by_json none = Balanced-refl s
    by_json (some payload) = record { probes = refl; clients = λ ip. refl }

conclude-Balanced :
    (keep : Option SseCapture → State → State) (first : List Frame) (out : Streamed) (s : State)
    (b : Bool)
    → out.finished ≡ b
    → ((c : Option SseCapture) → Balanced s (keep c s))
    → Balanced s (going (conclude keep first out s)).1
conclude-Balanced keep first out s true e h = rw e (h out.capture)
conclude-Balanced keep first out s false e h = rw e (Balanced-refl s)

run_tool-Balances :
    (env : Env) (w : World) (tool : Tool) (target : Text) (n : ℕ) (x : Exec)
    → Balances (run_tool env w tool target n x)
unfolding run_tool
run_tool-Balances env w tool target n (no_pipe e) = record { at = Balanced-refl }
run_tool-Balances env w tool target n (no_start e) = record { at = Balanced-refl }
run_tool-Balances env w tool target n (ran lines) = record {
  at = λ s.
      let c = begin_capture w.random in
      let out = stream_lines c lines in
      let marshal = env.marshal_lines target (number tool.option n) in
      conclude-Balanced (λ capture. finish_capture marshal w.stored capture tool.kind target)
        (announce c) out s out.finished refl
        (λ capture. finish_capture-Balanced marshal w.stored capture tool.kind target s);
}

-- A request for a probe that no other overlaps leaves the slots as it found them, whatever it is
-- answered and whatever the command does: as many of the 30 are taken, and by the same clients.
pub probe-Balanced :
    (tool : Tool) (env : Env) (w : World) (r : Request) (s : State)
    → Balanced s (probe tool env w r s).1
unfolding probe probe_steps
probe-Balanced tool env w r s =
    let target = query_get r (codes "target") in
    respond-Balanced s (probe_steps tool env w r s) (steps.at s)
  where
    steps : Balances (probe_steps tool env w r)
    steps =
        search
          (
            >>=-Balances, require_target-Balances, require_public-Balances, require_rate-Balances,
            require_flusher-Balances, with_semaphore-Balances, with_ip-Balances, run_tool-Balances,
          )
          depth 12
