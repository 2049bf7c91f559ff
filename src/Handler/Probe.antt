-- ===== src/Handler/Probe.antt =====
-- The handlers `Ping` and `Traceroute` of internal/handler/handler.go, which differ in the values of
-- a `Tool`. What running a command comes to is an argument, a function of its arguments: no pipe,
-- no start, or the lines that the scanner gives, each with the answer of `r.Context().Done()` before
-- the line is written. The lines end with the output, also where the command is killed.
pub mod Slots
pub mod Commands
pub mod Links
pub mod Shared
mod Tests
use looking_glass.Common.{
  ℕ, List, [], ◌∷◌, ◌++◌, Bool, true, false, ◌&&◌, Option, none, some, leb, if◌then◌else◌, Text,
  codes,
}
use looking_glass.Ip.{Address}
use looking_glass.Strings.{ℤ, pos, negsuc, atoi}
use looking_glass.Handler.{Request, client_ip, query_get}
use looking_glass.Handler.Capture.{SseCapture, begin_capture, announce, add, finish_capture}
use looking_glass.Handler.Gate.{
  Env, Extra, number, Outcome, go, Action, ◌>>=◌, ◌>>◌, require_target, require_public,
  require_rate, require_flusher, with_semaphore, with_ip, respond,
}
use looking_glass.Handler.State.{
  State, Frame, line, failed, done, Response, stream, busy, already_active,
}

pub record Tool : Type 0 where
  pub kind : Text
  pub option : Text
  pub usual : ℕ
  pub lowest : ℕ
  pub highest : ℕ
  pub arguments : Text → Text → List Text
  pub not_started : Text

abbrev pub ping_tool : Tool
ping_tool = record {
  kind = codes "ping";
  option = codes "count";
  usual = 5;
  lowest = 1;
  highest = 20;
  arguments =
      λ n target. codes "-c" ∷ n ∷ codes "-W" ∷ codes "2" ∷ codes "-i" ∷ codes "0.5" ∷ target ∷ [];
  not_started = codes "ping failed to start: ";
}

abbrev pub traceroute_tool : Tool
traceroute_tool = record {
  kind = codes "traceroute";
  option = codes "maxhops";
  usual = 30;
  lowest = 5;
  highest = 64;
  arguments = λ n target. codes "-n" ∷ codes "-w" ∷ codes "2" ∷ codes "-m" ∷ n ∷ target ∷ [];
  not_started = codes "traceroute not available: ";
}

pub data Exec : Type 0 where
  no_pipe no_start : Text → Exec
  ran : List (Bool × Text) → Exec

-- What a request meets: the clock at the limiter, at the slot and at the cache, whether the writer
-- can flush, the random bytes, and what commands do.
pub record World : Type 0 where
  pub now : ℕ
  pub acquired : ℕ
  pub stored : ℕ
  pub flusher : Bool
  pub random : Option (List ℕ)
  pub exec : Text → List Text → Exec

-- The option of a tool, if it is a number in the tool's range.
unfoldable pub chosen : Tool → Option ℤ → ℕ
chosen tool none = tool.usual
chosen tool (some (negsuc n)) = tool.usual
chosen tool (some (pos n)) = if leb tool.lowest n && leb n tool.highest then n else tool.usual

abbrev pub pinned_or : Env → Text → Option Address → Text
pinned_or env target none = target
pinned_or env target (some ip) = env.to_string ip

-- The loop over the lines: what it writes, the capture, and whether it came to the end.
pub record Streamed : Type 0 where
  pub frames : List Frame
  pub capture : Option SseCapture
  pub finished : Bool

abbrev pub before : Text → Streamed → Streamed
before text s = record s { frames = line text ∷ s.frames }

unfoldable pub stream_lines : Option SseCapture → List (Bool × Text) → Streamed
stream_lines c [] = record { frames = []; capture = c; finished = true }
stream_lines c ((gone, text) ∷ rest) =
    let more = before text (stream_lines (add text c) rest) in
    if gone then record { frames = []; capture = c; finished = false } else more

-- After the loop: `sseDone` and `finishCapture`, unless the client is gone.
abbrev pub conclude :
    (Option SseCapture → State → State)
    → List Frame
    → Streamed
    → State
    → Response (Unit {0}) × State
conclude keep first out s =
    if out.finished
    then (stream (first ++ (out.frames ++ done ∷ [])), keep out.capture s)
    else (stream (first ++ out.frames), s)

abbrev pub going : {R : Type 0} → Response R × State → Outcome R (Response R) × State
going (x, s) = (go x, s)

unfoldable pub run_tool :
    Env → World → Tool → Text → ℕ → Exec → Action (Unit {0}) (Response (Unit {0}))
unfolding stream_lines begin_capture finish_capture
run_tool env w tool target n (no_pipe e) s =
    (go (stream (failed (codes "internal error: " ++ e) ∷ [])), s)
run_tool env w tool target n (no_start e) s = (go (stream (failed (tool.not_started ++ e) ∷ [])), s)
run_tool env w tool target n (ran lines) s =
    let c = begin_capture w.random in
    going (
      conclude
        (λ capture.
          finish_capture (env.marshal_lines target (number tool.option n)) w.stored capture
            tool.kind target)
        (announce c) (stream_lines c lines) s)

-- `Ping` and `Traceroute`, up to the response.
unfoldable pub probe_steps : Tool → Env → World → Request → Action (Unit {0}) (Response (Unit {0}))
unfolding require_target require_public require_rate require_flusher with_semaphore with_ip run_tool
    chosen
probe_steps tool env w r = do
  let target = query_get r (codes "target")
  require_target env target
  pinned ← require_public env target
  require_rate env r w.now
  let n = chosen tool (atoi (query_get r tool.option))
  require_flusher w.flusher
  with_semaphore (stream (failed busy ∷ [])) (
      with_ip (client_ip env.client r) w.acquired (stream (failed already_active ∷ [])) (
        run_tool env w tool target n
          (w.exec tool.kind (tool.arguments (env.itoa n) (pinned_or env target pinned)))))

unfoldable pub probe : Tool → Env → World → Request → State → Response (Unit {0}) × State
probe tool env w r s = respond (probe_steps tool env w r s)

abbrev pub ping : Env → World → Request → State → Response (Unit {0}) × State
ping = probe ping_tool

abbrev pub traceroute : Env → World → Request → State → Response (Unit {0}) × State
traceroute = probe traceroute_tool
