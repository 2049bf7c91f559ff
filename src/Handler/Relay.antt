-- ===== src/Handler/Relay.antt =====
-- `streamProxyWithCapture` of internal/handler/proxy.go: the event stream of an agent is written on
-- and captured. A line that the scanner gives comes with the answer of `r.Context().Done()`.
pub mod Contents
pub mod Links
mod Tests
use looking_glass.Common.{
  ℕ, List, [], ◌∷◌, ◌++◌, Bool, true, false, ◌&&◌, not, Option, none, some, ite, if◌then◌else◌,
  Text, Text-discrete,
}
use looking_glass.Strings.{cut_prefix, has_prefix}
use looking_glass.Handler.Capture.{SseCapture, begin_capture, announce, add, finish_capture}
use looking_glass.Handler.Gate.{Env, nothing}
use looking_glass.Handler.Sse.{data_prefix, done_text, error_text}
use looking_glass.Handler.State.{State, Frame, line}

pub record Relayed : Type 0 where
  pub frames : List Frame
  pub capture : Option SseCapture
  pub finished : Bool
  pub gone : Bool

unfoldable pub is_end : Text → Bool
is_end content = ite (Text-discrete content done_text) true (has_prefix error_text content)

abbrev pub after_line : Text → Relayed → Relayed
after_line content r = record r { frames = line content ∷ r.frames }

-- The loop over the lines of the agent.
unfoldable pub relay : Bool → Option SseCapture → List (Bool × Text) → Relayed
unfolding cut_prefix is_end
relay finished c [] = record { frames = []; capture = c; finished = finished; gone = false }
relay finished c ((gone, text) ∷ rest) = elim gone [
  | true ↦ record { frames = []; capture = c; finished = finished; gone = true }
  | false ↦ elim (cut_prefix data_prefix text) [
    | none ↦ relay finished c rest
    | some content ↦ elim (is_end content) [
      | true ↦ after_line content (relay true c rest)
      | false ↦ after_line content (relay finished (add content c) rest)
    ]
  ]
]

-- `streamProxyWithCapture`, with the random bytes and the clock at the cache.
unfoldable pub stream_proxy :
    Env → Option (List ℕ) → ℕ → Text → Text → List (Bool × Text) → State → List Frame × State
unfolding relay begin_capture finish_capture
stream_proxy env random stored kind target lines s =
    let c = begin_capture random in
    let r = relay false c lines in
    (
      announce c ++ r.frames,
      if not r.gone && r.finished
          then finish_capture (env.marshal_lines target nothing) stored r.capture kind target s
          else s,
    )
