-- ===== src/Handler/Capture.antt =====
-- The capture of results in internal/handler/handler.go: `sseCapture`, `finishCapture` and
-- `captureJSON`. The random bytes and what the JSON library makes of a value are arguments.
pub mod Kept
use looking_glass.Common.{ℕ, List, [], ◌∷◌, ◌++◌, Option, none, some, Text, codes}
use looking_glass.Report.Ephemeral as Ephemeral
use looking_glass.Report.Ephemeral.{put}
use looking_glass.Report.Id.{new_id}
use looking_glass.Handler.State.{State, Frame, event}

pub record SseCapture : Type 0 where
  pub id : Text
  pub lines : List Text

abbrev pub start_capture : Option Text → Option SseCapture
start_capture none = none
start_capture (some id) = some (record { id = id; lines = [] })

-- `beginCapture`, and what it writes; `none` is the nil capture.
unfoldable pub begin_capture : Option (List ℕ) → Option SseCapture
begin_capture random = start_capture (new_id random)

abbrev pub announce : Option SseCapture → List Frame
announce none = []
announce (some c) = event (codes "request_id") c.id ∷ []

-- `add`
abbrev pub add : Text → Option SseCapture → Option SseCapture
add line none = none
add line (some c) = some (record c { lines = c.lines ++ line ∷ [] })

abbrev pub put_in : ℕ → Text → Text → Text → Text → Option Ephemeral.Cache → Option Ephemeral.Cache
put_in now id kind target payload none = none
put_in now id kind target payload (some cache) =
    some
      (put cache id (record { kind = kind; target = target; payload = payload; created_at = now }))

-- `h.ephemeral.Put`, where there is a cache.
unfoldable pub remember : ℕ → Text → Text → Text → Text → State → State
remember now id kind target payload s = record s {
  ephemeral = put_in now id kind target payload s.ephemeral;
}

abbrev pub remember_lines : ℕ → Text → Text → Text → Option Text → State → State
remember_lines now id kind target none s = s
remember_lines now id kind target (some payload) s = remember now id kind target payload s

-- `finishCapture`; `marshal` is the JSON of the lines with the target and what the handler adds.
unfoldable pub finish_capture :
    (List Text → Option Text) → ℕ → Option SseCapture → Text → Text → State → State
unfolding remember
finish_capture marshal now none kind target s = s
finish_capture marshal now (some c) kind target s =
    remember_lines now c.id kind target (marshal c.lines) s

abbrev pub remember_json : ℕ → Text → Text → Text → Option Text → State → State × Option Text
remember_json now kind target payload none s = (s, none)
remember_json now kind target payload (some id) s = (remember now id kind target payload s, some id)

-- `captureJSON`: the identifier, unless there is none.
unfoldable pub capture_json : ℕ → Option (List ℕ) → Text → Text → Text → State → State × Option Text
unfolding remember
capture_json now random kind target payload s = elim s.ephemeral [
  | none ↦ (s, none)
  | some cache ↦ remember_json now kind target payload (new_id random) s
]
