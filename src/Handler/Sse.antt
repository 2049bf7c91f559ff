-- ===== src/Handler/Sse.antt =====
-- The bytes of an event stream: `sseLine`, `sseDone`, `sseErr` and `sseEvent` of
-- internal/handler/handler.go.
use looking_glass.Common.{List, [], ◌∷◌, ◌++◌, Text, codes}
use looking_glass.Strings.{split}
use looking_glass.Handler.State.{Frame, line, failed, raw, done, event}

abbrev pub data_prefix : Text
data_prefix = codes "data: "

abbrev pub done_text : Text
done_text = codes "[DONE]"

abbrev pub error_text : Text
error_text = codes "[ERROR]"

abbrev pub data_line : Text → Text
data_line part = data_prefix ++ (part ++ b'\n' ∷ b'\n' ∷ [])

abbrev pub data_lines : List Text → Text
data_lines [] = []
data_lines (part ∷ parts) = data_line part ++ data_lines parts

unfoldable pub render : Frame → Text
render (line s) = data_lines (split b'\n' s)
render (failed msg) = data_line (error_text ++ 32 ∷ msg)
render (raw bytes) = bytes
render done = data_line done_text
render (event name s) = codes "event: " ++ (name ++ b'\n' ∷ data_line s)

unfoldable pub render_all : List Frame → Text
unfolding render
render_all [] = []
render_all (frame ∷ frames) = render frame ++ render_all frames
