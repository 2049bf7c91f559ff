-- ===== src/Handler/Relay/Contents.antt =====
-- What is written on, and what is captured, of an agent's stream that is read to its end.
use looking_glass.Common.{
  ◌≡◌, refl, ap, sym, ◌∙◌, List, [], ◌∷◌, Bool, true, false, ◌||◌, not, Option, none, some, Text,
  map, keep, Bool-cases, Option-cases, inl, inr, arith,
}
use looking_glass.Strings.{cut_prefix}
use looking_glass.Handler.Capture.{SseCapture, add}
use looking_glass.Handler.Probe.Links.{add_all, add_all-add, add_all-nil}
use looking_glass.Handler.Relay.{Relayed, is_end, after_line, relay}
use looking_glass.Handler.Sse.{data_prefix}
use looking_glass.Handler.State.{line}

abbrev pub with_content : Option Text → List Text → List Text
with_content none contents = contents
with_content (some content) contents = content ∷ contents

-- The contents of the data lines.
unfoldable pub contents : List Text → List Text
contents [] = []
contents (text ∷ lines) = with_content (cut_prefix data_prefix text) (contents lines)

abbrev pub captured : List Text → List Text
captured contents = keep (λ content. not (is_end content)) contents

unfoldable pub any_end : List Text → Bool
any_end [] = false
any_end (content ∷ contents) = is_end content || any_end contents

abbrev pub attended : List Text → List (Bool × Text)
attended lines = map (λ text. (false, text)) lines

abbrev pub relayed : Bool → Option SseCapture → List Text → Relayed
relayed finished c contents = record {
  frames = map line contents;
  capture = add_all (captured contents) c;
  finished = finished || any_end contents;
  gone = false;
}

or_true : (b : Bool) → (b || true) ≡ true
or_true true = refl
or_true false = refl

or_false : (b : Bool) → b ≡ (b || false)
or_false true = refl
or_false false = refl

relayed_nil :
    (finished : Bool) (c : Option SseCapture)
    → record { frames = []; capture = c; finished = finished; gone = false } ≡ relayed finished c []
unfolding any_end
relayed_nil finished c =
    ap (λ k. record { frames = []; capture = k; finished = finished; gone = false }) (add_all-nil c)
    ∙ ap (λ b. record { frames = []; capture = add_all [] c; finished = b; gone = false })
        (or_false finished)

captured_end :
    (content : Text) (more : List Text)
    → is_end content ≡ true
    → captured more ≡ captured (content ∷ more)
captured_end content more h = ground arith

captured_goes :
    (content : Text) (more : List Text)
    → is_end content ≡ false
    → content ∷ captured more ≡ captured (content ∷ more)
captured_goes content more h = ground arith

abbrev one_more : Text → List Text → Option SseCapture → Bool → Relayed
one_more content more c b = record {
  frames = line content ∷ map line more;
  capture = c;
  finished = b;
  gone = false;
}

-- The client gets the contents of the data lines; what is captured is these without the end marks;
-- and the stream counts as finished just if there is one.
pub relay-relayed :
    (finished : Bool) (c : Option SseCapture) (lines : List Text)
    → relay finished c (attended lines) ≡ relayed finished c (contents lines)
unfolding relay contents any_end
relay-relayed finished c [] = relayed_nil finished c
relay-relayed finished c (text ∷ lines) = elim (Option-cases (cut_prefix data_prefix text)) [
  | inl other ↦ rw other (relay-relayed finished c lines)
  | inr (content, found) ↦
      let more = contents lines in
      elim (Bool-cases (is_end content)) [
        | inl end ↦ rw found (
            rw end (
              ap (after_line content) (relay-relayed true c lines)
              ∙ ap (one_more content more (add_all (captured more) c)) (sym (or_true finished))
              ∙ ap (λ kept. one_more content more (add_all kept c) (finished || true))
                  (captured_end content more end)))
        | inr goes ↦ rw found (
            rw goes (
              ap (after_line content) (relay-relayed finished (add content c) lines)
              ∙ ap (λ k. one_more content more k (finished || any_end more))
                  (add_all-add content (captured more) c)
              ∙ ap (λ kept. one_more content more (add_all kept c) (finished || any_end more))
                  (captured_goes content more goes)))
      ]
]
