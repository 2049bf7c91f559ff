-- ===== src/Handler/Relay/Tests.antt =====
-- The stream of an agent, through the relay.
use looking_glass.Common.{
  ◌≡◌, refl, ap, List, [], ◌∷◌, ◌++◌, some, ◌==◌, if◌then◌else◌, Text, codes, Text-discrete, map,
  lookup, assign, arith,
}
use looking_glass.Report.Ephemeral as Ephemeral
use looking_glass.Report.Ephemeral.{get}
use looking_glass.Report.Id.{new_id, encode_to_string}
use looking_glass.Strings.{in_first, split, cut_prefix}
use looking_glass.Strings.Splits.{Lacks}
use looking_glass.Handler.Relay.{is_end, relay, stream_proxy}
use looking_glass.Handler.Relay.Contents.{attended}
use looking_glass.Handler.Relay.Links.{IsScanner, IsOutput, stream_proxy-kept}
use looking_glass.Handler.Sample.{join_lines, env, random, id, cache, state}
use looking_glass.Handler.Sse.{render, render_all}
use looking_glass.Handler.State.{line, done, event}

-- The lines of a text.
scan_lines : Text → List Text
scan_lines [] = []
scan_lines (c ∷ s) = let rest = scan_lines s in if c == b'\n' then [] ∷ rest else in_first c rest

scan_lines-line :
    (s rest : Text) → Lacks b'\n' s → scan_lines (s ++ b'\n' ∷ rest) ≡ s ∷ scan_lines rest
unfolding scan_lines
scan_lines-line [] rest h = refl
scan_lines-line (c ∷ s) rest h = rw h.0 (ap (in_first c) (scan_lines-line s rest h.1))

scan_lines-IsScanner : IsScanner scan_lines
unfolding scan_lines
scan_lines-IsScanner = record {
  at_end = refl;
  at_line = λ s rest h. scan_lines-line s rest h.lacks;
}

abbrev hop : Text
hop = codes "hop"

hop-IsOutput : IsOutput hop
unfolding is_end cut_prefix Text-discrete
hop-IsOutput = record {
  proper = record {
    lacks = (refl, (refl, (refl, (refl, (refl, (refl, (refl, (refl, (refl, tt)))))))));
    ends = refl;
    fits = omega arith;
  };
  lacks = (refl, (refl, (refl, tt)));
  goes = refl;
}

program : Unit {0}
unfolding scan_lines render render_all split cut_prefix is_end relay stream_proxy new_id
    encode_to_string join_lines Text-discrete lookup assign
program = tt

stream_proxy-kept_example :
    (render_all
        (stream_proxy env
          (some random)
          9
          (codes "ping")
          (codes "b")
          (attended (scan_lines (render_all (map line (hop ∷ []) ++ done ∷ []))))
          state).0
      ≡ render (event (codes "request_id") id) ++ render_all (map line (hop ∷ []) ++ done ∷ []))
    × (kept : Ephemeral.Cache) × ((stream_proxy env
          (some random)
          9
          (codes "ping")
          (codes "b")
          (attended (scan_lines (render_all (map line (hop ∷ []) ++ done ∷ []))))
          state).1.ephemeral
        ≡ some kept)
    × (get kept id
        ≡ some (record {
          kind = codes "ping";
          target = codes "b";
          payload = codes "bhop";
          created_at = 9;
        }))
unfolding program
stream_proxy-kept_example =
    stream_proxy-kept env (some random) 9 (codes "ping") (codes "b") id (codes "bhop") scan_lines
      (hop ∷ []) state cache scan_lines-IsScanner (hop-IsOutput, tt) refl refl refl
