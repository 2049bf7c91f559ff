-- ===== src/Handler/Capture/Kept.antt =====
-- What `captureJSON` leaves in the cache.
use looking_glass.Common.{ℕ, ◌≡◌, ap, ◌∙◌, List, Option, none, some, Text}
use looking_glass.Report.Ephemeral as Ephemeral
use looking_glass.Report.Ephemeral.{put}
use looking_glass.Report.Id.{new_id}
use looking_glass.Handler.Capture.{put_in, remember, remember_json, capture_json}
use looking_glass.Handler.State.{State}

abbrev pub with_entry : Ephemeral.Cache → Text → Ephemeral.Ephemeral → State → State
with_entry cache id e s = record s { ephemeral = some (put cache id e) }

pub capture_json-with_entry :
    (now : ℕ) (random : Option (List ℕ)) (kind target payload id : Text) (s : State)
    (cache : Ephemeral.Cache)
    → s.ephemeral ≡ some cache
    → new_id random ≡ some id
    → capture_json now random kind target payload s ≡ (
      with_entry cache id
          (record { kind = kind; target = target; payload = payload; created_at = now })
          s,
      some id,
    )
unfolding capture_json remember
capture_json-with_entry now random kind target payload id s cache has made =
    ap
      (λ o. elim o as (λ x. State × Option Text) [
        | none ↦ (s, none)
        | some c ↦ remember_json now kind target payload (new_id random) s
      ])
      has
    ∙ ap (λ o. remember_json now kind target payload o s) made
    ∙ ap (λ o. (record s { ephemeral = put_in now id kind target payload o }, some id)) has
