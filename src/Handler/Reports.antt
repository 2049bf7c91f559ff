-- ===== src/Handler/Reports.antt =====
-- internal/handler/report.go: the two handlers of permanent links, on the cache, the store and the
-- limiters. A request is its client's address and what its body or its query holds; a response is
-- its status, or what it carries; a report is carried before its time is formatted in seconds.
pub mod Links
mod Tests
use looking_glass.Common.{
  ℕ, List, [], ◌∷◌, Bool, true, false, Option, none, some, if◌then◌else◌, Text,
}
use looking_glass.RateLimit.{Limiter, allow}
use looking_glass.Report.Ephemeral as Ephemeral
use looking_glass.Report.Id.{valid_id}
use looking_glass.Report.Store as Store
use looking_glass.Handler.State.{State}

pub data Response : Type 0 where
  error : ℕ → Response
  created : Text → Response
  found : Store.Report → Response

unfoldable pub answer : State → Store.Store × Store.Result → State × Response
answer s (store, Store.ok id) = (record s { reports = some store }, created id)
answer s (store, Store.err Store.at_capacity) = (record s { reports = some store }, error 503)
answer s (store, Store.err Store.failed) = (record s { reports = some store }, error 500)

unfoldable pub promote_entry :
    Store.Codec → State → Store.Store → Option Ephemeral.Ephemeral → Store.World → State × Response
unfolding answer
promote_entry codec s store none w = (s, error 404)
promote_entry codec s store (some e) w =
    answer s (Store.promote codec store e.kind e.target e.payload w)

unfoldable pub promote_counted :
    Store.Codec
    → State
    → Ephemeral.Cache
    → Store.Store
    → Text
    → Store.World
    → Limiter × Bool
    → State × Response
unfolding promote_entry
promote_counted codec s cache store id w (l, true) =
    promote_entry codec (record s { promote_rl = l }) store (Ephemeral.get cache id) w
promote_counted codec s cache store id w (l, false) = (record s { promote_rl = l }, error 429)

-- The request's identifier; `none` for a body that does not decode.
unfoldable pub promote_body :
    Store.Codec
    → State
    → Ephemeral.Cache
    → Store.Store
    → Text
    → ℕ
    → Option Text
    → Store.World
    → State × Response
unfolding promote_counted
promote_body codec s cache store ip now none w = (s, error 400)
promote_body codec s cache store ip now (some id) w =
    if valid_id id
    then promote_counted codec s cache store id w (allow s.promote_rl ip now)
    else (s, error 400)

abbrev pub with_stores :
    State
    → Option Ephemeral.Cache
    → Option Store.Store
    → (Ephemeral.Cache → Store.Store → State × Response)
    → State × Response
with_stores s none reports f = (s, error 503)
with_stores s (some cache) none f = (s, error 503)
with_stores s (some cache) (some store) f = f cache store

-- `Promote`
unfoldable pub promote_report :
    Store.Codec → State → Text → ℕ → Option Text → Store.World → State × Response
unfolding promote_body
promote_report codec s ip now body w =
    with_stores s s.ephemeral s.reports
      (λ cache store. promote_body codec s cache store ip now body w)

abbrev pub show : Option Store.Report → Response
show none = error 404
show (some r) = found r

unfoldable pub read_counted :
    Store.Codec → State → Store.Store → Text → ℕ → Limiter × Bool → State × Response
read_counted codec s store id now (l, true) =
    (record s { rl = l }, show (Store.get codec store id now))
read_counted codec s store id now (l, false) = (record s { rl = l }, error 429)

-- `ReportRead`
unfoldable pub read_report : Store.Codec → State → Text → Text → ℕ → State × Response
unfolding read_counted
read_report codec s ip id now = elim s.reports [
  | none ↦ (s, error 503)
  | some store ↦ read_counted codec s store id now (allow s.rl ip now)
]
