-- ===== src/Handler/Reports/Links.antt =====
-- A link that a client was given shows what was captured.
use looking_glass.Common.{
  ℕ, ◌-◌, ◌≤◌, ◌≡◌, refl, ap, sym, ◌∙◌, List, Bool, true, false, Option, none, some, arith, ltb,
  if◌then◌else◌, Text, Bool-cases, inl, inr,
}
use looking_glass.RateLimit.{Limiter, allow}
use looking_glass.Report.Ephemeral as Ephemeral
use looking_glass.Report.Id.{valid_id}
use looking_glass.Report.Id.Hex.{IsRandom}
use looking_glass.Report.Store as Store
use looking_glass.Report.Store.Reading.{RoundTrips, IsAscii, get-promote}
use looking_glass.Handler.State.{State}
use looking_glass.Handler.Reports.{
  error, created, found, answer, promote_entry, promote_counted, promote_body, promote_report, show,
  read_counted, read_report,
}

-- The store after a promotion that answered with an identifier.
record Promoted (s : State) (r : Store.Store × Store.Result) (id : Text) : Type 0 where
  stored : s.reports ≡ some r.0
  named : r.1 ≡ Store.ok id

answer-Promoted :
    (s t : State) (r : Store.Store × Store.Result) (id : Text)
    → answer s r ≡ (t, created id)
    → Promoted t r id
unfolding answer
answer-Promoted s t (store, Store.ok x) id h = record { stored = cc h; named = cc h }
answer-Promoted s t (store, Store.err Store.at_capacity) id h = cc h
answer-Promoted s t (store, Store.err Store.failed) id h = cc h

counted-Promoted :
    (codec : Store.Codec) (s t : State) (cache : Ephemeral.Cache) (store : Store.Store)
    (req id : Text) (w : Store.World) (e : Ephemeral.Ephemeral) (a : Limiter × Bool)
    → Ephemeral.get cache req ≡ some e
    → promote_counted codec s cache store req w a ≡ (t, created id)
    → Promoted t (Store.promote codec store e.kind e.target e.payload w) id
unfolding promote_counted promote_entry
counted-Promoted codec s t cache store req id w e (l, false) g h = cc h
counted-Promoted codec s t cache store req id w e (l, true) g h =
    answer-Promoted (record s { promote_rl = l }) t _ id (sym (rw g refl) ∙ h)

body-Promoted :
    (codec : Store.Codec) (s t : State) (cache : Ephemeral.Cache) (store : Store.Store)
    (ip req id : Text) (now : ℕ) (w : Store.World) (e : Ephemeral.Ephemeral)
    → Ephemeral.get cache req ≡ some e
    → promote_body codec s cache store ip now (some req) w ≡ (t, created id)
    → Promoted t (Store.promote codec store e.kind e.target e.payload w) id
unfolding promote_body
body-Promoted codec s t cache store ip req id now w e g h = elim (Bool-cases (valid_id req)) [
  | inl fine ↦
      counted-Promoted codec s t cache store req id w e (allow s.promote_rl ip now) g
        (sym (rw fine refl) ∙ h)
  | inr bad ↦ absurd (ground arith)
]

read_counted-allowed :
    (codec : Store.Codec) (t : State) (store : Store.Store) (id : Text) (later : ℕ)
    (a : Limiter × Bool)
    → a.1 ≡ true
    → (read_counted codec t store id later a).1 ≡ show (Store.get codec store id later)
unfolding read_counted
read_counted-allowed codec t store id later (l, true) h = refl
read_counted-allowed codec t store id later (l, false) h = cc h

read_report-stored :
    (codec : Store.Codec) (t : State) (store : Store.Store) (ip id : Text) (later : ℕ)
    → t.reports ≡ some store
    → read_report codec t ip id later ≡ read_counted codec t store id later (allow t.rl ip later)
unfolding read_report
read_report-stored codec t store ip id later h =
    ap
      (λ o. elim o [
        | none ↦ (t, error 503)
        | some kept ↦ read_counted codec t kept id later (allow t.rl ip later)
      ])
      h

shown :
    (r : Store.Report) (old : Bool) (o : Option Store.Report)
    → old ≡ false
    → o ≡ (if old then none else some r)
    → show o ≡ found r
shown r true o e h = cc e
shown r false o e h = ap show h

-- If the request to keep a captured result is answered with an identifier, then for 24 hours a
-- request for that identifier that the limiter lets through is answered with the kind, the target
-- and the data (compacted) that were captured. Assumed of the JSON library and the random source is
-- what `get-promote` assumes.
pub read_report-promote_report :
    (codec : Store.Codec)
    → RoundTrips codec
    → (s t : State) (cache : Ephemeral.Cache) (store : Store.Store) (e : Ephemeral.Ephemeral)
      (ip other_ip req id : Text) (now later : ℕ) (w : Store.World) (b : List ℕ)
    → s.ephemeral ≡ some cache
    → s.reports ≡ some store
    → Ephemeral.get cache req ≡ some e
    → IsAscii e.kind
    → IsAscii e.target
    → w.random ≡ some b
    → IsRandom b
    → promote_report codec s ip now (some req) w ≡ (t, created id)
    → (allow t.rl other_ip later).1 ≡ true
    → later - w.now ≤ Store.report_ttl
    → (read_report codec t other_ip id later).1
      ≡ found (record {
        id = id;
        kind = e.kind;
        target = e.target;
        captured_at = w.now;
        payload = codec.compact e.payload;
      })
unfolding promote_report
read_report-promote_report codec law s t cache store e ip other_ip req id now later w b has_cache
      has_store got k g random fill made allowed fresh =
    let p =
      body-Promoted codec s t cache store ip req id now w e got
        (sym (rw (has_cache, has_store) refl) ∙ made) in
    let (same, read) =
      get-promote codec law store e.kind e.target e.payload w b id later k g random fill p.named in
    let in_time : ltb Store.report_ttl (later - w.now) ≡ false = ground arith in
    ap (λ x. x.1) (read_report-stored codec t _ other_ip id later p.stored)
    ∙ read_counted-allowed codec t _ id later (allow t.rl other_ip later) allowed
    ∙ shown _ (ltb Store.report_ttl (later - w.now)) _ in_time read
