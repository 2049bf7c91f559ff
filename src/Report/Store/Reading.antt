-- ===== src/Report/Store/Reading.antt =====
-- What can be read after a promotion.
use looking_glass.Common.{
  ℕ, ◌+◌, ◌-◌, ◌<◌, ◌≡◌, refl, ◌≢◌, sym, ap, ◌∙◌, List, Bool, true, false, Option, none, some, ltb,
  leb, if_pos, if_neg, if◌then◌else◌, Text, Text-discrete, All, lookup, subst,
}
use looking_glass.Report.Id.{valid_id, new_id, encode_to_string}
use looking_glass.Report.Id.Hex.{IsRandom, encode-valid_id, valid_id-parts, all-IsAscii}
use looking_glass.Report.Store.{
  Report, Codec, file, Disk, Store, report_ttl, max_active_total, path, content, read_file,
  read_report, unexpired, get, World, at_capacity, Result, ok, err, settle, store_bytes, promote_as,
  promote,
}
use looking_glass.Report.Store.Files.{lookup-write_report, held_after}

abbrev pub IsAscii : Text → Type 0
IsAscii = All (λ c. c < 128)

-- What the JSON library promises: a marshalled report reads back as it was, with its raw message
-- compacted, where its texts are ASCII (others may be repaired).
abbrev pub RoundTrips : Codec → Type 0
RoundTrips codec =
    (r : Report) (bytes : Text)
    → IsAscii r.id
    → IsAscii r.kind
    → IsAscii r.target
    → codec.marshal r ≡ some bytes
    → codec.unmarshal bytes ≡ some (record r { payload = codec.compact r.payload })

get_of_lookup :
    (codec : Codec) (s t : Store) (id : Text) (now : ℕ)
    → lookup Text-discrete (path id) s.disk ≡ lookup Text-discrete (path id) t.disk
    → get codec s id now ≡ get codec t id now
unfolding get read_file
get_of_lookup codec s t id now e =
    ap (λ o. if valid_id id then read_report codec now (content o) else none) e

module _ (codec : Codec) (s : Store) (kind target payload : Text) (w : World) (other : Text) where
  settle-other :
      (id buf : Text) (r : Disk × Bool)
      → lookup Text-discrete (path other) r.0 ≡ held_after other id buf s.disk r.1
      → (settle s id r).1 ≢ ok other
      → lookup Text-discrete (path other) (settle s id r).0.disk
        ≡ lookup Text-discrete (path other) s.disk
  unfolding settle
  settle-other id buf (disk, true) e n = e ∙ if_neg (Text-discrete id other) (λ p. n (ap ok p)) _ _
  settle-other id buf (disk, false) e n = e

  store_bytes-other :
      (id : Text) (o : Option Text)
      → (store_bytes s w id o).1 ≢ ok other
      → lookup Text-discrete (path other) (store_bytes s w id o).0.disk
        ≡ lookup Text-discrete (path other) s.disk
  unfolding store_bytes
  store_bytes-other id none n = refl
  store_bytes-other id (some buf) n =
      settle-other id buf _ (lookup-write_report other id buf s.disk w.written w.renamed w.removed)
        n

  promote_as-other :
      (o : Option Text)
      → (promote_as codec s kind target payload w o).1 ≢ ok other
      → lookup Text-discrete (path other) (promote_as codec s kind target payload w o).0.disk
        ≡ lookup Text-discrete (path other) s.disk
  unfolding promote_as
  promote_as-other none n = refl
  promote_as-other (some id) n = store_bytes-other id _ n

  capped_other :
      (full : Bool) (r : Store × Result)
      → (r.1 ≢ ok other
          → lookup Text-discrete (path other) r.0.disk ≡ lookup Text-discrete (path other) s.disk)
      → (if full then (s, err at_capacity) else r).1 ≢ ok other
      → lookup Text-discrete (path other) (if full then (s, err at_capacity) else r).0.disk
        ≡ lookup Text-discrete (path other) s.disk
  capped_other true r h n = refl
  capped_other false r h n = h n

-- A promotion that fails, at whatever step, and one that succeeds under another identifier leave
-- what an identifier reads, at any time, as it was.
pub get-promote_other :
    (codec : Codec) (s : Store) (kind target payload : Text) (w : World) (other : Text) (now : ℕ)
    → (promote codec s kind target payload w).1 ≢ ok other
    → get codec (promote codec s kind target payload w).0 other now ≡ get codec s other now
unfolding promote
get-promote_other codec s kind target payload w other now n =
    let reserved = record s { active = s.active + 1 } in
    get_of_lookup codec _ s other now (
      capped_other codec s kind target payload w other (leb max_active_total s.active) _
        (promote_as-other codec reserved kind target payload w other (new_id w.random)) n)

module _ (codec : Codec) (law : RoundTrips codec) (s : Store) (kind target payload : Text)
    (w : World) (k : IsAscii kind) (t : IsAscii target) where
  abbrev promoted : Text → Report
  promoted id = record {
    id = id;
    kind = kind;
    target = target;
    captured_at = w.now;
    payload = payload;
  }

  settle_self :
      (id buf j : Text) (r : Disk × Bool)
      → lookup Text-discrete (path j) r.0 ≡ held_after j id buf s.disk r.1
      → (settle s id r).1 ≡ ok j
      → (id ≡ j) × (lookup Text-discrete (path j) (settle s id r).0.disk ≡ some (file buf))
  unfolding settle
  settle_self id buf j (disk, true) e n =
      let same : id ≡ j = cc in (same, e ∙ if_pos (Text-discrete id j) same _ _)
  settle_self id buf j (disk, false) e n = cc

  store_bytes_self :
      (id j : Text) (o : Option Text)
      → codec.marshal (promoted id) ≡ o
      → (store_bytes s w id o).1 ≡ ok j
      → (buf : Text) × (codec.marshal (promoted j) ≡ some buf)
        × (lookup Text-discrete (path j) (store_bytes s w id o).0.disk ≡ some (file buf))
  unfolding store_bytes
  store_bytes_self id j none m n = cc
  store_bytes_self id j (some buf) m n =
      let (same, held) =
        settle_self id buf j _ (lookup-write_report j id buf s.disk w.written w.renamed w.removed)
          n in
      (buf, ap (λ i. codec.marshal (promoted i)) (sym same) ∙ m, held)

  settle_id : (id j : Text) (r : Disk × Bool) → (settle s id r).1 ≡ ok j → id ≡ j
  unfolding settle
  settle_id id j (disk, true) n = cc
  settle_id id j (disk, false) n = cc

  store_bytes_id : (id j : Text) (o : Option Text) → (store_bytes s w id o).1 ≡ ok j → id ≡ j
  unfolding store_bytes
  store_bytes_id id j none n = cc
  store_bytes_id id j (some buf) n = settle_id id j _ n

  promote_as_self :
      (j : Text) (o : Option Text)
      → (promote_as codec s kind target payload w o).1 ≡ ok j
      → (buf : Text) × (codec.marshal (promoted j) ≡ some buf)
        × (lookup Text-discrete (path j) (promote_as codec s kind target payload w o).0.disk
            ≡ some (file buf))
        × (o ≡ some j)
  unfolding promote_as
  promote_as_self j none n = cc
  promote_as_self j (some id) n =
      let (buf, m, held) = store_bytes_self id j _ refl n in
      (buf, m, held, ap some (store_bytes_id id j _ n))

  -- What a promoted report reads: itself with a compacted payload, through its retention.
  abbrev pub promoted_reads : Text → ℕ → Option Report
  promoted_reads id now =
      if ltb report_ttl (now - w.now)
      then none
      else some (record (promoted id) { payload = codec.compact payload })

  read_promoted :
      (d : Store) (j buf : Text) (now : ℕ)
      → valid_id j ≡ true
      → codec.marshal (promoted j) ≡ some buf
      → lookup Text-discrete (path j) d.disk ≡ some (file buf)
      → get codec d j now ≡ promoted_reads j now
  unfolding get read_file content read_report unexpired
  read_promoted d j buf now v m held =
      let back = law (promoted j) buf (all-IsAscii j (valid_id-parts j v).1) k t m in
      rw (v, held, back)

  capped_self :
      (full : Bool) (r : Store × Result) (j : Text)
      → (if full then (s, err at_capacity) else r).1 ≡ ok j
      → (full ≡ false) × (r.1 ≡ ok j)
  capped_self true r j n = cc
  capped_self false r j n = (refl, n)

-- A successful promotion returns the hex form of its random bytes, and under that identifier the
-- report reads as it was captured, with its data compacted, for 24 hours, and not at all after
-- that. Assumed are that the JSON library reads back what it wrote of ASCII texts, that kind and
-- target are such, and that `rand.Read` gave 20 bytes.
pub get-promote :
    (codec : Codec)
    → RoundTrips codec
    → (s : Store) (kind target payload : Text) (w : World) (b : List ℕ) (id : Text) (now : ℕ)
    → IsAscii kind
    → IsAscii target
    → w.random ≡ some b
    → IsRandom b
    → (promote codec s kind target payload w).1 ≡ ok id
    → (id ≡ encode_to_string b)
      × (get codec (promote codec s kind target payload w).0 id now ≡ (
          if ltb report_ttl (now - w.now)
          then none
          else some (record {
            id = id;
            kind = kind;
            target = target;
            captured_at = w.now;
            payload = codec.compact payload;
          })))
unfolding promote new_id
get-promote codec law s kind target payload w b id now k t e r n =
    let reserved = record s { active = s.active + 1 } in
    let after = promote_as codec reserved kind target payload w (new_id w.random) in
    let (room, done) =
      capped_self codec law s kind target payload w k t (leb max_active_total s.active) after id
        n in
    let (buf, m, held, made) =
      promote_as_self codec law reserved kind target payload w k t id (new_id w.random) done in
    let same : encode_to_string b ≡ id = cc (made, e) in
    let fine : valid_id id ≡ true = subst (λ i. valid_id i ≡ true) same (encode-valid_id b r) in
    (
      sym same,
      rw room (read_promoted codec law s kind target payload w k t after.0 id buf now fine m held),
    )
