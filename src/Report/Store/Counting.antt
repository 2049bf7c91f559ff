-- ===== src/Report/Store/Counting.antt =====
-- The counter of active reports, and what a sweep keeps.
use looking_glass.Common.{
  ℕ, ◌+◌, ◌≤◌, ◌<◌, ◌≡◌, refl, ◌≢◌, sym, ap, ◌∙◌, [], ◌∷◌, Bool, true, false, Option, none, some,
  arith, leb, if_pos, if_neg, if◌then◌else◌, Text, Text-discrete, lookup, Distinct, ◌⊎◌, inl, inr,
  le→leb, dec_le,
}
use looking_glass.Report.Id.{valid_id, new_id}
use looking_glass.Report.Store.{
  Report, Codec, Item, folder, unreadable, file, Disk, Store, max_active_total, path, json_suffix,
  content, read_file, read_report, unexpired, report_in, is_active, count_entry, count_loop,
  count_active, get, sweep_entry, sweep_loop, sweep, World, at_capacity, failed, Result, ok, err,
  settle, store_bytes, promote_as, promote,
}
use looking_glass.Report.Store.Files.{has_suffix-append}

-- How a promotion with a reserved slot ends.
abbrev Ends : ℕ → Store × Result → Type 0
Ends before r =
    ((id : Text) × (r.1 ≡ ok id) × (r.0.active ≡ before + 1))
    ⊎ ((r.1 ≡ err failed) × (r.0.active ≡ before))

settle-Ends :
    (s : Store) (id : Text) (r : Disk × Bool) (n : ℕ) → s.active ≡ n + 1 → Ends n (settle s id r)
unfolding settle
settle-Ends s id (disk, true) n e = inl (id, refl, e)
settle-Ends s id (disk, false) n e = inr (refl, omega arith)

store_bytes-Ends :
    (s : Store) (w : World) (id : Text) (o : Option Text) (n : ℕ)
    → s.active ≡ n + 1
    → Ends n (store_bytes s w id o)
unfolding store_bytes
store_bytes-Ends s w id none n e = inr (refl, omega arith)
store_bytes-Ends s w id (some buf) n e = settle-Ends s id _ n e

promote_as-Ends :
    (codec : Codec) (s : Store) (kind target payload : Text) (w : World) (o : Option Text) (n : ℕ)
    → s.active ≡ n + 1
    → Ends n (promote_as codec s kind target payload w o)
unfolding promote_as
promote_as-Ends codec s kind target payload w none n e = inr (refl, omega arith)
promote_as-Ends codec s kind target payload w (some id) n e = store_bytes-Ends s w id _ n e

with_room :
    {A : Type 0} (r : Store × Result) (n : ℕ)
    → n < max_active_total
    → Ends n r
    → A
      ⊎ ((id : Text) × (r.1 ≡ ok id) × (r.0.active ≡ n + 1) × (n < max_active_total))
      ⊎ ((r.1 ≡ err failed) × (r.0.active ≡ n) × (n < max_active_total))
with_room r n h (inl (id, done, e)) = inr (inl (id, done, e, h))
with_room r n h (inr (done, e)) = inr (inr (done, e, h))

-- A full store refuses a promotion and stays as it is. With room, the counter grows by one exactly
-- if the promotion returns an identifier, and any failure leaves it as it was.
pub promote-active :
    (codec : Codec) (s : Store) (kind target payload : Text) (w : World)
    → ((max_active_total ≤ s.active)
        × (promote codec s kind target payload w ≡ (s, err at_capacity)))
      ⊎ ((id : Text) × ((promote codec s kind target payload w).1 ≡ ok id)
          × ((promote codec s kind target payload w).0.active ≡ s.active + 1)
          × (s.active < max_active_total))
      ⊎ (((promote codec s kind target payload w).1 ≡ err failed)
          × ((promote codec s kind target payload w).0.active ≡ s.active)
          × (s.active < max_active_total))
unfolding promote
promote-active codec s kind target payload w = elim (dec_le max_active_total s.active) [
  | yes full ↦ inl (full, rw (le→leb max_active_total s.active full))
  | no room ↦
      let open_slot : leb max_active_total s.active ≡ false = ground arith in
      let after =
        promote_as codec (record s { active = s.active + 1 }) kind target payload w
          (new_id w.random) in
      rw open_slot (
        with_room after s.active (omega arith) (
          promote_as-Ends codec (record s { active = s.active + 1 }) kind target payload w
            (new_id w.random) s.active refl))
]

sweep_entry-active :
    (codec : Codec) (now : ℕ) (removes : Text → Bool) (e : Text × Item) (o : Option Report)
    (rest : Disk × ℕ)
    → (sweep_entry now removes e o rest).1 ≡ count_entry now o rest.1
unfolding sweep_entry count_entry
sweep_entry-active codec now removes e none rest = refl
sweep_entry-active codec now removes e (some r) rest = ground arith

sweep_loop-active :
    (codec : Codec) (now : ℕ) (removes : Text → Bool) (disk : Disk)
    → (sweep_loop codec now removes disk).1 ≡ count_loop codec now disk
unfolding sweep_loop count_loop
sweep_loop-active codec now removes [] = refl
sweep_loop-active codec now removes (e ∷ disk) =
    sweep_entry-active codec now removes e (report_in codec e) (sweep_loop codec now removes disk)
    ∙ ap (count_entry now (report_in codec e)) (sweep_loop-active codec now removes disk)

count-sweep_entry :
    (codec : Codec) (now : ℕ) (removes : Text → Bool) (e : Text × Item) (o : Option Report)
    (rest : Disk × ℕ)
    → report_in codec e ≡ o
    → count_loop codec now (sweep_entry now removes e o rest).0
      ≡ count_entry now o (count_loop codec now rest.0)
unfolding sweep_entry count_loop
count-sweep_entry codec now removes e none rest h = rw h
count-sweep_entry codec now removes e (some r) rest h = ground arith

count_sweep :
    (codec : Codec) (now : ℕ) (removes : Text → Bool) (disk : Disk)
    → count_loop codec now (sweep_loop codec now removes disk).0 ≡ count_loop codec now disk
unfolding sweep_loop count_loop
count_sweep codec now removes [] = refl
count_sweep codec now removes (e ∷ disk) =
    count-sweep_entry codec now removes e _ (sweep_loop codec now removes disk) refl
    ∙ ap (count_entry now (report_in codec e)) (count_sweep codec now removes disk)

-- The counter after a sweep of a readable directory is what a restart on the directory would count,
-- before the sweep as after it, whichever removals fail; a sweep that cannot read the directory
-- changes nothing.
pub sweep-active :
    (codec : Codec) (now : ℕ) (removes : Text → Bool) (s : Store)
    → ((sweep codec now true removes s).active ≡ count_active codec now (some s.disk))
      × ((sweep codec now true removes s).active
          ≡ count_active codec now (some (sweep codec now true removes s).disk))
      × (sweep codec now false removes s ≡ s)
unfolding sweep count_active
sweep-active codec now removes s =
    let n = sweep_loop-active codec now removes s.disk in
    (n, n ∙ sym (count_sweep codec now removes s.disk), refl)

-- What a sweep leaves of an entry that holds a report, or none.
kept_item : ℕ → (Text → Bool) → Text → Item → Option Report → Option Item
kept_item now removes name item none = some item
kept_item now removes name item (some r) =
    if is_active now r then some item else if removes name then none else some item

kept : Codec → ℕ → (Text → Bool) → Text → Option Item → Option Item
unfolding kept_item
kept codec now removes name none = none
kept codec now removes name (some item) =
    kept_item now removes name item (report_in codec (name, item))

sweep_entry_here :
    (now : ℕ) (removes : Text → Bool) (e : Text × Item) (o : Option Report) (rest : Disk × ℕ)
    → lookup Text-discrete e.0 rest.0 ≡ none
    → lookup Text-discrete e.0 (sweep_entry now removes e o rest).0
      ≡ kept_item now removes e.0 e.1 o
unfolding lookup sweep_entry kept_item
sweep_entry_here now removes e none rest h = ground arith
sweep_entry_here now removes e (some r) rest h = ground arith

sweep_entry_there :
    (now : ℕ) (removes : Text → Bool) (e : Text × Item) (o : Option Report) (rest : Disk × ℕ)
    (name : Text)
    → e.0 ≢ name
    → lookup Text-discrete name (sweep_entry now removes e o rest).0
      ≡ lookup Text-discrete name rest.0
unfolding lookup sweep_entry
sweep_entry_there now removes e none rest name h = ground arith
sweep_entry_there now removes e (some r) rest name h = ground arith

lookup-sweep-none :
    (codec : Codec) (now : ℕ) (removes : Text → Bool) (name : Text) (disk : Disk)
    → lookup Text-discrete name disk ≡ none
    → lookup Text-discrete name (sweep_loop codec now removes disk).0 ≡ none
unfolding lookup sweep_loop
lookup-sweep-none codec now removes name [] h = refl
lookup-sweep-none codec now removes name (e ∷ disk) h = ground (
  arith,
  lookup-sweep-none codec now removes name disk,
  sweep_entry_there now removes e (report_in codec e) (sweep_loop codec now removes disk) name,
)

lookup-sweep_loop :
    (codec : Codec) (now : ℕ) (removes : Text → Bool) (name : Text) (disk : Disk)
    → Distinct Text-discrete disk
    → lookup Text-discrete name (sweep_loop codec now removes disk).0
      ≡ kept codec now removes name (lookup Text-discrete name disk)
unfolding lookup sweep_loop kept
lookup-sweep_loop codec now removes name [] d = refl
lookup-sweep_loop codec now removes name (e ∷ disk) d = elim (Text-discrete e.0 name) [
  | yes here ↦
      rw (if_pos _ here, ← here)
        (sweep_entry_here now removes e (report_in codec e) _
          (lookup-sweep-none codec now removes e.0 disk d.0))
  | no there ↦ rw (if_neg _ there) (
      sweep_entry_there now removes e (report_in codec e) _ name there
      ∙ lookup-sweep_loop codec now removes name disk d.1)
]

-- What `Get` makes of a directory entry under a report's name.
reads : Codec → ℕ → Option Item → Option Report
reads codec now o = read_report codec now (content o)

report_in-path :
    (codec : Codec) (id bytes : Text)
    → report_in codec (path id, file bytes) ≡ codec.unmarshal bytes
unfolding report_in
report_in-path codec id bytes = rw (has_suffix-append id json_suffix)

reads-kept_item :
    (codec : Codec) (t now : ℕ) (removes : Text → Bool) (name bytes : Text) (o : Option Report)
    → codec.unmarshal bytes ≡ o
    → t < now
    → reads codec now (kept_item t removes name (file bytes) o)
      ≡ reads codec now (some (file bytes))
unfolding reads kept_item read_report content unexpired is_active
reads-kept_item codec t now removes name bytes none e h = refl
reads-kept_item codec t now removes name bytes (some r) e h = ground arith

reads-kept :
    (codec : Codec) (t now : ℕ) (removes : Text → Bool) (id : Text) (o : Option Item)
    → t < now
    → reads codec now (kept codec t removes (path id) o) ≡ reads codec now o
unfolding reads kept
reads-kept codec t now removes id none h = refl
reads-kept codec t now removes id (some folder) h = unfold report_in kept_item in refl
reads-kept codec t now removes id (some unreadable) h = unfold report_in kept_item in refl
reads-kept codec t now removes id (some (file bytes)) h =
    rw (report_in-path codec id bytes)
      (reads-kept_item codec t now removes (path id) bytes (codec.unmarshal bytes) refl h)

-- A sweep is not observable by readers: what an identifier reads after it, at a later time, is what
-- it would have read without the sweep, whichever removals fail.
pub get-sweep_kept :
    (codec : Codec) (s : Store) (id : Text) (t now : ℕ) (listed : Bool) (removes : Text → Bool)
    → Distinct Text-discrete s.disk
    → t < now
    → get codec (sweep codec t listed removes s) id now ≡ get codec s id now
unfolding get sweep read_file reads
get-sweep_kept codec s id t now false removes d h = refl
get-sweep_kept codec s id t now true removes d h =
    ap (λ r. if valid_id id then r else none)
      (ap (reads codec now) (lookup-sweep_loop codec t removes (path id) s.disk d)
        ∙ reads-kept codec t now removes id (lookup Text-discrete (path id) s.disk) h)
