-- ===== src/Report/Store.antt =====
-- internal/report/store.go: promoted reports, a file to each, at most 2000 of them.
-- The directory is an association list from file names to what stands there. What the JSON library
-- makes of a report, and what the system calls and the clock answer, are arguments. `Promote`,
-- `Get` and a tick of the sweep are one step each here; Report/Store/Slots.antt has concurrent
-- promotions.
pub mod Files
pub mod Reading
pub mod Counting
pub mod Slots
pub mod Sample
mod Tests
use looking_glass.Common.{
  ℕ, suc, ◌+◌, ◌-◌, ◌*◌, List, [], ◌∷◌, ◌++◌, Bool, true, false, ◌&&◌, Option, none, some, ltb, leb,
  ite, if◌then◌else◌, Text, Text-discrete, codes, length, drop, lookup, assign, delete,
}
use looking_glass.Report.Id.{new_id, valid_id}

abbrev pub hour : ℕ
hour = 3600 * 1_000_000_000

abbrev pub report_ttl : ℕ
report_ttl = 24 * hour

abbrev pub max_active_total : ℕ
max_active_total = 2000

pub record Report : Type 0 where
  pub id : Text
  pub kind : Text
  pub target : Text
  pub captured_at : ℕ
  pub payload : Text

-- `json.Marshal` and `json.Unmarshal` at `Report`, and what marshalling makes of a raw message.
pub record Codec : Type 0 where
  pub compact : Text → Text
  pub marshal : Report → Option Text
  pub unmarshal : Text → Option Report

-- A directory entry: a folder, a file that cannot be read, or a file with its bytes.
pub data Item : Type 0 where
  folder unreadable : Item
  file : Text → Item

abbrev pub Disk : Type 0
Disk = List (Text × Item)

pub record Store : Type 0 where
  pub disk : Disk
  pub active : ℕ

abbrev pub json_suffix : Text
json_suffix = codes ".json"

abbrev pub tmp_suffix : Text
tmp_suffix = codes ".tmp"

-- `path`, less the store's directory.
abbrev pub path : Text → Text
path id = id ++ json_suffix

-- `strings.HasSuffix`
pub has_suffix : Text → Text → Bool
has_suffix s suffix =
    leb (length suffix) (length s)
    && ite (Text-discrete (drop (length s - length suffix) s) suffix) true false

pub content : Option Item → Option Text
content none = none
content (some folder) = none
content (some unreadable) = none
content (some (file bytes)) = some bytes

-- `os.ReadFile`
pub read_file : Text → Disk → Option Text
unfolding content
read_file name disk = content (lookup Text-discrete name disk)

-- The report in a directory entry, past the four `continue`s of the loops over the directory.
pub report_in : Codec → Text × Item → Option Report
unfolding has_suffix
report_in codec (name, folder) = none
report_in codec (name, unreadable) = none
report_in codec (name, file bytes) =
    if has_suffix name json_suffix then codec.unmarshal bytes else none

-- `CapturedAt.After(cutoff)`, with both sides moved by the retention.
pub is_active : ℕ → Report → Bool
is_active now r = ltb now (r.captured_at + report_ttl)

pub count_entry : ℕ → Option Report → ℕ → ℕ
unfolding is_active
count_entry now none n = n
count_entry now (some r) n = if is_active now r then suc n else n

pub count_loop : Codec → ℕ → Disk → ℕ
unfolding count_entry
count_loop codec now [] = 0
count_loop codec now (e ∷ disk) = count_entry now (report_in codec e) (count_loop codec now disk)

-- `none`: the directory cannot be read.
pub count_active : Codec → ℕ → Option Disk → ℕ
unfolding count_loop
count_active codec now none = 0
count_active codec now (some disk) = count_loop codec now disk

-- What `os.ReadDir` gives of a directory.
abbrev pub listing : Bool → Disk → Option Disk
listing readable disk = if readable then some disk else none

-- `NewStore`, with the outcome of `os.MkdirAll`, whether `os.ReadDir` can read the directory, and what
-- the directory already holds.
pub new_store : Codec → ℕ → Bool → Bool → Disk → Option Store
unfolding count_active
new_store codec now made readable disk =
    if made
    then some (record { disk = disk; active = count_active codec now (listing readable disk) })
    else none

-- What a promotion meets: the random bytes, the clock, and whether the three system calls succeed.
-- A failed `os.WriteFile` may leave a part of the file.
pub data Written : Type 0 where
  whole : Written
  broken : Option Text → Written

pub record World : Type 0 where
  pub random : Option (List ℕ)
  pub now : ℕ
  pub written : Written
  pub renamed : Bool
  pub removed : Bool

pub data Error : Type 0 where
  at_capacity failed : Error

pub data Result : Type 0 where
  ok : Text → Result
  err : Error → Result

abbrev pub leave_part : Text → Option Text → Disk → Disk
leave_part tmp none disk = disk
leave_part tmp (some part) disk = assign Text-discrete tmp (file part) disk

-- `os.WriteFile`, `os.Rename` and `os.Remove`: the directory after them, and whether the report is in place.
unfoldable pub write_report : Written → Bool → Bool → Text → Text → Disk → Disk × Bool
write_report (broken part) renamed removed id buf disk =
    (leave_part (path id ++ tmp_suffix) part disk, false)
write_report whole true removed id buf disk = (
  assign Text-discrete (path id) (file buf) (delete Text-discrete (path id ++ tmp_suffix) disk),
  true,
)
write_report whole false true id buf disk =
    (delete Text-discrete (path id ++ tmp_suffix) disk, false)
write_report whole false false id buf disk =
    (assign Text-discrete (path id ++ tmp_suffix) (file buf) disk, false)

-- `s.active.Add(1)` and `s.active.Add(-1)`
abbrev reserve : Store → Store
reserve s = record s { active = s.active + 1 }

abbrev give_back : Store → Store
give_back s = record s { active = s.active - 1 }

-- The end of `Promote`: the report is in place, or the slot is given back.
pub settle : Store → Text → Disk × Bool → Store × Result
settle s id (disk, true) = (record s { disk = disk }, ok id)
settle s id (disk, false) = (give_back (record s { disk = disk }), err failed)

-- From the marshalled report on.
pub store_bytes : Store → World → Text → Option Text → Store × Result
unfolding write_report settle
store_bytes s w id none = (give_back s, err failed)
store_bytes s w id (some buf) =
    settle s id (write_report w.written w.renamed w.removed id buf s.disk)

-- From the identifier on, with the slot reserved.
pub promote_as : Codec → Store → Text → Text → Text → World → Option Text → Store × Result
unfolding store_bytes
promote_as codec s kind target payload w none = (give_back s, err failed)
promote_as codec s kind target payload w (some id) = store_bytes s w id (
    codec.marshal
      (record { id = id; kind = kind; target = target; captured_at = w.now; payload = payload }))

unfoldable pub promote : Codec → Store → Text → Text → Text → World → Store × Result
unfolding promote_as
promote codec s kind target payload w =
    if leb max_active_total s.active
    then (s, err at_capacity)
    else promote_as codec (reserve s) kind target payload w (new_id w.random)

-- `Get`: a report past its retention is not returned, also before a sweep removes it.
pub unexpired : ℕ → Option Report → Option Report
unexpired now none = none
unexpired now (some r) = if ltb report_ttl (now - r.captured_at) then none else some r

pub read_report : Codec → ℕ → Option Text → Option Report
unfolding unexpired
read_report codec now none = none
read_report codec now (some bytes) = unexpired now (codec.unmarshal bytes)

pub get : Codec → Store → Text → ℕ → Option Report
unfolding read_file read_report
get codec s id now =
    if valid_id id then read_report codec now (read_file (path id) s.disk) else none

-- One tick of the sweep loop over a directory that can be read; `removes` says which removals
-- succeed.
pub sweep_entry : ℕ → (Text → Bool) → Text × Item → Option Report → Disk × ℕ → Disk × ℕ
unfolding is_active
sweep_entry now removes e none (rest, active) = (e ∷ rest, active)
sweep_entry now removes e (some r) (rest, active) =
    if is_active now r
    then (e ∷ rest, suc active)
    else if removes e.0
    then (rest, active)
    else (e ∷ rest, active)

pub sweep_loop : Codec → ℕ → (Text → Bool) → Disk → Disk × ℕ
unfolding sweep_entry
sweep_loop codec now removes [] = ([], 0)
sweep_loop codec now removes (e ∷ disk) =
    sweep_entry now removes e (report_in codec e) (sweep_loop codec now removes disk)

pub sweep : Codec → ℕ → Bool → (Text → Bool) → Store → Store
unfolding sweep_loop
sweep codec now listed removes s =
    if listed
    then (let (disk, active) = sweep_loop codec now removes s.disk in
        record { disk = disk; active = active })
    else s
