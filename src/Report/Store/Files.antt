-- ===== src/Report/Store/Files.antt =====
-- File names of the store, and what a promotion writes.
use mathlib.Core.List.{append_cancel_right}
use looking_glass.Common.{
  ℕ, zero, suc, ◌-◌, ◌≡◌, refl, ◌≢◌, sym, ap, ◌∙◌, [], ◌∷◌, ◌++◌, Bool, true, false, Option, none,
  some, arith, leb, ite, if_pos, if_neg, if◌then◌else◌, Text, Text-discrete, codes, length,
  length-append, take, drop, lookup, assign, delete, lookup-assign, lookup-delete, le→leb,
}
use looking_glass.Report.Store.{
  Item, file, Disk, json_suffix, tmp_suffix, path, has_suffix, Written, whole, broken, write_report,
  leave_part,
}

drop_append : (s t : Text) → drop (length s) (s ++ t) ≡ t
drop_append [] t = refl
drop_append (x ∷ s) t = drop_append s t

take-append-drop : (n : ℕ) (s : Text) → take n s ++ drop n s ≡ s
take-append-drop zero s = refl
take-append-drop (suc n) [] = refl
take-append-drop (suc n) (x ∷ s) = rw (take-append-drop n s)

pub has_suffix-append : (s t : Text) → has_suffix (s ++ t) t ≡ true
unfolding has_suffix
has_suffix-append s t =
    let e : length (s ++ t) - length t ≡ length s = omega (arith, length-append s t) in
    let fits : leb (length t) (length (s ++ t)) ≡ true =
      le→leb _ _ (omega (arith, length-append s t)) in
    rw (fits, e, drop_append s t) (if_pos (Text-discrete t t) refl true false)

last : ℕ → Text → ℕ
last d [] = d
last d (x ∷ s) = last x s

last-append : (d x : ℕ) (s t : Text) → last d (s ++ x ∷ t) ≡ last x t
unfolding last
last-append d x [] t = refl
last-append d x (y ∷ s) t = last-append y x s t

-- A temporary name is no report's: the last bytes differ.
pub tmp_is_no_report : (s : Text) → has_suffix (s ++ tmp_suffix) json_suffix ≡ false
unfolding has_suffix last
tmp_is_no_report s =
    let name = s ++ tmp_suffix in
    let k = length name - 5 in
    let differ : drop k name ≢ json_suffix = λ e.
      let whole : take k name ++ json_suffix ≡ s ++ tmp_suffix =
        ap (λ r. take k name ++ r) (sym e) ∙ take-append-drop k name in
      let bytes : ◌≡◌ {A = ℕ} b'n' b'p' =
        sym (last-append 0 b'.' (take k name) (codes "json"))
        ∙ ap (last 0) whole
        ∙ last-append 0 b'.' s (codes "tmp") in
      omega arith in
    rw (if_neg (Text-discrete (drop k name) json_suffix) differ true false) (ground arith)

pub path-ne-tmp : (i j : Text) → path i ≢ path j ++ tmp_suffix
path-ne-tmp i j e = cc (has_suffix-append i json_suffix, tmp_is_no_report (path j))

pub path-injective : (i j : Text) → path i ≡ path j → i ≡ j
path-injective i j e = append_cancel_right i j json_suffix e

module _ (other id buf : Text) (disk : Disk) where
  tmp_assign :
      (item : Item)
      → lookup Text-discrete (path other) (assign Text-discrete (path id ++ tmp_suffix) item disk)
        ≡ lookup Text-discrete (path other) disk
  tmp_assign item = ground (
    arith,
    lookup-assign Text-discrete (path other) (path id ++ tmp_suffix) item disk,
    path-ne-tmp other id,
  )

  tmp_delete :
      lookup Text-discrete (path other) (delete Text-discrete (path id ++ tmp_suffix) disk)
      ≡ lookup Text-discrete (path other) disk
  tmp_delete = ground (
    arith,
    lookup-delete Text-discrete (path other) (path id ++ tmp_suffix) disk,
    path-ne-tmp other id,
  )

  placed_file :
      lookup Text-discrete (path other) (
        assign Text-discrete
          (path id)
          (file buf)
          (delete Text-discrete (path id ++ tmp_suffix) disk))
      ≡ ite (Text-discrete id other) (some (file buf)) (lookup Text-discrete (path other) disk)
  placed_file = ground (
    arith,
    lookup-assign Text-discrete (path other) (path id) (file buf)
        (delete Text-discrete (path id ++ tmp_suffix) disk),
    tmp_delete,
    path-injective id other,
  )

  part_left :
      (part : Option Text)
      → lookup Text-discrete (path other) (leave_part (path id ++ tmp_suffix) part disk)
        ≡ lookup Text-discrete (path other) disk
  part_left none = refl
  part_left (some bytes) = tmp_assign (file bytes)

  -- What a report's name holds after the writes of a promotion.
  abbrev pub held_after : Bool → Option Item
  held_after placed =
      if placed
      then ite (Text-discrete id other) (some (file buf)) (lookup Text-discrete (path other) disk)
      else lookup Text-discrete (path other) disk

  -- The writes of a promotion put its report in place or leave every report's file as it was,
  -- whatever the system calls answer.
  pub lookup-write_report :
      (written : Written) (renamed removed : Bool)
      → lookup Text-discrete (path other) (write_report written renamed removed id buf disk).0
        ≡ held_after (write_report written renamed removed id buf disk).1
  unfolding write_report
  lookup-write_report (broken part) renamed removed = part_left part
  lookup-write_report whole true removed = placed_file
  lookup-write_report whole false true = tmp_delete
  lookup-write_report whole false false = tmp_assign (file buf)
