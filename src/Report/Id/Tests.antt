-- ===== src/Report/Id/Tests.antt =====
use looking_glass.Common.{ℕ, ◌≡◌, refl, ◌↔◌, List, [], ◌∷◌, true, false, some, arith, Text, codes}
use looking_glass.Report.Id.{encode_to_string, new_id, valid_id}
use looking_glass.Report.Id.Hex.{IsRandom, new_id-valid_id, valid_id_iff}

abbrev bytes : List ℕ
bytes =
    0 ∷ 1 ∷ 15 ∷ 16 ∷ 171 ∷ 255 ∷ 7 ∷ 8 ∷ 9 ∷ 10 ∷ 11 ∷ 12 ∷ 13 ∷ 14 ∷ 200 ∷ 201 ∷ 202 ∷ 203 ∷ 204
    ∷ 205 ∷ []

abbrev id : Text
id = codes "00010f10abff0708090a0b0c0d0ec8c9cacbcccd"

made : new_id (some bytes) ≡ some id
unfolding new_id encode_to_string
made = refl

path_refused : valid_id (codes "../../etc/passwd") ≡ false
unfolding valid_id
path_refused = refl

bytes-IsRandom : IsRandom bytes
bytes-IsRandom = omega arith

new_id-valid_id_example : (s : Text) × (new_id (some bytes) ≡ some s) × (valid_id s ≡ true)
new_id-valid_id_example = new_id-valid_id bytes bytes-IsRandom

valid_id_iff_example :
    (valid_id id ≡ true) ↔ ((b : List ℕ) × IsRandom b × (new_id (some b) ≡ some id))
valid_id_iff_example = valid_id_iff id
