-- ===== src/Report/Id.antt =====
-- internal/report/id.go: identifiers of requests and reports. A text is the list of its bytes; the
-- random bytes, or the error of `rand.Read`, are an argument.
pub mod Hex
mod Tests
use looking_glass.Common.{
  ℕ, ◌+◌, ◌-◌, ◌/◌, ◌%◌, List, [], ◌∷◌, Bool, ◌&&◌, ◌||◌, Option, none, some, ltb, leb, ◌==◌,
  if◌then◌else◌, Text, length, all,
}

abbrev pub id_bytes : ℕ
id_bytes = 20

pub hex_digit : ℕ → ℕ
hex_digit n = if ltb n 10 then b'0' + n else b'a' - 10 + n

-- `hex.EncodeToString`
unfoldable pub encode_to_string : List ℕ → Text
unfolding hex_digit
encode_to_string [] = []
encode_to_string (b ∷ bs) = hex_digit (b / 16) ∷ hex_digit (b % 16) ∷ encode_to_string bs

unfoldable pub new_id : Option (List ℕ) → Option Text
new_id none = none
new_id (some b) = some (encode_to_string b)

-- `[0-9a-f]`
pub is_hex : ℕ → Bool
is_hex c = (leb b'0' c && leb c b'9') || (leb b'a' c && leb c b'f')

-- `^[0-9a-f]{40}$`, over the whole text
unfoldable pub valid_id : Text → Bool
unfolding is_hex
valid_id s = (length s == 40) && all is_hex s
