-- ===== src/Report/Id/Hex.antt =====
-- What an identifier looks like, and that it keeps all of its random bytes.
use looking_glass.Common.{
  ℕ, zero, suc, ◌+◌, ◌-◌, ◌*◌, ◌/◌, ◌%◌, ◌<◌, ◌≡◌, refl, ◌↔◌, ◌∙◌, sym, ap, List, [], ◌∷◌, Bool,
  true, ◌&&◌, some, arith, ltb, ◌==◌, if◌then◌else◌, Text, length, all, All, subst, ==_iff,
}
use looking_glass.Report.Id.{id_bytes, hex_digit, encode_to_string, new_id, is_hex, valid_id}

-- What `rand.Read` fills the buffer with: 20 bytes.
pub record IsRandom (b : List ℕ) : Type 0 where
  pub size : length b ≡ id_bytes
  pub bytes : All (λ x. x < 256) b

abbrev pub hex_value : ℕ → ℕ
hex_value c = if ltb c b'a' then c - b'0' else c - b'a' + 10

and_true : (a b : Bool) → (a && b) ≡ true → (a ≡ true) × (b ≡ true)
and_true a b h = ground arith

-- Two digits to a byte.
pub decode : Text → List ℕ
decode (c ∷ d ∷ s) = (hex_value c * 16 + hex_value d) ∷ decode s
decode _ = []

hex_digit-is_hex : (n : ℕ) → n < 16 → is_hex (hex_digit n) ≡ true
unfolding is_hex hex_digit
hex_digit-is_hex n h = ground arith

hex_value-hex_digit : (n : ℕ) → n < 16 → hex_value (hex_digit n) ≡ n
unfolding hex_digit
hex_value-hex_digit n h = ground arith

hex_digit-hex_value : (c : ℕ) → is_hex c ≡ true → (hex_digit (hex_value c) ≡ c) × (hex_value c < 16)
unfolding hex_digit is_hex
hex_digit-hex_value c h = ground arith

length-encode : (b : List ℕ) → length (encode_to_string b) ≡ 2 * length b
unfolding encode_to_string
length-encode [] = refl
length-encode (x ∷ b) = omega (arith, length-encode b)

all-encode : (b : List ℕ) → All (λ x. x < 256) b → all is_hex (encode_to_string b) ≡ true
unfolding encode_to_string
all-encode [] h = refl
all-encode (x ∷ b) h =
    rw (hex_digit-is_hex (x / 16) (omega arith), hex_digit-is_hex (x % 16) (omega arith))
      (all-encode b h.1)

pub decode-encode : (b : List ℕ) → All (λ x. x < 256) b → decode (encode_to_string b) ≡ b
unfolding encode_to_string decode
decode-encode [] h = refl
decode-encode (x ∷ b) h =
    ground (arith, hex_value-hex_digit (x / 16), hex_value-hex_digit (x % 16), decode-encode b h.1)

pub encode-valid_id : (b : List ℕ) → IsRandom b → valid_id (encode_to_string b) ≡ true
unfolding valid_id
encode-valid_id b r = ground (arith, length-encode b, r.size, all-encode b r.bytes)

-- An identifier made from 20 random bytes passes the check of identifiers.
pub new_id-valid_id :
    (b : List ℕ) → IsRandom b → (id : Text) × (new_id (some b) ≡ some id) × (valid_id id ≡ true)
unfolding new_id
new_id-valid_id b r = (encode_to_string b, refl, encode-valid_id b r)

-- Different random bytes give different identifiers: all 160 bits are kept.
pub new_id-injective :
    (b c : List ℕ) → IsRandom b → IsRandom c → new_id (some b) ≡ new_id (some c) → b ≡ c
unfolding new_id
new_id-injective b c rb rc e =
    sym (decode-encode b rb.bytes) ∙ ap decode (some_injective e) ∙ decode-encode c rc.bytes
  where
    some_injective :
        some (encode_to_string b) ≡ some (encode_to_string c)
        → encode_to_string b ≡ encode_to_string c
    some_injective h = cc

encode-decode :
    (n : ℕ) (s : Text)
    → length s ≡ n * 2
    → all is_hex s ≡ true
    → (encode_to_string (decode s) ≡ s) × (length (decode s) ≡ n) × All (λ x. x < 256) (decode s)
unfolding encode_to_string decode
encode-decode zero [] l h = (refl, refl, tt)
encode-decode (suc n) (c ∷ d ∷ s) l h =
    let (hc, hrest) = and_true (is_hex c) _ h in
    let (hd, hs) = and_true (is_hex d) _ hrest in
    let (backc, smallc) = hex_digit-hex_value c hc in
    let (backd, smalld) = hex_digit-hex_value d hd in
    let (back, size, bytes) = encode-decode n s (omega (arith, l)) hs in
    let x = hex_value c in
    let y = hex_value d in
    let high : (x * 16 + y) / 16 ≡ x = omega arith in
    let low : (x * 16 + y) % 16 ≡ y = omega arith in
    (rw (high, low, backc, backd, back), ap suc size, (omega arith, bytes))
encode-decode n s l h = absurd (omega arith)

pub valid_id-parts : (s : Text) → valid_id s ≡ true → (length s ≡ 40) × (all is_hex s ≡ true)
unfolding valid_id
valid_id-parts s h = let (l, a) = and_true (length s == 40) _ h in ((==_iff (length s) 40).0 l, a)

pub all-IsAscii : (s : Text) → all is_hex s ≡ true → All (λ c. c < 128) s
unfolding is_hex
all-IsAscii [] h = tt
all-IsAscii (c ∷ s) h = ground (arith, all-IsAscii s)

-- The check accepts the identifiers that can be made from 20 bytes, and nothing else.
pub valid_id_iff :
    (s : Text) → (valid_id s ≡ true) ↔ ((b : List ℕ) × IsRandom b × (new_id (some b) ≡ some s))
unfolding new_id
valid_id_iff s = (
  λ h.
      let (l, a) = valid_id-parts s h in
      let (back, size, bytes) = encode-decode 20 s l a in
      (decode s, record { size = size; bytes = bytes }, ap some back),
  λ made.
      let (id, is, fine) = new_id-valid_id made.0 made.1 in
      let same : id ≡ s = cc (sym is ∙ made.2) in subst (λ x. valid_id x ≡ true) same fine,
)
