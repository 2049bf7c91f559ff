-- ===== src/Report/Store/Sample.antt =====
-- A codec for the tests of the report store and of the handlers.
use looking_glass.Common.{
  ℕ, zero, suc, ◌≡◌, refl, [], ◌∷◌, ◌++◌, Option, none, some, Text, length, subst,
}
use looking_glass.Report.Store.{Codec}
use looking_glass.Report.Store.Reading.{RoundTrips}

-- A codec that writes the lengths of the texts before the texts.
abbrev pub put_text : Text → Text → Text
put_text s rest = length s ∷ (s ++ rest)

unfoldable pub take_text : ℕ → Text → Option (Text × Text)
take_text zero s = some ([], s)
take_text (suc n) [] = none
take_text (suc n) (c ∷ s) = elim (take_text n s) [ none ↦ none | some (a, b) ↦ some (c ∷ a, b) ]

unfoldable pub get_text : Text → Option (Text × Text)
get_text [] = none
get_text (n ∷ s) = take_text n s

take-append : (s rest : Text) → take_text (length s) (s ++ rest) ≡ some (s, rest)
unfolding take_text
take-append [] rest = refl
take-append (c ∷ s) rest = rw (take-append s rest)

get-put_text : (s rest : Text) → get_text (put_text s rest) ≡ some (s, rest)
unfolding get_text
get-put_text s rest = take-append s rest

infixl 5 ◌>>=◌
abbrev ◌>>=◌ : {A B : Type 0} → Option A → (A → Option B) → Option B
none >>= f = none
some a >>= f = f a

unfoldable pub get_number : Text → Option (ℕ × Text)
get_number [] = none
get_number (n ∷ s) = some (n, s)

unfoldable pub sample : Codec
sample = record {
  compact = λ s. s;
  marshal =
      λ r. some (put_text r.id (put_text r.kind (put_text r.target (r.captured_at ∷ r.payload))));
  unmarshal = λ s. do
    (id, after_id) ← get_text s
    (kind, after_kind) ← get_text after_id
    (target, after_target) ← get_text after_kind
    (at, payload) ← get_number after_target
    some (record { id = id; kind = kind; target = target; captured_at = at; payload = payload });
}

pub sample-RoundTrips : RoundTrips sample
unfolding sample
sample-RoundTrips r bytes i k t e =
    let same : put_text r.id (put_text r.kind (put_text r.target (r.captured_at ∷ r.payload)))
        ≡ bytes =
      cc in
    subst (λ s. sample.unmarshal s ≡ some r) same
      (simp (get-put_text r.id, get-put_text r.kind, get-put_text r.target)
        (unfold get_number in refl))
