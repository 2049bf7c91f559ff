-- ===== src/Handler/Proxy/Targets.antt =====
-- The host of a URL.
use looking_glass.Common.{
  ◌≡◌, refl, ap, ◌∙◌, [], ◌∷◌, ◌++◌, false, Option, none, some, ◌==◌, Text, codes, All, append-nil,
  Bool-cases, inl, inr,
}
use looking_glass.Strings.{cut_prefix, or_whole, trim_prefix, trim_last, split}
use looking_glass.Strings.Splits.{Lacks, split-Lacks, split-append}
use looking_glass.Handler.Proxy.{first_part, host_of}

-- What follows the host: nothing, or a path.
abbrev pub path_of : Option Text → Text
path_of none = []
path_of (some path) = b'/' ∷ path

abbrev trimmed_path : Text → Text
trimmed_path [] = []
trimmed_path (c ∷ path) = b'/' ∷ trim_last b'/' (c ∷ path)

trim_last-Lacks : (s : Text) → Lacks b'/' s → trim_last b'/' s ≡ s
unfolding trim_last
trim_last-Lacks [] h = refl
trim_last-Lacks (c ∷ []) h = rw h.0 refl
trim_last-Lacks (c ∷ d ∷ s) h = ap (λ t. c ∷ t) (trim_last-Lacks (d ∷ s) h.1)

trim_last-path :
    (host path : Text) → trim_last b'/' (host ++ b'/' ∷ path) ≡ host ++ trimmed_path path
unfolding trim_last
trim_last-path [] [] = refl
trim_last-path [] (d ∷ path) = refl
trim_last-path (c ∷ []) path = ap (λ t. c ∷ t) (trim_last-path [] path)
trim_last-path (c ∷ d ∷ s) path = ap (λ t. c ∷ t) (trim_last-path (d ∷ s) path)

first_part-split :
    (host path : Text)
    → Lacks b'/' host
    → first_part (split b'/' (host ++ trimmed_path path)) ≡ host
first_part-split host [] h =
    ap (λ t. first_part (split b'/' t)) (append-nil host) ∙ ap first_part (split-Lacks b'/' host h)
first_part-split host (c ∷ path) h =
    let rest = split b'/' (trim_last b'/' (c ∷ path)) in
    ap first_part (split-append b'/' host (trim_last b'/' (c ∷ path)))
    ∙ ap (λ parts. first_part (parts ++ rest)) (split-Lacks b'/' host h)

first_part-trim_last :
    (host : Text) (path : Option Text)
    → Lacks b'/' host
    → first_part (split b'/' (trim_last b'/' (host ++ path_of path))) ≡ host
first_part-trim_last host none h =
    ap (λ t. first_part (split b'/' (trim_last b'/' t))) (append-nil host)
    ∙ ap (λ t. first_part (split b'/' t)) (trim_last-Lacks host h)
    ∙ ap first_part (split-Lacks b'/' host h)
first_part-trim_last host (some path) h =
    ap (λ t. first_part (split b'/' t)) (trim_last-path host path) ∙ first_part-split host path h

-- A host without a colon does not begin with a scheme, whatever path follows it.
cut_prefix-host :
    (p q host : Text) (path : Option Text)
    → All (λ c. (b'/' == c) ≡ false) p
    → Lacks b':' host
    → cut_prefix (p ++ b':' ∷ q) (host ++ path_of path) ≡ none
unfolding cut_prefix
cut_prefix-host [] q [] none hp h = refl
cut_prefix-host [] q [] (some path) hp h = refl
cut_prefix-host [] q (c ∷ host) path hp h = rw h.0 refl
cut_prefix-host (a ∷ p) q [] none hp h = refl
cut_prefix-host (a ∷ p) q [] (some path) hp h = rw hp.0 refl
cut_prefix-host (a ∷ p) q (c ∷ host) path hp h = elim (Bool-cases (c == a)) [
  | inl same ↦ rw same (cut_prefix-host p q host path hp.1 h.1)
  | inr other ↦ rw other refl
]

no_http :
    (host : Text) (path : Option Text)
    → Lacks b':' host
    → trim_prefix (codes "http://") (host ++ path_of path) ≡ host ++ path_of path
no_http host path h =
    ap (or_whole (host ++ path_of path))
      (cut_prefix-host (codes "http") (codes "//") host path (refl, (refl, (refl, (refl, tt)))) h)

no_https :
    (host : Text) (path : Option Text)
    → Lacks b':' host
    → trim_prefix (codes "https://") (host ++ path_of path) ≡ host ++ path_of path
no_https host path h = ap (or_whole (host ++ path_of path)) (
    cut_prefix-host (codes "https") (codes "//") host path
      (refl, (refl, (refl, (refl, (refl, tt))))) h)

-- A host without a slash or a colon is what stays of it, of it with a path, and of both after
-- http:// or https://.
pub host_of-url :
    (host : Text) (path : Option Text)
    → Lacks b'/' host
    → Lacks b':' host
    → (host_of (host ++ path_of path) ≡ host)
      × (host_of (codes "http://" ++ (host ++ path_of path)) ≡ host)
      × (host_of (codes "https://" ++ (host ++ path_of path)) ≡ host)
unfolding host_of cut_prefix
host_of-url host path slash colon =
    let u = host ++ path_of path in
    let last = λ (t : Text). first_part (split b'/' (trim_last b'/' t)) in
    let stays = first_part-trim_last host path slash in
    (
      ap (λ t. last (trim_prefix (codes "http://") t)) (no_https host path colon)
          ∙ ap last (no_http host path colon)
          ∙ stays,
      stays,
      ap last (no_http host path colon) ∙ stays,
    )
