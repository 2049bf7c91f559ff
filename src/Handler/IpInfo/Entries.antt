-- ===== src/Handler/IpInfo/Entries.antt =====
-- The map that `IPInfo` answers with.
use looking_glass.Common.{
  ℕ, suc, zero, ◌+◌, ◌≡◌, refl, ap, ◌∙◌, List, [], ◌∷◌, Bool, true, false, Option, none, some, ltb,
  lt→ltb, ite, if◌then◌else◌, Text, Text-discrete, arith, keep, map, take, lookup, lookup-assign,
  Bool-cases, inl, inr, codes,
}
use looking_glass.RateLimit.{allow}
use looking_glass.Geoip as Geoip
use looking_glass.Strings.{trim_space, split}
use looking_glass.Handler.{Request, query_get, client_ip}
use looking_glass.Handler.Gate.{Env, ◌>>◌, require, require_rate, respond}
use looking_glass.Handler.Gate.Passing.{counted, >>=-go, require-go, require_rate-go}
use looking_glass.Handler.IpInfo.{
  Entry, max_targets, find_entry, put_entry, info_loop, entries, give_entries, ip_info_steps,
  ip_info,
}
use looking_glass.Handler.Routes.{Lookups, not_blank}
use looking_glass.Handler.State.{State, json}

unfoldable pub is_among : Text → List Text → Bool
is_among t [] = false
is_among t (u ∷ us) = ite (Text-discrete u t) true (is_among t us)

-- The targets of the parts, without white space around them and blank ones.
abbrev pub targets_of : List Text → List Text
targets_of parts = keep not_blank (map trim_space parts)

abbrev pub found_or : Option Entry → Option Entry → Option Entry
found_or none old = old
found_or (some e) old = some e

lookup-put_entry :
    (t u : Text) (e : Option Entry) (result : List (Text × Entry))
    → lookup Text-discrete t (put_entry u e result) ≡ (
        ite
          (Text-discrete u t)
          (found_or e (lookup Text-discrete t result))
          (lookup Text-discrete t result))
lookup-put_entry t u none result = ground arith
lookup-put_entry t u (some e) result = ground (arith, lookup-assign Text-discrete t u e result)

found_or_again : (e old : Option Entry) → found_or e (found_or e old) ≡ found_or e old
found_or_again none old = refl
found_or_again (some e) old = refl

abbrev if_among : (Text → Option Entry) → Text → Option Entry → Bool → Option Entry
if_among find t old among = if among then found_or (find t) old else old

-- A target that is among the first or the others.
if_among_more :
    (find : Text → Option Entry) (t u : Text) (old : Option Entry) (among : Bool)
    → if_among find t (ite (Text-discrete u t) (found_or (find u) old) old) among
      ≡ if_among find t old (ite (Text-discrete u t) true among)
if_among_more find t u old among =
    elim (Text-discrete u t)
      as (λ d.
        if_among find t (ite d (found_or (find u) old) old) among
        ≡ if_among find t old (ite d true among)) [
          | yes same ↦ rw same (again among)
          | no different ↦ refl
        ]
  where
    again : (among : Bool) → if_among find t (found_or (find t) old) among ≡ found_or (find t) old
    again true = found_or_again (find t) old
    again false = refl

targets_named :
    (part : Text) (parts : List Text)
    → not_blank (trim_space part) ≡ true
    → trim_space part ∷ targets_of parts ≡ targets_of (part ∷ parts)
targets_named part parts h = ground arith

targets_blank :
    (part : Text) (parts : List Text)
    → not_blank (trim_space part) ≡ false
    → targets_of parts ≡ targets_of (part ∷ parts)
targets_blank part parts h = ground arith

-- The loop with some targets left to its bound.
lookup-info_loop :
    (find : Text → Option Entry) (t : Text) (count left : ℕ) (result : List (Text × Entry))
    (parts : List Text)
    → count + left ≡ max_targets
    → lookup Text-discrete t (info_loop find count result parts)
      ≡ if_among find t (lookup Text-discrete t result) (is_among t (take left (targets_of parts)))
unfolding info_loop is_among
lookup-info_loop find t count zero result [] h = refl
lookup-info_loop find t count (suc left) result [] h = refl
lookup-info_loop find t count left result (part ∷ parts) h =
    elim (Bool-cases (not_blank (trim_space part))) [
      | inr blank ↦ rw blank (
          lookup-info_loop find t count left result parts h
          ∙ ap (λ us. if_among find t (lookup Text-discrete t result) (is_among t (take left us)))
              (targets_blank part parts blank))
      | inl named ↦ rw named (
          by_left left h (λ left result h. lookup-info_loop find t (count + 1) left result parts h)
          ∙ ap (λ us. if_among find t (lookup Text-discrete t result) (is_among t (take left us)))
              (targets_named part parts named))
    ]
  where
    u : Text
    u = trim_space part

    by_left :
        (left : ℕ)
        → count + left ≡ max_targets
        → ((left : ℕ) (result : List (Text × Entry))
            → (count + 1) + left ≡ max_targets
            → lookup Text-discrete t (info_loop find (count + 1) result parts)
              ≡ if_among find t
                  (lookup Text-discrete t result)
                  (is_among t (take left (targets_of parts))))
        → lookup Text-discrete t (
            if ltb max_targets (count + 1)
            then result
            else info_loop find (count + 1) (put_entry u (find u) result) parts)
          ≡ if_among find t
              (lookup Text-discrete t result)
              (is_among t (take left (u ∷ targets_of parts)))
    by_left zero h ih = rw (lt→ltb max_targets (count + 1) (omega arith)) refl
    by_left (suc left) h ih =
        let within : ltb max_targets (count + 1) ≡ false = ground arith in
        rw within (
          ih left (put_entry u (find u) result) (omega arith)
          ∙ ap (λ old. if_among find t old (is_among t (take left (targets_of parts))))
              (lookup-put_entry t u (find u) result)
          ∙ if_among_more find t u (lookup Text-discrete t result)
              (is_among t (take left (targets_of parts))))

-- A request for information on addresses that names some, where there is a database and the limiter
-- lets it through, is answered with a map: a text is in it just if it is one of the first 50 targets
-- (trimmed, and without the blank ones) and something is found for it, and it has what is found.
pub lookup-ip_info :
    (env : Env) (l : Lookups) (r : Request) (s : State) (db : Geoip.Db) (t : Text)
    → s.geo ≡ some db
    → not_blank (query_get r (codes "targets")) ≡ true
    → (allow s.rl (client_ip env.client r) l.now).1 ≡ true
    → (m : List (Text × Entry)) × ((ip_info env l r s).0 ≡ json m)
      × (lookup Text-discrete t m ≡ (
          if is_among t (take max_targets (targets_of (split b',' (query_get r (codes "targets")))))
          then find_entry env l.netip db s.store t
          else none))
unfolding ip_info ip_info_steps lookup
lookup-ip_info env l r s db t has named allowed =
    let targets = query_get r (codes "targets") in
    let find = find_entry env l.netip db s.store in
    let among = is_among t (take max_targets (targets_of (split b',' targets))) in
    (
      info_loop find 0 [] (split b',' targets),
      ap (λ p. (respond p).0)
            (>>=-go (require (not_blank targets) (codes "targets is required"))
                (λ u. require_rate env r l.now >> give_entries env l.netip targets) s s tt
                (require-go (List (Text × Entry)) (not_blank targets) (codes "targets is required")
                  s named)
              ∙ >>=-go (require_rate env r l.now) (λ u. give_entries env l.netip targets) s
                  (counted env r l.now s) tt
                  (require_rate-go (List (Text × Entry)) env r l.now s allowed))
          ∙ ap (λ geo. json (entries env l.netip geo s.store targets)) has,
      lookup-info_loop find t 0 max_targets [] (split b',' targets) refl
          ∙ nothing_before (find t) among,
    )
  where
    nothing_before :
        (e : Option Entry) (among : Bool)
        → (if among then found_or e none else none) ≡ (if among then e else none)
    nothing_before none true = refl
    nothing_before none false = refl
    nothing_before (some e) true = refl
    nothing_before (some e) false = refl
