-- ===== src/Geoip/Table.antt =====
-- The snapshot of a database as the list of the records that were added.
use mathlib.Core.Path.{fun_ext}
use looking_glass.Common.{
  ◌+◌, ◌≡◌, refl, ◌≢◌, ap, sym, subst, ◌∙◌, List, [], ◌∷◌, true, false, Option, none, some, arith,
  ite, if_pos, if_neg, Text, Text-discrete, length, lookup, lookup-assign, Option-cases, inl, inr,
}
use looking_glass.Ip.{Family, Family-discrete, v4, v6, max_bits}
use looking_glass.Radix.{Node, update, pick}
use looking_glass.Radix.Longest.{Deepest, best_match-Deepest, answers_at}
use looking_glass.Radix.Paths.{Bits, Bits-discrete, path, at, at-update}
use looking_glass.Geoip.{
  Record, Addr, Prefix, Netip, Snapshot, empty_snapshot, root, set_root, insert, rec_of, lookup_ip,
  note_asn, add_record,
}

-- The bits of an address, from the first, and those of a prefix.
abbrev pub addr_bits : Addr → Bits
addr_bits ip = path ip.bytes 0 (max_bits ip.family)

abbrev pub prefix_bits : Prefix → Bits
prefix_bits p = path p.addr.bytes 0 p.bits

-- The record, if the prefix is the network of the family and the bits.
unfoldable pub record_if : Family → Bits → Prefix → Record → Option Record
record_if f q p rec =
    ite (Family-discrete p.addr.family f) (ite (Bits-discrete (prefix_bits p) q) (some rec) none)
      none

-- The last record that was added for a network.
pub last_for : Family → Bits → List (Prefix × Record) → Option Record
last_for f q [] = none
last_for f q (e ∷ es) = pick (last_for f q es) (record_if f q e.0 e.1)

-- The first record that was added with an AS number.
pub first_with : Text → List (Prefix × Record) → Option Record
first_with asn [] = none
first_with asn (e ∷ es) = ite (Text-discrete e.1.asn asn) (some e.1) (first_with asn es)

unfoldable pub add_all : Netip → Snapshot → List (Prefix × Record) → Snapshot
add_all net s [] = s
add_all net s (e ∷ es) = add_all net (add_record net s e.0 e.1) es

-- The records with the prefixes that are put in the trie.
abbrev pub masked_all : Netip → List (Prefix × Record) → List (Prefix × Record)
masked_all net [] = []
masked_all net (e ∷ es) = (net.masked e.0, e.1) ∷ masked_all net es

abbrev at_root : Snapshot → Family → Bits → Option Record
at_root s f q = at none (root s f) q

root-set_root :
    (s : Snapshot) (f g : Family) (n : Node (Option Record))
    → root (set_root s f n) g ≡ ite (Family-discrete f g) n (root s g)
unfolding Family-discrete
root-set_root s v4 v4 n = refl
root-set_root s v4 v6 n = refl
root-set_root s v6 v4 n = refl
root-set_root s v6 v6 n = refl

inserted :
    (s : Snapshot) (p : Prefix) (rec : Record) (g : Family) (q : Bits)
    → at_root (insert s p rec) g q ≡ pick (record_if g q p rec) (at_root s g q)
unfolding insert record_if
inserted s p rec g q =
    let u = update none (λ _. some rec) p.bits 0 p.addr.bytes (root s p.addr.family) in
    elim (Family-discrete p.addr.family g) [
      | yes same ↦
          rw
            (
              root-set_root s p.addr.family g u,
              if_pos (Family-discrete p.addr.family g) same,
              if_pos (Family-discrete p.addr.family g) same,
            )
            (at-update none (λ _. some rec) p.bits 0 p.addr.bytes (root s p.addr.family) q
              ∙ rw same (chosen (at none (root s g) q)))
      | no other ↦
          rw
            (
              root-set_root s p.addr.family g u,
              if_neg (Family-discrete p.addr.family g) other,
              if_neg (Family-discrete p.addr.family g) other,
            )
            refl
    ]
  where
    chosen :
        (old : Option Record)
        → ite (Bits-discrete (prefix_bits p) q) (some rec) old
          ≡ pick (ite (Bits-discrete (prefix_bits p) q) (some rec) none) old
    chosen old = elim (Bits-discrete (prefix_bits p) q) [
      | yes e ↦ rw (if_pos _ e, if_pos _ e) refl
      | no e ↦ rw (if_neg _ e, if_neg _ e) refl
    ]

pick_assoc : (a b c : Option Record) → pick a (pick b c) ≡ pick (pick a b) c
pick_assoc none b c = refl
pick_assoc (some x) b c = refl

added_root :
    (net : Netip) (s : Snapshot) (p : Prefix) (rec : Record) (g : Family) (q : Bits)
    → at_root (add_record net s p rec) g q ≡ at_root (insert s (net.masked p) rec) g q
unfolding add_record
added_root net s p rec v4 q = refl
added_root net s p rec v6 q = refl

pub at-add_all :
    (net : Netip) (s : Snapshot) (es : List (Prefix × Record)) (g : Family) (q : Bits)
    → at none (root (add_all net s es) g) q
      ≡ pick (last_for g q (masked_all net es)) (at none (root s g) q)
unfolding add_all last_for
at-add_all net s [] g q = refl
at-add_all net s (e ∷ es) g q =
    at-add_all net (add_record net s e.0 e.1) es g q
    ∙ ap (pick (last_for g q (masked_all net es)))
        (added_root net s e.0 e.1 g q ∙ inserted s (net.masked e.0) e.1 g q)
    ∙ pick_assoc (last_for g q (masked_all net es)) (record_if g q (net.masked e.0) e.1)
        (at none (root s g) q)

nothing_yet : (g : Family) (q : Bits) → at none (root empty_snapshot g) q ≡ none
unfolding at
nothing_yet v4 [] = refl
nothing_yet v4 (false ∷ q) = refl
nothing_yet v4 (true ∷ q) = refl
nothing_yet v6 [] = refl
nothing_yet v6 (false ∷ q) = refl
nothing_yet v6 (true ∷ q) = refl

pick-none : (a : Option Record) → pick a none ≡ a
pick-none none = refl
pick-none (some x) = refl

-- A lookup in a database finds the longest network that holds the address, and of the records for
-- that network the last.
pub lookup_ip-add_all :
    (net : Netip) (es : List (Prefix × Record)) (ip : Addr)
    → Deepest
        (λ q. last_for ip.family q (masked_all net es))
        (addr_bits ip)
        none
        (lookup_ip (add_all net empty_snapshot es) ip)
unfolding lookup_ip
lookup_ip-add_all net es ip =
    let t = root (add_all net empty_snapshot es) ip.family in
    let table : answers_at none rec_of t ≡ (λ q. last_for ip.family q (masked_all net es)) =
      fun_ext (λ q.
        at-add_all net empty_snapshot es ip.family q
        ∙ ap (pick (last_for ip.family q (masked_all net es))) (nothing_yet ip.family q)
        ∙ pick-none (last_for ip.family q (masked_all net es))) in
    subst (λ a. Deepest a (addr_bits ip) none (lookup_ip (add_all net empty_snapshot es) ip)) table
      (best_match-Deepest none rec_of (max_bits ip.family) 0 ip.bytes none t refl)

asn_of_insert : (s : Snapshot) (p : Prefix) (rec : Record) → (insert s p rec).asn_idx ≡ s.asn_idx
unfolding insert
asn_of_insert s p rec = by_family p.addr.family
  where
    by_family :
        (f : Family)
        → (set_root s f (update none (λ _. some rec) p.bits 0 p.addr.bytes (root s f))).asn_idx
          ≡ s.asn_idx
    by_family v4 = refl
    by_family v6 = refl

count_of_insert : (s : Snapshot) (p : Prefix) (rec : Record) → (insert s p rec).count ≡ s.count
unfolding insert
count_of_insert s p rec = by_family p.addr.family
  where
    by_family :
        (f : Family)
        → (set_root s f (update none (λ _. some rec) p.bits 0 p.addr.bytes (root s f))).count
          ≡ s.count
    by_family v4 = refl
    by_family v6 = refl

lookup-note_asn :
    (asn : Text) (rec : Record) (m : List (Text × Record))
    → asn ≢ []
    → lookup Text-discrete asn (note_asn rec m)
      ≡ pick (lookup Text-discrete asn m) (ite (Text-discrete rec.asn asn) (some rec) none)
unfolding note_asn
lookup-note_asn asn rec m named = elim (Option-cases (lookup Text-discrete rec.asn m)) [
  | inl unknown ↦ rw unknown (ground (arith, lookup-assign Text-discrete asn rec.asn rec m))
  | inr (old, known) ↦ rw known (ground arith)
]

added_asn :
    (net : Netip) (s : Snapshot) (p : Prefix) (rec : Record) (asn : Text)
    → asn ≢ []
    → lookup Text-discrete asn (add_record net s p rec).asn_idx
      ≡ pick (lookup Text-discrete asn s.asn_idx) (ite (Text-discrete rec.asn asn) (some rec) none)
unfolding add_record
added_asn net s p rec asn named =
    ap (λ m. lookup Text-discrete asn (note_asn rec m)) (asn_of_insert s (net.masked p) rec)
    ∙ lookup-note_asn asn rec s.asn_idx named

pick-ite :
    (asn : Text) (known rest : Option Record) (rec : Record)
    → pick (pick known (ite (Text-discrete rec.asn asn) (some rec) none)) rest
      ≡ pick known (ite (Text-discrete rec.asn asn) (some rec) rest)
pick-ite asn (some x) rest rec = refl
pick-ite asn none rest rec = ground arith

-- An AS number has the first record that was added with it.
pub asn_idx-add_all :
    (net : Netip) (s : Snapshot) (es : List (Prefix × Record)) (asn : Text)
    → asn ≢ []
    → lookup Text-discrete asn (add_all net s es).asn_idx
      ≡ pick (lookup Text-discrete asn s.asn_idx) (first_with asn es)
unfolding add_all first_with
asn_idx-add_all net s [] asn named = sym (pick-none _)
asn_idx-add_all net s (e ∷ es) asn named =
    asn_idx-add_all net (add_record net s e.0 e.1) es asn named
    ∙ ap (λ o. pick o (first_with asn es)) (added_asn net s e.0 e.1 asn named)
    ∙ pick-ite asn (lookup Text-discrete asn s.asn_idx) (first_with asn es) e.1

pub count-add_all :
    (net : Netip) (s : Snapshot) (es : List (Prefix × Record))
    → (add_all net s es).count ≡ s.count + length es
unfolding add_all add_record
count-add_all net s [] = omega arith
count-add_all net s (e ∷ es) =
    omega (
      arith,
      count-add_all net (add_record net s e.0 e.1) es,
      count_of_insert s (net.masked e.0) e.1,
    )
