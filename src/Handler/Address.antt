-- ===== src/Handler/Address.antt =====
-- The client cannot choose the address that it counts under.
use looking_glass.Common.{ℕ, ◌≡◌, refl, ◌≢◌, ap, ◌∙◌, List, [], ◌∷◌, ◌++◌, some, Text}
use looking_glass.Strings.{split, trim_space}
use looking_glass.Strings.Splits.{Lacks, split-Lacks, split-append}
use looking_glass.Handler.{Request, Net, second_last, from_forwarded, client_ip}

second_last-append : (xs : List Text) (a b : Text) → second_last (xs ++ a ∷ b ∷ []) ≡ some a
unfolding second_last
second_last-append [] a b = refl
second_last-append (x ∷ []) a b = refl
second_last-append (x ∷ y ∷ []) a b = refl
second_last-append (x ∷ y ∷ z ∷ xs) a b = second_last-append (y ∷ z ∷ xs) a b

chosen :
    (sent real hop : Text)
    → Lacks b',' real
    → Lacks b',' hop
    → second_last (split b',' (sent ++ b',' ∷ (real ++ b',' ∷ hop))) ≡ some real
chosen sent real hop r h =
    ap second_last (
      split-append b',' sent (real ++ b',' ∷ hop)
      ∙ ap (λ parts. split b',' sent ++ parts)
          (split-append b',' real hop ∙ rw (split-Lacks b',' real r, split-Lacks b',' hop h) refl))
    ∙ second_last-append (split b',' sent) real hop

taken :
    (net : Net) (v real ip : Text)
    → v ≢ []
    → second_last (split b',' v) ≡ some real
    → net.canonical (trim_space real) ≡ some ip
    → from_forwarded net v ≡ some ip
taken net [] real ip n s e = absurd (n refl)
taken net (c ∷ v) real ip n s e = rw s e

not_empty : (sent : Text) (c : ℕ) (t : Text) → (sent ++ c ∷ t) ≢ []
not_empty [] c t e = cc e
not_empty (x ∷ sent) c t e = cc e

-- Whatever a client sends as X-Forwarded-For, and in the other headers, the two entries that the
-- network puts behind it decide: the client counts under the first of them, if that is an address.
pub client_ip-forwarded :
    (net : Net) (r : Request) (sent real hop ip : Text)
    → Lacks b',' real
    → Lacks b',' hop
    → net.canonical (trim_space real) ≡ some ip
    → r.forwarded_for ≡ sent ++ b',' ∷ (real ++ b',' ∷ hop)
    → client_ip net r ≡ ip
unfolding client_ip
client_ip-forwarded net r sent real hop ip n h e f =
    rw
      (
        f,
        taken net _ real ip (not_empty sent b',' (real ++ b',' ∷ hop)) (chosen sent real hop n h) e,
      )
      refl
