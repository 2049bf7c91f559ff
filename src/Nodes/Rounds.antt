-- ===== src/Nodes/Rounds.antt =====
-- Which nodes are live after any rounds of checks.
use mathlib.Core.Path.{fun_ext}
use looking_glass.Common.{
  ℕ, suc, ◌+◌, ◌≡◌, refl, ◌≢◌, ap, ◌∙◌, List, [], ◌∷◌, ◌++◌, Bool, true, false, some, arith, ltb,
  ite, if◌then◌else◌, Text, Text-discrete, lookup, assign, lookup-assign, keep, Bool-cases, inl,
  inr, ◌⊎◌, sym,
}
use looking_glass.Nodes.{
  Node, Liveness, dead_after_misses, or_false, mark_live, new_liveness, misses_of, record_failure,
  record_success, is_live, live_nodes, Health, is_healthy, check_one, check_all,
}

-- The failed checks of a node since its last successful one.
pub streak : Text → ℕ → List (Text × Health) → ℕ
streak id n [] = n
streak id n ((k, h) ∷ xs) =
    streak id (ite (Text-discrete k id) (if is_healthy h then 0 else suc n) n) xs

abbrev pub Registered : Text → List Node → Type 0
Registered id [] = ⊥
Registered id (n ∷ nodes) = (n.id ≡ id) ⊎ Registered id nodes

-- The tracker is at `n` misses for the node.
record At (l : Liveness) (id : Text) (n : ℕ) : Type 0 where
  counts : misses_of l id ≡ n
  shows : is_live l id ≡ ltb n dead_after_misses

success-At :
    (l : Liveness) (id k : Text) (n : ℕ)
    → At l id n
    → At (record_success l k) id (ite (Text-discrete k id) 0 n)
unfolding record_success misses_of is_live
success-At l id k n a = record {
  counts = ground (arith, a.counts, lookup-assign Text-discrete id k 0 l.misses);
  shows = ground (arith, a.shows, lookup-assign Text-discrete id k true l.live);
}

failure-At :
    (l : Liveness) (id k : Text) (n : ℕ)
    → At l id n
    → At (record_failure l k) id (ite (Text-discrete k id) (suc n) n)
unfolding record_failure misses_of is_live
failure-At l id k n a = record {
  counts = ground (arith, a.counts, lookup-assign Text-discrete id k (misses_of l k + 1) l.misses);
  shows = ground (arith, a.counts, a.shows, lookup-assign Text-discrete id k false l.live);
}

check_one-At :
    (l : Liveness) (id k : Text) (h : Health) (n : ℕ)
    → At l id n
    → At (check_one l (k, h)) id (ite (Text-discrete k id) (if is_healthy h then 0 else suc n) n)
unfolding check_one
check_one-At l id k h n a = elim (Bool-cases (is_healthy h)) [
  | inl good ↦ rw good (success-At l id k n a)
  | inr bad ↦ rw bad (failure-At l id k n a)
]

check_all-At :
    (l : Liveness) (id : Text) (n : ℕ) (xs : List (Text × Health))
    → At l id n
    → At (check_all l xs) id (streak id n xs)
unfolding check_all streak
check_all-At l id n [] a = a
check_all-At l id n ((k, h) ∷ xs) a =
    check_all-At (check_one l (k, h)) id _ xs (check_one-At l id k h n a)

mark_live_keeps :
    (id : Text) (live : List (Text × Bool)) (nodes : List Node)
    → lookup Text-discrete id live ≡ some true
    → lookup Text-discrete id (mark_live live nodes) ≡ some true
unfolding mark_live
mark_live_keeps id live [] h = h
mark_live_keeps id live (n ∷ nodes) h =
    mark_live_keeps id (assign Text-discrete n.id true live) nodes
      (ground (arith, lookup-assign Text-discrete id n.id true live))

mark_live_marks :
    (id : Text) (live : List (Text × Bool)) (nodes : List Node)
    → Registered id nodes
    → lookup Text-discrete id (mark_live live nodes) ≡ some true
unfolding mark_live
mark_live_marks id live [] h = absurd h
mark_live_marks id live (n ∷ nodes) (inl e) =
    mark_live_keeps id (assign Text-discrete n.id true live) nodes
      (ground (arith, lookup-assign Text-discrete id n.id true live))
mark_live_marks id live (n ∷ nodes) (inr r) =
    mark_live_marks id (assign Text-discrete n.id true live) nodes r

new_liveness-At :
    (id : Text) (nodes : List Node) → Registered id nodes → At (new_liveness nodes) id 0
unfolding new_liveness misses_of is_live lookup
new_liveness-At id nodes r = record {
  counts = refl;
  shows = ap or_false (mark_live_marks id [] nodes r);
}

-- After any rounds of checks a registered node is live exactly if fewer than two of its checks have
-- failed since its last successful one, or since the start.
pub is_live-streak :
    (nodes : List Node) (id : Text) (xs : List (Text × Health))
    → Registered id nodes
    → is_live (check_all (new_liveness nodes) xs) id ≡ ltb (streak id 0 xs) dead_after_misses
is_live-streak nodes id xs r =
    (check_all-At (new_liveness nodes) id 0 xs (new_liveness-At id nodes r)).shows

-- The registered nodes with a short streak.
abbrev pub reliable : List (Text × Health) → List Node → List Node
reliable xs = keep (λ n. ltb (streak n.id 0 xs) dead_after_misses)

live_nodes_among :
    (nodes part : List Node) (xs : List (Text × Health))
    → ((n : Node) → Registered n.id part → Registered n.id nodes)
    → live_nodes (check_all (new_liveness nodes) xs) part ≡ reliable xs part
unfolding live_nodes
live_nodes_among nodes [] xs h = refl
live_nodes_among nodes (n ∷ part) xs h = ground (
  arith,
  is_live-streak nodes n.id xs (h n (inl refl)),
  live_nodes_among nodes part xs (λ m r. h m (inr r)),
)

-- `LiveNodes` after any rounds: the registered nodes, in their order, but for those with two or more
-- failed checks since their last successful one.
pub live_nodes-reliable :
    (nodes : List Node) (xs : List (Text × Health))
    → live_nodes (check_all (new_liveness nodes) xs) nodes ≡ reliable xs nodes
live_nodes-reliable nodes xs = live_nodes_among nodes nodes xs (λ n r. r)

streak_step_swap :
    (id k j : Text) (f g : ℕ → ℕ) (n : ℕ)
    → k ≢ j
    → ite
        (Text-discrete j id)
        (f (ite (Text-discrete k id) (g n) n))
        (ite (Text-discrete k id) (g n) n)
      ≡ ite
          (Text-discrete k id)
          (g (ite (Text-discrete j id) (f n) n))
          (ite (Text-discrete j id) (f n) n)
streak_step_swap id k j f g n d = ground arith

streak-swap :
    (id : Text) (xs ys : List (Text × Health)) (a b : Text × Health) (n : ℕ)
    → a.0 ≢ b.0
    → streak id n (xs ++ a ∷ b ∷ ys) ≡ streak id n (xs ++ b ∷ a ∷ ys)
unfolding streak
streak-swap id [] ys a b n d =
    ap (λ m. streak id m ys)
      (streak_step_swap id a.0 b.0 (λ m. if is_healthy b.1 then 0 else suc m)
        (λ m. if is_healthy a.1 then 0 else suc m) n d)
streak-swap id (x ∷ xs) ys a b n d = streak-swap id xs ys a b _ d

reliable-swap :
    (nodes : List Node) (xs ys : List (Text × Health)) (a b : Text × Health)
    → a.0 ≢ b.0
    → reliable (xs ++ a ∷ b ∷ ys) nodes ≡ reliable (xs ++ b ∷ a ∷ ys) nodes
reliable-swap nodes xs ys a b d =
    ap (λ f. keep f nodes)
      (fun_ext (λ n. ap (λ m. ltb m dead_after_misses) (streak-swap n.id xs ys a b 0 d)))

-- The order in which the goroutines of a round record two different nodes is not observable: the
-- same nodes are live afterwards, and after whatever follows.
pub live_nodes-swap :
    (nodes : List Node) (xs ys : List (Text × Health)) (a b : Text × Health)
    → a.0 ≢ b.0
    → live_nodes (check_all (new_liveness nodes) (xs ++ a ∷ b ∷ ys)) nodes
      ≡ live_nodes (check_all (new_liveness nodes) (xs ++ b ∷ a ∷ ys)) nodes
live_nodes-swap nodes xs ys a b d =
    live_nodes-reliable nodes (xs ++ a ∷ b ∷ ys)
    ∙ reliable-swap nodes xs ys a b d
    ∙ sym (live_nodes-reliable nodes (xs ++ b ∷ a ∷ ys))
