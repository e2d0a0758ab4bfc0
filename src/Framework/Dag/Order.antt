-- ===== src/Framework/Dag/Order.antt =====
-- The nodes that the loop of `BuildDag` visits, in their order.
use mini_search_rec.Prelude.{
  ℕ, zero, suc, ◌+◌, ◌≤◌, ◌<◌, ◌≡◌, refl, sym, ap, if◌then◌else◌, ◌==◌, List, [], ◌∷◌, length,
  arith, some, ℤ, ℕ_discrete, subst,
}
use mini_search_rec.Framework.Dag.{edges_of, visit}
use mini_search_rec.Framework.Dag.Flat.{occurs}
use mini_search_rec.Framework.Dag.Visit.{Degrees, Marked, Below, release-Marked}

-- How many edges lead from the first `n` nodes to a node, those of visited nodes left out.
unfoldable pub pending : List (List ℕ) → ℕ → List ℕ → ℕ → ℕ
pending down zero seen j = 0
pending down (suc i) seen j =
    pending down i seen j + (if occurs i seen == 0 then occurs j (edges_of i down) else 0)

pending_other :
    (down : List (List ℕ)) (n x : ℕ) (seen : List ℕ) (j : ℕ)
    → n ≤ x
    → pending down n (x ∷ seen) j ≡ pending down n seen j
unfolding pending occurs
pending_other down zero x seen j le = refl
pending_other down (suc n) x seen j le =
    ground (arith, pending_other down n x seen j (omega (arith, le)), le)

-- A visit takes the edges of the node away.
pending_visit :
    (down : List (List ℕ)) (n x : ℕ) (seen : List ℕ) (j : ℕ)
    → x < n
    → occurs x seen ≡ 0
    → pending down n seen j ≡ occurs j (edges_of x down) + pending down n (x ∷ seen) j
unfolding pending occurs
pending_visit down zero x seen j lt u = absurd (omega (arith, lt))
pending_visit down (suc n) x seen j lt u = elim (ℕ_discrete x n) [
  | yes e ↦ ground (
    arith,
    e,
    u,
    ap (λ y. occurs y seen) e,
    ap (λ y. occurs j (edges_of y down)) e,
    pending_other down n x seen j (omega (arith, e)),
  )
  | no h ↦ ground (arith, h, pending_visit down n x seen j (omega (arith, lt, h)) u)
]

-- Each node stands after all those that have an edge to it; the last visited stands first.
unfoldable pub Ordered : List (List ℕ) → ℕ → List ℕ → Type 0
Ordered down n [] = Unit
Ordered down n (x ∷ seen) =
    ((i : ℕ) → i < n → 0 < occurs x (edges_of i down) → 0 < occurs i seen) × Ordered down n seen

pending_positive :
    (down : List (List ℕ)) (n : ℕ) (seen : List ℕ) (j i : ℕ)
    → pending down n seen j ≡ 0
    → i < n
    → 0 < occurs j (edges_of i down)
    → 0 < occurs i seen
unfolding pending
pending_positive down zero seen j i z lt e = absurd (omega (arith, lt))
pending_positive down (suc n) seen j i z lt e = elim (ℕ_discrete i n) [
  | yes h ↦
      subst (λ y. 0 < occurs y seen) (sym h)
        (ground (arith, z, subst (λ y. 0 < occurs j (edges_of y down)) h e))
  | no h ↦ pending_positive down n seen j i (omega (arith, z)) (omega (arith, lt, h)) e
]

-- What the loop has reached when its queue is empty.
pub record Visited (down : List (List ℕ)) (n : ℕ) (seen : List ℕ) : Type 0 where
  pub marked : Marked n (λ j. occurs j seen) [] (pending down n seen)
  pub below : Below n seen
  pub ordered : Ordered down n seen

pub visit_order :
    (fuel n m : ℕ) (down : List (List ℕ)) (ns : List ℤ) (queue seen : List ℕ)
    → ((i : ℕ) → Below n (edges_of i down))
    → Degrees n ns (pending down n seen)
    → Marked n (λ j. occurs j seen) queue (pending down n seen)
    → Below n queue
    → Below n seen
    → Ordered down n seen
    → visit fuel down ns queue (length seen) ≡ some m
    → (final : List ℕ) × (length final ≡ m) × Visited down n final
unfolding visit occurs Ordered
visit_order zero n m down ns queue seen b g k q s o e = absurd (ground (arith, e))
visit_order (suc fuel) n m down ns [] seen b g k q s o e =
    (seen, ground (arith, e), record { marked = k; below = s; ordered = o })
visit_order (suc fuel) n m down ns (x ∷ queue) seen b g k q s o e =
    let new : occurs x seen ≡ 0 = ground (arith, k x q.0) in
    let free : pending down n seen x ≡ 0 = ground (arith, k x q.0) in
    let (g', k', q') =
      release-Marked n (λ j. occurs j (x ∷ seen)) (pending down n seen) (pending down n (x ∷ seen))
        (edges_of x down) ns queue (λ j. pending_visit down n x seen j q.0 new) (b x) q.1 g
        (λ j lt. ground (arith, k j lt)) in
    visit_order fuel n m down _ _ (x ∷ seen) b g' k' q' (q.0, s)
      ((λ i lt h. pending_positive down n seen x i free lt h), o) e
