-- ===== src/Framework/Dag/Acyclic.antt =====
-- A graph all of whose nodes are visited in order has no cycle, and the other way round.
use mini_search_rec.Prelude.{
  ℕ, zero, suc, ◌+◌, ◌≤◌, ◌<◌, ltb, ◌≡◌, ◌≢◌, refl, sym, ◌∙◌, if◌then◌else◌, ◌==◌, List, [], ◌∷◌,
  length, arith, ℕ_discrete, subst,
}
use mini_search_rec.Framework.Dag.{edges_of}
use mini_search_rec.Framework.Dag.Flat.{occurs}
use mini_search_rec.Framework.Dag.Visit.{one_if, Below}
use mini_search_rec.Framework.Dag.Order.{pending, Ordered, Visited}

-- The nodes can be numbered so that every edge goes up.
pub record IsAcyclic (down : List (List ℕ)) (n : ℕ) : Type 0 where
  pub rank : ℕ → ℕ
  pub rises : (i j : ℕ) → i < n → j < n → 0 < occurs j (edges_of i down) → rank i < rank j

-- How many entries of a list are below `n`.
entries : ℕ → List ℕ → ℕ
entries zero l = 0
entries (suc n) l = entries n l + occurs n l

entries_nil : (n : ℕ) → entries n [] ≡ 0
unfolding entries occurs
entries_nil zero = refl
entries_nil (suc n) = omega (arith, entries_nil n)

entries-cons : (n x : ℕ) (l : List ℕ) → entries n (x ∷ l) ≡ entries n l + one_if (ltb x n)
unfolding entries occurs
entries-cons zero x l = ground arith
entries-cons (suc n) x l = ground (arith, entries-cons n x l)

entries-length : (n : ℕ) (l : List ℕ) → Below n l → entries n l ≡ length l
unfolding entries occurs
entries-length n [] b = entries_nil n
entries-length n (x ∷ l) b = ground (arith, entries-cons n x l, entries-length n l b.1, b.0)

entries_le : (n : ℕ) (l : List ℕ) → ((j : ℕ) → j < n → occurs j l ≤ 1) → entries n l ≤ n
unfolding entries
entries_le zero l h = omega arith
entries_le (suc n) l h =
    omega (arith, entries_le n l (λ j lt. h j (omega (arith, lt))), h n (omega arith))

-- A list with no entry twice that is as long as there are nodes has every node.
entries_full :
    (n : ℕ) (l : List ℕ)
    → ((j : ℕ) → j < n → occurs j l ≤ 1)
    → entries n l ≡ n
    → (j : ℕ) → j < n
    → 0 < occurs j l
unfolding entries
entries_full zero l h e j lt = absurd (omega (arith, lt))
entries_full (suc n) l h e j lt =
    let below = entries_le n l (λ i q. h i (omega (arith, q))) in
    elim (ℕ_discrete j n) [
      | yes s ↦ subst (λ i. 0 < occurs i l) (sym s) (omega (arith, e, below))
      | no s ↦
          entries_full n l (λ i q. h i (omega (arith, q)))
            (omega (arith, e, below, h n (omega arith))) j (omega (arith, lt, s))
    ]

entries_all :
    (n : ℕ) (l : List ℕ)
    → ((j : ℕ) → j < n → occurs j l ≤ 1)
    → ((j : ℕ) → j < n → 0 < occurs j l)
    → entries n l ≡ n
unfolding entries
entries_all zero l h k = refl
entries_all (suc n) l h k = omega (
  arith,
  entries_all n l (λ j q. h j (omega (arith, q))) (λ j q. k j (omega (arith, q))),
  h n (omega arith),
  k n (omega arith),
)

-- The place of a node, counted from the first visited.
abbrev place : List ℕ → ℕ → ℕ
place [] j = 0
place (x ∷ l) j = let rest = place l j in if x == j then suc (length l) else rest

place_le : (l : List ℕ) (j : ℕ) → place l j ≤ length l
place_le [] j = omega arith
place_le (x ∷ l) j = ground (arith, place_le l j)

place_rises :
    (down : List (List ℕ)) (n : ℕ) (l : List ℕ) (i j : ℕ)
    → Ordered down n l
    → ((k : ℕ) → k < n → occurs k l ≤ 1)
    → i < n
    → 0 < occurs j l
    → 0 < occurs j (edges_of i down)
    → (0 < occurs i l) × (place l i < place l j)
unfolding Ordered occurs
place_rises down n [] i j o u lt p e = absurd (omega (arith, p))
place_rises down n (x ∷ l) i j o u lt p e = elim (ℕ_discrete x j) [
  | yes s ↦
      let before = o.0 i lt (subst (λ y. 0 < occurs y (edges_of i down)) (sym s) e) in
      ground (arith, s, before, u i lt, place_le l i)
  | no s ↦
      let (before, less) =
        place_rises down n l i j o.1 (λ k q. ground (arith, u k q)) lt (ground (arith, p, s)) e in
      ground (arith, s, before, less, u i lt)
]

module _ (down : List (List ℕ)) (n : ℕ) (l : List ℕ) (v : Visited down n l) where
  once : (j : ℕ) → j < n → occurs j l ≤ 1
  unfolding occurs
  once j lt = ground (arith, v.marked j lt)

  pub full-IsAcyclic : length l ≡ n → IsAcyclic down n
  full-IsAcyclic e = record {
    rank = place l;
    rises = λ i j p q h.
        (place_rises down n l i j v.ordered once p
          (entries_full n l once (entries-length n l v.below ∙ e) j q) h).1;
  }

  -- A node that is not visited has an edge from another such node.
  source :
      (m j : ℕ)
      → m ≤ n
      → pending down m l j ≢ 0
      → (i : ℕ) × (i < m) × (occurs i l ≡ 0) × (0 < occurs j (edges_of i down))
  unfolding pending
  source zero j le h = absurd (h refl)
  source (suc m) j le h = elim (ℕ_discrete (pending down m l j) 0) [
    | yes z ↦ (m, omega arith, ground (arith, z, h), ground (arith, z, h))
    | no z ↦ let (i, lt, u, e) = source m j (omega (arith, le)) z in (i, omega (arith, lt), u, e)
  ]

  reached : (a : IsAcyclic down n) (fuel j : ℕ) → a.rank j < fuel → j < n → 0 < occurs j l
  unfolding occurs
  reached a zero j r lt = absurd (omega (arith, r))
  reached a (suc fuel) j r lt = elim (ℕ_discrete (pending down n l j) 0) [
    | yes z ↦ ground (arith, z, v.marked j lt)
    | no z ↦
        let (i, p, u, e) = source n j (omega arith) z in
        absurd (omega (arith, u, reached a fuel i (omega (arith, r, a.rises i j p lt e)) p))
  ]

  pub IsAcyclic-full : IsAcyclic down n → length l ≡ n
  IsAcyclic-full a =
      sym (entries-length n l v.below)
      ∙ entries_all n l once (λ j lt. reached a (suc (a.rank j)) j (omega arith) lt)
