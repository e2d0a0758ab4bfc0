-- ===== src/Framework/Dag/Visit.antt =====
-- The loop of Kahn's algorithm in `BuildDag`: its invariant.
use mini_search_rec.Prelude.{
  ℕ, zero, suc, ◌+◌, ◌<◌, ◌≡◌, ◌≢◌, refl, sym, ap, ◌∙◌, Bool, if◌then◌else◌, ◌==◌, List, [], ◌∷◌,
  ◌++◌, get_elem?, arith, some, ℤ, pos, negsuc, All, ℕ_discrete, subst,
}
use mini_search_rec.Framework.Dag.{lower_degree, release}
use mini_search_rec.Framework.Dag.Flat.{occurs, occurs-append}

-- The test of a count as a number.
abbrev pub one_if : Bool → ℕ
one_if b = if b then 1 else 0

-- The degrees of the first `n` nodes.
abbrev pub Degrees : ℕ → List ℤ → (ℕ → ℕ) → Type 0
Degrees n ns f = (j : ℕ) → j < n → get_elem? ns j ≡ some (pos (f j))

-- A node has been seen, or is in the queue, exactly if its degree is 0, and then once.
abbrev pub Marked : ℕ → (ℕ → ℕ) → List ℕ → (ℕ → ℕ) → Type 0
Marked n seen queue f = (j : ℕ) → j < n → seen j + occurs j queue ≡ one_if (f j == 0)

abbrev pub Below : ℕ → List ℕ → Type 0
Below n = All (λ i. i < n)

pub Below-append : (n : ℕ) (xs ys : List ℕ) → Below n xs → Below n ys → Below n (xs ++ ys)
Below-append n [] ys h k = k
Below-append n (x ∷ xs) ys h k = (h.0, Below-append n xs ys h.1 k)

lower_other :
    (d k j : ℕ) (ns : List ℤ) → j ≢ k → get_elem? (lower_degree d k ns).0 j ≡ get_elem? ns j
unfolding lower_degree
lower_other d k j [] n = refl
lower_other d zero zero (m ∷ ns) n = absurd (n refl)
lower_other d zero (suc j) (m ∷ ns) n = refl
lower_other d (suc k) zero (m ∷ ns) n = refl
lower_other d (suc k) (suc j) (m ∷ ns) n = lower_other d k j ns (λ e. n (ap suc e))

lower_same :
    (d k p : ℕ) (ns : List ℤ)
    → get_elem? ns k ≡ some (pos (suc p))
    → (get_elem? (lower_degree d k ns).0 k ≡ some (pos p))
      × ((lower_degree d k ns).1 ≡ (if p == 0 then d ∷ [] else []))
unfolding lower_degree
lower_same d k p [] h = absurd (ground (arith, h))
lower_same d zero p (pos zero ∷ ns) h = absurd (ground (arith, h))
lower_same d zero p (pos (suc q) ∷ ns) h = ground (arith, h)
lower_same d zero p (negsuc q ∷ ns) h = absurd (ground (arith, h))
lower_same d (suc k) p (m ∷ ns) h = lower_same d k p ns h

freed_Below : (n d p : ℕ) (r : List ℕ) → d < n → r ≡ (if p == 0 then d ∷ [] else []) → Below n r
freed_Below n d zero r lt e = rw e (lt, tt)
freed_Below n d (suc p) r lt e = subst (Below n) (sym e) (ground arith)

occurs_freed :
    (j d p : ℕ) (r : List ℕ)
    → r ≡ (if p == 0 then d ∷ [] else [])
    → occurs j r ≡ (if d == j then one_if (p == 0) else 0)
unfolding occurs
occurs_freed j d p r e = ap (occurs j) e ∙ ground arith

-- The loop over the downstream nodes of a visited node takes one off the degree of each, as often as it
-- stands there, and queues those that come to 0.
pub release-Marked :
    (n : ℕ) (seen f base : ℕ → ℕ) (ds : List ℕ) (ns : List ℤ) (queue : List ℕ)
    → ((j : ℕ) → f j ≡ occurs j ds + base j)
    → Below n ds
    → Below n queue
    → Degrees n ns f
    → Marked n seen queue f
    → let r = release ds ns queue in Degrees n r.0 base × Marked n seen r.1 base × Below n r.1
unfolding release occurs
release-Marked n seen f base [] ns queue e b q g m =
    let same : (j : ℕ) → f j ≡ base j = λ j. omega (arith, e j) in
    (
      (λ j lt. g j lt ∙ ap (λ x. some (pos x)) (same j)),
      (λ j lt. m j lt ∙ ap (λ x. one_if (x == 0)) (same j)),
      q,
    )
release-Marked n seen f base (d ∷ ds) ns queue e b q g m =
    let r = lower_degree d d ns in
    let p = occurs d ds + base d in
    let at : f d ≡ suc p = ground (arith, e d) in
    let (now, freed) = lower_same d d p ns (g d b.0 ∙ ap (λ x. some (pos x)) at) in
    release-Marked n seen (λ j. occurs j ds + base j) base ds r.0 (queue ++ r.1) (λ j. refl) b.1
      (Below-append n queue r.1 q (freed_Below n d p r.1 b.0 freed))
      (λ j lt. elim (ℕ_discrete j d) [
        | yes h ↦ ap (get_elem? r.0) h ∙ now ∙ ap (λ x. some (pos (occurs x ds + base x))) (sym h)
        | no h ↦ lower_other d d j ns h ∙ g j lt ∙ ap (λ x. some (pos x)) (ground (arith, e j, h))
      ])
      (λ j lt. elim (ℕ_discrete j d) [
        | yes h ↦ ground (
          arith,
          h,
          at,
          m j lt,
          ap f h,
          ap (λ x. occurs x ds + base x) h,
          occurs-append j queue r.1,
          occurs_freed j d p r.1 freed,
        )
        | no h ↦
            ground (arith, h, m j lt, e j, occurs-append j queue r.1, occurs_freed j d p r.1 freed)
      ])
