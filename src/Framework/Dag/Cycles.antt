-- ===== src/Framework/Dag/Cycles.antt =====
-- `BuildDag` as a whole: it accepts the pipelines whose dependencies have no cycle.
use mini_search_rec.Prelude.{
  ℕ, zero, suc, ◌+◌, ◌≤◌, ◌<◌, ◌≡◌, ◌↔◌, refl, sym, ap, ◌∙◌, Bool, true, ◌==◌, ltb, List, [], ◌∷◌,
  length, get_elem?, arith, some, find, insert, find-insert, ℤ, pos, negsuc, All, subst, Bytes,
  bytes_discrete,
}
use mini_search_rec.Framework.Dag.{
  DagNodeConfig, index_names, link_nodes, no_edges, in_degrees, roots_from, edges_of, build_dag,
}
use mini_search_rec.Framework.Dag.Flat.{occurs}
use mini_search_rec.Framework.Dag.Kahn.{visit_ends, waiting-roots_from, length-in_degrees}
use mini_search_rec.Framework.Dag.Visit.{one_if, Below, Degrees, Marked}
use mini_search_rec.Framework.Dag.Order.{pending, Ordered, visit_order}
use mini_search_rec.Framework.Dag.Acyclic.{IsAcyclic, full-IsAcyclic, IsAcyclic-full}
use mini_search_rec.Framework.Dag.Links.{resolved, Known, Named, Linked, wanted, link_nodes-Linked}

index_names-Named :
    (n i : ℕ) (cs : List DagNodeConfig) (m : List (Bytes × ℕ))
    → i + length cs ≤ n
    → Named n m
    → Named n (index_names i cs m)
unfolding index_names
index_names-Named n i [] m lt h = h
index_names-Named n i (c ∷ cs) m lt h =
    index_names-Named n (suc i) cs (insert bytes_discrete c.name i m) (omega (arith, lt))
      (λ d k e. ground (arith, e, h d k, lt, find-insert bytes_discrete c.name d i m))

-- The dependencies of node `j`.
unfoldable pub deps_at : ℕ → List DagNodeConfig → List Bytes
deps_at j [] = []
deps_at zero (c ∷ cs) = c.depends_on
deps_at (suc j) (c ∷ cs) = deps_at j cs

wanted_low :
    (names : List (Bytes × ℕ)) (i : ℕ) (cs : List DagNodeConfig) (a j : ℕ)
    → j < i
    → wanted names i cs a j ≡ 0
unfolding wanted
wanted_low names i [] a j lt = refl
wanted_low names i (c ∷ cs) a j lt =
    ground (arith, lt, wanted_low names (suc i) cs a j (omega (arith, lt)))

plus_zero : (j : ℕ) → 0 + j ≡ j
plus_zero j = omega arith

plus_suc : (i j : ℕ) → i + suc j ≡ suc i + j
plus_suc i j = omega arith

wanted-deps_at :
    (names : List (Bytes × ℕ)) (i : ℕ) (cs : List DagNodeConfig) (a j : ℕ)
    → wanted names i cs a (i + j) ≡ resolved names a (deps_at j cs)
unfolding wanted deps_at resolved
wanted-deps_at names i [] a j = refl
wanted-deps_at names i (c ∷ cs) a zero =
    ground (arith, wanted_low names (suc i) cs a (i + 0) (omega arith))
wanted-deps_at names i (c ∷ cs) a (suc j) =
    ground
      (arith, wanted-deps_at names (suc i) cs a j, ap (wanted names (suc i) cs a) (plus_suc i j))

get-in_degrees :
    (cs : List DagNodeConfig) (j : ℕ)
    → j < length cs
    → get_elem? (in_degrees cs) j ≡ some (pos (length (deps_at j cs)))
unfolding in_degrees deps_at
get-in_degrees [] j lt = absurd (omega (arith, lt))
get-in_degrees (c ∷ cs) zero lt = refl
get-in_degrees (c ∷ cs) (suc j) lt = get-in_degrees cs j (omega (arith, lt))

Known-deps_at :
    (names : List (Bytes × ℕ)) (cs : List DagNodeConfig) (j : ℕ)
    → All (λ c. Known names c.depends_on) cs
    → Known names (deps_at j cs)
unfolding deps_at
Known-deps_at names [] j k = tt
Known-deps_at names (c ∷ cs) zero k = k.0
Known-deps_at names (c ∷ cs) (suc j) k = Known-deps_at names cs j k.1

-- `g 0 + … + g (n - 1)`
sum_below : ℕ → (ℕ → ℕ) → ℕ
sum_below zero g = 0
sum_below (suc n) g = sum_below n g + g n

sum_one :
    (n k : ℕ) (g : ℕ → ℕ)
    → sum_below n (λ a. one_if (k == a) + g a) ≡ one_if (ltb k n) + sum_below n g
unfolding sum_below
sum_one zero k g = ground arith
sum_one (suc n) k g = ground (arith, sum_one n k g)

sum_zero : (n : ℕ) → sum_below n (λ a. 0) ≡ 0
unfolding sum_below
sum_zero zero = refl
sum_zero (suc n) = omega (arith, sum_zero n)

sum-resolved :
    (n : ℕ) (names : List (Bytes × ℕ)) (ds : List Bytes)
    → Named n names
    → Known names ds
    → sum_below n (λ a. resolved names a ds) ≡ length ds
unfolding resolved
sum-resolved n names [] m k = sum_zero n
sum-resolved n names (d ∷ ds) m ((k, e), ks) =
    rw (e, resolved)
      (sum_one n k (λ a. resolved names a ds)
        ∙ ground (arith, m d k e, sum-resolved n names ds m ks))

pending-sum :
    (down : List (List ℕ)) (n j : ℕ) (g : ℕ → ℕ)
    → ((a : ℕ) → occurs j (edges_of a down) ≡ g a)
    → pending down n [] j ≡ sum_below n g
unfolding pending sum_below occurs
pending-sum down zero j g h = refl
pending-sum down (suc n) j g h = omega (arith, pending-sum down n j g h, h n)

roots_from_low : (i j : ℕ) (ns : List ℤ) → j < i → occurs j (roots_from i ns) ≡ 0
unfolding roots_from occurs
roots_from_low i j [] lt = refl
roots_from_low i j (pos zero ∷ ns) lt =
    ground (arith, lt, roots_from_low (suc i) j ns (omega (arith, lt)))
roots_from_low i j (pos (suc m) ∷ ns) lt = roots_from_low (suc i) j ns (omega (arith, lt))
roots_from_low i j (negsuc m ∷ ns) lt = roots_from_low (suc i) j ns (omega (arith, lt))

occurs-roots_from :
    (i j d : ℕ) (ns : List ℤ)
    → get_elem? ns j ≡ some (pos d)
    → occurs (i + j) (roots_from i ns) ≡ one_if (d == 0)
unfolding roots_from occurs
occurs-roots_from i j d [] h = absurd (ground (arith, h))
occurs-roots_from i zero d (pos zero ∷ ns) h =
    ground (arith, h, roots_from_low (suc i) (i + 0) ns (omega arith))
occurs-roots_from i zero d (pos (suc m) ∷ ns) h =
    ground (arith, h, roots_from_low (suc i) (i + 0) ns (omega arith))
occurs-roots_from i zero d (negsuc m ∷ ns) h = absurd (ground (arith, h))
occurs-roots_from i (suc j) d (pos zero ∷ ns) h = ground (
  arith,
  ap (λ x. occurs x (roots_from (suc i) ns)) (plus_suc i j),
  occurs-roots_from (suc i) j d ns h,
)
occurs-roots_from i (suc j) d (pos (suc m) ∷ ns) h =
    ap (λ x. occurs x (roots_from (suc i) ns)) (plus_suc i j) ∙ occurs-roots_from (suc i) j d ns h
occurs-roots_from i (suc j) d (negsuc m ∷ ns) h =
    ap (λ x. occurs x (roots_from (suc i) ns)) (plus_suc i j) ∙ occurs-roots_from (suc i) j d ns h

roots_from-Below : (n i : ℕ) (ns : List ℤ) → i + length ns ≤ n → Below n (roots_from i ns)
unfolding roots_from
roots_from-Below n i [] le = tt
roots_from-Below n i (pos zero ∷ ns) le =
    (omega (arith, le), roots_from-Below n (suc i) ns (omega (arith, le)))
roots_from-Below n i (pos (suc m) ∷ ns) le = roots_from-Below n (suc i) ns (omega (arith, le))
roots_from-Below n i (negsuc m ∷ ns) le = roots_from-Below n (suc i) ns (omega (arith, le))

no_edges_none : (cs : List DagNodeConfig) (a : ℕ) → edges_of a (no_edges cs) ≡ []
unfolding no_edges
no_edges_none [] a = refl
no_edges_none (c ∷ cs) zero = refl
no_edges_none (c ∷ cs) (suc a) = no_edges_none cs a

length-no_edges : (cs : List DagNodeConfig) → length (no_edges cs) ≡ length cs
unfolding no_edges
length-no_edges [] = refl
length-no_edges (c ∷ cs) = ap suc (length-no_edges cs)

-- The names of the nodes, as `BuildDag` collects them.
abbrev pub names_of : List DagNodeConfig → List (Bytes × ℕ)
names_of configs = index_names 0 configs []

-- The nodes can be numbered so that each has a higher number than the nodes that it depends on.
pub record HasOrder (configs : List DagNodeConfig) : Type 0 where
  pub rank : ℕ → ℕ
  pub rises :
      (i j : ℕ)
      → i < length configs
      → j < length configs
      → 0 < resolved (names_of configs) i (deps_at j configs)
      → rank i < rank j

-- Every dependency is the name of a node.
abbrev pub AllKnown : List DagNodeConfig → Type 0
AllKnown configs = All (λ c. Known (names_of configs) c.depends_on) configs

module _ (configs : List DagNodeConfig) (known : AllKnown configs) where
  abbrev linked : Bool × List (List ℕ)
  linked = link_nodes (names_of configs) 0 configs (no_edges configs)

  named : Named (length configs) (names_of configs)
  unfolding find
  named =
      index_names-Named (length configs) 0 configs [] (omega arith)
        (λ d k e. absurd (ground (arith, e)))

  all_linked :
      Linked (length configs) (no_edges configs) (wanted (names_of configs) 0 configs) linked
  all_linked =
      link_nodes-Linked (length configs) 0 (names_of configs) configs (no_edges configs) named
        (omega arith) (length-no_edges configs)
        (λ a. subst (Below (length configs)) (sym (no_edges_none configs a)) tt) known

  edges :
      (a j : ℕ) → occurs j (edges_of a linked.1) ≡ resolved (names_of configs) a (deps_at j configs)
  unfolding occurs
  edges a j = ground (
    arith,
    all_linked.edges a j,
    ap (occurs j) (no_edges_none configs a),
    ap (wanted (names_of configs) 0 configs a) (plus_zero j),
    wanted-deps_at (names_of configs) 0 configs a j,
  )

  degree : (j : ℕ) → pending linked.1 (length configs) [] j ≡ length (deps_at j configs)
  degree j =
      pending-sum linked.1 (length configs) j
        (λ a. resolved (names_of configs) a (deps_at j configs)) (λ a. edges a j)
      ∙ sum-resolved (length configs) (names_of configs) (deps_at j configs) named
          (Known-deps_at (names_of configs) configs j known)

  accepts : IsAcyclic linked.1 (length configs) ↔ HasOrder configs
  accepts = (
    (λ a. record {
      rank = a.rank;
      rises = λ i j p q h. a.rises i j p q (subst (λ x. 0 < x) (sym (edges i j)) h);
    }),
    (λ a. record {
      rank = a.rank;
      rises = λ i j p q h. a.rises i j p q (subst (λ x. 0 < x) (edges i j) h);
    }),
  )

-- `BuildDag` on nodes all of whose dependencies are known returns true exactly if the nodes can be
-- ordered so that each comes after those that it depends on, that is, if there is no cycle.
pub build_dag-HasOrder :
    (fuel : ℕ) (configs : List DagNodeConfig)
    → length configs < fuel
    → AllKnown configs
    → (r : Bool) × (down : List (List ℕ)) × (build_dag fuel configs ≡ some (r, down))
      × ((r ≡ true) ↔ HasOrder configs)
unfolding build_dag occurs Ordered
build_dag-HasOrder fuel configs lt known =
    let n = length configs in
    let l = all_linked configs known in
    let down = (linked configs known).1 in
    let ns = in_degrees configs in
    let roots = roots_from 0 ns in
    let small = waiting-roots_from 0 ns in
    let (m, e, _) =
      visit_ends fuel down ns roots 0 (omega (arith, small, length-in_degrees configs, lt)) in
    let degrees : Degrees n ns (pending down n []) =
      λ j q. get-in_degrees configs j q ∙ ap (λ x. some (pos x)) (sym (degree configs known j)) in
    let marked : Marked n (λ j. occurs j []) roots (pending down n []) = λ j q.
      let now =
        occurs-roots_from 0 j (length (deps_at j configs)) ns (get-in_degrees configs j q) in
      ap (λ x. 0 + occurs x roots) (sym (plus_zero j))
      ∙ plus_zero (occurs (0 + j) roots)
      ∙ now
      ∙ ap (λ x. one_if (x == 0)) (sym (degree configs known j)) in
    let (final, size, v) =
      visit_order fuel n m down ns roots [] l.inside degrees marked
        (roots_from-Below n 0 ns (omega (arith, length-in_degrees configs))) tt tt e in
    (
      m == n,
      down,
      rw (l.known, e, build_dag) refl,
      (
        (λ t. (accepts configs known).0 (full-IsAcyclic down n final v (ground (arith, t, size)))),
        (λ a. ground (arith, size, IsAcyclic-full down n final v ((accepts configs known).1 a))),
      ),
    )
