-- ===== src/Framework/Dag/Kahn.antt =====
-- `BuildDag`: its loop ends, and an unknown dependency is refused.
use mini_search_rec.Prelude.{
  ℕ, zero, suc, ◌+◌, ◌≤◌, ◌<◌, ◌≡◌, ◌≢◌, refl, ap, ◌∙◌, Bool, false, List, [], ◌∷◌, ◌++◌, length,
  length-append, arith, none, some, Option-cases, find, insert, find-insert, ℤ, pos, negsuc, Bytes,
  bytes_discrete, inl, inr, ◌==◌, Bool-cases,
}
use mini_search_rec.Framework.Dag.{
  DagNodeConfig, index_names, link_node, link_nodes, no_edges, in_degrees, roots_from, lower_degree,
  release, edges_of, visit, build_dag, push_at,
}

-- How many nodes still wait for a dependency.
abbrev pub waiting : List ℤ → ℕ
waiting [] = 0
waiting (pos zero ∷ ds) = waiting ds
waiting (pos (suc n) ∷ ds) = suc (waiting ds)
waiting (negsuc n ∷ ds) = waiting ds

waiting-lower_degree :
    (d k : ℕ) (ns : List ℤ)
    → waiting (lower_degree d k ns).0 + length (lower_degree d k ns).1 ≡ waiting ns
unfolding lower_degree
waiting-lower_degree d k [] = refl
waiting-lower_degree d zero (pos zero ∷ ns) = omega arith
waiting-lower_degree d zero (pos (suc zero) ∷ ns) = omega arith
waiting-lower_degree d zero (pos (suc (suc n)) ∷ ns) = ground arith
waiting-lower_degree d zero (negsuc n ∷ ns) = omega arith
waiting-lower_degree d (suc k) (pos zero ∷ ns) = waiting-lower_degree d k ns
waiting-lower_degree d (suc k) (pos (suc n) ∷ ns) = omega (arith, waiting-lower_degree d k ns)
waiting-lower_degree d (suc k) (negsuc n ∷ ns) = waiting-lower_degree d k ns

waiting-release :
    (ds : List ℕ) (ns : List ℤ) (queue : List ℕ)
    → waiting (release ds ns queue).0 + length (release ds ns queue).1 ≡ waiting ns + length queue
unfolding release
waiting-release [] ns queue = refl
waiting-release (d ∷ ds) ns queue =
    let r = lower_degree d d ns in
    omega (
      arith,
      waiting-release ds r.0 (queue ++ r.1),
      waiting-lower_degree d d ns,
      length-append queue r.1,
    )

-- Every round takes one node off what waits and what is queued, so the loop ends.
pub visit_ends :
    (fuel : ℕ) (down : List (List ℕ)) (ns : List ℤ) (queue : List ℕ) (visited : ℕ)
    → waiting ns + length queue < fuel
    → (n : ℕ) × (visit fuel down ns queue visited ≡ some n)
      × (n ≤ visited + waiting ns + length queue)
unfolding visit
visit_ends zero down ns queue visited lt = absurd (omega (arith, lt))
visit_ends (suc fuel) down ns [] visited lt = (visited, refl, omega arith)
visit_ends (suc fuel) down ns (i ∷ queue) visited lt =
    let r = release (edges_of i down) ns queue in
    let same = waiting-release (edges_of i down) ns queue in
    let (n, e, le) = visit_ends fuel down r.0 r.1 (suc visited) (omega (arith, lt, same)) in
    (n, e, omega (arith, le, same))

pub waiting-roots_from : (i : ℕ) (ns : List ℤ) → waiting ns + length (roots_from i ns) ≤ length ns
unfolding roots_from
waiting-roots_from i [] = omega arith
waiting-roots_from i (pos zero ∷ ns) = omega (arith, waiting-roots_from (suc i) ns)
waiting-roots_from i (pos (suc n) ∷ ns) = omega (arith, waiting-roots_from (suc i) ns)
waiting-roots_from i (negsuc n ∷ ns) = omega (arith, waiting-roots_from (suc i) ns)

pub length-in_degrees :
    (configs : List DagNodeConfig) → length (in_degrees configs) ≡ length configs
unfolding in_degrees
length-in_degrees [] = refl
length-in_degrees (c ∷ cs) = ap suc (length-in_degrees cs)

-- `BuildDag` returns on every list of node configurations, cyclic ones included: the loop over its
-- queue goes round at most once for each node.
pub build_dag-returns :
    (fuel : ℕ) (configs : List DagNodeConfig)
    → length configs < fuel
    → (r : Bool × List (List ℕ)) × (build_dag fuel configs ≡ some r)
unfolding build_dag
build_dag-returns fuel configs lt =
    let r = link_nodes (index_names 0 configs []) 0 configs (no_edges configs) in
    let ns = in_degrees configs in
    let small = waiting-roots_from 0 ns in
    let (n, e, _) =
      visit_ends fuel r.1 ns (roots_from 0 ns) 0
        (omega (arith, small, length-in_degrees configs, lt)) in
    elim (Bool-cases r.0) [
      | inl linked ↦ ((n == length configs, r.1), rw (linked, e, build_dag) refl)
      | inr unlinked ↦ ((false, r.1), rw (unlinked, build_dag) refl)
    ]

-- No node has the name.
abbrev pub Unnamed : Bytes → List DagNodeConfig → Type 0
Unnamed name [] = Unit {0}
Unnamed name (c ∷ cs) = (c.name ≢ name) × Unnamed name cs

find-index_names :
    (i : ℕ) (name : Bytes) (cs : List DagNodeConfig) (m : List (Bytes × ℕ))
    → Unnamed name cs
    → find bytes_discrete name m ≡ none
    → find bytes_discrete name (index_names i cs m) ≡ none
unfolding index_names
find-index_names i name [] m u h = h
find-index_names i name (c ∷ cs) m u h =
    find-index_names (suc i) name cs (insert bytes_discrete c.name i m) u.1
      (ground (arith, u.0, find-insert bytes_discrete c.name name i m))

link_node_unknown :
    (names : List (Bytes × ℕ)) (i : ℕ) (before after : List Bytes) (name : Bytes)
    (down : List (List ℕ))
    → find bytes_discrete name names ≡ none
    → (link_node names i (before ++ (name ∷ after)) down).0 ≡ false
unfolding link_node
link_node_unknown names i [] after name down h = rw (h, link_node) refl
link_node_unknown names i (dep ∷ before) after name down h =
    elim (Option-cases (find bytes_discrete dep names)) [
      | inl e ↦ rw (e, link_node) refl
      | inr (k, e) ↦
          rw (e, link_node) (link_node_unknown names i before after name (push_at k i down) h)
    ]

link_nodes_unknown :
    (names : List (Bytes × ℕ)) (i : ℕ) (before after : List DagNodeConfig) (c : DagNodeConfig)
    (down : List (List ℕ))
    → ((down' : List (List ℕ)) (j : ℕ) → (link_node names j c.depends_on down').0 ≡ false)
    → (link_nodes names i (before ++ (c ∷ after)) down).0 ≡ false
unfolding link_nodes
link_nodes_unknown names i [] after c down h = ground (arith, h down i)
link_nodes_unknown names i (b ∷ before) after c down h =
    let r = link_node names i b.depends_on down in
    ground (arith, link_nodes_unknown names (suc i) before after c r.1 h)

-- If some node, wherever it stands, depends on a name that no node of the pipeline has, `BuildDag`
-- returns false, however little fuel it is given.
pub build_dag-unknown :
    (fuel : ℕ) (before after : List DagNodeConfig) (c : DagNodeConfig)
    (deps_before deps_after : List Bytes) (name : Bytes)
    → c.depends_on ≡ deps_before ++ (name ∷ deps_after)
    → Unnamed name (before ++ (c ∷ after))
    → (down : List (List ℕ)) × (build_dag fuel (before ++ (c ∷ after)) ≡ some (false, down))
unfolding build_dag find
build_dag-unknown fuel before after c deps_before deps_after name e u =
    let configs : List DagNodeConfig = before ++ (c ∷ after) in
    let names = index_names 0 configs [] in
    let absent = find-index_names 0 name configs [] u refl in
    let h = link_nodes_unknown names 0 before after c (no_edges configs) (λ down j.
      ap (λ deps. (link_node names j deps down).0) e
      ∙ link_node_unknown names j deps_before deps_after name down absent) in
    ((link_nodes names 0 configs (no_edges configs)).1, rw (h, build_dag) refl)
