-- ===== src/Framework/Dag/Links.antt =====
-- `BuildDag`: the downstream lists, the degrees and the roots are those of the dependencies.
use mini_search_rec.Prelude.{
  ℕ, zero, suc, ◌+◌, ◌≤◌, ◌<◌, ◌≡◌, refl, ap, ◌∙◌, Bool, true, if◌then◌else◌, ◌==◌, List, [], ◌∷◌,
  length, arith, none, some, find, All, Bytes, bytes_discrete,
}
use mini_search_rec.Framework.Dag.{DagNodeConfig, push_at, link_node, link_nodes, edges_of}
use mini_search_rec.Framework.Dag.Flat.{occurs, occurs-append}
use mini_search_rec.Framework.Dag.Visit.{one_if, Below, Below-append}

length-push_at : (k i : ℕ) (down : List (List ℕ)) → length (push_at k i down) ≡ length down
unfolding push_at
length-push_at k i [] = refl
length-push_at zero i (ds ∷ down) = refl
length-push_at (suc k) i (ds ∷ down) = ap suc (length-push_at k i down)

occurs-push_at :
    (a j k i : ℕ) (down : List (List ℕ))
    → k < length down
    → occurs j (edges_of a (push_at k i down))
      ≡ occurs j (edges_of a down) + (if k == a then one_if (i == j) else 0)
unfolding push_at occurs
occurs-push_at a j k i [] lt = absurd (omega (arith, lt))
occurs-push_at zero j zero i (ds ∷ down) lt = ground (arith, occurs-append j ds (i ∷ []))
occurs-push_at (suc a) j zero i (ds ∷ down) lt = ground arith
occurs-push_at zero j (suc k) i (ds ∷ down) lt = ground arith
occurs-push_at (suc a) j (suc k) i (ds ∷ down) lt =
    ground (arith, occurs-push_at a j k i down (omega (arith, lt)))

-- Every downstream list names nodes only.
abbrev pub Inside : ℕ → List (List ℕ) → Type 0
Inside n down = (a : ℕ) → Below n (edges_of a down)

push_at-Inside :
    (n k i : ℕ) (down : List (List ℕ)) → i < n → Inside n down → Inside n (push_at k i down)
unfolding push_at
push_at-Inside n k i [] lt h a = h a
push_at-Inside n zero i (ds ∷ down) lt h zero = Below-append n ds (i ∷ []) (h zero) (lt, tt)
push_at-Inside n zero i (ds ∷ down) lt h (suc a) = h (suc a)
push_at-Inside n (suc k) i (ds ∷ down) lt h zero = h zero
push_at-Inside n (suc k) i (ds ∷ down) lt h (suc a) =
    push_at-Inside n k i down lt (λ b. h (suc b)) a

-- How many of the names stand for node `a`.
unfoldable pub resolved : List (Bytes × ℕ) → ℕ → List Bytes → ℕ
resolved names a [] = 0
resolved names a (d ∷ ds) = elim (find bytes_discrete d names) [
  | none ↦ resolved names a ds
  | some k ↦ one_if (k == a) + resolved names a ds
]

abbrev pub Known : List (Bytes × ℕ) → List Bytes → Type 0
Known names ds = All (λ d. (k : ℕ) × (find bytes_discrete d names ≡ some k)) ds

-- The names stand for nodes.
abbrev pub Named : ℕ → List (Bytes × ℕ) → Type 0
Named n names = (d : Bytes) (k : ℕ) → find bytes_discrete d names ≡ some k → k < n

-- What a loop that links has done: no unknown name, and the lists have the edges that are wanted besides.
pub record Linked (n : ℕ) (down : List (List ℕ)) (want : ℕ → ℕ → ℕ) (r : Bool × List (List ℕ))
    : Type 0 where
  pub known : r.0 ≡ true
  pub size : length r.1 ≡ n
  pub inside : Inside n r.1
  pub edges : (a j : ℕ) → occurs j (edges_of a r.1) ≡ occurs j (edges_of a down) + want a j

link_node-Linked :
    (n i : ℕ) (names : List (Bytes × ℕ)) (ds : List Bytes) (down : List (List ℕ))
    → Named n names
    → i < n
    → length down ≡ n
    → Inside n down
    → Known names ds
    → Linked n down (λ a j. if i == j then resolved names a ds else 0) (link_node names i ds down)
unfolding link_node resolved
link_node-Linked n i names [] down m lt e s k = record {
  known = refl;
  size = e;
  inside = s;
  edges = λ a j. ground arith;
}
link_node-Linked n i names (d ∷ ds) down m lt e s ((k, f), ks) =
    let kn : k < length down = omega (arith, m d k f, e) in
    let l =
      link_node-Linked n i names ds (push_at k i down) m lt (length-push_at k i down ∙ e)
        (push_at-Inside n k i down lt s) ks in
    rw (f, link_node, resolved)
      (record {
        known = l.known;
        size = l.size;
        inside = l.inside;
        edges = λ a j. ground (arith, l.edges a j, occurs-push_at a j k i down kn);
      })

-- The edges to the nodes from `i` on.
unfoldable pub wanted : List (Bytes × ℕ) → ℕ → List DagNodeConfig → ℕ → ℕ → ℕ
wanted names i [] a j = 0
wanted names i (c ∷ cs) a j =
    (if i == j then resolved names a c.depends_on else 0) + wanted names (suc i) cs a j

pub link_nodes-Linked :
    (n i : ℕ) (names : List (Bytes × ℕ)) (cs : List DagNodeConfig) (down : List (List ℕ))
    → Named n names
    → i + length cs ≤ n
    → length down ≡ n
    → Inside n down
    → All (λ c. Known names c.depends_on) cs
    → Linked n down (wanted names i cs) (link_nodes names i cs down)
unfolding link_nodes wanted
link_nodes-Linked n i names [] down m lt e s k = record {
  known = refl;
  size = e;
  inside = s;
  edges = λ a j. omega arith;
}
link_nodes-Linked n i names (c ∷ cs) down m lt e s k =
    let r = link_node names i c.depends_on down in
    let l = link_node-Linked n i names c.depends_on down m (omega (arith, lt)) e s k.0 in
    let t = link_nodes-Linked n (suc i) names cs r.1 m (omega (arith, lt)) l.size l.inside k.1 in
    rw l.known (record {
      known = t.known;
      size = t.size;
      inside = t.inside;
      edges = λ a j. omega (arith, t.edges a j, l.edges a j);
    })
