-- ===== src/Framework/Dag/Tests.antt =====
-- `DagPipeline` on small pipelines.
use mini_search_rec.Prelude.{
  ℕ, ◌<◌, ◌≡◌, refl, Bool, true, false, ◌↔◌, if◌then◌else◌, ◌==◌, List, [], ◌∷◌, arith, some, pos,
  find, insert, bytes_discrete, ℕ_discrete,
}
use mini_search_rec.Framework.Dag
use mini_search_rec.Framework.Dag.{
  DagNodeConfig, Exec, Step, Reach, Returns, start_state, deciding, returned, build_dag, link_nodes,
  link_node, index_names, no_edges, push_at, in_degrees, roots_from, visit, release, lower_degree,
}
use mini_search_rec.Framework.Dag.Flat.{occurs, flat_exactly_once}
use mini_search_rec.Framework.Dag.Progress.{flat_finishes, flat_terminates, work_left}
use mini_search_rec.Framework.Dag.Race.{node_never_started}
use mini_search_rec.Framework.Dag.Cycles.{HasOrder, AllKnown, build_dag-HasOrder}
use mini_search_rec.Framework.Dag.Kahn.{build_dag-returns, build_dag-unknown}

abbrev node_a : DagNodeConfig
node_a = record { name = b'a' ∷ []; depends_on = (b'b' ∷ []) ∷ [] }

abbrev node_b : DagNodeConfig
node_b = record { name = b'b' ∷ []; depends_on = (b'a' ∷ []) ∷ [] }

-- A cycle of two nodes.
build_dag-returns_example :
    (r : Bool × List (List ℕ)) × (build_dag 3 (node_a ∷ node_b ∷ []) ≡ some r)
build_dag-returns_example = build_dag-returns 3 (node_a ∷ node_b ∷ []) (omega arith)

-- The same as a program: it is refused.
build_dag_cycle : build_dag 3 (node_a ∷ node_b ∷ []) ≡ some (false, (1 ∷ []) ∷ (0 ∷ []) ∷ [])
unfolding build_dag link_nodes link_node index_names no_edges push_at in_degrees roots_from visit
    release lower_degree find insert bytes_discrete ℕ_discrete
build_dag_cycle = refl

pair-AllKnown : AllKnown (node_a ∷ node_b ∷ [])
unfolding index_names find insert bytes_discrete ℕ_discrete
pair-AllKnown = (((1, refl), tt), (((0, refl), tt), tt))

-- The cycle has no order, as its refusal says.
build_dag-HasOrder_example :
    (r : Bool) × (down : List (List ℕ)) × (build_dag 3 (node_a ∷ node_b ∷ []) ≡ some (r, down))
    × ((r ≡ true) ↔ HasOrder (node_a ∷ node_b ∷ []))
build_dag-HasOrder_example = build_dag-HasOrder 3 (node_a ∷ node_b ∷ []) (omega arith) pair-AllKnown

build_dag-unknown_example :
    (down : List (List ℕ)) × (build_dag 2 (node_a ∷ []) ≡ some (false, down))
build_dag-unknown_example =
    build_dag-unknown 2 [] [] node_a [] [] (b'b' ∷ []) refl ((λ h. absurd (ground arith)), tt)

abbrev no_deps : ℕ → ℕ
no_deps i = 0

abbrev no_downstream : ℕ → List ℕ
no_downstream i = []

-- One node has been run, and its worker is about to count it, while the waiting thread has seen that
-- it has not counted yet.
abbrev last : Exec
last = record {
  submitting = 1;
  chosen = false;
  pending = λ i. pos 0;
  queue = [];
  running = [];
  advancing = (0, []) ∷ [];
  releasing = [];
  started = 0 ∷ [];
  finished = [];
  completed = 0;
  waiter = deciding;
  notifying = 0;
  wakes = 0;
}

abbrev over : Exec
over = record last { advancing = []; finished = 0 ∷ []; completed = 1; notifying = 1 }

Reach-last : Reach 1 (λ i. 0) (λ i. []) (start_state 1 (λ i. 0) (λ i. []) 0) last
Reach-last =
    Dag.next
      (Dag.next
        (Dag.next
          (Dag.next
            (Dag.next (Dag.next Dag.here (Dag.read_root (omega arith) refl refl refl))
              (Dag.submit_root refl refl))
            (Dag.start 0 [] refl refl))
          (Dag.process 0 [] [] refl refl))
        (Dag.lock refl refl refl))
      (Dag.test_more refl (λ h. absurd (ground (arith, h))) refl)

count_last : Step 1 (λ i. 0) (λ i. []) last over
count_last = Dag.complete 0 [] [] refl refl

abbrev ended : Exec
ended = record over { waiter = returned; notifying = 0 }

-- The notification waits for the mutex, so that it finds the waiting thread asleep.
Reach-ended : Reach 1 (λ i. 0) (λ i. []) (start_state 1 (λ i. 0) (λ i. []) 0) ended
Reach-ended =
    Dag.next
      (Dag.next
        (Dag.next (Dag.next (Dag.next Reach-last count_last) (Dag.sleep refl refl))
          (Dag.notify 0 refl refl refl))
        (Dag.lock refl refl refl))
      (Dag.test_over refl refl refl)

flat_exactly_once_example : (occurs 0 ended.started ≡ 1) × (occurs 0 ended.finished ≡ 1)
flat_exactly_once_example = flat_exactly_once 1 0 ended Reach-ended refl 0 (omega arith)

flat_finishes_example :
    (t : Exec) × Reach 1 (λ i. 0) (λ i. []) last t × Returns 1 (λ i. 0) (λ i. []) t
flat_finishes_example = flat_finishes 1 0 last Reach-last

flat_terminates_example : work_left 1 over < work_left 1 last
flat_terminates_example = flat_terminates 1 0 last over Reach-last count_last

-- Nodes 0 and 2 are roots, and node 1 depends on node 0.
abbrev deps : ℕ → ℕ
deps i = if i == 1 then 1 else 0

abbrev downstream : ℕ → List ℕ
downstream i = if i == 0 then 1 ∷ [] else []

node_never_started_example :
    (s : Exec) × Reach 3 deps downstream (start_state 3 deps downstream 0) s
    × Returns 3 deps downstream s
    × (occurs 2 s.started ≡ 0)
node_never_started_example = node_never_started deps downstream 0 refl refl refl refl refl
