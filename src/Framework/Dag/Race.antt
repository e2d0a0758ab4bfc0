-- ===== src/Framework/Dag/Race.antt =====
-- The submitting loop against the workers, in a pipeline with a dependency.
use mini_search_rec.Prelude.{false, ℕ, ◌<◌, ◌≡◌, refl, ap, List, [], ◌∷◌, arith, pos}
use mini_search_rec.Framework.Dag
use mini_search_rec.Framework.Dag.{
  Exec, Step, Reach, Returns, start_state, is_zero, set_pending, at_lock,
}
use mini_search_rec.Framework.Dag.Flat.{occurs}

module _ (total : ℕ) (deps : ℕ → ℕ) (downstream : ℕ → List ℕ) (wakes : ℕ) where
  -- Node 0 has been run, and node 1 submitted by it, before the submitting loop comes to node 1.
  abbrev overtaken : Exec
  overtaken = record {
    submitting = 1;
    chosen = false;
    pending = set_pending (λ i. pos (deps i)) 1 (pos 0);
    queue = 1 ∷ [];
    running = [];
    advancing = (0, []) ∷ [];
    releasing = [];
    started = 0 ∷ [];
    finished = [];
    completed = 0;
    waiter = at_lock;
    notifying = 0;
    wakes = wakes;
  }

  Reach-overtaken :
      1 < total
      → deps 0 ≡ 0
      → deps 1 ≡ 1
      → downstream 0 ≡ 1 ∷ []
      → Reach total deps downstream (start_state total deps downstream wakes) overtaken
  Reach-overtaken lt root one down =
      let first = ap (λ ds. (0, ds) ∷ []) down in
      Dag.next
        (Dag.next
          (Dag.next
            (Dag.next
              (Dag.next
                (Dag.next Dag.here
                  (Dag.read_root (omega (arith, lt)) refl (ground (arith, root)) refl))
                (Dag.submit_root refl refl))
              (Dag.start 0 [] refl refl))
            (Dag.process 0 [] [] refl refl))
          (Dag.count_down_last 0 1 [] [] [] first (ground (arith, one)) refl))
        (Dag.submit_next 0 1 [] [] [] refl (rw one refl))

  -- The loop submits node 1 again.
  abbrev again : Exec
  again = record overtaken { submitting = 2; queue = 1 ∷ 1 ∷ [] }

  Reach-again :
      1 < total
      → deps 0 ≡ 0
      → deps 1 ≡ 1
      → downstream 0 ≡ 1 ∷ []
      → Reach total deps downstream (start_state total deps downstream wakes) again
  Reach-again lt root one down =
      Dag.next (Dag.next (Reach-overtaken lt root one down) (Dag.read_root lt refl refl refl))
        (Dag.submit_root refl refl)

  -- In any pipeline of two nodes or more in which node 0 is a root, node 1 depends on node 0 alone
  -- and node 0 leads to node 1 alone, an execution can start node 1 twice: a worker completes node 0
  -- and submits node 1 before the submitting loop reads the pending count of node 1, finds 0, and
  -- submits it again.
  pub node_started_twice :
      1 < total
      → deps 0 ≡ 0
      → deps 1 ≡ 1
      → downstream 0 ≡ 1 ∷ []
      → (s : Exec) × Reach total deps downstream (start_state total deps downstream wakes) s
        × (occurs 1 s.started ≡ 2)
  unfolding occurs
  node_started_twice lt root one down = (
    _,
    Dag.next (Dag.next (Reach-again lt root one down) (Dag.start 1 (1 ∷ []) refl refl))
        (Dag.start 1 [] refl refl),
    refl,
  )

module _ (deps : ℕ → ℕ) (downstream : ℕ → List ℕ) (wakes : ℕ) where
  -- Node 1 has been run twice, and node 2 waits in the queue.
  abbrev run_twice : Exec
  run_twice = record (again 3 deps downstream wakes) {
    submitting = 3;
    queue = 2 ∷ [];
    advancing = (1, downstream 1) ∷ (1, downstream 1) ∷ (0, []) ∷ [];
    started = 1 ∷ 1 ∷ 0 ∷ [];
  }

  Reach-run_twice :
      deps 0 ≡ 0
      → deps 1 ≡ 1
      → deps 2 ≡ 0
      → downstream 0 ≡ 1 ∷ []
      → Reach 3 deps downstream (start_state 3 deps downstream wakes) run_twice
  Reach-run_twice root one other down =
      Dag.next
        (Dag.next
          (Dag.next
            (Dag.next
              (Dag.next
                (Dag.next (Reach-again 3 deps downstream wakes (omega arith) root one down)
                  (Dag.read_root (omega arith) refl (ground (arith, other)) refl))
                (Dag.submit_root refl refl))
              (Dag.start 1 (1 ∷ 2 ∷ []) refl refl))
            (Dag.start 1 (2 ∷ []) refl refl))
          (Dag.process 1 [] (1 ∷ []) refl refl))
        (Dag.process 1 [] [] refl refl)

  -- In any pipeline of three nodes in which nodes 0 and 2 are roots, node 1 depends on node 0 alone
  -- and leads nowhere and node 0 leads to node 1 alone, `Execute` can return without having started
  -- node 2: the second run of node 1 is counted as the third completion.
  pub node_never_started :
      deps 0 ≡ 0
      → deps 1 ≡ 1
      → deps 2 ≡ 0
      → downstream 0 ≡ 1 ∷ []
      → downstream 1 ≡ []
      → (s : Exec) × Reach 3 deps downstream (start_state 3 deps downstream wakes) s
        × Returns 3 deps downstream s
        × (occurs 2 s.started ≡ 0)
  unfolding occurs
  node_never_started root one other down leaf =
      let first = ap (λ ds. (1, ds) ∷ (1, downstream 1) ∷ (0, []) ∷ []) leaf in
      let second = ap (λ ds. (1, ds) ∷ (0, []) ∷ []) leaf in
      (
        _,
        Dag.next
            (Dag.next
              (Dag.next
                (Dag.next
                  (Dag.next (Reach-run_twice root one other down)
                    (Dag.complete 1 [] ((1, downstream 1) ∷ (0, []) ∷ []) first refl))
                  (Dag.complete 1 [] ((0, []) ∷ []) second refl))
                (Dag.complete 0 [] [] refl refl))
              (Dag.lock refl refl refl))
            (Dag.test_over refl refl refl),
        refl,
        refl,
      )
