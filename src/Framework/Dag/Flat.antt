-- ===== src/Framework/Dag/Flat.antt =====
-- Pipelines in which no node depends on another, as all those under config/biz are.
use mini_search_rec.Prelude.{
  ℕ, suc, ◌+◌, ◌≤◌, ◌<◌, ◌≡◌, refl, sym, ap, ◌∙◌, true, if◌then◌else◌, ltb, ◌==◌, List, [], ◌∷◌,
  ◌++◌, length, length-append, arith, lt→ltb, pos, subst,
}
use mini_search_rec.Framework.Dag
use mini_search_rec.Framework.Dag.Waiting.{Waits, Waits-submit, Waits-complete, Waits-notify}
use mini_search_rec.Framework.Dag.{
  Exec, Step, Reach, Returns, start_state, is_zero, is_one, decrement, Waiter, at_lock, holding,
  deciding, asleep, returned, wake, mutex_free,
}

-- How often a node stands in a list.
unfoldable pub occurs : ℕ → List ℕ → ℕ
occurs j [] = 0
occurs j (i ∷ is) = let rest = occurs j is in if i == j then suc rest else rest

-- The nodes of tasks that walk their downstream lists.
abbrev pub nodes : List (ℕ × List ℕ) → List ℕ
nodes [] = []
nodes ((i, ds) ∷ l) = i ∷ nodes l

abbrev pub Idle : List (ℕ × List ℕ) → Type 0
Idle [] = Unit {0}
Idle ((i, ds) ∷ l) = (ds ≡ []) × Idle l

pub occurs-append : (j : ℕ) (xs ys : List ℕ) → occurs j (xs ++ ys) ≡ occurs j xs + occurs j ys
unfolding occurs
occurs-append j [] ys = omega arith
occurs-append j (x ∷ xs) ys = ground (arith, occurs-append j xs ys)

nodes-append : (xs ys : List (ℕ × List ℕ)) → nodes (xs ++ ys) ≡ nodes xs ++ nodes ys
nodes-append [] ys = refl
nodes-append ((i, ds) ∷ xs) ys = ap (◌∷◌ i) (nodes-append xs ys)

pub Idle-append : (xs ys : List (ℕ × List ℕ)) → Idle (xs ++ ys) → Idle xs × Idle ys
Idle-append [] ys h = (tt, h)
Idle-append ((i, ds) ∷ xs) ys h = let (a, b) = Idle-append xs ys h.1 in ((h.0, a), b)

Idle-join : (xs ys : List (ℕ × List ℕ)) → Idle xs → Idle ys → Idle (xs ++ ys)
Idle-join [] ys h k = k
Idle-join ((i, ds) ∷ xs) ys h k = (h.0, Idle-join xs ys h.1 k)

pub cons_nil : {A : Type 0} {x : A} {xs : List A} → ¬ ((x ∷ xs) ≡ [])
cons_nil h = absurd (ground (arith, ap length h))

pub append-cons_nil : {A : Type 0} (xs : List A) (x : A) (ys : List A) → ¬ (xs ++ (x ∷ ys) ≡ [])
append-cons_nil [] x ys h = cons_nil h
append-cons_nil (z ∷ xs) x ys h = cons_nil h

occurs-nodes :
    (j : ℕ) (xs ys : List (ℕ × List ℕ))
    → occurs j (nodes (xs ++ ys)) ≡ occurs j (nodes xs) + occurs j (nodes ys)
occurs-nodes j xs ys = rw (nodes-append xs ys) (occurs-append j (nodes xs) (nodes ys))

length-nodes :
    (xs ys : List (ℕ × List ℕ)) → length (nodes (xs ++ ys)) ≡ length (nodes xs) + length (nodes ys)
length-nodes xs ys = rw (nodes-append xs ys) (length-append (nodes xs) (nodes ys))

-- Every node whose turn of the submitting loop has come is in one place: the queue, a worker, or done.
pub record Inv (total : ℕ) (s : Exec) : Type 0 where
  pub free : (j : ℕ) → s.pending j ≡ pos 0
  pub idle : Idle s.advancing
  pub bound : s.submitting ≤ total
  pub placed :
      (j : ℕ)
      → occurs j s.queue + occurs j s.running + occurs j (nodes s.advancing) + occurs j s.finished
        ≡ (if ltb j s.submitting then 1 else 0)
  pub tasks :
      length s.queue + length s.running + length (nodes s.advancing) + length s.finished
      ≡ s.submitting
  pub log :
      (j : ℕ)
      → occurs j s.started ≡ occurs j s.running + occurs j (nodes s.advancing) + occurs j s.finished
  pub counted : s.completed ≡ length s.finished
  pub unreleased : s.releasing ≡ []
  pub in_range : s.chosen ≡ true → s.submitting < total
  pub waits : Waits total s.waiter s.submitting s.completed s.notifying

module _ (total : ℕ) where
  abbrev Flat : Exec → Exec → Type 0
  Flat = Step total (λ i. 0) (λ i. [])

  start-Inv : (wakes : ℕ) → Inv total (start_state total (λ i. 0) (λ i. []) wakes)
  unfolding occurs
  start-Inv wakes = record {
    free = λ j. refl;
    idle = tt;
    bound = omega arith;
    placed = λ j. ground arith;
    tasks = refl;
    log = λ j. refl;
    counted = refl;
    unreleased = refl;
    in_range = λ h. absurd (ground (arith, h));
    waits = tt;
  }

  abbrev pub Now : Exec → Waiter → Type 0
  Now s w = Waits total w s.submitting s.completed s.notifying

  -- A step of the waiting thread, or of a worker that notifies it.
  waiter-Inv :
      (s : Exec) (w : Waiter) (n wakes : ℕ)
      → Inv total s
      → Waits total w s.submitting s.completed n
      → Inv total (record s { waiter = w; notifying = n; wakes = wakes })
  waiter-Inv s w n wakes v h = record {
    free = v.free;
    idle = v.idle;
    bound = v.bound;
    placed = v.placed;
    tasks = v.tasks;
    log = v.log;
    counted = v.counted;
    unreleased = v.unreleased;
    in_range = v.in_range;
    waits = h;
  }

  pub Step-Inv : (s t : Exec) → Inv total s → Flat s t → Inv total t
  unfolding occurs
  Step-Inv s t v (Dag.read_root lt c z e) = rw e (record {
    free = v.free;
    idle = v.idle;
    bound = v.bound;
    placed = v.placed;
    tasks = v.tasks;
    log = v.log;
    counted = v.counted;
    unreleased = v.unreleased;
    in_range = λ h. lt;
    waits = v.waits;
  })
  Step-Inv s t v (Dag.submit_root c e) = rw e (record {
    free = v.free;
    idle = v.idle;
    bound = v.in_range c;
    placed = λ j. ground (arith, v.placed j, occurs-append j s.queue (s.submitting ∷ []));
    tasks = omega (arith, v.tasks, length-append s.queue (s.submitting ∷ []));
    log = v.log;
    counted = v.counted;
    unreleased = v.unreleased;
    in_range = λ h. absurd (ground (arith, h));
    waits = Waits-submit total s.waiter s.submitting s.completed s.notifying v.waits (v.in_range c);
  })
  Step-Inv s t v (Dag.skip_node lt c z e) = absurd (ground (arith, v.free s.submitting))
  Step-Inv s t v (Dag.start i rest q e) = rw e (record {
    free = v.free;
    idle = v.idle;
    bound = v.bound;
    placed = λ j. ground (arith, v.placed j);
    tasks = omega (arith, v.tasks, ap length q);
    log = λ j. ground (arith, v.log j);
    counted = v.counted;
    unreleased = v.unreleased;
    in_range = v.in_range;
    waits = v.waits;
  })
  Step-Inv s t v (Dag.process i before after q e) =
      let split = λ (j : ℕ). occurs-append j before (i ∷ after) in
      let kept = λ (j : ℕ). occurs-append j before after in
      rw e (record {
        free = v.free;
        idle = (refl, v.idle);
        bound = v.bound;
        placed = λ j. ground (arith, v.placed j, ap (occurs j) q, split j, kept j);
        tasks = omega (
          arith,
          v.tasks,
          ap length q,
          length-append before (i ∷ after),
          length-append before after,
        );
        log = λ j. ground (arith, v.log j, ap (occurs j) q, split j, kept j);
        counted = v.counted;
        unreleased = v.unreleased;
        in_range = v.in_range;
        waits = v.waits;
      })
  Step-Inv s t v (Dag.count_down i d ds before after q o e) =
      absurd (cons_nil (Idle-append before ((i, d ∷ ds) ∷ after) (subst Idle q v.idle)).1.0)
  Step-Inv s t v (Dag.count_down_last i d ds before after q o e) =
      absurd (cons_nil (Idle-append before ((i, d ∷ ds) ∷ after) (subst Idle q v.idle)).1.0)
  Step-Inv s t v (Dag.submit_next i d ds before after q e) =
      absurd (append-cons_nil before _ _ (sym q ∙ v.unreleased))
  Step-Inv s t v (Dag.complete i before after q e) =
      let at = λ (j : ℕ). occurs-nodes j before ((i, []) ∷ after) in
      let kept = λ (j : ℕ). occurs-nodes j before after in
      let was = λ (j : ℕ). ap (λ l. occurs j (nodes l)) q in
      let all = ap (λ l. length (nodes l)) q in
      let some_left = length-nodes before ((i, []) ∷ after) in
      rw e (record {
        free = v.free;
        idle =
            let (a, b) = Idle-append before ((i, []) ∷ after) (subst Idle q v.idle) in
            Idle-join before after a b.1;
        bound = v.bound;
        placed = λ j. ground (arith, v.placed j, was j, at j, kept j);
        tasks = omega (arith, v.tasks, all, some_left, length-nodes before after);
        log = λ j. ground (arith, v.log j, was j, at j, kept j);
        counted = ground (arith, v.counted);
        unreleased = v.unreleased;
        in_range = v.in_range;
        waits =
            Waits-complete total s.waiter s.submitting s.completed s.notifying v.waits
              (omega (arith, v.tasks, v.bound, v.counted, all, some_left));
      })
  Step-Inv s t v (Dag.notify n m f e) = rw e (
      waiter-Inv s (wake s.waiter) n s.wakes v
        (Waits-notify total s.waiter s.submitting s.completed s.notifying n v.waits f))
  Step-Inv s t v (Dag.lock at w e) = rw e (waiter-Inv s holding s.notifying s.wakes v at)
  Step-Inv s t v (Dag.test_over w c e) =
      rw e (waiter-Inv s returned s.notifying s.wakes v (subst (Now s) w v.waits, c))
  Step-Inv s t v (Dag.test_more w c e) =
      rw e
        (waiter-Inv s deciding s.notifying s.wakes v (subst (Now s) w v.waits, (λ h. absurd (c h))))
  Step-Inv s t v (Dag.sleep w e) =
      rw e (waiter-Inv s asleep s.notifying s.wakes v (subst (Now s) w v.waits))
  Step-Inv s t v (Dag.spurious_wake n w m e) = rw e (waiter-Inv s at_lock s.notifying n v tt)

  pub Reach-Inv :
      (wakes : ℕ) (s : Exec)
      → Reach total (λ i. 0) (λ i. []) (start_state total (λ i. 0) (λ i. []) wakes) s
      → Inv total s
  Reach-Inv wakes s Dag.here = start-Inv wakes
  Reach-Inv wakes s (Dag.next {t} r st) = Step-Inv t s (Reach-Inv wakes t r) st

none_left : {A : Type 0} (xs : List A) → length xs ≡ 0 → xs ≡ []
none_left [] h = refl
none_left (x ∷ xs) h = absurd (ground arith)

-- When `Execute` of a pipeline without dependencies returns, whatever the order in which the
-- submitting thread and the workers took their steps, every node has been started exactly once and
-- has counted as completed exactly once.
pub flat_exactly_once :
    (total wakes : ℕ) (s : Exec)
    → Reach total (λ i. 0) (λ i. []) (start_state total (λ i. 0) (λ i. []) wakes) s
    → Returns total (λ i. 0) (λ i. []) s
    → (j : ℕ) → j < total
    → (occurs j s.started ≡ 1) × (occurs j s.finished ≡ 1)
unfolding occurs
flat_exactly_once total wakes s r e j lt =
    let v = Reach-Inv total wakes s r in
    let (submitted, all_completed) = subst (Now total s) e v.waits in
    let q = none_left s.queue (omega (arith, v.tasks, v.counted, submitted, all_completed)) in
    let u = none_left s.running (omega (arith, v.tasks, v.counted, submitted, all_completed)) in
    let a =
      none_left (nodes s.advancing) (omega (arith, v.tasks, v.counted, submitted, all_completed)) in
    let seen = lt→ltb j s.submitting (omega (arith, submitted, lt)) in
    ground (arith, v.placed j, v.log j, ap (occurs j) q, ap (occurs j) u, ap (occurs j) a)
