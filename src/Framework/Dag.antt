-- ===== src/Framework/Dag.antt =====
-- src/framework/processor/dag_pipeline.h and .cpp: `DagPipeline`. `BuildDag` is a function of the
-- node configurations. `Execute` and `ExecuteNode` are a step relation: the submitting thread, the
-- workers of the thread pool and every atomic operation of `DagExecState` interleave freely.
pub mod Waiting
pub mod Flat
pub mod Progress
pub mod Race
pub mod Kahn
pub mod Visit
pub mod Order
pub mod Acyclic
pub mod Links
pub mod Cycles
mod Tests
use mini_search_rec.Prelude.{
  ℕ, zero, suc, ◌+◌, ◌-◌, ◌<◌, ◌≡◌, ◌≢◌, Bool, true, false, if◌then◌else◌, ◌==◌, List, [], ◌∷◌,
  ◌++◌, length, Option, none, some, find, insert, ℤ, pos, negsuc, Bytes, bytes_discrete,
}

pub record DagNodeConfig : Type 0 where
  pub name : Bytes
  pub depends_on : List Bytes

-- The first loop of `BuildDag`: of two nodes of one name the later one counts.
pub index_names : ℕ → List DagNodeConfig → List (Bytes × ℕ) → List (Bytes × ℕ)
index_names i [] m = m
index_names i (c ∷ cs) m = index_names (suc i) cs (insert bytes_discrete c.name i m)

-- `downstream_[k].push_back(i)`
pub push_at : ℕ → ℕ → List (List ℕ) → List (List ℕ)
push_at k i [] = []
push_at zero i (ds ∷ rest) = (ds ++ (i ∷ [])) ∷ rest
push_at (suc k) i (ds ∷ rest) = ds ∷ push_at k i rest

-- The loop over the dependencies of node `i`, which an unknown name ends: whether all names are known,
-- and the lists.
pub link_node : List (Bytes × ℕ) → ℕ → List Bytes → List (List ℕ) → Bool × List (List ℕ)
link_node names i [] down = (true, down)
link_node names i (dep ∷ deps) down = elim (find bytes_discrete dep names) [
  | none ↦ (false, down)
  | some k ↦ link_node names i deps (push_at k i down)
]

pub link_nodes : List (Bytes × ℕ) → ℕ → List DagNodeConfig → List (List ℕ) → Bool × List (List ℕ)
link_nodes names i [] down = (true, down)
link_nodes names i (c ∷ cs) down =
    let r = link_node names i c.depends_on down in
    let rest = link_nodes names (suc i) cs r.1 in if r.0 then rest else r

-- `downstream_.resize(N)` of an empty vector
pub no_edges : List DagNodeConfig → List (List ℕ)
no_edges [] = []
no_edges (c ∷ cs) = [] ∷ no_edges cs

-- The counts are those of lists in memory, below 2^31.
pub in_degrees : List DagNodeConfig → List ℤ
in_degrees [] = []
in_degrees (c ∷ cs) = pos (length c.depends_on) ∷ in_degrees cs

pub roots_from : ℕ → List ℤ → List ℕ
roots_from i [] = []
roots_from i (pos zero ∷ ds) = i ∷ roots_from (suc i) ds
roots_from i (pos (suc n) ∷ ds) = roots_from (suc i) ds
roots_from i (negsuc n ∷ ds) = roots_from (suc i) ds

-- `--n` and the test of the old value
abbrev pub decrement : ℤ → ℤ
decrement (pos zero) = negsuc 0
decrement (pos (suc n)) = pos n
decrement (negsuc n) = negsuc (suc n)

abbrev pub is_one : ℤ → Bool
is_one (pos n) = n == 1
is_one (negsuc n) = false

abbrev pub is_zero : ℤ → Bool
is_zero (pos n) = n == 0
is_zero (negsuc n) = false

-- `--in_degree[down] == 0`: the new degrees, and the node if it is free now.
pub lower_degree : ℕ → ℕ → List ℤ → List ℤ × List ℕ
lower_degree d k [] = ([], [])
lower_degree d zero (n ∷ ns) = (decrement n ∷ ns, (if is_one n then d ∷ [] else []))
lower_degree d (suc k) (n ∷ ns) = let r = lower_degree d k ns in (n ∷ r.0, r.1)

-- The loop over the downstream nodes of a visited node: degrees and queue.
pub release : List ℕ → List ℤ → List ℕ → List ℤ × List ℕ
release [] degrees queue = (degrees, queue)
release (d ∷ ds) degrees queue = let r = lower_degree d d degrees in release ds r.0 (queue ++ r.1)

abbrev pub edges_of : ℕ → List (List ℕ) → List ℕ
edges_of i [] = []
edges_of zero (ds ∷ rest) = ds
edges_of (suc i) (ds ∷ rest) = edges_of i rest

-- The loop `while (!q.empty())` of Kahn's algorithm, on fuel: how many nodes it visits.
pub visit : ℕ → List (List ℕ) → List ℤ → List ℕ → ℕ → Option ℕ
visit zero down degrees queue visited = none
visit (suc fuel) down degrees [] visited = some visited
visit (suc fuel) down degrees (i ∷ queue) visited =
    let r = release (edges_of i down) degrees queue in visit fuel down r.0 r.1 (suc visited)

-- `BuildDag`: whether every name is known and every node is visited, and the downstream lists.
pub build_dag : ℕ → List DagNodeConfig → Option (Bool × List (List ℕ))
build_dag fuel configs =
    let r = link_nodes (index_names 0 configs []) 0 configs (no_edges configs) in
    if r.0
    then elim (visit fuel r.1 (in_degrees configs) (roots_from 0 (in_degrees configs)) 0) [
      | none ↦ none
      | some visited ↦ some (visited == length configs, r.1)
    ]
    else some (false, r.1)

-- The thread of `Execute` and the mutex `mu`: before it takes the mutex, with the mutex before the test
-- of `completed`, with the mutex after a test that failed, asleep, and out of the wait.
pub data Waiter : Type 0 where
  at_lock : Waiter
  holding : Waiter
  deciding : Waiter
  asleep : Waiter
  returned : Waiter

abbrev pub mutex_free : Waiter → Bool
mutex_free holding = false
mutex_free deciding = false
mutex_free _ = true

-- `notify_one`
abbrev pub wake : Waiter → Waiter
wake asleep = at_lock
wake w = w

-- One request: `DagExecState`, the index of the submitting loop and whether it has read that its next
-- node is free, the tasks in the pool's queue, those that a worker has taken, those that walk their
-- downstream list, those of them that are about to submit a node, the waiting thread, the workers
-- about to notify it, how often it is still to wake without a notification, and two records of what
-- happened: the nodes in the order in which they were started, and those that have counted `completed`.
pub record Exec : Type 0 where
  pub submitting : ℕ
  pub chosen : Bool
  pub pending : ℕ → ℤ
  pub queue : List ℕ
  pub running : List ℕ
  pub advancing : List (ℕ × List ℕ)
  pub releasing : List (ℕ × ℕ × List ℕ)
  pub started : List ℕ
  pub finished : List ℕ
  pub completed : ℕ
  pub waiter : Waiter
  pub notifying : ℕ
  pub wakes : ℕ

abbrev pub set_pending : (ℕ → ℤ) → ℕ → ℤ → ℕ → ℤ
set_pending p d v j = if j == d then v else p j

module _ (total : ℕ) (deps : ℕ → ℕ) (downstream : ℕ → List ℕ) where
  -- The state before the first submission. The number of wake-ups without a notification is free.
  abbrev pub start_state : ℕ → Exec
  start_state wakes = record {
    submitting = 0;
    chosen = false;
    pending = λ i. pos (deps i);
    queue = [];
    running = [];
    advancing = [];
    releasing = [];
    started = [];
    finished = [];
    completed = 0;
    waiter = at_lock;
    notifying = 0;
    wakes = wakes;
  }

  pub data Step (s t : Exec) : Type 0 where
    -- the submitting loop reads the pending count of its next node as it is now
    read_root :
        s.submitting < total
        → s.chosen ≡ false
        → is_zero (s.pending s.submitting) ≡ true
        → t ≡ record s { chosen = true }
        → Step s t
    skip_node :
        s.submitting < total
        → s.chosen ≡ false
        → is_zero (s.pending s.submitting) ≡ false
        → t ≡ record s { submitting = suc s.submitting }
        → Step s t
    -- `Submit` of the submitting loop
    submit_root :
        s.chosen ≡ true
        → t ≡ record s {
          submitting = suc s.submitting;
          chosen = false;
          queue = s.queue ++ (s.submitting ∷ []);
        }
        → Step s t
    -- a worker takes the first task of the queue
    start :
        (i : ℕ) (rest : List ℕ)
        → s.queue ≡ i ∷ rest
        → t ≡ record s { queue = rest; running = i ∷ s.running; started = i ∷ s.started }
        → Step s t
    -- a worker leaves the processor of its node, whatever that returned or threw
    process :
        (i : ℕ) (before after : List ℕ)
        → s.running ≡ before ++ (i ∷ after)
        → t ≡ record s { running = before ++ after; advancing = (i, downstream i) ∷ s.advancing }
        → Step s t
    -- `fetch_sub` on a downstream node, of which the old value is not 1
    count_down :
        (i d : ℕ) (ds : List ℕ) (before after : List (ℕ × List ℕ))
        → s.advancing ≡ before ++ ((i, d ∷ ds) ∷ after)
        → is_one (s.pending d) ≡ false
        → t ≡ record s {
          pending = set_pending s.pending d (decrement (s.pending d));
          advancing = before ++ ((i, ds) ∷ after);
        }
        → Step s t
    -- the same where the old value is 1
    count_down_last :
        (i d : ℕ) (ds : List ℕ) (before after : List (ℕ × List ℕ))
        → s.advancing ≡ before ++ ((i, d ∷ ds) ∷ after)
        → is_one (s.pending d) ≡ true
        → t ≡ record s {
          pending = set_pending s.pending d (decrement (s.pending d));
          advancing = before ++ after;
          releasing = (i, d, ds) ∷ s.releasing;
        }
        → Step s t
    -- `Submit` of a worker
    submit_next :
        (i d : ℕ) (ds : List ℕ) (before after : List (ℕ × ℕ × List ℕ))
        → s.releasing ≡ before ++ ((i, d, ds) ∷ after)
        → t ≡ record s {
          advancing = (i, ds) ∷ s.advancing;
          releasing = before ++ after;
          queue = s.queue ++ (d ∷ []);
        }
        → Step s t
    -- `completed.fetch_add(1) + 1 == total`
    complete :
        (i : ℕ) (before after : List (ℕ × List ℕ))
        → s.advancing ≡ before ++ ((i, []) ∷ after)
        → t ≡ record s {
          advancing = before ++ after;
          finished = i ∷ s.finished;
          completed = suc s.completed;
          notifying = (if suc s.completed == total then suc s.notifying else s.notifying);
        }
        → Step s t
    -- a worker takes the mutex and calls `notify_one`
    notify :
        (n : ℕ)
        → s.notifying ≡ suc n
        → mutex_free s.waiter ≡ true
        → t ≡ record s { waiter = wake s.waiter; notifying = n }
        → Step s t
    -- after the submitting loop, or woken, the waiting thread takes the mutex; a worker that notifies
    -- holds it for its one step only
    lock : s.submitting ≡ total → s.waiter ≡ at_lock → t ≡ record s { waiter = holding } → Step s t
    test_over :
        s.waiter ≡ holding → s.completed ≡ total → t ≡ record s { waiter = returned } → Step s t
    test_more :
        s.waiter ≡ holding → s.completed ≢ total → t ≡ record s { waiter = deciding } → Step s t
    -- it lets the mutex go and sleeps, at once
    sleep : s.waiter ≡ deciding → t ≡ record s { waiter = asleep } → Step s t
    spurious_wake :
        (n : ℕ)
        → s.waiter ≡ asleep
        → s.wakes ≡ suc n
        → t ≡ record s { waiter = at_lock; wakes = n }
        → Step s t

  pub data Reach (s : Exec) : Exec → Type 0 where
    here : Reach s s
    next : {t u : Exec} → Reach s t → Step t u → Reach s u

  -- The wait of `Execute` is over.
  abbrev pub Returns : Exec → Type 0
  Returns s = s.waiter ≡ returned
