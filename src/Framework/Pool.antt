-- ===== src/Framework/Pool.antt =====
-- src/framework/processor/dag_thread_pool.h: `DagThreadPool`, as a step relation between the calls of
-- its methods and the workers. A step is what a thread does while it holds the mutex, or one call of
-- the condition variable. Workers are alike, so they are counted.
pub mod Order
mod Tests
use mini_search_rec.Prelude.{ℕ, zero, suc, ◌+◌, ◌<◌, ◌≡◌, Bool, true, false, List, [], ◌∷◌, ◌++◌}

-- The members of the pool, the tasks that workers run, and a record of what happened: the tasks taken, in
-- their order, and the tasks submitted before and since the last time `stop_` was set.
pub record Pool : Type 0 where
  pub started : Bool
  pub stop : Bool
  pub tasks : List ℕ
  -- workers that wait for the condition variable, and workers about to test its condition
  pub asleep : ℕ
  pub awake : ℕ
  pub running : List ℕ
  pub exited : ℕ
  -- calls of `notify_one` to come, and whether `notify_all` is to come
  pub notifying : ℕ
  pub notifying_all : Bool
  pub taken : List ℕ
  pub before : List ℕ
  pub since : List ℕ

-- The pool before `Init`.
abbrev pub new_pool : Pool
new_pool = record {
  started = false;
  stop = false;
  tasks = [];
  asleep = 0;
  awake = 0;
  running = [];
  exited = 0;
  notifying = 0;
  notifying_all = false;
  taken = [];
  before = [];
  since = [];
}

pub data Step (p q : Pool) : Type 0 where
  -- `Init` of a pool that is not started; its workers come to the test
  init :
      (thread_count : ℕ)
      → p.started ≡ false
      → q ≡ record p {
        started = true;
        stop = false;
        awake = thread_count;
        before = p.before ++ p.since;
        since = [];
      }
      → Step p q
  -- `Submit`: the push, after which `notify_one` is to come
  submit :
      (i : ℕ)
      → p.stop ≡ false
      → q ≡ record p {
        tasks = p.tasks ++ (i ∷ []);
        notifying = suc p.notifying;
        before = p.before ++ (i ∷ []);
      }
      → Step p q
  submit_late :
      (i : ℕ)
      → p.stop ≡ true
      → q ≡ record p {
        tasks = p.tasks ++ (i ∷ []);
        notifying = suc p.notifying;
        since = p.since ++ (i ∷ []);
      }
      → Step p q
  notify_one :
      (n m : ℕ)
      → p.notifying ≡ suc n
      → p.asleep ≡ suc m
      → q ≡ record p { notifying = n; asleep = m; awake = suc p.awake }
      → Step p q
  -- nobody waits
  notify_none :
      (n : ℕ) → p.notifying ≡ suc n → p.asleep ≡ 0 → q ≡ record p { notifying = n } → Step p q
  -- `wait` may also return without a notification
  wake : (m : ℕ) → p.asleep ≡ suc m → q ≡ record p { asleep = m; awake = suc p.awake } → Step p q
  -- the test in `WorkerLoop`, with its three results
  sleep :
      (m : ℕ)
      → p.awake ≡ suc m
      → p.stop ≡ false
      → p.tasks ≡ []
      → q ≡ record p { awake = m; asleep = suc p.asleep }
      → Step p q
  exit :
      (m : ℕ)
      → p.awake ≡ suc m
      → p.stop ≡ true
      → p.tasks ≡ []
      → q ≡ record p { awake = m; exited = suc p.exited }
      → Step p q
  take_task :
      (m i : ℕ) (rest : List ℕ)
      → p.awake ≡ suc m
      → p.tasks ≡ i ∷ rest
      → q
        ≡ record p { awake = m; tasks = rest; running = i ∷ p.running; taken = p.taken ++ (i ∷ []) }
      → Step p q
  -- `task()` returns
  finish :
      (i : ℕ) (left right : List ℕ)
      → p.running ≡ left ++ (i ∷ right)
      → q ≡ record p { running = left ++ right; awake = suc p.awake }
      → Step p q
  -- `Shutdown` of a started pool that is not being shut down: the flag, the notification of all, and,
  -- when every worker has left its loop, the end of the joins
  set_stop :
      p.started ≡ true
      → p.stop ≡ false
      → q ≡ record p { stop = true; notifying_all = true }
      → Step p q
  notify_all :
      p.notifying_all ≡ true
      → q ≡ record p { notifying_all = false; asleep = 0; awake = p.awake + p.asleep }
      → Step p q
  joined :
      p.stop ≡ true
      → p.started ≡ true
      → p.notifying_all ≡ false
      → p.asleep ≡ 0
      → p.awake ≡ 0
      → p.running ≡ []
      → q ≡ record p { started = false; exited = 0 }
      → Step p q

pub data Reach (p : Pool) : Pool → Type 0 where
  here : Reach p p
  next : {q r : Pool} → Reach p q → Step q r → Reach p r
