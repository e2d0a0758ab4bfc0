-- ===== src/Framework/Pool/Tests.antt =====
-- A pool of one worker that is shut down while a task waits.
use mini_search_rec.Prelude.{
  ℕ, ◌+◌, ◌<◌, ◌≡◌, refl, true, false, List, [], ◌∷◌, ◌++◌, length, arith,
}
use mini_search_rec.Framework.Pool
use mini_search_rec.Framework.Pool.{Pool, new_pool, Step, Reach}
use mini_search_rec.Framework.Pool.Order.{pool_order, pool_drains, pool_wakes}

-- The worker waits, and a task has been pushed.
abbrev waiting : Pool
waiting = record {
  started = true;
  stop = false;
  tasks = 7 ∷ [];
  asleep = 1;
  awake = 0;
  running = [];
  exited = 0;
  notifying = 1;
  notifying_all = false;
  taken = [];
  before = 7 ∷ [];
  since = [];
}

Reach-waiting : Reach new_pool waiting
Reach-waiting =
    Pool.next
      (Pool.next (Pool.next Pool.here (Pool.init 1 refl refl)) (Pool.sleep 0 refl refl refl refl))
      (Pool.submit 7 refl refl)

-- The worker has run the task and left.
abbrev left : Pool
left = record waiting {
  stop = true;
  tasks = [];
  asleep = 0;
  exited = 1;
  notifying = 0;
  notifying_all = true;
  taken = 7 ∷ [];
}

Reach-left : Reach new_pool left
Reach-left =
    Pool.next
      (Pool.next
        (Pool.next
          (Pool.next (Pool.next Reach-waiting (Pool.notify_one 0 0 refl refl refl))
            (Pool.take_task 0 7 [] refl refl refl))
          (Pool.set_stop refl refl refl))
        (Pool.finish 7 [] [] refl refl))
      (Pool.exit 0 refl refl refl refl)

pool_order_example : left.taken ++ left.tasks ≡ left.before ++ left.since
pool_order_example = pool_order left Reach-left

pool_drains_example : (rest : List ℕ) × (left.taken ≡ left.before ++ rest)
pool_drains_example = pool_drains left Reach-left (omega arith)

pool_wakes_example :
    (0 < length waiting.tasks → 0 < waiting.awake + waiting.notifying + length waiting.running)
    × (waiting.stop ≡ true → waiting.notifying_all ≡ true)
pool_wakes_example = pool_wakes waiting Reach-waiting (omega arith)
