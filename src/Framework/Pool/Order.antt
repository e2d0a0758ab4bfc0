-- ===== src/Framework/Pool/Order.antt =====
-- The pool runs the tasks in the order in which they were submitted, and no wake-up is lost.
use mini_search_rec.Prelude.{
  ℕ, ◌+◌, ◌≤◌, ◌<◌, ◌≡◌, refl, sym, ap, ◌∙◌, true, false, List, [], ◌∷◌, ◌++◌, length,
  length-append, arith,
}
use mathlib.Core.List.{append_assoc, append-nil}
use mini_search_rec.Framework.Pool
use mini_search_rec.Framework.Pool.{Pool, new_pool, Step, Reach}

pub record Inv (p : Pool) : Type 0 where
  pub first_in_first_out : p.taken ++ p.tasks ≡ p.before ++ p.since
  pub none_since : p.stop ≡ false → p.since ≡ []
  -- a worker that has left found the queue empty after `stop_` was set
  pub drained : 0 < p.exited → (p.stop ≡ true) × (length p.tasks ≤ length p.since)
  -- where a worker sleeps, someone is about to look at a task, and to notify all if `stop_` is set
  pub task_seen : 0 < length p.tasks → 0 < p.asleep → 0 < p.awake + p.notifying + length p.running
  pub stop_seen : p.stop ≡ true → 0 < p.asleep → p.notifying_all ≡ true
  pub fresh :
      p.started ≡ false → (p.asleep ≡ 0) × (p.awake ≡ 0) × (p.exited ≡ 0) × (length p.running ≡ 0)

new_pool-Inv : Inv new_pool
new_pool-Inv = record {
  first_in_first_out = refl;
  none_since = λ e. refl;
  drained = λ h. absurd (omega (arith, h));
  task_seen = λ h. absurd (omega (arith, h));
  stop_seen = λ e. absurd (ground (arith, e));
  fresh = λ e. (refl, refl, refl, refl);
}

Step-Inv : (p q : Pool) → Inv p → Step p q → Inv q
Step-Inv p q v (Pool.init n s e) = rw e (record {
  first_in_first_out = v.first_in_first_out ∙ sym (append-nil (p.before ++ p.since));
  none_since = λ f. refl;
  drained = λ h. absurd (ground (arith, h, v.fresh s));
  task_seen = λ h k. absurd (ground (arith, k, v.fresh s));
  stop_seen = λ f. absurd (ground (arith, f));
  fresh = λ f. absurd (ground (arith, f));
})
Step-Inv p q v (Pool.submit i s e) =
    let empty = v.none_since s in
    rw e (record {
      first_in_first_out =
          sym (append_assoc p.taken p.tasks (i ∷ []))
          ∙ ap (λ l. l ++ (i ∷ []))
              (v.first_in_first_out ∙ ap (λ l. p.before ++ l) empty ∙ append-nil p.before)
          ∙ sym (append-nil (p.before ++ (i ∷ [])))
          ∙ ap (λ l. (p.before ++ (i ∷ [])) ++ l) (sym empty);
      none_since = v.none_since;
      drained = λ h. absurd (ground (arith, s, v.drained h));
      task_seen = λ h k. omega arith;
      stop_seen = v.stop_seen;
      fresh = v.fresh;
    })
Step-Inv p q v (Pool.submit_late i s e) = rw e (record {
  first_in_first_out =
      sym (append_assoc p.taken p.tasks (i ∷ []))
      ∙ ap (λ l. l ++ (i ∷ [])) v.first_in_first_out
      ∙ append_assoc p.before p.since (i ∷ []);
  none_since = λ f. absurd (ground (arith, s, f));
  drained = λ h. (
    s,
    omega (arith, (v.drained h).1, length-append p.tasks (i ∷ []), length-append p.since (i ∷ [])),
  );
  task_seen = λ h k. omega arith;
  stop_seen = v.stop_seen;
  fresh = v.fresh;
})
Step-Inv p q v (Pool.notify_one n m f g e) = rw e (record {
  first_in_first_out = v.first_in_first_out;
  none_since = v.none_since;
  drained = v.drained;
  task_seen = λ h k. omega arith;
  stop_seen = λ s k. v.stop_seen s (omega (arith, g));
  fresh = λ s. absurd (ground (arith, v.fresh s, g));
})
Step-Inv p q v (Pool.notify_none n f g e) = rw e (record {
  first_in_first_out = v.first_in_first_out;
  none_since = v.none_since;
  drained = v.drained;
  task_seen = λ h k. absurd (omega (arith, g, k));
  stop_seen = v.stop_seen;
  fresh = v.fresh;
})
Step-Inv p q v (Pool.wake m g e) = rw e (record {
  first_in_first_out = v.first_in_first_out;
  none_since = v.none_since;
  drained = v.drained;
  task_seen = λ h k. omega arith;
  stop_seen = λ s k. v.stop_seen s (omega (arith, g));
  fresh = λ s. absurd (ground (arith, v.fresh s, g));
})
Step-Inv p q v (Pool.sleep m f s t e) = rw e (record {
  first_in_first_out = v.first_in_first_out;
  none_since = v.none_since;
  drained = v.drained;
  task_seen = λ h k. absurd (ground (arith, h, t));
  stop_seen = λ s' k. absurd (ground (arith, s, s'));
  fresh = λ s. absurd (ground (arith, v.fresh s, f));
})
Step-Inv p q v (Pool.exit m f s t e) = rw e (record {
  first_in_first_out = v.first_in_first_out;
  none_since = v.none_since;
  drained = λ h. (s, ground (arith, t));
  task_seen = λ h k. absurd (ground (arith, h, t));
  stop_seen = v.stop_seen;
  fresh = λ s. absurd (ground (arith, v.fresh s, f));
})
Step-Inv p q v (Pool.take_task m i rest f t e) = rw e (record {
  first_in_first_out =
      append_assoc p.taken (i ∷ []) rest ∙ ap (λ l. p.taken ++ l) (sym t) ∙ v.first_in_first_out;
  none_since = v.none_since;
  drained = λ h. ((v.drained h).0, omega (arith, (v.drained h).1, ap length t));
  task_seen = λ h k. omega arith;
  stop_seen = v.stop_seen;
  fresh = λ s. absurd (ground (arith, v.fresh s, f));
})
Step-Inv p q v (Pool.finish i left right f e) = rw e (record {
  first_in_first_out = v.first_in_first_out;
  none_since = v.none_since;
  drained = v.drained;
  task_seen = λ h k. omega arith;
  stop_seen = v.stop_seen;
  fresh = λ s. absurd (ground (arith, v.fresh s, ap length f, length-append left (i ∷ right)));
})
Step-Inv p q v (Pool.set_stop s f e) = rw e (record {
  first_in_first_out = v.first_in_first_out;
  none_since = λ g. absurd (ground (arith, g));
  drained = λ h. absurd (ground (arith, f, v.drained h));
  task_seen = v.task_seen;
  stop_seen = λ g k. refl;
  fresh = v.fresh;
})
Step-Inv p q v (Pool.notify_all f e) = rw e (record {
  first_in_first_out = v.first_in_first_out;
  none_since = v.none_since;
  drained = v.drained;
  task_seen = λ h k. absurd (omega (arith, k));
  stop_seen = λ g k. absurd (omega (arith, k));
  fresh = λ s. ground (arith, v.fresh s);
})
Step-Inv p q v (Pool.joined s t n a w r e) = rw e (record {
  first_in_first_out = v.first_in_first_out;
  none_since = v.none_since;
  drained = λ h. absurd (omega (arith, h));
  task_seen = λ h k. absurd (omega (arith, a, k));
  stop_seen = λ g k. absurd (omega (arith, a, k));
  fresh = λ g. (a, w, refl, ap length r);
})

Reach-Inv : (p : Pool) → Reach new_pool p → Inv p
Reach-Inv p Pool.here = new_pool-Inv
Reach-Inv p (Pool.next {q} r st) = Step-Inv q p (Reach-Inv q r) st

-- Of two ways to split a list, the one with the shorter end splits behind the other.
split_behind :
    (xs ys us vs : List ℕ)
    → xs ++ ys ≡ us ++ vs
    → length ys ≤ length vs
    → (rest : List ℕ) × (xs ≡ us ++ rest)
split_behind xs ys [] vs e le = (xs, refl)
split_behind [] ys (u ∷ us) vs e le = absurd (omega (arith, le, ap length e, length-append us vs))
split_behind (x ∷ xs) ys (u ∷ us) vs e le =
    let (rest, f) = split_behind xs ys us vs (cc) le in (rest, (cc))

-- In every state that calls and workers can reach, the tasks that workers have taken, followed by those
-- in the queue, are all the tasks submitted, in the order of submission: none is lost, run twice or
-- overtaken.
pub pool_order : (p : Pool) → Reach new_pool p → p.taken ++ p.tasks ≡ p.before ++ p.since
pool_order p r = (Reach-Inv p r).first_in_first_out

-- `Shutdown` lets the queue run empty: as soon as one worker has left its loop, every task that was
-- submitted before `stop_` was set has been taken.
pub pool_drains :
    (p : Pool) → Reach new_pool p → 0 < p.exited → (rest : List ℕ) × (p.taken ≡ p.before ++ rest)
pool_drains p r h =
    let v = Reach-Inv p r in
    split_behind p.taken p.tasks p.before p.since v.first_in_first_out (v.drained h).1

-- No wake-up is lost: in every reachable state in which a worker waits, if there is a task, then a
-- notification is to come, or another worker is about to test the queue or runs a task, after which it
-- will; and if `stop_` is set, then the notification of all is still to come.
pub pool_wakes :
    (p : Pool)
    → Reach new_pool p
    → 0 < p.asleep
    → (0 < length p.tasks → 0 < p.awake + p.notifying + length p.running)
      × (p.stop ≡ true → p.notifying_all ≡ true)
pool_wakes p r k = let v = Reach-Inv p r in ((λ h. v.task_seen h k), (λ s. v.stop_seen s k))
