-- ===== src/Framework/Dag/Progress.antt =====
-- An execution of a pipeline without dependencies always goes on until it returns.
use mini_search_rec.Prelude.{
  List-cases, ℕ, zero, suc, ◌+◌, ◌*◌, ◌-◌, ◌≤◌, ◌<◌, ◌≡◌, if◌then◌else◌, Bool-cases, refl, sym, ap,
  ◌∙◌, subst, [], ◌∷◌, length, length-append, arith, ◌⊎◌, inl, inr, dec_lt,
}
use mini_search_rec.Framework.Dag
use mini_search_rec.Framework.Dag.{
  Exec, Step, Reach, Returns, start_state, is_zero, Waiter, at_lock, holding, deciding, asleep,
  returned, wake, mutex_free,
}
use mini_search_rec.Framework.Dag.Flat.{
  Inv, Step-Inv, Idle, Idle-append, cons_nil, append-cons_nil, nodes, Now, Reach-Inv,
}

-- How many steps the waiting thread is from its return, if it is not woken.
abbrev pub rank : Waiter → ℕ
rank at_lock = 4
rank holding = 3
rank deciding = 2
rank asleep = 1
rank returned = 0

-- What is left to do: for each node that is not submitted, in the queue, or with a worker, the steps that
-- it has before it, the notification of the waiting thread and its test after that included; two for
-- the submission that the loop has not yet chosen; and the steps of the waiting thread.
abbrev pub work_left : ℕ → Exec → ℕ
work_left total s =
    9 * (total - s.submitting)
    + (if s.chosen then 0 else 1)
    + 7 * length s.queue
    + 6 * length s.running
    + 5 * length s.advancing
    + 4 * s.notifying
    + 4 * s.wakes
    + rank s.waiter

module _ (total : ℕ) where
  -- The waiting thread, or a worker that notifies it, can take a step once all nodes are done.
  Wait-exists :
      (s : Exec)
      → Inv total s
      → s.submitting ≡ total
      → s.completed ≡ total
      → (w : Waiter) → s.waiter ≡ w
      → Returns total (λ i. 0) (λ i. []) s ⊎ ((t : Exec) × Step total (λ i. 0) (λ i. []) s t)
  Wait-exists s v sub done' at_lock e = inr (_, Dag.lock sub e refl)
  Wait-exists s v sub done' holding e = inr (_, Dag.test_over e done' refl)
  Wait-exists s v sub done' deciding e = inr (_, Dag.sleep e refl)
  Wait-exists s v sub done' asleep e =
      let some_left = (subst (Now total s) e v.waits).1 done' in
      inr (_, Dag.notify (s.notifying - 1) (omega (arith, some_left)) (ap mutex_free e) refl)
  Wait-exists s v sub done' returned e = inl e

  -- Some thread can take a step, without a spurious wake-up.
  Step-exists :
      (s : Exec)
      → Inv total s
      → Returns total (λ i. 0) (λ i. []) s ⊎ ((t : Exec) × Step total (λ i. 0) (λ i. []) s t)
  Step-exists s v = elim (dec_lt s.submitting total) [
    | yes lt ↦ elim (Bool-cases s.chosen) [
      | inl c ↦ inr (_, Dag.submit_root c refl)
      | inr c ↦ inr (_, Dag.read_root lt c (ground (arith, v.free s.submitting)) refl)
    ]
    | no ge ↦ elim (List-cases s.queue) [
      | inr (i, rest, q) ↦ inr (_, Dag.start i rest q refl)
      | inl q ↦ elim (List-cases s.running) [
        | inr (i, rest, r) ↦ inr (_, Dag.process i [] rest r refl)
        | inl r ↦ elim (List-cases s.advancing) [
          | inr ((i, ds), rest, a) ↦ elim (List-cases ds) [
            | inl d ↦ inr (_, Dag.complete i [] rest (a ∙ ap (λ ds. (i, ds) ∷ rest) d) refl)
            | inr (d, _, d') ↦ absurd (cons_nil (sym d' ∙ (subst Idle a v.idle).0))
          ]
          | inl a ↦
              Wait-exists s v (omega (arith, ge, v.bound))
                (omega (
                  arith,
                  ge,
                  v.bound,
                  v.tasks,
                  v.counted,
                  ap length q,
                  ap length r,
                  ap (λ l. length (nodes l)) a,
                ))
                s.waiter refl
        ]
      ]
    ]
  ]

  rank-wake : (w : Waiter) → rank (wake w) ≤ rank w + 3
  rank-wake at_lock = omega arith
  rank-wake holding = omega arith
  rank-wake deciding = omega arith
  rank-wake asleep = omega arith
  rank-wake returned = omega arith

  Step-work_left :
      (s t : Exec)
      → Inv total s
      → Step total (λ i. 0) (λ i. []) s t
      → work_left total t < work_left total s
  Step-work_left s t v (Dag.read_root lt c z e) = rw e (ground (arith, c))
  Step-work_left s t v (Dag.submit_root c e) =
      rw e (ground (arith, c, v.in_range c, length-append s.queue (s.submitting ∷ [])))
  Step-work_left s t v (Dag.skip_node lt c z e) = rw e (omega (arith, lt))
  Step-work_left s t v (Dag.start i rest q e) = rw e (omega (arith, ap length q))
  Step-work_left s t v (Dag.process i before after q e) =
      rw e
        (omega (arith, ap length q, length-append before (i ∷ after), length-append before after))
  Step-work_left s t v (Dag.count_down i d ds before after q o e) =
      absurd (cons_nil (Idle-append before ((i, d ∷ ds) ∷ after) (subst Idle q v.idle)).1.0)
  Step-work_left s t v (Dag.count_down_last i d ds before after q o e) =
      absurd (cons_nil (Idle-append before ((i, d ∷ ds) ∷ after) (subst Idle q v.idle)).1.0)
  Step-work_left s t v (Dag.submit_next i d ds before after q e) =
      absurd (append-cons_nil before _ _ (sym q ∙ v.unreleased))
  Step-work_left s t v (Dag.complete i before after q e) = rw e (
      ground
        (arith, ap length q, length-append before ((i, []) ∷ after), length-append before after))
  Step-work_left s t v (Dag.notify n m f e) = rw e (omega (arith, m, rank-wake s.waiter))
  Step-work_left s t v (Dag.lock at w e) = rw e (omega (arith, ap rank w))
  Step-work_left s t v (Dag.test_over w c e) = rw e (omega (arith, ap rank w))
  Step-work_left s t v (Dag.test_more w c e) = rw e (omega (arith, ap rank w))
  Step-work_left s t v (Dag.sleep w e) = rw e (omega (arith, ap rank w))
  Step-work_left s t v (Dag.spurious_wake n w m e) = rw e (omega (arith, m, ap rank w))

  Reach-first :
      (s m u : Exec)
      → Step total (λ i. 0) (λ i. []) s m
      → Reach total (λ i. 0) (λ i. []) m u
      → Reach total (λ i. 0) (λ i. []) s u
  Reach-first s m u st Dag.here = Dag.next Dag.here st
  Reach-first s m u st (Dag.next {t} r st') = Dag.next (Reach-first s m t st r) st'

  finish :
      (fuel : ℕ) (s : Exec)
      → Inv total s
      → work_left total s ≤ fuel
      → (t : Exec) × Reach total (λ i. 0) (λ i. []) s t × Returns total (λ i. 0) (λ i. []) t
  finish zero s v le = elim (Step-exists s v) [
    | inl e ↦ (s, Dag.here, e)
    | inr (t, st) ↦ absurd (omega (arith, Step-work_left s t v st, le))
  ]
  finish (suc fuel) s v le = elim (Step-exists s v) [
    | inl e ↦ (s, Dag.here, e)
    | inr (t, st) ↦
        let (u, r, e) =
          finish fuel t (Step-Inv total s t v st) (omega (arith, Step-work_left s t v st, le)) in
        (u, Reach-first s t u st r, e)
  ]

-- In a pipeline without dependencies no order of the steps loses work or a wake-up: from every state
-- that an execution can reach there are further steps to a state in which the wait of `Execute` is over,
-- also where the condition variable wakes nobody without a notification.
pub flat_finishes :
    (total wakes : ℕ) (s : Exec)
    → Reach total (λ i. 0) (λ i. []) (start_state total (λ i. 0) (λ i. []) wakes) s
    → (t : Exec) × Reach total (λ i. 0) (λ i. []) s t × Returns total (λ i. 0) (λ i. []) t
flat_finishes total wakes s r =
    finish total (work_left total s) s (Reach-Inv total wakes s r) (omega arith)

-- No execution of a pipeline without dependencies in which the waiting thread wakes without a
-- notification finitely often goes on for ever: every step lowers `work_left`.
pub flat_terminates :
    (total wakes : ℕ) (s t : Exec)
    → Reach total (λ i. 0) (λ i. []) (start_state total (λ i. 0) (λ i. []) wakes) s
    → Step total (λ i. 0) (λ i. []) s t
    → work_left total t < work_left total s
flat_terminates total wakes s t r st = Step-work_left total s t (Reach-Inv total wakes s r) st
