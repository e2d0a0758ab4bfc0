-- ===== src/Framework/Dag/Waiting.antt =====
-- src/framework/processor/dag_pipeline.cpp: the wait of `Execute` for `completed`, and its notification.
use mini_search_rec.Prelude.{ℕ, suc, ◌<◌, ◌≡◌, true, if◌then◌else◌, ◌==◌, arith}
use mini_search_rec.Framework.Dag.{
  Waiter, at_lock, holding, deciding, asleep, returned, wake, mutex_free,
}

-- What holds of the waiting thread at each place, of the submitting loop, the counter and the workers
-- about to notify. No wake-up is lost: before a sleep that sees all nodes done a notification is to come.
abbrev pub Waits : ℕ → Waiter → ℕ → ℕ → ℕ → Type 0
Waits total at_lock submitting completed notifying = Unit {0}
Waits total holding submitting completed notifying = submitting ≡ total
Waits total deciding submitting completed notifying =
    (submitting ≡ total) × (completed ≡ total → 0 < notifying)
Waits total asleep submitting completed notifying =
    (submitting ≡ total) × (completed ≡ total → 0 < notifying)
Waits total returned submitting completed notifying = (submitting ≡ total) × (completed ≡ total)

pub Waits-submit :
    (total : ℕ) (w : Waiter) (submitting completed notifying : ℕ)
    → Waits total w submitting completed notifying
    → submitting < total
    → Waits total w (suc submitting) completed notifying
Waits-submit total at_lock s c n h lt = tt
Waits-submit total holding s c n h lt = absurd (omega (arith, h, lt))
Waits-submit total deciding s c n h lt = absurd (omega (arith, h.0, lt))
Waits-submit total asleep s c n h lt = absurd (omega (arith, h.0, lt))
Waits-submit total returned s c n h lt = absurd (omega (arith, h.0, lt))

pub Waits-complete :
    (total : ℕ) (w : Waiter) (submitting completed notifying : ℕ)
    → Waits total w submitting completed notifying
    → completed < total
    → Waits total w submitting
        (suc completed)
        (if suc completed == total then suc notifying else notifying)
Waits-complete total at_lock s c n h lt = tt
Waits-complete total holding s c n h lt = h
Waits-complete total deciding s c n h lt = (h.0, (λ e. ground (arith, e)))
Waits-complete total asleep s c n h lt = (h.0, (λ e. ground (arith, e)))
Waits-complete total returned s c n h lt = absurd (omega (arith, h.1, lt))

pub Waits-notify :
    (total : ℕ) (w : Waiter) (submitting completed notifying n : ℕ)
    → Waits total w submitting completed notifying
    → mutex_free w ≡ true
    → Waits total (wake w) submitting completed n
Waits-notify total at_lock s c m n h f = tt
Waits-notify total holding s c m n h f = absurd (ground (arith, f))
Waits-notify total deciding s c m n h f = absurd (ground (arith, f))
Waits-notify total asleep s c m n h f = tt
Waits-notify total returned s c m n h f = h
