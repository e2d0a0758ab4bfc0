-- ===== src/Framework/Pipeline/Running.antt =====
-- `ProcessorPipeline::Execute` against a run of every processor.
use mini_search_rec.Prelude.{
  ◌≡◌, ◌⊎◌, inl, inr, refl, sym, ap, ◌∙◌, Bool, true, false, if◌then◌else◌, List, [], ◌∷◌, ◌++◌,
  Option, none, some, ℤ, arith, Bool-cases,
}
use mini_search_rec.Framework.Dag.{is_zero}
use mini_search_rec.Framework.Pipeline.{execute}

module _ {Processor Session : Type 0} (is_enabled : Processor → Bool)
    (process : Processor → Session → Session × ℤ) (is_timed_out : Session → Bool) where
  -- Every enabled processor in turn, whatever it returns.
  unfoldable pub run_all : List (Option Processor) → Session → Session
  run_all [] s = s
  run_all (none ∷ ps) s = run_all ps s
  run_all (some p ∷ ps) s = if is_enabled p then run_all ps (process p s).0 else run_all ps s

  abbrev Stops : List (Option Processor) → Session → Type 0
  Stops ps s =
      (before after : List (Option Processor)) × (ps ≡ before ++ after)
      × (execute is_enabled process is_timed_out ps s ≡ run_all before s)
      × ((after ≡ []) ⊎ (is_timed_out (execute is_enabled process is_timed_out ps s) ≡ true))

  -- One processor that is skipped or does not end the loop.
  Stops-cons :
      (o : Option Processor) (ps : List (Option Processor)) (s s' : Session)
      → execute is_enabled process is_timed_out (o ∷ ps) s
        ≡ execute is_enabled process is_timed_out ps s'
      → ((b : List (Option Processor)) → run_all (o ∷ b) s ≡ run_all b s')
      → Stops ps s'
      → Stops (o ∷ ps) s
  Stops-cons o ps s s' step ran (before, after, e, same, inl done') =
      (o ∷ before, after, ap (◌∷◌ o) e, step ∙ (same ∙ sym (ran before)), inl done')
  Stops-cons o ps s s' step ran (before, after, e, same, inr late) = (
    o ∷ before,
    after,
    ap (◌∷◌ o) e,
    step ∙ (same ∙ sym (ran before)),
    inr (ap is_timed_out step ∙ late),
  )

  execute-Stops : (ps : List (Option Processor)) (s : Session) → Stops ps s
  unfolding execute run_all
  execute-Stops [] s = ([], [], refl, refl, inl refl)
  execute-Stops (none ∷ ps) s = Stops-cons none ps s s refl (λ b. refl) (execute-Stops ps s)
  execute-Stops (some p ∷ ps) s =
      let s' = (process p s).0 in
      let skipped = execute-Stops ps s in
      let after = execute-Stops ps s' in
      elim (Bool-cases (is_enabled p)) [
        | inr off ↦ Stops-cons (some p) ps s s (ground arith) (λ b. ground arith) skipped
        | inl on ↦ elim (Bool-cases (is_zero (process p s).1)) [
          | inr failed ↦ Stops-cons (some p) ps s s' (ground arith) (λ b. ground arith) after
          | inl fine ↦ elim (Bool-cases (is_timed_out s')) [
            | inr early ↦ Stops-cons (some p) ps s s' (ground arith) (λ b. ground arith) after
            | inl late ↦ (some p ∷ [], ps, refl, ground arith, inr (ground arith))
          ]
        ]
      ]

  execute_all_fail :
      (ps : List (Option Processor)) (s : Session)
      → ((p : Processor) (u : Session) → is_zero (process p u).1 ≡ false)
      → execute is_enabled process is_timed_out ps s ≡ run_all ps s
  unfolding execute run_all
  execute_all_fail [] s h = refl
  execute_all_fail (none ∷ ps) s h = execute_all_fail ps s h
  execute_all_fail (some p ∷ ps) s h =
      ground (arith, h p s, execute_all_fail ps s h, execute_all_fail ps (process p s).0 h)

  -- `Execute` runs the enabled processors in order up to some point, each on what the one before it left
  -- whether or not that failed; it stops before the end only with a session that has timed out. If
  -- every processor fails, all of them run, however long ago the session timed out.
  pub execute-run_all :
      (ps : List (Option Processor)) (s : Session)
      → ((before after : List (Option Processor)) × (ps ≡ before ++ after)
          × (execute is_enabled process is_timed_out ps s ≡ run_all before s)
          × ((after ≡ []) ⊎ (is_timed_out (execute is_enabled process is_timed_out ps s) ≡ true)))
        × (((p : Processor) (u : Session) → is_zero (process p u).1 ≡ false)
            → execute is_enabled process is_timed_out ps s ≡ run_all ps s)
  execute-run_all ps s = (execute-Stops ps s, execute_all_fail ps s)
