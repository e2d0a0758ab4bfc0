-- ===== src/Biz/Search/Interpose.antt =====
-- src/biz/search/search_handler.cpp: what `DoInterpose` leaves of the fine ranking, against one pass
-- of all the tests of the filters over it.
use mini_search_rec.Prelude.{
  ◌≡◌, ◌⊎◌, inl, inr, refl, sym, ap, ◌∙◌, Bool, true, false, if◌then◌else◌, List, [], ◌∷◌, ◌++◌,
  keep, Option, none, some, ℤ, arith, List-cases,
}
use mini_search_rec.Framework.Pipeline.{execute}
use mini_search_rec.Framework.Pipeline.Running.{run_all, execute-run_all}
use mini_search_rec.Biz.Search.{
  SearchSession, process, enabled, timed_out, run_pipelines, fall_back, do_interpose,
}
use mini_search_rec.Biz.Search.Filters.{
  DocCandidate, Filter, dedup, quality, spam, blacklist, Floats, should_keep, keep_new,
}

-- Two passes are one pass of both tests.
keep-keep {ℓ} :
    {A : Type ℓ} (p q : A → Bool) (xs : List A)
    → keep q (keep p xs) ≡ keep (λ x. if p x then q x else false) xs
keep-keep p q [] = refl
keep-keep p q (x ∷ xs) = ground (arith, keep-keep p q xs)

keep-ext {ℓ} :
    {A : Type ℓ} (p q : A → Bool) → ((x : A) → p x ≡ q x) → (xs : List A) → keep p xs ≡ keep q xs
keep-ext p q h [] = refl
keep-ext p q h (x ∷ xs) = ground (arith, h x, keep-ext p q h xs)

keep-all {ℓ} : {A : Type ℓ} (xs : List A) → keep (λ x. true) xs ≡ xs
keep-all [] = refl
keep-all (x ∷ xs) = ap (◌∷◌ x) (keep-all xs)

module _ {Score : Type 0} (F : Floats Score) where
  -- Whether a candidate passes every enabled filter but the deduplication.
  unfoldable pub passes : List (Option (Filter Score × Bool)) → DocCandidate Score → Bool
  passes [] c = true
  passes (none ∷ fs) c = passes fs c
  passes (some (dedup t, on) ∷ fs) c = passes fs c
  passes (some (f, on) ∷ fs) c =
      let rest = passes fs c in if on then (if should_keep F f [] c then rest else false) else rest

  passes-cons :
      (f : Filter Score) (on : Bool) (fs : List (Option (Filter Score × Bool)))
      (c : DocCandidate Score)
      → passes (some (f, on) ∷ fs) c
        ≡ (if on then (if should_keep F f [] c then passes fs c else false) else passes fs c)
  unfolding passes should_keep keep_new
  passes-cons (dedup t) on fs c = ground arith
  passes-cons (quality a b d) on fs c = refl
  passes-cons spam on fs c = refl
  passes-cons (blacklist ids) on fs c = refl

  module _ {Clock : Type 0} (tick : Clock → Clock) (is_timed_out : Clock → Bool) where
    -- A session after filters that test with `passed`.
    abbrev Left :
        SearchSession Score Clock → SearchSession Score Clock → (DocCandidate Score → Bool) → Type 0
    Left s s' passed =
        (s'.final_results ≡ []) × (s'.fine_rank_results ≡ keep passed s.fine_rank_results)

    process-Left :
        (f : Filter Score) (on : Bool) (s : SearchSession Score Clock)
        → s.final_results ≡ []
        → Left s (process F tick (f, on) s).0 (should_keep F f [])
    unfolding process
    process-Left f on s h = elim (List-cases s.fine_rank_results) [
      | inl e ↦ rw e (h, refl)
      | inr (c, cs, e) ↦ rw e (h, ap (λ kept. keep (should_keep F f kept) (c ∷ cs)) h)
    ]

    run_all-passes :
        (fs : List (Option (Filter Score × Bool))) (s : SearchSession Score Clock)
        → s.final_results ≡ []
        → Left s (run_all enabled (process F tick) (timed_out is_timed_out) fs s) (passes fs)
    unfolding run_all enabled passes
    run_all-passes [] s h = (h, sym (keep-all s.fine_rank_results))
    run_all-passes (none ∷ fs) s h = run_all-passes fs s h
    run_all-passes (some (f, false) ∷ fs) s h =
        let r = run_all-passes fs s h in
        (
          r.0,
          r.1
              ∙ keep-ext (passes fs) (passes (some (f, false) ∷ fs))
                  (λ c. sym (passes-cons f false fs c)) s.fine_rank_results,
        )
    run_all-passes (some (f, true) ∷ fs) s h =
        let once = process-Left f true s h in
        let r = run_all-passes fs (process F tick (f, true) s).0 once.0 in
        let both =
          λ (c : DocCandidate Score). if should_keep F f [] c then passes fs c else false in
        (
          r.0,
          r.1
              ∙ (ap (keep (passes fs)) once.1
                  ∙ (keep-keep (should_keep F f []) (passes fs) s.fine_rank_results
                      ∙ keep-ext both (passes (some (f, true) ∷ fs))
                          (λ c. sym (passes-cons f true fs c)) s.fine_rank_results)),
        )

    fall_back-Left :
        (s s' : SearchSession Score Clock) (passed : DocCandidate Score → Bool)
        → Left s s' passed
        → (fall_back s').final_results ≡ keep passed s.fine_rank_results
    unfolding fall_back
    fall_back-Left s s' passed (e, l) = rw e l

    fall_back-clock : (s : SearchSession Score Clock) → (fall_back s).clock ≡ s.clock
    unfolding fall_back
    fall_back-clock s = elim (List-cases s.final_results) [
      | inl e ↦ rw e refl
      | inr (c, cs, e) ↦ rw e refl
    ]

    module _ {Post : Type 0} (post_enabled : Post → Bool)
        (post_process : Post → SearchSession Score Clock → SearchSession Score Clock × ℤ) where
      -- For a session without final results and a configuration without postprocessing, `DoInterpose` makes
      -- final exactly those results of the fine ranking, in their order, that every enabled filter before
      -- some point keeps, deduplication left out: it removes nothing, since it compares with final
      -- results and there are none yet. Filters after that point are there only if the session has timed out.
      pub do_interpose-passes :
          (fs : List (Option (Filter Score × Bool))) (s : SearchSession Score Clock)
          → s.final_results ≡ []
          → let after' =
              do_interpose F tick is_timed_out post_enabled post_process
                (some (record { filters = fs; postprocess = [] }))
                s in
            (before after : List (Option (Filter Score × Bool))) × (fs ≡ before ++ after)
            × (after'.final_results ≡ keep (passes before) s.fine_rank_results)
            × ((after ≡ []) ⊎ (is_timed_out after'.clock ≡ true))
      unfolding do_interpose run_pipelines execute timed_out
      do_interpose-passes fs s h =
          let run = execute enabled (process F tick) (timed_out is_timed_out) fs s in
          let stops = (execute-run_all enabled (process F tick) (timed_out is_timed_out) fs s).0 in
          let before = stops.0 in
          let ended = run_all enabled (process F tick) (timed_out is_timed_out) before s in
          (
            before,
            stops.1,
            stops.2,
            ap (λ (u : SearchSession Score Clock). (fall_back u).final_results) stops.3
                ∙ fall_back-Left s ended (passes before) (run_all-passes before s h),
            elim stops.4 [
              | inl whole ↦ inl whole
              | inr late ↦ inr (ap is_timed_out (fall_back-clock run) ∙ late)
            ],
          )
