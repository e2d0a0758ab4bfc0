-- ===== src/Biz/Search.antt =====
-- src/biz/search/search_session.h and src/biz/search/search_handler.cpp: the filters of a search,
-- `DoInterpose` and the page that `SetResponse` answers with; the filters are those of
-- src/lib/filter/. Scores are floating point numbers, so their type and their order are parameters.
-- The JSON text around a page is not modelled.
pub mod Filters
pub mod Pages
pub mod Interpose
mod Tests
use mini_search_rec.Prelude.{
  ℕ, ◌%◌, ◌^◌, ◌-◌, ltb, Bool, true, false, if◌then◌else◌, List, [], ◌∷◌, length, keep, Option,
  none, some, take, drop, ℤ, pos, negsuc, ◌+ℤ◌, ◌*ℤ◌, ltb_ℤ, is_negative, pos_part, Bytes,
}
use mini_search_rec.Framework.Pipeline.{execute}
use Filters.{DocCandidate, Filter, Floats, should_keep}

-- The lists of candidates in `SearchSession`, and the clock that `IsTimedOut` reads.
pub record SearchSession (Score Clock : Type 0) : Type 0 where
  pub coarse_rank_results : List (DocCandidate Score)
  pub fine_rank_results : List (DocCandidate Score)
  pub final_results : List (DocCandidate Score)
  pub clock : Clock

-- `filter_pipeline` and `postprocess_pipeline`: their processors, null where one was not made
pub record PipelineConfig (Score Post : Type 0) : Type 0 where
  pub filters : List (Option (Filter Score × Bool))
  pub postprocess : List (Option Post)

unfoldable pub enabled : {Score : Type 0} → Filter Score × Bool → Bool
enabled f = f.1

module _ {Score Clock : Type 0} where
  unfoldable pub timed_out : (Clock → Bool) → SearchSession Score Clock → Bool
  timed_out is_timed_out s = is_timed_out s.clock

  -- `BaseFilterProcessor::Process`
  unfoldable pub process :
      Floats Score
      → (Clock → Clock)
      → Filter Score × Bool
      → SearchSession Score Clock
      → SearchSession Score Clock × ℤ
  process F tick (f, on) s = elim s.fine_rank_results [
    | [] ↦ (
      record {
        coarse_rank_results = keep (should_keep F f s.final_results) s.coarse_rank_results;
        fine_rank_results = [];
        final_results = s.final_results;
        clock = tick s.clock;
      },
      pos 0,
    )
    | c ∷ cs ↦ (
      record {
        coarse_rank_results = s.coarse_rank_results;
        fine_rank_results = keep (should_keep F f s.final_results) (c ∷ cs);
        final_results = s.final_results;
        clock = tick s.clock;
      },
      pos 0,
    )
  ]

  -- The results of the fine ranking stand in for final results that are missing.
  unfoldable pub fall_back : SearchSession Score Clock → SearchSession Score Clock
  fall_back s = elim s.final_results [
    | [] ↦ record {
      coarse_rank_results = s.coarse_rank_results;
      fine_rank_results = s.fine_rank_results;
      final_results = s.fine_rank_results;
      clock = s.clock;
    }
    | c ∷ cs ↦ s
  ]

module _ {Score Clock Post : Type 0} (F : Floats Score) (tick : Clock → Clock)
    (is_timed_out : Clock → Bool) (post_enabled : Post → Bool)
    (post_process : Post → SearchSession Score Clock → SearchSession Score Clock × ℤ) where
  -- The two pipelines, where there is a configuration.
  unfoldable pub run_pipelines :
      Option (PipelineConfig Score Post) → SearchSession Score Clock → SearchSession Score Clock
  run_pipelines none s = s
  run_pipelines (some c) s =
      execute post_enabled post_process (timed_out is_timed_out) c.postprocess
        (execute enabled (process F tick) (timed_out is_timed_out) c.filters s)

  -- `SearchBizHandler::DoInterpose`, which always returns 0
  unfoldable pub do_interpose :
      Option (PipelineConfig Score Post) → SearchSession Score Clock → SearchSession Score Clock
  do_interpose config s = fall_back (run_pipelines config s)

-- Whether a number is an `int`.
abbrev pub fits : ℤ → Bool
fits i = if ltb_ℤ i (negsuc (2 ^ 31 - 1)) then false else ltb_ℤ i (pos (2 ^ 31))

-- `(int)results.size()`
unfoldable pub to_int : ℕ → ℤ
to_int n = let low = n % 2 ^ 32 in if ltb low (2 ^ 31) then pos low else negsuc (2 ^ 32 - 1 - low)

module _ {A : Type 0} where
  -- The loop over `final_results` from `start_idx` to `end_idx`; none where it reads before the first.
  unfoldable pub read_range : ℤ → ℤ → List A → Option (List A)
  read_range start stop results =
      if ltb_ℤ start stop
      then (if is_negative start
          then none
          else some (take (pos_part stop - pos_part start) (drop (pos_part start) results)))
      else some []

  -- The candidates of the answer of `SetResponse`. None where the source's behaviour is undefined: an
  -- `int` overflows or the loop reads out of range.
  unfoldable pub set_response : ℤ → ℤ → List A → Option (List A)
  set_response page page_size results =
      let before = page +ℤ negsuc 0 in
      let start = before *ℤ page_size in
      let after = start +ℤ page_size in
      let size = to_int (length results) in
      let stop = if ltb_ℤ size after then size else after in
      if fits before
      then (if fits start
          then (if fits after then read_range start stop results else none)
          else none)
      else none
