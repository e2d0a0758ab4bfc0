-- ===== src/Biz/Search/Tests.antt =====
-- Runs of the filters and pages of a search on small inputs.
use mini_search_rec.Prelude.{
  ℕ, suc, ◌≡◌, ◌*◌, ◌⊎◌, refl, Bool, true, false, ltb, leb, List, [], ◌∷◌, ◌++◌, keep, Option, none,
  some, ℤ, pos, arith, Bytes, contains, add_to, bytes_discrete, ℕ_discrete,
}
use mini_search_rec.Framework.Pipeline.{execute}
use mini_search_rec.Framework.Dag.{is_zero}
use mini_search_rec.Index.Tokenizer.{to_lower, is_space, is_punct}
use mini_search_rec.Biz.Search.{
  SearchSession, do_interpose, run_pipelines, fall_back, process, enabled, timed_out, set_response,
  read_range, to_int,
}
use mini_search_rec.Biz.Search.Filters.{
  DocCandidate, Filter, dedup, spam, quality, Floats, should_keep, keep_new, keep_title, repeats,
  upper_count, calc_similarity, jaccard, extract_from, char_length, load_blacklist,
}
use mini_search_rec.Biz.Search.Pages.{pages, set_response-pages, set_response-undefined}
use mini_search_rec.Biz.Search.Interpose.{passes, do_interpose-passes}

-- Thresholds in percent.
abbrev percent : Floats ℕ
percent = record { less = ltb; reaches = λ a b t. leb (t * b) (100 * a) }

abbrev candidate : Bytes → DocCandidate ℕ
candidate title = record {
  doc_id = title;
  title = title;
  content_snippet = title;
  author = [];
  quality_score = 50;
  click_count = pos 0;
}

abbrev found : List (DocCandidate ℕ)
found =
    candidate (b'N' ∷ b'e' ∷ b'w' ∷ [])
    ∷ candidate (b'n' ∷ b'e' ∷ b'w' ∷ b'!' ∷ [])
    ∷ candidate (b'a' ∷ b'a' ∷ b'a' ∷ b'a' ∷ b'a' ∷ [])
    ∷ []

abbrev kept : List (DocCandidate ℕ)
kept = candidate (b'N' ∷ b'e' ∷ b'w' ∷ []) ∷ candidate (b'n' ∷ b'e' ∷ b'w' ∷ b'!' ∷ []) ∷ []

abbrev session : SearchSession ℕ ℕ
session = record {
  coarse_rank_results = found;
  fine_rank_results = found;
  final_results = [];
  clock = 0;
}

abbrev filters : List (Option (Filter ℕ × Bool))
filters =
    some (dedup 90, true) ∷ none ∷ some (spam, true) ∷ some (quality 80 (pos 0) (pos 0), false) ∷ []

abbrev three : List ℕ
three = 1 ∷ 2 ∷ 3 ∷ []

abbrev tick : ℕ → ℕ
tick t = suc t

abbrev late : ℕ → Bool
late t = ltb 9 t

abbrev no_post : ℕ → Bool
no_post p = false

abbrev post : ℕ → SearchSession ℕ ℕ → SearchSession ℕ ℕ × ℤ
post p s = (s, pos 0)

same_titles : calc_similarity (b'N' ∷ b'e' ∷ b'w' ∷ []) (b'n' ∷ b'e' ∷ b'w' ∷ b'!' ∷ []) ≡ (3, 3)
unfolding calc_similarity jaccard extract_from char_length contains add_to to_lower is_space
    is_punct bytes_discrete ℕ_discrete
same_titles = refl

lines_listed : load_blacklist ((b'#' ∷ []) ∷ [] ∷ (b'a' ∷ []) ∷ []) [] ≡ (b'a' ∷ []) ∷ []
unfolding load_blacklist add_to
lines_listed = refl

-- The two equal titles both stay.
duplicates_stay :
    (do_interpose percent tick late no_post post
      (some (record { filters = filters; postprocess = [] }))
      session).final_results
    ≡ kept
unfolding do_interpose run_pipelines fall_back process enabled timed_out execute is_zero should_keep
    keep_new keep_title repeats upper_count
duplicates_stay = refl

second_page : set_response (pos 2) (pos 2) three ≡ some (3 ∷ [])
unfolding set_response read_range to_int
second_page = refl

set_response-pages_example : pages 2 2 three ≡ some three
set_response-pages_example = set_response-pages 2 2 three (omega arith) (omega arith) (omega arith)

set_response-undefined_example : set_response (pos 0) (pos 20) three ≡ none
set_response-undefined_example = set_response-undefined 0 20 three (omega arith) (omega arith)

do_interpose-passes_example :
    let after' =
      do_interpose percent tick late no_post post
        (some (record { filters = filters; postprocess = [] }))
        session in
    (before after : List (Option (Filter ℕ × Bool))) × (filters ≡ before ++ after)
    × (after'.final_results ≡ keep (passes percent before) found)
    × ((after ≡ []) ⊎ (late after'.clock ≡ true))
do_interpose-passes_example =
    do_interpose-passes percent tick late no_post post filters session refl
