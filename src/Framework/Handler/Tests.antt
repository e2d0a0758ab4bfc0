-- ===== src/Framework/Handler/Tests.antt =====
-- `BaseHandler`, `HandlerManager` and `SessionFactory` on small requests and configurations.
use mini_search_rec.Prelude.{
  ℕ, ◌+◌, ◌≡◌, ◌↔◌, ◌⊎◌, inl, inr, refl, Bool, true, false, not, List, [], ◌∷◌, Option, none, some,
  find, insert, ℤ, pos, negsuc, Bytes, bytes_discrete, ℕ_discrete, All,
}
use mini_search_rec.Framework.Handler.{
  Session, Stage, Handler, InterposeRule, InterposeFilterRecord, block, force_top, search, stages,
  from_search, on_code, reject,
}
use mini_search_rec.Framework.Handler.Stages.{
  can_search, common_pre_search, note_total, set_empty_response, do_interpose, blocks, merge_recall,
  common_do_search, both, rank_output,
}
use mini_search_rec.Framework.Handler.Flow.{search-Moderates, Moderates, Fits}
use mini_search_rec.Framework.Handler.Interpose.{
  count, recorded, forced, do_interpose-blocks, do_interpose-balance,
}
use mini_search_rec.Framework.Handler.Manager.{
  BusinessConfig, Manager, init, init_loop, init_one, init_handler, handler_init, get_singleton,
  create_session, has_session, get_all_business_types, read_entries, init_from_config,
}
use mini_search_rec.Framework.Handler.Manager.Routes.{Cached, Good, init-Good}

abbrev apple : Bytes
apple = b'a' ∷ []

abbrev banana : Bytes
banana = b'b' ∷ []

abbrev idle : Stage Bool
idle s = (s, pos 0)

-- The base class, with a moderation that leaves a mark; `DoSearch` rejects.
abbrev base : Handler Bool
base = record {
  skip_search = false;
  skip_rank = false;
  skip_interpose = false;
  init_session = idle;
  can_search = can_search (λ s. (s, true));
  pre_search = both common_pre_search idle;
  do_search = λ s. (s, pos 1);
  before_rank = idle;
  do_rank = idle;
  rank_fallback = idle;
  after_rank = idle;
  do_rerank = idle;
  do_interpose = λ s. (record s { extra = true }, pos 0);
  set_response = idle;
  report = λ s. s;
  report_final = note_total;
  before_destruct = note_total;
  empty_resp_no_need_interpose = λ s. not s.extra;
  set_empty_response = set_empty_response;
}

abbrev no_rules : Option (List InterposeRule)
no_rules = none

-- A request for apples, with the words of its result.
abbrev request : Option (List InterposeRule) → Session Bool
request rules = record {
  query = apple;
  uid = [];
  clock = 0;
  begin_time = 0;
  presearch_cost_us = 0;
  search_cost_us = 0;
  rank_cost_us = 0;
  interpose_cost_us = 0;
  response_cost_us = 0;
  total_cost_us = 0;
  retrieve_count = 0;
  ret = pos 0;
  total = pos 0;
  items_json = [];
  kv_store = [];
  interpose_rules = rules;
  result_words = some (apple ∷ banana ∷ []);
  interpose_filter_records = none;
  extra = false;
}

abbrev Fit : Bytes → Option (List Bytes) → Bool → Type 0
Fit json words marked = (marked ≡ true) ⊎ (json ≡ b'[' ∷ b']' ∷ [])

base-Moderates : Moderates Fit base
unfolding note_total set_empty_response
base-Moderates = record {
  moderated = refl;
  interposed = λ s. inl refl;
  emptied = λ s. inr refl;
  kept_by_response = λ s f. f;
  kept_by_report = λ s f. f;
  kept_by_report_final = λ s f. f;
  kept_by_before_destruct = λ s f. f;
}

search_ok : (search base (request none)).1 ≡ pos 0
unfolding search stages from_search on_code reject both common_pre_search can_search
search_ok = refl

search-Moderates_example : Fits Fit (search base (request none)).0
search-Moderates_example = search-Moderates Fit base (request none) base-Moderates refl search_ok

abbrev no_regex : Bytes → Bytes → Option Bool
no_regex word pattern = none

abbrev block_apple : InterposeRule
block_apple = record {
  pattern = apple;
  action = block;
  position = negsuc 0;
  weight = [];
  reason = [];
}

abbrev force_banana : InterposeRule
force_banana = record block_apple { pattern = banana; action = force_top }

apple_blocked : blocks no_regex block_apple apple ≡ true
unfolding blocks bytes_discrete ℕ_discrete
apple_blocked = refl

not_forced : forced apple (force_banana ∷ []) ≡ 0
unfolding forced bytes_discrete ℕ_discrete
not_forced = refl

abbrev moderated : Session Bool
moderated = request (some (block_apple ∷ force_banana ∷ []))

do_interpose-blocks_example :
    (out : List Bytes) × ((do_interpose no_regex moderated).0.result_words ≡ some out)
    × (count apple out ≡ 0)
do_interpose-blocks_example =
    do_interpose-blocks no_regex [] (force_banana ∷ []) block_apple apple (apple ∷ banana ∷ [])
      moderated refl refl refl apple_blocked not_forced

do_interpose-balance_example :
    (out : List Bytes) × (records : List InterposeFilterRecord) × ((do_interpose no_regex
        moderated).0.result_words
      ≡ some out)
    × ((records ≡ [])
        ⊎ ((do_interpose no_regex moderated).0.interpose_filter_records ≡ some records))
    × ((w : Bytes)
        → count w out + recorded w records
          ≡ count w (apple ∷ banana ∷ []) + forced w (block_apple ∷ force_banana ∷ []))
do_interpose-balance_example =
    do_interpose-balance no_regex (block_apple ∷ force_banana ∷ []) (apple ∷ banana ∷ []) moderated
      refl refl

-- Recall outputs of 2 and 3 items are counted, and an error of the pipeline is passed on.
recall_counts :
    ((common_do_search (some (λ s. (s, 2 ∷ 3 ∷ [], pos 0))) (request none)).0.retrieve_count ≡ 5)
    × ((common_do_search (some (λ s. (s, [], negsuc 0))) (request none)).1 ≡ negsuc 0)
unfolding common_do_search merge_recall
recall_counts = (refl, refl)

rank_output_cut : rank_output (λ xs. xs) (some (pos 1)) (apple ∷ banana ∷ []) ≡ apple ∷ []
unfolding rank_output
rank_output_cut = refl

abbrev sug : BusinessConfig
sug = record {
  business_type = b's' ∷ [];
  handler_name = b'H' ∷ [];
  session_name = b'S' ∷ [];
  skip_search = false;
  skip_rank = false;
  skip_interpose = false;
  extra_config = [];
}

abbrev nav : BusinessConfig
nav = record sug { business_type = b'n' ∷ [] }

abbrev creators : List (Bytes × ℕ)
creators = (b'H' ∷ [], 7) ∷ []

abbrev started : ℕ → BusinessConfig → ℤ
started a c = pos 0

abbrev fresh : Manager
fresh = record {
  singletons = [];
  config_of = [];
  handler_map = [];
  configs = [];
  type_session_map = [];
}

fresh-Cached : Cached creators started fresh
unfolding find
fresh-Cached name a e = (cc)

init-Good_example :
    ((init creators started (sug ∷ nav ∷ []) fresh).1 ≡ pos 0)
    ↔ All (Good creators started) (sug ∷ nav ∷ [])
init-Good_example = init-Good creators started (sug ∷ nav ∷ []) fresh fresh-Cached

init_ok : (init creators started (sug ∷ nav ∷ []) fresh).1 ≡ pos 0
unfolding init init_loop init_one init_handler handler_init get_singleton find insert bytes_discrete
    ℕ_discrete
init_ok = refl

-- Without a configuration of its own a business gets the default session.
sessions :
    let m = (init_from_config creators started (some (some (sug ∷ []))) fresh).0 in
    (create_session ((b'S' ∷ [], banana) ∷ []) apple (b's' ∷ []) m ≡ banana)
    × (create_session ((b'S' ∷ [], banana) ∷ []) apple (b'n' ∷ []) m ≡ apple)
    × (has_session (b'n' ∷ []) m ≡ false)
    × (get_all_business_types m ≡ (b's' ∷ []) ∷ [])
unfolding init_from_config read_entries create_session has_session get_all_business_types init
    init_loop init_one init_handler handler_init get_singleton find insert bytes_discrete ℕ_discrete
sessions = (refl, refl, refl, refl)
