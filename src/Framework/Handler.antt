-- ===== src/Framework/Handler.antt =====
-- src/framework/handler/base_handler.h and .cpp: `BaseHandler`, with the parts of
-- src/framework/session/session.h that it reads and writes. The virtual functions are the fields of a
-- record, since a business handler may override each; `Search` is a function of them, and the default
-- bodies are in Handler/Stages. The session carries the steady clock, in nanoseconds.
pub mod Flow
pub mod Interpose
pub mod Stages
pub mod Manager
mod Tests
use mini_search_rec.Prelude.{
  ℕ, zero, ◌-◌, ◌/◌, Bool, true, false, if◌then◌else◌, List, [], ◌∷◌, Option, none, some, insert, ℤ,
  pos, is_negative, Bytes, bytes_discrete,
}
use mini_search_rec.Prelude.Decimal.{decimal}
use mini_search_rec.Framework.Dag.{is_zero}

pub data Action : Type 0 where
  block : Action
  force_top : Action
  boost : Action
  demote : Action

-- A weight is kept as the text that `std::to_string` makes of it.
pub record InterposeRule : Type 0 where
  pub pattern : Bytes
  pub action : Action
  pub position : ℤ
  pub weight : Bytes
  pub reason : Bytes

pub record InterposeFilterRecord : Type 0 where
  pub word : Bytes
  pub reason : Bytes
  pub ext_info : Bytes

-- `Session`; `extra` is what the stages of a business handler keep besides. The entries of `any_store_`
-- that the base class names are fields, and null where the entry is missing.
pub record Session (Extra : Type 0) : Type 0 where
  pub query : Bytes
  pub uid : Bytes
  pub clock : ℕ
  pub begin_time : ℕ
  pub presearch_cost_us : ℕ
  pub search_cost_us : ℕ
  pub rank_cost_us : ℕ
  pub interpose_cost_us : ℕ
  pub response_cost_us : ℕ
  pub total_cost_us : ℕ
  pub retrieve_count : ℕ
  pub ret : ℤ
  pub total : ℤ
  pub items_json : Bytes
  pub kv_store : List (Bytes × Bytes)
  pub interpose_rules : Option (List InterposeRule)
  pub result_words : Option (List Bytes)
  pub interpose_filter_records : Option (List InterposeFilterRecord)
  pub extra : Extra

-- A stage changes the session and returns a code.
abbrev pub Stage : Type 0 → Type 0
Stage Extra = Session Extra → Session Extra × ℤ

-- `session->Set(key, value)`
abbrev pub set : {Extra : Type 0} → Bytes → Bytes → Session Extra → Session Extra
set key value s = record s { kv_store = insert bytes_discrete key value s.kv_store }

-- The virtual functions that `Search` calls, and the switches of `config_`.
pub record Handler (Extra : Type 0) : Type 0 where
  pub skip_search : Bool
  pub skip_rank : Bool
  pub skip_interpose : Bool
  pub init_session : Stage Extra
  pub can_search : Session Extra → Session Extra × Bool
  pub pre_search : Stage Extra
  pub do_search : Stage Extra
  pub before_rank : Stage Extra
  pub do_rank : Stage Extra
  pub rank_fallback : Stage Extra
  pub after_rank : Stage Extra
  pub do_rerank : Stage Extra
  pub do_interpose : Stage Extra
  pub set_response : Stage Extra
  pub report : Session Extra → Session Extra
  pub report_final : Session Extra → Session Extra
  pub before_destruct : Session Extra → Session Extra
  pub empty_resp_no_need_interpose : Session Extra → Bool
  pub set_empty_response : Session Extra → Session Extra

-- `"rerank_cost_us"`
abbrev pub rerank_key : Bytes
rerank_key =
    b'r' ∷ b'e' ∷ b'r' ∷ b'a' ∷ b'n' ∷ b'k' ∷ b'_' ∷ b'c' ∷ b'o' ∷ b's' ∷ b't' ∷ b'_' ∷ b'u' ∷ b's'
    ∷ []

-- A stage between two readings of the clock, whose difference is noted.
abbrev pub timed :
    {Extra : Type 0} → Stage Extra → (ℕ → Session Extra → Session Extra) → Stage Extra
timed stage note s = let r = stage s in (note ((r.0.clock - s.clock) / 1000) r.0, r.1)

abbrev pub note_presearch : {Extra : Type 0} → ℕ → Session Extra → Session Extra
note_presearch c s = record s { presearch_cost_us = c }

abbrev pub note_search : {Extra : Type 0} → ℕ → Session Extra → Session Extra
note_search c s = record s { search_cost_us = c }

abbrev pub note_rank : {Extra : Type 0} → ℕ → Session Extra → Session Extra
note_rank c s = record s { rank_cost_us = c }

abbrev pub note_rerank : {Extra : Type 0} → ℕ → Session Extra → Session Extra
note_rerank c s = set rerank_key (decimal (pos c)) s

abbrev pub note_interpose : {Extra : Type 0} → ℕ → Session Extra → Session Extra
note_interpose c s = record s { interpose_cost_us = c }

abbrev pub note_response : {Extra : Type 0} → ℕ → Session Extra → Session Extra
note_response c s = record s { response_cost_us = c }

module _ {Extra : Type 0} (h : Handler Extra) where
  -- Stage 7 and `Report`
  unfoldable pub respond : Stage Extra
  respond s =
      let r = timed h.set_response note_response s in
      if is_zero r.1 then (h.report r.0, pos 0) else r

  -- From the label `do_interpose` on.
  unfoldable pub from_interpose : Stage Extra
  from_interpose s =
      if h.skip_interpose then respond s else respond (timed h.do_interpose note_interpose s).0

  -- What a rejection by a stage leads to.
  unfoldable pub reject : Stage Extra
  reject s =
      if h.empty_resp_no_need_interpose s then (h.set_empty_response s, pos 0) else from_interpose s

  -- Stage 5, whose code is only logged.
  unfoldable pub from_rerank : Stage Extra
  from_rerank s = from_interpose (timed h.do_rerank note_rerank s).0

  -- `AfterRank`, whose code is only logged.
  unfoldable pub finish_rank : Stage Extra
  finish_rank s = from_rerank (h.after_rank s).0

  -- `DoRank`, its fallback and what follows; `t0` is the clock before `BeforeRank`.
  unfoldable pub rank_and_on : ℕ → Stage Extra
  rank_and_on t0 s =
      let r = h.do_rank s in
      let ranked = note_rank ((r.0.clock - t0) / 1000) r.0 in
      let fallback = h.rank_fallback ranked in
      if is_zero r.1
      then finish_rank ranked
      else if is_zero fallback.1
      then finish_rank fallback.0
      else fallback

  -- The three cases of a stage's code: an error ends the request, a rejection goes to `reject`.
  unfoldable pub on_code : Session Extra × ℤ → Session Extra × ℤ → Session Extra × ℤ
  on_code r next = if is_negative r.1 then r else if is_zero r.1 then next else reject r.0

  unfoldable pub from_rank : Stage Extra
  from_rank s =
      let b = h.before_rank s in
      if h.skip_rank then from_rerank s else on_code b (rank_and_on s.clock b.0)

  unfoldable pub from_search : Stage Extra
  from_search s =
      let r = timed h.do_search note_search s in
      if h.skip_search then from_rank s else on_code r (from_rank r.0)

  -- Stages 1 to 7.
  unfoldable pub stages : Stage Extra
  stages s =
      let c = h.can_search s in
      let p = timed h.pre_search note_presearch c.0 in
      if c.1 then on_code p (from_search p.0) else reject c.0

  -- `Search`; `ScopeGuard` runs on every way out but the first.
  unfoldable pub search : Stage Extra
  search s =
      let i = h.init_session s in
      let r = stages i.0 in if is_zero i.1 then (h.before_destruct (h.report_final r.0), r.1) else i
