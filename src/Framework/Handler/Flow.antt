-- ===== src/Framework/Handler/Flow.antt =====
-- `BaseHandler::Search`: what its ways out have in common.
use mini_search_rec.Prelude.{
  ℕ, zero, suc, ◌-◌, ◌/◌, ◌≡◌, refl, Bool, true, false, List, Option, ℤ, pos, negsuc, is_negative,
  Bytes, arith, if◌then◌else◌,
}
use mini_search_rec.Framework.Dag.{is_zero}
use mini_search_rec.Framework.Handler.{
  Session, Handler, timed, note_presearch, note_search, note_rank, note_rerank, note_interpose,
  note_response, respond, from_interpose, reject, from_rerank, finish_rank, rank_and_on, on_code,
  from_rank, from_search, stages, search,
}

abbrev pub IsPositive : ℤ → Type 0
IsPositive (pos zero) = ⊥
IsPositive (pos (suc n)) = Unit {0}
IsPositive (negsuc n) = ⊥

-- A property of a session's response and of what it may be made of.
module _ {Extra : Type 0} (Fit : Bytes → Option (List Bytes) → Extra → Type 0) where
  abbrev pub Fits : Session Extra → Type 0
  Fits s = Fit s.items_json s.result_words s.extra

  -- What a handler's stages promise of it: the moderation and an empty response establish it, and the
  -- stages behind the moderation keep it.
  pub record Moderates (h : Handler Extra) : Type 0 where
    pub moderated : h.skip_interpose ≡ false
    pub interposed : (s : Session Extra) → Fits (h.do_interpose s).0
    pub emptied : (s : Session Extra) → Fits (h.set_empty_response s)
    pub kept_by_response : (s : Session Extra) → Fits s → Fits (h.set_response s).0
    pub kept_by_report : (s : Session Extra) → Fits s → Fits (h.report s)
    pub kept_by_report_final : (s : Session Extra) → Fits s → Fits (h.report_final s)
    pub kept_by_before_destruct : (s : Session Extra) → Fits s → Fits (h.before_destruct s)

  -- A stage's result is fit, or its code tells of an error.
  abbrev Good : Session Extra × ℤ → Type 0
  Good r = r.1 ≡ pos 0 → Fits r.0

  Good-if :
      (b : Bool) (x y : Session Extra × ℤ)
      → (b ≡ true → Good x)
      → (b ≡ false → Good y)
      → Good (if b then x else y)
  Good-if true x y f g = f refl
  Good-if false x y f g = g refl

  not_zero : (r : Session Extra × ℤ) → is_zero r.1 ≡ false → Good r
  not_zero r e z = absurd (ground (arith, e, z))

  negative : (r : Session Extra × ℤ) → is_negative r.1 ≡ true → Good r
  negative (s, pos n) e z = absurd (ground (arith, e))
  negative (s, negsuc n) e z = absurd (ground (arith, z))

  module _ (h : Handler Extra) (m : Moderates h) where
    respond-Good : (s : Session Extra) → Fits s → Good (respond h s)
    unfolding respond
    respond-Good s f =
        let r = timed h.set_response note_response s in
        Good-if (is_zero r.1) _ _ (λ e z. m.kept_by_report r.0 (m.kept_by_response s f))
          (not_zero r)

    from_interpose-Good : (s : Session Extra) → Good (from_interpose h s)
    unfolding from_interpose
    from_interpose-Good s =
        Good-if h.skip_interpose _ _ (λ e. absurd (ground (arith, e, m.moderated)))
          (λ e. respond-Good (timed h.do_interpose note_interpose s).0 (m.interposed s))

    reject-Good : (s : Session Extra) → Good (reject h s)
    unfolding reject
    reject-Good s =
        Good-if (h.empty_resp_no_need_interpose s) _ _ (λ e z. m.emptied s)
          (λ e. from_interpose-Good s)

    on_code-Good : (r next : Session Extra × ℤ) → Good next → Good (on_code h r next)
    unfolding on_code
    on_code-Good r next g =
        Good-if (is_negative r.1) _ _ (negative r)
          (λ e. Good-if (is_zero r.1) _ _ (λ e. g) (λ e. reject-Good r.0))

    from_rerank-Good : (s : Session Extra) → Good (from_rerank h s)
    unfolding from_rerank
    from_rerank-Good s = from_interpose-Good (timed h.do_rerank note_rerank s).0

    finish_rank-Good : (s : Session Extra) → Good (finish_rank h s)
    unfolding finish_rank
    finish_rank-Good s = from_rerank-Good (h.after_rank s).0

    rank_and_on-Good : (t0 : ℕ) (s : Session Extra) → Good (rank_and_on h t0 s)
    unfolding rank_and_on
    rank_and_on-Good t0 s =
        let r = h.do_rank s in
        let ranked = note_rank ((r.0.clock - t0) / 1000) r.0 in
        let fallback = h.rank_fallback ranked in
        Good-if (is_zero (h.do_rank s).1) _ _ (λ e. finish_rank-Good ranked)
          (λ e.
            Good-if (is_zero fallback.1) _ _ (λ e. finish_rank-Good fallback.0) (not_zero fallback))

    from_rank-Good : (s : Session Extra) → Good (from_rank h s)
    unfolding from_rank
    from_rank-Good s =
        Good-if h.skip_rank _ _ (λ e. from_rerank-Good s)
          (λ e. on_code-Good (h.before_rank s) _ (rank_and_on-Good s.clock (h.before_rank s).0))

    from_search-Good : (s : Session Extra) → Good (from_search h s)
    unfolding from_search
    from_search-Good s =
        Good-if h.skip_search _ _ (λ e. from_rank-Good s)
          (λ e. let r = timed h.do_search note_search s in on_code-Good r _ (from_rank-Good r.0))

    stages-Good : (s : Session Extra) → Good (stages h s)
    unfolding stages
    stages-Good s =
        let c = h.can_search s in
        let p = timed h.pre_search note_presearch c.0 in
        Good-if (h.can_search s).1 _ _ (λ e. on_code-Good p _ (from_search-Good p.0))
          (λ e. reject-Good c.0)

-- No answer gets round the moderation. Let a property of a session hold after `DoInterpose` and after
-- `SetEmptyResponse`, and be kept by the stages behind them, and let the business not skip the
-- moderation. Then it holds of the final session whenever `Search` returns 0, whichever stages rejected
-- the request, failed or were skipped by configuration, if `InitSession` returned 0.
pub search-Moderates :
    {Extra : Type 0} (Fit : Bytes → Option (List Bytes) → Extra → Type 0) (h : Handler Extra)
    (s : Session Extra)
    → Moderates Fit h
    → (h.init_session s).1 ≡ pos 0
    → (search h s).1 ≡ pos 0
    → Fits Fit (search h s).0
unfolding search
search-Moderates Fit h s m i = rw i (λ z.
    m.kept_by_before_destruct (h.report_final (stages h (h.init_session s).0).0) (
      m.kept_by_report_final (stages h (h.init_session s).0).0
        (stages-Good Fit h m (h.init_session s).0 z)))
