-- ===== src/Framework/Handler/Stages.antt =====
-- The default bodies of the stages of `BaseHandler`. `std::regex` is a parameter, and so are the virtual
-- functions that a default body calls, the recall pipeline, the rank engine and `std::sort`.
use mini_search_rec.Prelude.{
  ℕ, zero, suc, ◌+◌, ◌-◌, ◌/◌, Bool, true, false, ◌&&◌, if◌then◌else◌, leb, List, [], ◌∷◌, ◌++◌,
  length, take, Option, none, some, ℤ, pos, negsuc, Bytes, bytes_discrete, ite,
}
use mini_search_rec.Framework.Dag.{is_zero}
use mini_search_rec.Framework.Handler.{
  Session, Stage, set, InterposeRule, InterposeFilterRecord, block, force_top, boost, demote,
}

-- `"BLOCKED"`
abbrev pub blocked : Bytes
blocked = b'B' ∷ b'L' ∷ b'O' ∷ b'C' ∷ b'K' ∷ b'E' ∷ b'D' ∷ []

-- `"interpose_"`
abbrev interpose_prefix : Bytes
interpose_prefix = b'i' ∷ b'n' ∷ b't' ∷ b'e' ∷ b'r' ∷ b'p' ∷ b'o' ∷ b's' ∷ b'e' ∷ b'_' ∷ []

-- `"interpose_boost_"`
abbrev boost_prefix : Bytes
boost_prefix = interpose_prefix ++ (b'b' ∷ b'o' ∷ b'o' ∷ b's' ∷ b't' ∷ b'_' ∷ [])

-- `"interpose_demote_"`
abbrev demote_prefix : Bytes
demote_prefix = interpose_prefix ++ (b'd' ∷ b'e' ∷ b'm' ∷ b'o' ∷ b't' ∷ b'e' ∷ b'_' ∷ [])

-- `"ab_experiment"`
abbrev ab_experiment : Bytes
ab_experiment =
    b'a' ∷ b'b' ∷ b'_' ∷ b'e' ∷ b'x' ∷ b'p' ∷ b'e' ∷ b'r' ∷ b'i' ∷ b'm' ∷ b'e' ∷ b'n' ∷ b't' ∷ []

-- The place of a word that is forced in: the rule's, if it is one of the list's, else the front.
abbrev pub insert_position : ℤ → ℕ → ℕ
insert_position (pos p) n = if leb p n then p else 0
insert_position (negsuc p) n = 0

-- `result_words->insert(begin() + pos, word)`
abbrev pub insert_at : ℕ → Bytes → List Bytes → List Bytes
insert_at zero w ws = w ∷ ws
insert_at (suc i) w [] = w ∷ []
insert_at (suc i) w (x ∷ ws) = x ∷ insert_at i w ws

-- `std::regex_search(word, std::regex(pattern))`, and none where it throws.
module _ (regex_search : Bytes → Bytes → Option Bool) where
  -- The test of a BLOCK rule.
  unfoldable pub blocks : InterposeRule → Bytes → Bool
  blocks rule word = ite (bytes_discrete word rule.pattern) true (elim rule.pattern [
    | [] ↦ false
    | c ∷ cs ↦ elim (regex_search word (c ∷ cs)) [ none ↦ false | some match ↦ match ]
  ])

  -- `remove_if` and `erase`: the words that stay, and the records of the others.
  unfoldable pub remove_blocked :
      InterposeRule → List Bytes → List Bytes × List InterposeFilterRecord
  remove_blocked rule [] = ([], [])
  remove_blocked rule (w ∷ ws) =
      let rest = remove_blocked rule ws in
      if blocks rule w
      then (rest.0, record { word = w; reason = blocked; ext_info = rule.reason } ∷ rest.1)
      else (w ∷ rest.0, rest.1)

  module _ {Extra : Type 0} where
    -- One rule: the session, the words and the records.
    unfoldable pub apply_rule :
        InterposeRule
        → Session Extra × List Bytes × List InterposeFilterRecord
        → Session Extra × List Bytes × List InterposeFilterRecord
    apply_rule rule (s, words, records) = elim rule.action [
      | block ↦ let r = remove_blocked rule words in (s, r.0, records ++ r.1)
      | force_top ↦
          (s, insert_at (insert_position rule.position (length words)) rule.pattern words, records)
      | boost ↦ (set (boost_prefix ++ rule.pattern) rule.weight s, words, records)
      | demote ↦ (set (demote_prefix ++ rule.pattern) rule.weight s, words, records)
    ]

    -- The loop over the rules.
    unfoldable pub apply_rules :
        List InterposeRule
        → Session Extra × List Bytes × List InterposeFilterRecord
        → Session Extra × List Bytes × List InterposeFilterRecord
    apply_rules [] t = t
    apply_rules (rule ∷ rules) t = apply_rules rules (apply_rule rule t)

    -- `if (!filter_records.empty()) session->SetAny(...)`
    abbrev save_records : List InterposeFilterRecord → Session Extra → Session Extra
    save_records [] s = s
    save_records (r ∷ rs) s = record s { interpose_filter_records = some (r ∷ rs) }

    -- `ApplyInterpose`
    unfoldable pub apply_interpose : List InterposeRule → Session Extra → Session Extra
    apply_interpose rules s = elim s.result_words [
      | none ↦ s
      | some words ↦
          let r = apply_rules rules (s, words, []) in
          save_records r.2 (record r.0 { result_words = some r.1 })
    ]

    -- `DoInterpose` with `GetInterposeRules`; `FilterInterposeOutput` does nothing.
    unfoldable pub do_interpose : Stage Extra
    do_interpose s = elim s.interpose_rules [
      | none ↦ (s, pos 0)
      | some [] ↦ (s, pos 0)
      | some (rule ∷ rules) ↦ (apply_interpose (rule ∷ rules) s, pos 0)
    ]

-- `total`
abbrev pub sum_counts : List ℕ → ℕ
sum_counts [] = 0
sum_counts (n ∷ ns) = n + sum_counts ns

module _ {Extra : Type 0} where
  -- `CanSearch`
  unfoldable pub can_search :
      (Session Extra → Session Extra × Bool) → Session Extra → Session Extra × Bool
  can_search interpose_check_query s =
      let c = interpose_check_query s in
      (c.0, c.1 && (elim c.0.query [ [] ↦ false | b ∷ bs ↦ true ]))

  -- `CommonPreSearch`
  unfoldable pub common_pre_search : Stage Extra
  common_pre_search s = (elim s.uid [ [] ↦ s | b ∷ bs ↦ set ab_experiment [] s ], pos 0)

  -- `PreSearch`, `DoSearch`, `DoRank` and `SetResponse`: a common stage, and another if that returns 0.
  unfoldable pub both : Stage Extra → Stage Extra → Stage Extra
  both common more s = let r = common s in if is_zero r.1 then more r.0 else r

  -- `MergeRecall`; the sum is an `int`, which the sizes of the outputs are too small to overflow.
  unfoldable pub merge_recall : List ℕ → Stage Extra
  merge_recall counts s = (record s { retrieve_count = sum_counts counts }, pos 0)

  -- `CommonDoSearch`: the pipeline is none where there is no configuration or no node; it returns the
  -- sizes of its outputs and a code.
  unfoldable pub common_do_search :
      Option (Session Extra → Session Extra × List ℕ × ℤ) → Stage Extra
  common_do_search none s = (s, pos 0)
  common_do_search (some execute) s =
      let r = execute s in if is_zero r.2 then merge_recall r.1 r.0 else (r.0, r.2)

  -- `ReportFinal` and `BeforeDestruct`, which also write to the log.
  unfoldable pub note_total : Session Extra → Session Extra
  note_total s = record s { total_cost_us = (s.clock - s.begin_time) / 1000 }

  -- `SetEmptyResponse`
  unfoldable pub set_empty_response : Session Extra → Session Extra
  set_empty_response s = record s { ret = pos 0; total = pos 0; items_json = b'[' ∷ b']' ∷ [] }

  module _ {Item Processors : Type 0} (build_rank_input : Session Extra → List Item)
      (apply_rank_output : List Item → Session Extra → Session Extra)
      (stage_config : Option (List Processors)) (score : List Processors → List Item → List Item)
      (after : Stage Extra) where
    -- `CommonDoRank` and `CommonDoRerank`, with the processors of the stage and what follows.
    unfoldable pub common_do_rank : Stage Extra
    common_do_rank s = elim (build_rank_input s) [
      | [] ↦ (s, pos 0)
      | i ∷ is ↦ elim stage_config [
        | none ↦ (s, pos 0)
        | some [] ↦ (s, pos 0)
        | some (p ∷ ps) ↦ after (apply_rank_output (score (p ∷ ps) (i ∷ is)) s)
      ]
    ]

-- `ApplyRankOutput` up to its `SetAny`: at most `top_k` items, by default 20.
unfoldable pub rank_output :
    {Item : Type 0} → (List Item → List Item) → Option ℤ → List Item → List Item
rank_output sort none items = take 20 (sort items)
rank_output sort (some (pos zero)) items = take 20 (sort items)
rank_output sort (some (pos (suc n))) items = take (suc n) (sort items)
rank_output sort (some (negsuc n)) items = take 20 (sort items)
