-- ===== src/Framework/Handler/Interpose.antt =====
-- `DoInterpose` of `BaseHandler`: what the rules do to the list of words.
use mini_search_rec.Prelude.{
  ℕ, zero, suc, ◌+◌, ◌≤◌, ◌<◌, ◌≡◌, refl, ap, ◌∙◌, Bool, true, inl, inr, ◌⊎◌, List-cases, List, [],
  ◌∷◌, ◌++◌, length, Option, some, pos, negsuc, Bytes, bytes_discrete, arith, ite,
}
use mini_search_rec.Framework.Handler.{
  Session, InterposeRule, InterposeFilterRecord, Action, block, force_top, boost, demote,
}
use mini_search_rec.Framework.Handler.Stages.{
  blocks, remove_blocked, apply_rule, apply_rules, apply_interpose, do_interpose, insert_at,
  insert_position,
}

-- How often a word stands in a list.
unfoldable pub count : Bytes → List Bytes → ℕ
count w [] = 0
count w (x ∷ xs) = ite (bytes_discrete x w) (suc (count w xs)) (count w xs)

-- How often a word has been recorded as removed.
unfoldable pub recorded : Bytes → List InterposeFilterRecord → ℕ
recorded w [] = 0
recorded w (r ∷ rs) = ite (bytes_discrete r.word w) (suc (recorded w rs)) (recorded w rs)

-- How many FORCE_TOP rules put a word in.
unfoldable pub forced : Bytes → List InterposeRule → ℕ
forced w [] = 0
forced w (r ∷ rs) = elim r.action [
  | force_top ↦ ite (bytes_discrete r.pattern w) (suc (forced w rs)) (forced w rs)
  | block ↦ forced w rs
  | boost ↦ forced w rs
  | demote ↦ forced w rs
]

Action-cases : (a : Action) → (a ≡ block) ⊎ (a ≡ force_top) ⊎ (a ≡ boost) ⊎ (a ≡ demote)
Action-cases block = inl refl
Action-cases force_top = inr (inl refl)
Action-cases boost = inr (inr (inl refl))
Action-cases demote = inr (inr (inr refl))

count-insert_at :
    (w x : Bytes) (i : ℕ) (ws : List Bytes) → count w (insert_at i x ws) ≡ count w (x ∷ ws)
unfolding count
count-insert_at w x zero ws = refl
count-insert_at w x (suc i) [] = refl
count-insert_at w x (suc i) (y ∷ ws) = ground (arith, count-insert_at w x i ws)

recorded-append :
    (w : Bytes) (rs qs : List InterposeFilterRecord)
    → recorded w (rs ++ qs) ≡ recorded w rs + recorded w qs
unfolding recorded
recorded-append w [] qs = omega arith
recorded-append w (r ∷ rs) qs = ground (arith, recorded-append w rs qs)

forced_split :
    (w : Bytes) (rule : InterposeRule) (rules : List InterposeRule)
    → forced w (rule ∷ rules) ≡ forced w (rule ∷ []) + forced w rules
unfolding forced
forced_split w rule rules = ground (arith, Action-cases rule.action)

abbrev State : Type 0 → Type 0
State Extra = Session Extra × List Bytes × List InterposeFilterRecord

module _ (regex_search : Bytes → Bytes → Option Bool) where
  count-remove_blocked :
      (w : Bytes) (rule : InterposeRule) (ws : List Bytes)
      → let r = remove_blocked regex_search rule ws in count w r.0 + recorded w r.1 ≡ count w ws
  unfolding count recorded remove_blocked
  count-remove_blocked w rule [] = refl
  count-remove_blocked w rule (x ∷ ws) = ground (arith, count-remove_blocked w rule ws)

  remove_blocked_none :
      (w : Bytes) (rule : InterposeRule) (ws : List Bytes)
      → blocks regex_search rule w ≡ true
      → count w (remove_blocked regex_search rule ws).0 ≡ 0
  unfolding count remove_blocked
  remove_blocked_none w rule [] b = refl
  remove_blocked_none w rule (x ∷ ws) b = elim (bytes_discrete x w) [
    | yes e ↦ rw (ap (blocks regex_search rule) e ∙ b) (remove_blocked_none w rule ws b)
    | no n ↦ ground (arith, remove_blocked_none w rule ws b)
  ]

  module _ {Extra : Type 0} where
    count-apply_rule :
        (w : Bytes) (rule : InterposeRule) (t : State Extra)
        → let r = apply_rule regex_search rule t in
          (count w r.1 + recorded w r.2 ≡ count w t.1 + recorded w t.2 + forced w (rule ∷ []))
          × (recorded w t.2 ≤ recorded w r.2)
    unfolding apply_rule forced count
    count-apply_rule w rule (s, ws, rs) =
        let removed = remove_blocked regex_search rule ws in
        let at = insert_position rule.position (length ws) in
        elim (Action-cases rule.action) [
          | inl e ↦
              ground (arith, e, count-remove_blocked w rule ws, recorded-append w rs removed.1)
          | inr (inl e) ↦ ground (arith, e, count-insert_at w rule.pattern at ws)
          | inr (inr (inl e)) ↦ ground (arith, e)
          | inr (inr (inr e)) ↦ ground (arith, e)
        ]

    count-apply_rules :
        (w : Bytes) (rules : List InterposeRule) (t : State Extra)
        → let r = apply_rules regex_search rules t in
          (count w r.1 + recorded w r.2 ≡ count w t.1 + recorded w t.2 + forced w rules)
          × (recorded w t.2 ≤ recorded w r.2)
    unfolding apply_rules forced
    count-apply_rules w [] t = (omega arith, omega arith)
    count-apply_rules w (rule ∷ rules) t =
        let (a, b) = count-apply_rule w rule t in
        let (c, d) = count-apply_rules w rules (apply_rule regex_search rule t) in
        (omega (arith, a, c, forced_split w rule rules), omega (arith, b, d))

    -- A word that no further FORCE_TOP rule puts in stays away.
    apply_rules_none :
        (w : Bytes) (before after : List InterposeRule) (rule : InterposeRule) (t : State Extra)
        → rule.action ≡ block
        → blocks regex_search rule w ≡ true
        → forced w after ≡ 0
        → count w (apply_rules regex_search (before ++ (rule ∷ after)) t).1 ≡ 0
    unfolding apply_rules apply_rule
    apply_rules_none w [] after rule (s, ws, rs) e b f =
        let u = apply_rule regex_search rule (s, ws, rs) in
        let (c, d) = count-apply_rules w after u in
        ground (arith, c, d, remove_blocked_none w rule ws b)
    apply_rules_none w (r ∷ before) after rule t e b f =
        apply_rules_none w before after rule (apply_rule regex_search r t) e b f

    do_interpose_words :
        (rules : List InterposeRule) (words : List Bytes) (s : Session Extra)
        → s.interpose_rules ≡ some rules
        → s.result_words ≡ some words
        → let r = apply_rules regex_search rules (s, words, []) in
          let t = (do_interpose regex_search s).0 in
          (t.result_words ≡ some r.1) × ((r.2 ≡ []) ⊎ (t.interpose_filter_records ≡ some r.2))
    unfolding do_interpose apply_interpose apply_rules
    do_interpose_words [] words s e f = ground (arith, e, f)
    do_interpose_words (rule ∷ rules) words s e f =
        let r = apply_rules regex_search (rule ∷ rules) (s, words, []) in
        elim (List-cases r.2) [
          | inl z ↦ ground (arith, e, f, z)
          | inr (x, xs, z) ↦ ground (arith, e, f, z)
        ]

-- A rule that blocks a word is final unless a later rule forces the word in: after `DoInterpose` a word
-- that one of the BLOCK rules matches, and that no FORCE_TOP rule after it names, stands nowhere in the
-- list, whatever stood there and whatever the other rules did.
pub do_interpose-blocks :
    {Extra : Type 0} (regex_search : Bytes → Bytes → Option Bool)
    (before after : List InterposeRule) (rule : InterposeRule) (w : Bytes) (words : List Bytes)
    (s : Session Extra)
    → s.interpose_rules ≡ some (before ++ (rule ∷ after))
    → s.result_words ≡ some words
    → rule.action ≡ block
    → blocks regex_search rule w ≡ true
    → forced w after ≡ 0
    → (out : List Bytes) × ((do_interpose regex_search s).0.result_words ≡ some out)
      × (count w out ≡ 0)
do_interpose-blocks regex_search before after rule w words s e f a b n = (
  _,
  (do_interpose_words regex_search (before ++ (rule ∷ after)) words s e f).0,
  apply_rules_none regex_search w before after rule (s, words, []) a b n,
)

-- The moderation neither loses nor invents a word: `DoInterpose` leaves a list and a list of filter
-- records, which the session holds unless it is empty, such that each word stands in the two together as
-- often as it stood in the list before and as FORCE_TOP rules name it.
pub do_interpose-balance :
    {Extra : Type 0} (regex_search : Bytes → Bytes → Option Bool) (rules : List InterposeRule)
    (words : List Bytes) (s : Session Extra)
    → s.interpose_rules ≡ some rules
    → s.result_words ≡ some words
    → let t = (do_interpose regex_search s).0 in
      (out : List Bytes) × (records : List InterposeFilterRecord) × (t.result_words ≡ some out)
      × ((records ≡ []) ⊎ (t.interpose_filter_records ≡ some records))
      × ((w : Bytes) → count w out + recorded w records ≡ count w words + forced w rules)
unfolding recorded
do_interpose-balance regex_search rules words s e f =
    let (a, b) = do_interpose_words regex_search rules words s e f in
    (_, _, a, b, (λ w. omega (arith, (count-apply_rules regex_search w rules (s, words, [])).0)))

-- "-1 means to append", the comment on `InterposeRule::position` says: a FORCE_TOP rule at -1, or at any
-- other place outside the list, puts its word at the front, before all others.
pub do_interpose-front :
    {Extra : Type 0} (regex_search : Bytes → Bytes → Option Bool) (rule : InterposeRule) (n : ℕ)
    (words : List Bytes) (s : Session Extra)
    → s.interpose_rules ≡ some (rule ∷ [])
    → s.result_words ≡ some words
    → rule.action ≡ force_top
    → (rule.position ≡ negsuc n) ⊎ ((rule.position ≡ pos n) × (length words < n))
    → (do_interpose regex_search s).0.result_words ≡ some (rule.pattern ∷ words)
unfolding apply_rules apply_rule
do_interpose-front regex_search rule n words s e f a p =
    (do_interpose_words regex_search (rule ∷ []) words s e f).0 ∙ ground (arith, a, p)
