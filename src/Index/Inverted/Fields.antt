-- ===== src/Index/Inverted/Fields.antt =====
-- What the fields of a document bring into the index.
use mini_search_rec.Prelude.{
  ℕ, ◌≡◌, ◌≢◌, refl, ◌∙◌, Bool, false, ◌||◌, List, [], ◌∷◌, arith, Bytes, bytes_discrete, contains,
}
use mini_search_rec.Index.Tokenizer.{tokenize}
use mini_search_rec.Index.Inverted.{
  PostingNode, Document, add_fields, add_tags, add_tokens, title_weight, content_weight, tag_weight,
  category_weight,
}
use mini_search_rec.Index.Inverted.Postings.{
  has, posting, Matches, add_tokens-Matches, posting-add_tokens_other, contains-add_tokens,
}

-- Whether a token is in one of the tags.
unfoldable pub in_tags : Bytes → List Bytes → Bool
in_tags t [] = false
in_tags t (tag ∷ tags) = contains bytes_discrete t (tokenize tag) || in_tags t tags

-- Whether a token is in one of the fields of the document that are indexed.
unfoldable pub in_document : Bytes → Document → Bool
in_document t d =
    (contains bytes_discrete t (tokenize d.title) || contains bytes_discrete t (tokenize d.content))
    || in_tags t d.tags
    || (elim d.category [ [] ↦ false | c ∷ cs ↦ contains bytes_discrete t (tokenize d.category) ])

add_tags-Matches :
    (d : Bytes) (len : ℕ) (tags : List Bytes) (s : List (Bytes × List PostingNode) × List Bytes)
    → Matches d s
    → Matches d (add_tags d len tags s)
unfolding add_tags
add_tags-Matches d len [] s m = m
add_tags-Matches d len (tag ∷ tags) s m =
    add_tags-Matches d len tags (add_tokens d len tag_weight (tokenize tag) s)
      (add_tokens-Matches d len tag_weight (tokenize tag) s m)

posting-add_tags_other :
    (d : Bytes) (len : ℕ) (tags : List Bytes) (t j : Bytes)
    (s : List (Bytes × List PostingNode) × List Bytes)
    → d ≢ j
    → posting t j (add_tags d len tags s).0 ≡ posting t j s.0
unfolding add_tags
posting-add_tags_other d len [] t j s h = refl
posting-add_tags_other d len (tag ∷ tags) t j s h =
    posting-add_tags_other d len tags t j (add_tokens d len tag_weight (tokenize tag) s) h
    ∙ posting-add_tokens_other d len tag_weight (tokenize tag) t j s h

contains-add_tags :
    (d : Bytes) (len : ℕ) (tags : List Bytes) (t : Bytes)
    (s : List (Bytes × List PostingNode) × List Bytes)
    → contains bytes_discrete t (add_tags d len tags s).1
      ≡ contains bytes_discrete t s.1 || in_tags t tags
unfolding add_tags in_tags
contains-add_tags d len [] t s = ground arith
contains-add_tags d len (tag ∷ tags) t s = ground (
  arith,
  contains-add_tags d len tags t (add_tokens d len tag_weight (tokenize tag) s),
  contains-add_tokens d len tag_weight (tokenize tag) t s,
)

module _ (d : Document) (len : ℕ) (ix : List (Bytes × List PostingNode)) where
  abbrev after_title : List (Bytes × List PostingNode) × List Bytes
  after_title = add_tokens d.doc_id len title_weight (tokenize d.title) (ix, [])

  abbrev after_content : List (Bytes × List PostingNode) × List Bytes
  after_content = add_tokens d.doc_id len content_weight (tokenize d.content) after_title

  abbrev after_tags : List (Bytes × List PostingNode) × List Bytes
  after_tags = add_tags d.doc_id len d.tags after_content

  pub add_fields-Matches :
      ((t : Bytes) → has t d.doc_id ix ≡ false) → Matches d.doc_id (add_fields d len ix)
  unfolding add_fields contains
  add_fields-Matches clean =
      let id = d.doc_id in
      let m1 = add_tokens-Matches id len title_weight (tokenize d.title) (ix, []) clean in
      let m2 = add_tokens-Matches id len content_weight (tokenize d.content) after_title m1 in
      let m3 = add_tags-Matches id len d.tags after_content m2 in
      let m4 = add_tokens-Matches id len category_weight (tokenize d.category) after_tags m3 in
      (λ t. ground (arith, m3 t, m4 t))

  pub posting-add_fields_other :
      (t j : Bytes) → d.doc_id ≢ j → posting t j (add_fields d len ix).0 ≡ posting t j ix
  unfolding add_fields
  posting-add_fields_other t j h =
      let id = d.doc_id in
      ground (
        arith,
        posting-add_tokens_other id len title_weight (tokenize d.title) t j (ix, []) h,
        posting-add_tokens_other id len content_weight (tokenize d.content) t j after_title h,
        posting-add_tags_other id len d.tags t j after_content h,
        posting-add_tokens_other id len category_weight (tokenize d.category) t j after_tags h,
      )

  pub contains-add_fields :
      (t : Bytes) → contains bytes_discrete t (add_fields d len ix).1 ≡ in_document t d
  unfolding add_fields in_document contains
  contains-add_fields t =
      let id = d.doc_id in
      ground (
        arith,
        contains-add_tokens id len title_weight (tokenize d.title) t (ix, []),
        contains-add_tokens id len content_weight (tokenize d.content) t after_title,
        contains-add_tags id len d.tags t after_content,
        contains-add_tokens id len category_weight (tokenize d.category) t after_tags,
      )
