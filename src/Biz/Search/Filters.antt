-- ===== src/Biz/Search/Filters.antt =====
-- src/lib/filter/: `ShouldKeep` of the four filters. Of the session they read `final_results` only.
use mini_search_rec.Prelude.{
  ℕ, zero, suc, ◌+◌, ◌*◌, ◌-◌, Bool, true, false, not, ◌&&◌, ◌||◌, if◌then◌else◌, ltb, leb, ◌==◌,
  List, [], ◌∷◌, ◌++◌, length, take, keep, ℤ, pos, ltb_ℤ, Bytes, bytes_discrete, contains, add_to,
}
use mini_search_rec.Index.Tokenizer.{to_lower, is_space, is_punct}

-- The fields of `DocCandidate` that the filters read.
pub record DocCandidate (Score : Type 0) : Type 0 where
  pub doc_id : Bytes
  pub title : Bytes
  pub content_snippet : Bytes
  pub author : Bytes
  pub quality_score : Score
  pub click_count : ℤ

-- A filter with the fields that `Init` sets.
pub data Filter (Score : Type 0) : Type 0 where
  -- similarity_threshold_
  dedup : Score → Filter Score
  -- min_quality_score_, min_click_count_ and min_content_length_
  quality : Score → ℤ → ℤ → Filter Score
  -- `spam_threshold_`, which `ShouldKeep` does not read, is left out
  spam : Filter Score
  -- blacklist_ids_
  blacklist : List Bytes → Filter Score

-- `float`: the order, and whether the quotient of two sizes reaches a threshold
pub record Floats (Score : Type 0) : Type 0 where
  pub less : Score → Score → Bool
  pub reaches : ℕ → ℕ → Score → Bool

-- How many bytes a character takes that starts with the byte `c` of at least 0xC0 or below 0xC0.
unfoldable pub char_length : ℕ → ℕ
char_length c = if leb 0xF0 c then 4 else (if leb 0xE0 c then 3 else (if leb 0xC0 c then 2 else 1))

-- `extract_chars` over the bytes that are left, `skip` of them taken already: the characters, ASCII
-- letters in lower case, without spaces and punctuation.
unfoldable pub extract_from : ℕ → Bytes → List Bytes → List Bytes
extract_from skip [] chars = chars
extract_from (suc skip) (c ∷ cs) chars = extract_from skip cs chars
extract_from zero (c ∷ cs) chars =
    let n = char_length c in
    let skipped = extract_from 0 cs chars in
    let ascii = extract_from 0 cs (add_to bytes_discrete (to_lower c ∷ []) chars) in
    let wide = extract_from (n - 1) cs (add_to bytes_discrete (take n (c ∷ cs)) chars) in
    let cut = extract_from (n - 1) cs chars in
    if leb 0xC0 c
    then (if leb n (length (c ∷ cs)) then wide else cut)
    else (if is_space c || is_punct c then skipped else ascii)

abbrev pub extract_chars : Bytes → List Bytes
extract_chars s = extract_from 0 s []

-- The sizes of the intersection and of the union of two sets.
unfoldable pub jaccard : List Bytes → List Bytes → ℕ × ℕ
jaccard a b =
    let both = length (keep (λ x. contains bytes_discrete x b) a) in
    (both, length a + length b - both)

-- `CalcSimilarity`, as a fraction
unfoldable pub calc_similarity : Bytes → Bytes → ℕ × ℕ
calc_similarity [] [] = (1, 1)
calc_similarity [] (c ∷ cs) = (0, 1)
calc_similarity (c ∷ cs) [] = (0, 1)
calc_similarity (c ∷ cs) (d ∷ ds) = elim (extract_chars (c ∷ cs)) [
  | [] ↦ (0, 1)
  | a ∷ as' ↦ elim (extract_chars (d ∷ ds)) [ [] ↦ (0, 1) | b ∷ bs ↦ jaccard (a ∷ as') (b ∷ bs) ]
]

-- The number of bytes at the front that equal `first`.
unfoldable pub repeats : ℕ → Bytes → ℕ
repeats first [] = 0
repeats first (c ∷ cs) = let rest = repeats first cs in if c == first then 1 + rest else 0

unfoldable pub upper_count : Bytes → ℕ
upper_count cs = length (keep (λ c. leb b'A' c && leb c b'Z') cs)

-- `SpamFilterProcessor::ShouldKeep` of a title. For sizes below 2^31 the comparison with the double
-- `size * 0.8` is that with four fifths of the size.
unfoldable pub keep_title : Bytes → Bool
keep_title [] = false
keep_title (c ∷ cs) =
    let size = length (c ∷ cs) in
    if leb 5 size && leb 5 (repeats c (c ∷ cs))
    then false
    else not (ltb 5 size && ltb (4 * size) (5 * upper_count (c ∷ cs)))

-- "author:"
abbrev author_prefix : Bytes
author_prefix = b'a' ∷ b'u' ∷ b't' ∷ b'h' ∷ b'o' ∷ b'r' ∷ b':' ∷ []

module _ {Score : Type 0} (F : Floats Score) where
  -- `DedupFilterProcessor::ShouldKeep` against the candidates that were kept
  unfoldable pub keep_new : Score → List (DocCandidate Score) → DocCandidate Score → Bool
  keep_new threshold [] c = true
  keep_new threshold (k ∷ ks) c =
      let sim = calc_similarity c.title k.title in
      let rest = keep_new threshold ks c in if F.reaches sim.0 sim.1 threshold then false else rest

  -- `BlacklistFilterProcessor::ShouldKeep`
  unfoldable pub keep_listed : List Bytes → DocCandidate Score → Bool
  keep_listed ids c = if contains bytes_discrete c.doc_id ids then false else elim c.author [
    | [] ↦ true
    | a ∷ as' ↦ not (contains bytes_discrete (author_prefix ++ (a ∷ as')) ids)
  ]

  -- `ShouldKeep`, given `session.final_results`
  unfoldable pub should_keep : Filter Score → List (DocCandidate Score) → DocCandidate Score → Bool
  should_keep (dedup t) kept c = keep_new t kept c
  should_keep (quality min_score min_clicks min_length) kept c =
      if F.less c.quality_score min_score
      then false
      else (if ltb_ℤ c.click_count min_clicks
          then false
          else not (ltb_ℤ (pos (length c.content_snippet)) min_length))
  should_keep spam kept c = keep_title c.title
  should_keep (blacklist ids) kept c = keep_listed ids c

-- `LoadBlacklist` of the lines of the file: empty lines and comments are left out.
unfoldable pub load_blacklist : List Bytes → List Bytes → List Bytes
load_blacklist [] ids = ids
load_blacklist ([] ∷ ls) ids = load_blacklist ls ids
load_blacklist ((c ∷ cs) ∷ ls) ids =
    let skipped = load_blacklist ls ids in
    let added = load_blacklist ls (add_to bytes_discrete (c ∷ cs) ids) in
    if c == b'#' then skipped else added
