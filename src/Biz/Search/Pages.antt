-- ===== src/Biz/Search/Pages.antt =====
-- src/biz/search/search_handler.cpp: the pages that `SetResponse` answers with, against the list of
-- all results.
use mini_search_rec.Prelude.{
  ℕ, zero, suc, ◌+◌, ◌-◌, ◌*◌, ◌^◌, ◌≤◌, ◌<◌, ◌≡◌, refl, sym, ap, ◌∙◌, List, [], ◌∷◌, ◌++◌, length,
  take, drop, Option, none, some, ℤ, pos, negsuc, diff, ◌+ℤ◌, take_all, arith,
}
use mini_search_rec.Biz.Search.{set_response, read_range, to_int}

diff-negative : (m : ℕ) → 0 < m → diff 0 m ≡ negsuc (m - 1)
diff-negative m h = ground (arith, h)

le-product : (b n : ℕ) → n ≤ (b + 1) * n
le-product b n = omega arith

le-factor : (k n : ℕ) → 0 < n → k ≤ k * n
le-factor k zero h = absurd (omega (arith, h))
le-factor k (suc n) h = omega arith

suc_sum : (a n : ℕ) → suc (a + n) ≡ suc a + n
suc_sum a n = omega arith

no_page : (n : ℕ) → 0 ≡ 0 * n
no_page n = omega arith

next_page : (k n : ℕ) → k * n + n ≡ suc k * n
next_page k n = omega arith

module _ {A : Type 0} where
  drop_all : (n : ℕ) (r : List A) → length r ≤ n → drop n r ≡ []
  drop_all zero [] h = refl
  drop_all zero (x ∷ r) h = absurd (omega (arith, h))
  drop_all (suc n) [] h = refl
  drop_all (suc n) (x ∷ r) h = drop_all n r (omega (arith, h))

  take-nil : (n : ℕ) → ◌≡◌ {A = List A} (take n []) []
  take-nil zero = refl
  take-nil (suc n) = refl

  -- Taking up to the end is taking all that is left.
  take-past :
      (n s : ℕ) (r : List A) → length r ≤ s + n → take (length r - s) (drop s r) ≡ take n (drop s r)
  take-past n zero r h =
      ap (λ m. take m r) (omega arith)
      ∙ (take_all (length r) r (omega arith) ∙ sym (take_all n r (omega (arith, h))))
  take-past n (suc s) [] h = take-nil (0 - suc s) ∙ sym (take-nil n)
  take-past n (suc s) (x ∷ r) h =
      ap (λ m. take m (drop s r)) (omega arith) ∙ take-past n s r (omega (arith, h))

  take-append-drop : (a n : ℕ) (r : List A) → take a r ++ take n (drop a r) ≡ take (a + n) r
  take-append-drop zero n r = ap (λ m. take m r) (omega arith)
  take-append-drop (suc a) n [] = take-nil n ∙ sym (take-nil (suc a + n))
  take-append-drop (suc a) n (x ∷ r) =
      ap (◌∷◌ x) (take-append-drop a n r) ∙ ap (λ m. take m (x ∷ r)) (suc_sum a n)

  set_response-at :
      (p n : ℕ) (r : List A)
      → length r < 2 ^ 31
      → p * n + n < 2 ^ 31
      → p < 2 ^ 31
      → set_response (pos (suc p)) (pos n) r ≡ some (take n (drop (p * n) r))
  unfolding set_response read_range to_int
  set_response-at p n r hr hn hp =
      ground (arith, take-past n (p * n) r, drop_all (p * n) r, take-nil n)

  -- The first `k` pages of `n` results each, joined.
  unfoldable pub pages : ℕ → ℕ → List A → Option (List A)
  pages zero n r = some []
  pages (suc k) n r = elim (pages k n r) [
    | none ↦ none
    | some front ↦ elim (set_response (pos (suc k)) (pos n) r) [
      | none ↦ none
      | some page ↦ some (front ++ page)
    ]
  ]

  -- Where there are fewer than 2^31 results, the pages are not empty and the last result of the `k`-th
  -- page has an index below 2^31, the first `k` pages of `n` results that `SetResponse` lists are,
  -- joined, the first `k * n` of the final results in their order: no result is left out or repeated.
  pub set_response-pages :
      (k n : ℕ) (r : List A)
      → length r < 2 ^ 31
      → 0 < n
      → k * n < 2 ^ 31
      → pages k n r ≡ some (take (k * n) r)
  unfolding pages
  set_response-pages zero n r hr h0 hk = ap (λ m. some (take m r)) (no_page n)
  set_response-pages (suc k) n r hr h0 hk =
      let front = set_response-pages k n r hr h0 (omega (arith, hk)) in
      let page =
        set_response-at k n r hr (omega (arith, hk)) (omega (arith, hk, le-factor k n h0)) in
      rw (front, page) (ap some (take-append-drop (k * n) n r ∙ ap (λ m. take m r) (next_page k n)))

  -- A page before the first one: `b` is the number of pages between them.
  before_first :
      (page : ℤ) (b n : ℕ) (r : List A)
      → length r < 2 ^ 31
      → 0 < n
      → page +ℤ negsuc 0 ≡ negsuc b
      → set_response page (pos n) r ≡ none
  unfolding set_response read_range to_int
  before_first page b n r hr h e = rw e (
      rw (diff-negative ((b + 1) * n) (omega (arith, h, le-product b n)))
        (ground (arith, h, hr, le-product b n)))

  -- For fewer than 2^31 results, a page of 0 or less with a page size of at least 1 has no defined answer: an `int` overflows or the
  -- loop reads `final_results` before its first element, also where there are no results.
  pub set_response-undefined :
      (j n : ℕ) (r : List A) → length r < 2 ^ 31 → 0 < n → set_response (diff 0 j) (pos n) r ≡ none
  set_response-undefined zero n r hr h = before_first (diff 0 0) 0 n r hr h refl
  set_response-undefined (suc j) n r hr h =
      before_first (diff 0 (suc j)) (j + 1) n r hr h (ground arith)
