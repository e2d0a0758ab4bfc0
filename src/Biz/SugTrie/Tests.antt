-- ===== src/Biz/SugTrie/Tests.antt =====
-- `SugTrie` with three entries.
use mini_search_rec.Prelude.{ℕ, ◌≡◌, refl, [], ◌∷◌, take, ℕ_discrete, pos, Bytes}
use mathlib.Core.List.{Perm}
use mini_search_rec.Biz.SugTrie.{
  TrieEntry, init, sort, place, build, search, found, insert_all, insert_to_trie, child, put_child,
  walk,
}
use mini_search_rec.Biz.SugTrie.Prefixes.{matching, Falling, search-build}

abbrev word : Bytes → ℕ → TrieEntry
word w n = record { word = w; source = []; freq = pos n; last_time = pos 0 }

abbrev ab : TrieEntry
ab = word (b'a' ∷ b'b' ∷ []) 1

abbrev ac : TrieEntry
ac = word (b'a' ∷ b'c' ∷ []) 3

abbrev b : TrieEntry
b = word (b'b' ∷ []) 2

search_a : search (build (ab ∷ b ∷ ac ∷ []) init) (b'a' ∷ []) (pos 50) ≡ found (ac ∷ ab ∷ [])
unfolding search build sort place insert_all insert_to_trie child put_child walk ℕ_discrete
search_a = refl

search-build_example :
    (search (build (ab ∷ b ∷ ac ∷ []) init) (b'a' ∷ []) (pos 1)
      ≡ found (take 1 (take 200 (matching (b'a' ∷ []) (sort (ab ∷ b ∷ ac ∷ []))))))
    × Falling (sort (ab ∷ b ∷ ac ∷ []))
    × Perm (sort (ab ∷ b ∷ ac ∷ [])) (ab ∷ b ∷ ac ∷ [])
search-build_example = search-build (ab ∷ b ∷ ac ∷ []) init b'a' [] 1
