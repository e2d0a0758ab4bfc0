-- ===== src/Biz/SugTrie.antt =====
-- src/biz/sug/sug_trie.h and .cpp: `SugTrie`. The pointers of a node to the entries of its buffer are
-- the entries themselves, since a buffer is not changed once it is built. `Build` makes a new buffer
-- and swaps it in under the lock, and `Search` reads the one that is active, so each is one step. The
-- sort is stable here; the source leaves the order of equal frequencies open.
pub mod Prefixes
mod Tests
use mini_search_rec.Prelude.{
  ℕ, zero, suc, ◌+◌, ltb, Bool, true, false, if◌then◌else◌, ◌==◌, List, [], ◌∷◌, ◌++◌, length, take,
  Option, none, some, ite, ℕ_discrete, ℤ, pos, negsuc, Bytes,
}

pub record TrieEntry : Type 0 where
  pub word : Bytes
  pub source : Bytes
  pub freq : ℤ
  pub last_time : ℤ

mutual
  pub data TrieNode : Type 0 where
    -- the children, the entries below this prefix, and `is_end`
    node : Children → List TrieEntry → Bool → TrieNode

  pub data Children : Type 0 where
    no_children : Children
    child_and : ℕ → TrieNode → Children → Children

-- `a > b` of two `int64_t`
abbrev pub above : ℤ → ℤ → Bool
above (pos a) (pos b) = ltb b a
above (pos a) (negsuc b) = true
above (negsuc a) (pos b) = false
above (negsuc a) (negsuc b) = ltb a b

pub place : TrieEntry → List TrieEntry → List TrieEntry
place e [] = e ∷ []
place e (f ∷ fs) = if above f.freq e.freq then f ∷ place e fs else e ∷ f ∷ fs

-- `std::sort(..., a.freq > b.freq)`
pub sort : List TrieEntry → List TrieEntry
sort [] = []
sort (e ∷ es) = place e (sort es)

abbrev pub new_node : TrieNode
new_node = node no_children [] false

-- `children.find(c)`
pub child : ℕ → Children → Option TrieNode
child c no_children = none
child c (child_and k n rest) = ite (ℕ_discrete k c) (some n) (child c rest)

pub put_child : ℕ → TrieNode → Children → Children
put_child c n no_children = child_and c n no_children
put_child c n (child_and k m rest) =
    ite (ℕ_discrete k c) (child_and k n rest) (child_and k m (put_child c n rest))

-- `if (entries.size() < 200) entries.push_back(entry)`
abbrev pub push : TrieEntry → List TrieEntry → List TrieEntry
push e es = if ltb (length es) 200 then es ++ (e ∷ []) else es

abbrev pub add_entry : TrieEntry → TrieNode → TrieNode
add_entry e (node ch es end) = node ch (push e es) end

abbrev pub child_or_new : ℕ → Children → TrieNode
child_or_new c ch = elim (child c ch) [ none ↦ new_node | some n ↦ n ]

-- `InsertToTrie`, from a node on.
pub insert_to_trie : Bytes → TrieEntry → TrieNode → TrieNode
insert_to_trie [] e (node ch es end) = node ch es true
insert_to_trie (c ∷ cs) e (node ch es end) =
    node (put_child c (insert_to_trie cs e (add_entry e (child_or_new c ch))) ch) es end

-- The loop of `Build` over the sorted entries.
pub insert_all : List TrieEntry → TrieNode → TrieNode
insert_all [] t = t
insert_all (e ∷ es) t = elim e.word [
  | [] ↦ insert_all es t
  | c ∷ cs ↦ insert_all es (insert_to_trie (c ∷ cs) e t)
]

pub record SugTrie : Type 0 where
  -- the root of the active buffer, which is null before the first `Build`
  pub active_buffer : Option TrieNode
  pub entries_count : ℕ

abbrev pub init : SugTrie
init = record { active_buffer = none; entries_count = 0 }

-- `Build`
pub build : List TrieEntry → SugTrie → SugTrie
build entries t = record {
  active_buffer = some (insert_all (sort entries) new_node);
  entries_count = length entries;
}

-- The loop of `Search` along the prefix.
pub walk : Bytes → TrieNode → Option TrieNode
walk [] n = some n
walk (c ∷ cs) (node ch es end) = elim (child c ch) [ none ↦ none | some n ↦ walk cs n ]

-- What `Search` does: it returns, or `reserve` throws `std::length_error`.
pub data Answer : Type 0 where
  found : List TrieEntry → Answer
  length_error : Answer

-- The entries of a node up to the limit; `std::min(limit, size)` below 0 is too much to reserve.
abbrev pub collect : ℤ → TrieNode → Answer
collect (pos limit) (node ch es end) = found (take limit es)
collect (negsuc n) (node ch es end) = length_error

-- `Search`
pub search : SugTrie → Bytes → ℤ → Answer
search t [] limit = found []
search t (c ∷ cs) limit = elim t.active_buffer [
  | none ↦ found []
  | some root ↦ elim (walk (c ∷ cs) root) [ none ↦ found [] | some n ↦ collect limit n ]
]
