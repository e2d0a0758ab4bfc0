-- ===== src/Index/Persistence/Maps.antt =====
-- Maps filled key by key: each new key stands at the end.
use mini_search_rec.Prelude.{
  ◌≡◌, ◌≢◌, refl, sym, ap, ◌∙◌, List, [], ◌∷◌, ◌++◌, none, some, find, insert, Bytes,
  bytes_discrete, All, arith,
}
use mathlib.Core.List.{append_assoc, append-nil}
use mini_search_rec.Index.Persistence.Reading.{push, push_all}

module _ {V : Type 0} where
  abbrev end : List (Bytes × V) → Bytes → V → List (Bytes × V)
  end m k v = m ++ ((k, v) ∷ [])

  pub insert_new :
      (k : Bytes) (v : V) (m : List (Bytes × V))
      → find bytes_discrete k m ≡ none
      → insert bytes_discrete k v m ≡ end m k v
  unfolding find insert
  insert_new k v [] h = refl
  insert_new k v ((j, w) ∷ m) h = ground (arith, h, insert_new k v m)

  insert_last :
      (k : Bytes) (u v : V) (m : List (Bytes × V))
      → find bytes_discrete k m ≡ none
      → insert bytes_discrete k v (end m k u) ≡ end m k v
  unfolding find insert
  insert_last k u v [] h = ground arith
  insert_last k u v ((j, w) ∷ m) h = ground (arith, h, insert_last k u v m)

  find_last :
      (k : Bytes) (v : V) (m : List (Bytes × V))
      → find bytes_discrete k m ≡ none
      → find bytes_discrete k (end m k v) ≡ some v
  unfolding find
  find_last k v [] h = ground arith
  find_last k v ((j, w) ∷ m) h = ground (arith, h, find_last k v m)

  find_other :
      (j k : Bytes) (v : V) (m : List (Bytes × V))
      → find bytes_discrete j m ≡ none
      → k ≢ j
      → find bytes_discrete j (end m k v) ≡ none
  unfolding find
  find_other j k v [] h n = ground (arith, n)
  find_other j k v ((i, w) ∷ m) h n = ground (arith, h, find_other j k v m)

  -- No key of the second map is one of the first.
  abbrev pub Fresh : List (Bytes × V) → List (Bytes × V) → Type 0
  Fresh acc m = All (λ e. find bytes_discrete e.0 acc ≡ none) m

  pub Fresh-next :
      (acc m : List (Bytes × V)) (k : Bytes) (v : V)
      → find bytes_discrete k m ≡ none
      → Fresh acc m
      → Fresh (end acc k v) m
  unfolding find
  Fresh-next acc [] k v h f = tt
  Fresh-next acc ((j, w) ∷ m) k v h f = elim (bytes_discrete j k) [
    | yes e ↦ absurd (ground (arith, h, e))
    | no n ↦
        (find_other j k v acc f.0 (λ e. n (sym e)), Fresh-next acc m k v (ground (arith, h, n)) f.1)
  ]

  pub Fresh-nil : (m : List (Bytes × V)) → Fresh [] m
  unfolding find
  Fresh-nil [] = tt
  Fresh-nil (e ∷ m) = (refl, Fresh-nil m)

module _ {V : Type 0} where
  push_all_last :
      (k : Bytes) (xs ys : List V) (m : List (Bytes × List V))
      → find bytes_discrete k m ≡ none
      → push_all k xs (end m k ys) ≡ end m k (ys ++ xs)
  unfolding push_all push
  push_all_last k [] ys m h = ap (end m k) (sym (append-nil ys))
  push_all_last k (x ∷ xs) ys m h = rw (find_last k ys m h) (
      ap (push_all k xs) (insert_last k ys (ys ++ (x ∷ [])) m h)
      ∙ push_all_last k xs (ys ++ (x ∷ [])) m h
      ∙ ap (end m k) (append_assoc ys (x ∷ []) xs))

  -- A list pushed element by element onto a new key.
  pub push_all_new :
      (k : Bytes) (x : V) (xs : List V) (m : List (Bytes × List V))
      → find bytes_discrete k m ≡ none
      → push_all k (x ∷ xs) m ≡ end m k (x ∷ xs)
  unfolding push_all push
  push_all_new k x xs m h =
      rw h (ap (push_all k xs) (insert_new k (x ∷ []) m h) ∙ push_all_last k xs (x ∷ []) m h)
