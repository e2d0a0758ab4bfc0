-- ===== src/Cache/Lru/History.antt =====
-- Whole histories of calls of one `LRUCache`.
use mini_search_rec.Prelude.{
  ℕ, suc, ◌-◌, ◌≤◌, ◌<◌, ◌≡◌, refl, ap, ◌∙◌, Bool, List, [], ◌∷◌, length, Option, arith, Outcome,
  done, ◌>>=◌, ℤ,
}
use mathlib.Core.Path.{ap₂}
use mini_search_rec.Cache.Lru.{
  CacheEntry, LruCache, init, get, put, delete, clear, size, evict_expired,
}
use mini_search_rec.Cache.Lru.Ideal.{remove, after_get, answer, after_put, holds, live}
use mini_search_rec.Cache.Lru.Links.{entries, IsValid, length-entries}
use mini_search_rec.Cache.Lru.Refine.{get-refines}
use mini_search_rec.Cache.Lru.Writes.{put-refines, delete-refines}
use mini_search_rec.Cache.Lru.Sweep.{evict_expired-refines, init-IsValid, clear-IsValid}

pub data Call (K V : Type 0) : Type 0 where
  gets : K → Call K V
  puts : K → V → ℤ → Call K V
  deletes : K → Call K V
  clears : Call K V
  sizes : Call K V
  sweeps : Call K V

pub data Answer (V : Type 0) : Type 0 where
  value : Option V → Answer V
  nothing : Answer V
  flag : Bool → Answer V
  count : ℕ → Answer V

module _ {K V : Type 0} (dec : Discrete K) where
  -- A call at a time, with `fuel` rounds for the loop of `Put`.
  pub step : ℕ → LruCache K V → ℕ → Call K V → Outcome (LruCache K V × Answer V)
  step fuel c now (gets k) = do (c', r) ← get dec c k now; done (c', value r)
  step fuel c now (puts k x ttl) = do c' ← put dec fuel c k x ttl now; done (c', nothing)
  step fuel c now (deletes k) = let r = delete dec c k in done (r.0, flag r.1)
  step fuel c now clears = done (clear c, nothing)
  step fuel c now sizes = done (c, count (size c))
  step fuel c now sweeps = let r = evict_expired dec c now in done (r.0, count r.1)

  pub run : ℕ → LruCache K V → List (ℕ × Call K V) → Outcome (LruCache K V × List (Answer V))
  run fuel c [] = done (c, [])
  run fuel c ((now, call) ∷ rest) = do
    (c', a) ← step fuel c now call
    (c'', as') ← run fuel c' rest
    done (c'', a ∷ as')

  -- The same over the ideal cache of a capacity.
  unfoldable pub ideal_step :
      ℕ → List (CacheEntry K V) → ℕ → Call K V → List (CacheEntry K V) × Answer V
  ideal_step cap es now (gets k) = (after_get dec k now es, value (answer dec k now es))
  ideal_step cap es now (puts k x ttl) = (after_put dec cap k x ttl now es, nothing)
  ideal_step cap es now (deletes k) = (remove dec k es, flag (holds dec k es))
  ideal_step cap es now clears = ([], nothing)
  ideal_step cap es now sizes = (es, count (length es))
  ideal_step cap es now sweeps = (live now es, count (length es - length (live now es)))

  unfoldable pub ideal_run :
      ℕ → List (CacheEntry K V) → List (ℕ × Call K V) → List (CacheEntry K V) × List (Answer V)
  ideal_run cap es [] = (es, [])
  ideal_run cap es ((now, call) ∷ rest) =
      let r = ideal_step cap es now call in let s = ideal_run cap r.0 rest in (s.0, r.1 ∷ s.1)

  -- What a call does to a valid cache, against what it does to a list of entries.
  abbrev Follows :
      {B : Type 0} → LruCache K V → Outcome (LruCache K V × B) → List (CacheEntry K V) × B → Type 0
  Follows {B} c r ideal =
      (c' : LruCache K V) × (r ≡ done (c', ideal.1))
      × IsValid dec c'
      × (entries c'.nodes ≡ ideal.0)
      × (c'.capacity ≡ c.capacity)

  step-Follows :
      (fuel : ℕ) (c : LruCache K V) (now : ℕ) (call : Call K V)
      → IsValid dec c
      → 0 < c.capacity
      → Follows c
          (step (suc (suc fuel)) c now call)
          (ideal_step c.capacity (entries c.nodes) now call)
  unfolding step ideal_step clear size
  step-Follows fuel c now (gets k) v room =
      let (c', e, v', es, same) = get-refines dec c k now v in (c', rw e refl, v', es, same)
  step-Follows fuel c now (puts k x ttl) v room =
      let (c', e, v', es, same) = put-refines dec fuel c k x ttl now v room in
      (c', rw e refl, v', es, same)
  step-Follows fuel c now (deletes k) v room =
      let (v', es, f, same) = delete-refines dec c k v in
      ((delete dec c k).0, rw f refl, v', es, same)
  step-Follows fuel c now clears v room = (clear c, refl, clear-IsValid dec c, refl, refl)
  step-Follows fuel c now sizes v room = (c, rw (v.same_size, length-entries) refl, v, refl, refl)
  step-Follows fuel c now sweeps v room =
      let (v', es, n, same) = evict_expired-refines dec now c v in
      let gone : (evict_expired dec c now).1
          ≡ length (entries c.nodes) - length (live now (entries c.nodes)) =
        omega (
          arith,
          n,
          ap length es,
          length-entries c.nodes,
          length-entries (evict_expired dec c now).0.nodes,
        ) in
      ((evict_expired dec c now).0, rw gone refl, v', es, same)

  run-Follows :
      (fuel : ℕ) (calls : List (ℕ × Call K V)) (c : LruCache K V) (cap : ℕ)
      (es : List (CacheEntry K V))
      → IsValid dec c
      → 0 < cap
      → c.capacity ≡ cap
      → entries c.nodes ≡ es
      → Follows c (run (suc (suc fuel)) c calls) (ideal_run cap es calls)
  unfolding run ideal_run
  run-Follows fuel [] c cap es v room p q = (c, refl, v, q, refl)
  run-Follows fuel ((now, call) ∷ rest) c cap es v room p q =
      let (c', e, v', es', same) = step-Follows fuel c now call v (omega arith) in
      let r : ideal_step c.capacity (entries c.nodes) now call ≡ ideal_step cap es now call =
        ap₂ (λ n l. ideal_step n l now call) p q in
      let (c'', f, v'', es'', same') =
        run-Follows fuel rest c' cap (ideal_step cap es now call).0 v' room (same ∙ p)
          (es' ∙ ap (λ s. s.0) r) in
      (c'', rw (e, r) (rw f refl), v'', es'', same' ∙ same)

  -- Any history of calls of a new `LRUCache` of positive capacity returns, with two rounds of the
  -- eviction loop for each `Put` (or more): no call reads an erased node, the answers are those of
  -- the ideal cache, the entries that are left are the ideal ones in order of use, the invariant
  -- holds, and there are never more entries than the capacity.
  pub run-refines :
      (fuel cap : ℕ) (calls : List (ℕ × Call K V))
      → 0 < cap
      → (c : LruCache K V) × (run (suc (suc fuel)) (init cap) calls
          ≡ done (c, (ideal_run cap [] calls).1))
        × IsValid dec c
        × (entries c.nodes ≡ (ideal_run cap [] calls).0)
        × (length c.nodes ≤ cap)
  unfolding init
  run-refines fuel cap calls room =
      let (c, e, v, es, same) =
        run-Follows fuel calls (init cap) cap [] (init-IsValid {V = V} dec cap) room refl refl in
      (c, e, v, es, omega (arith, v.bounded))
