-- ===== src/Index/Persistence/Lines.antt =====
-- `Load`: what it makes of the lines that each loop of `Save` writes.
use mini_search_rec.Prelude.{
  ℕ, ◌<◌, ◌≡◌, ◌≢◌, refl, sym, ap, ◌∙◌, List, [], ◌∷◌, ◌++◌, insert, Distinct, Bytes,
  bytes_discrete, ℕ_discrete, All,
}
use mathlib.Core.List.{append_assoc, append-nil}
use mini_search_rec.Index.Inverted.{PostingNode}
use mini_search_rec.Index.Persistence.{len_lines, terms_lines, node_lines, index_lines}
use mini_search_rec.Index.Persistence.Reading.{
  Loading, load_line, load_lines, push, push_all, read_node, max_u32,
}
use mini_search_rec.Index.Persistence.Numbers.{read_number-decimal, read_weight-show_weight}
use mini_search_rec.Index.Persistence.Maps.{insert_new, Fresh, Fresh-next, push_all_new}

pub load_lines-append :
    (s : Loading) (xs ys : List (List Bytes))
    → load_lines s (xs ++ ys) ≡ load_lines (load_lines s xs) ys
unfolding load_lines
load_lines-append s [] ys = refl
load_lines-append s (x ∷ xs) ys = load_lines-append (load_line s x) xs ys

-- The numbers of a posting that are kept in 32 bits.
abbrev pub Fits : PostingNode → Type 0
Fits n = (n.term_freq < max_u32) × (n.doc_len < max_u32) × (n.field_weight < 200000)

module _ (ix : List (Bytes × List PostingNode)) (lengths : List (Bytes × ℕ))
    (terms : List (Bytes × List Bytes)) (total : ℕ) (term : Bytes) where
  abbrev pub loading : Loading
  loading = record {
    index = ix;
    doc_lengths = lengths;
    doc_terms = terms;
    total_docs = total;
    cur_term = term;
  }

pub load-len_lines :
    (ix : List (Bytes × List PostingNode)) (m acc : List (Bytes × ℕ))
    (terms : List (Bytes × List Bytes)) (total : ℕ) (term : Bytes)
    → Distinct bytes_discrete m
    → Fresh acc m
    → All (λ e. e.1 < max_u32) m
    → load_lines (loading ix acc terms total term) (len_lines m)
      ≡ loading ix (acc ++ m) terms total term
unfolding load_lines load_line len_lines bytes_discrete ℕ_discrete
load-len_lines ix [] acc terms total term d f l =
    ap (λ a. loading ix a terms total term) (sym (append-nil acc))
load-len_lines ix ((k, n) ∷ m) acc terms total term d f l =
    let acc' = acc ++ ((k, n) ∷ []) in
    ap (λ b. load_lines (loading ix b terms total term) (len_lines m))
      (ap (λ x. insert bytes_discrete k x acc) (read_number-decimal max_u32 n l.0)
        ∙ insert_new k n acc f.0)
    ∙ load-len_lines ix m acc' terms total term d.1 (Fresh-next acc m k n d.0 f.1) l.1
    ∙ ap (λ a. loading ix a terms total term) (append_assoc acc ((k, n) ∷ []) m)

-- The documents that have a term.
unfoldable pub with_terms : List (Bytes × List Bytes) → List (Bytes × List Bytes)
with_terms [] = []
with_terms ((d, []) ∷ m) = with_terms m
with_terms ((d, t ∷ ts) ∷ m) = (d, t ∷ ts) ∷ with_terms m

pub load-terms_lines :
    (ix : List (Bytes × List PostingNode)) (lengths : List (Bytes × ℕ))
    (m acc : List (Bytes × List Bytes)) (total : ℕ) (term : Bytes)
    → Distinct bytes_discrete m
    → Fresh acc m
    → load_lines (loading ix lengths acc total term) (terms_lines m)
      ≡ loading ix lengths (acc ++ with_terms m) total term
unfolding load_lines load_line terms_lines with_terms push_all bytes_discrete ℕ_discrete
load-terms_lines ix lengths [] acc total term d f =
    ap (λ a. loading ix lengths a total term) (sym (append-nil acc))
load-terms_lines ix lengths ((k, []) ∷ m) acc total term d f =
    load-terms_lines ix lengths m acc total term d.1 f.1
load-terms_lines ix lengths ((k, t ∷ ts) ∷ m) acc total term d f =
    let acc' = acc ++ ((k, t ∷ ts) ∷ []) in
    ap (λ b. load_lines (loading ix lengths b total term) (terms_lines m))
      (push_all_new k t ts acc f.0)
    ∙ load-terms_lines ix lengths m acc' total term d.1 (Fresh-next acc m k (t ∷ ts) d.0 f.1)
    ∙ ap (λ a. loading ix lengths a total term) (append_assoc acc ((k, t ∷ ts) ∷ []) (with_terms m))

load-node_lines :
    (ix : List (Bytes × List PostingNode)) (lengths : List (Bytes × ℕ))
    (terms : List (Bytes × List Bytes)) (total : ℕ) (term : Bytes) (ns : List PostingNode)
    → All Fits ns
    → load_lines (loading ix lengths terms total term) (node_lines ns)
      ≡ loading (push_all term ns ix) lengths terms total term
unfolding load_lines load_line node_lines push_all read_node bytes_discrete ℕ_discrete
load-node_lines ix lengths terms total term [] h = refl
load-node_lines ix lengths terms total term (n ∷ ns) h =
    ap (λ x. load_lines (loading (push term x ix) lengths terms total term) (node_lines ns))
      (λ i. record {
        doc_id = n.doc_id;
        term_freq = read_number-decimal max_u32 n.term_freq h.0.0 i;
        field_weight = read_weight-show_weight n.field_weight i;
        doc_len = read_number-decimal max_u32 n.doc_len h.0.1 i;
      })
    ∙ load-node_lines (push term n ix) lengths terms total term ns h.1

pub load-index_lines :
    (m acc : List (Bytes × List PostingNode)) (lengths : List (Bytes × ℕ))
    (terms : List (Bytes × List Bytes)) (total : ℕ) (term : Bytes)
    → Distinct bytes_discrete m
    → Fresh acc m
    → All (λ e. (e.1 ≢ []) × All Fits e.1) m
    → (last : Bytes) × (load_lines (loading acc lengths terms total term) (index_lines m)
        ≡ loading (acc ++ m) lengths terms total last)
unfolding load_lines load_line index_lines bytes_discrete ℕ_discrete
load-index_lines [] acc lengths terms total term d f l =
    (term, ap (λ a. loading a lengths terms total term) (sym (append-nil acc)))
load-index_lines ((k, []) ∷ m) acc lengths terms total term d f l = absurd (l.0.0 refl)
load-index_lines ((k, n ∷ ns) ∷ m) acc lengths terms total term d f l =
    let acc' = acc ++ ((k, n ∷ ns) ∷ []) in
    let (last, e) =
      load-index_lines m acc' lengths terms total k d.1 (Fresh-next acc m k (n ∷ ns) d.0 f.1) l.1 in
    (
      last,
      load_lines-append (loading acc lengths terms total k) (node_lines (n ∷ ns)) (index_lines m)
          ∙ ap (λ s. load_lines s (index_lines m))
              (load-node_lines acc lengths terms total k (n ∷ ns) l.0.1
                ∙ ap (λ a. loading a lengths terms total k) (push_all_new k n ns acc f.0))
          ∙ e
          ∙ ap (λ a. loading a lengths terms total last) (append_assoc acc ((k, n ∷ ns) ∷ []) m),
    )
