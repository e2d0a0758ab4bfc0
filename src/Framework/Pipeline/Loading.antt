-- ===== src/Framework/Pipeline/Loading.antt =====
-- What a pipeline holds after it was loaded.
use mini_search_rec.Prelude.{◌≡◌, ◌≢◌, List, [], ◌∷◌, Option}
use mini_search_rec.Framework.Pipeline.{
  StageNode, Stages, absent, not_sequence, sequence, Registry, make,
}

module _ {Params : Type 0} where
  -- The nodes of a stage that have a name, in order.
  unfoldable pub named : List (StageNode Params) → List (StageNode Params)
  named [] = []
  named (n ∷ ns) = elim n.name [ [] ↦ named ns | c ∷ cs ↦ n ∷ named ns ]

  abbrev pub nodes_in : Stages Params → List (StageNode Params)
  nodes_in absent = []
  nodes_in not_sequence = []
  nodes_in (sequence ns) = named ns

module _ {Params Processor : Type 0} (R : Registry Params Processor) where
  -- Each processor stands at the place of its node.
  abbrev pub Aligned : List (StageNode Params) → List (Option Processor) → Type 0
  Aligned [] [] = Unit {0}
  Aligned [] (p ∷ ps) = ⊥
  Aligned (n ∷ ns) [] = ⊥
  Aligned (n ∷ ns) (p ∷ ps) = (n.name ≢ []) × (p ≡ make R n) × Aligned ns ps
