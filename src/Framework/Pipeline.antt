-- ===== src/Framework/Pipeline.antt =====
-- src/framework/processor/processor_pipeline.cpp: `ProcessorPipeline`, and `LoadFromConfig` of
-- src/framework/processor/dag_pipeline.cpp. What yaml-cpp reads from a node, the processors that
-- `ProcessorRegistry` makes and the session are parameters; `Init` may
-- change a processor, `Process` changes the session only, and the session carries the clock that
-- `IsTimedOut` reads.
pub mod Loading
pub mod Running
pub mod Manager
pub mod Reload
mod Tests
use mini_search_rec.Prelude.{
  ℕ, Bool, true, false, if◌then◌else◌, List, [], ◌∷◌, length, Option, none, some, ℤ, pos, negsuc,
  Bytes,
}
use mini_search_rec.Framework.Dag.{DagNodeConfig, build_dag, is_zero}

-- The fields of one node of a stage, with the defaults for those that are missing.
pub record StageNode (Params : Type 0) : Type 0 where
  pub name : Bytes
  pub enable : Bool
  pub depends_on : List Bytes
  -- weight and `params`
  pub params : Params

-- `config[yaml_key]`
pub data Stages (Params : Type 0) : Type 0 where
  absent : Stages Params
  not_sequence : Stages Params
  sequence : List (StageNode Params) → Stages Params

-- The processors of the program: `ProcessorRegistry::Create`, `Init`, and `SetWeight` with `SetEnabled`.
pub record Registry (Params Processor : Type 0) : Type 0 where
  pub create : Bytes → Option Processor
  pub init : Processor → Params → Processor × ℤ
  pub configure : Processor → Params → Bool → Processor

pub record ProcessorPipeline (Params Processor : Type 0) : Type 0 where
  pub configs : List (StageNode Params)
  -- null for a node that is not enabled, not registered or not initialised
  pub processors : List (Option Processor)
  pub loaded : Bool

pub record DagPipeline (Params Processor : Type 0) : Type 0 where
  pub node_configs : List (StageNode Params)
  pub processors : List (Option Processor)
  pub downstream : List (List ℕ)
  pub loaded : Bool

module _ {Params Processor : Type 0} (R : Registry Params Processor) where
  -- The processor of one node.
  unfoldable pub make : StageNode Params → Option Processor
  make n =
      if n.enable
      then elim (R.create n.name) [
        | none ↦ none
        | some p ↦
            let r = R.init p n.params in
            if is_zero r.1 then some (R.configure r.0 n.params n.enable) else none
      ]
      else none

  -- The loop over the nodes: `configs_` and `processors_`. A node without a name is skipped.
  unfoldable pub load_nodes :
      List (StageNode Params) → List (StageNode Params) × List (Option Processor)
  load_nodes [] = ([], [])
  load_nodes (n ∷ ns) =
      let rest = load_nodes ns in elim n.name [ [] ↦ rest | c ∷ cs ↦ (n ∷ rest.0, make n ∷ rest.1) ]

  -- `ProcessorPipeline::LoadFromConfig`
  unfoldable pub load :
      ProcessorPipeline Params Processor → Stages Params → ProcessorPipeline Params Processor × Bool
  load p absent = (record { configs = []; processors = []; loaded = true }, true)
  load p not_sequence = (record { configs = []; processors = []; loaded = p.loaded }, false)
  load p (sequence ns) =
      let r = load_nodes ns in (record { configs = r.0; processors = r.1; loaded = true }, true)

  -- `depends_on` of each node, for `BuildDag`
  unfoldable pub dag_nodes : List (StageNode Params) → List DagNodeConfig
  dag_nodes [] = []
  dag_nodes (n ∷ ns) = record { name = n.name; depends_on = n.depends_on } ∷ dag_nodes ns

  -- `DagPipeline::LoadFromConfig`, on fuel for `BuildDag`. Where that fails, the nodes stay loaded.
  unfoldable pub load_dag :
      ℕ
      → DagPipeline Params Processor
      → Stages Params
      → Option (DagPipeline Params Processor × Bool)
  load_dag fuel p absent =
      some (record { node_configs = []; processors = []; downstream = []; loaded = true }, true)
  load_dag fuel p not_sequence =
      some
        (record { node_configs = []; processors = []; downstream = []; loaded = p.loaded }, false)
  load_dag fuel p (sequence ns) =
      let r = load_nodes ns in
      elim (build_dag fuel (dag_nodes r.0)) [
        | none ↦ none
        | some (true, down) ↦ some (
          record { node_configs = r.0; processors = r.1; downstream = down; loaded = true },
          true,
        )
        | some (false, down) ↦ some (
          record { node_configs = r.0; processors = r.1; downstream = down; loaded = p.loaded },
          false,
        )
      ]

module _ {Processor Session : Type 0} (is_enabled : Processor → Bool)
    (process : Processor → Session → Session × ℤ) (is_timed_out : Session → Bool) where
  -- `ProcessorPipeline::Execute`, which always returns 0
  unfoldable pub execute : List (Option Processor) → Session → Session
  execute [] s = s
  execute (none ∷ ps) s = execute ps s
  execute (some p ∷ ps) s =
      let r = process p s in
      let skipped = execute ps s in
      let after = execute ps r.0 in
      if is_enabled p
      then (if is_zero r.1 then (if is_timed_out r.0 then r.0 else after) else after)
      else skipped
