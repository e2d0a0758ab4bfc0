-- ===== src/Framework/Pipeline/Manager.antt =====
-- src/framework/processor/processor_pipeline.cpp: `PipelineManager`. The keys and the stage names that
-- the source compares strings with are constructors; the directory listing and the YAML of its files
-- are given, and `RankConfigManager`, which `Init` calls with the same files, is not modelled.
use mini_search_rec.Prelude.{
  ℕ, Bool, false, List, [], ◌∷◌, Option, none, some, Bytes, bytes_discrete, find, insert,
}
use mini_search_rec.Framework.Pipeline.{
  Registry, Stages, absent, not_sequence, sequence, ProcessorPipeline, DagPipeline, load, load_dag,
}

pub data Key : Type 0 where
  recall_stages : Key
  coarse_rank_stages : Key
  rank_stages : Key
  fine_rank_stages : Key
  rerank_stages : Key
  filter_stages : Key
  postprocess_stages : Key

-- The `stage` of a reload.
pub data StageName : Type 0 where
  recall : StageName
  rank : StageName
  rerank : StageName
  filter : StageName
  postprocess : StageName
  unknown : StageName

-- A YAML node, by its keys.
abbrev pub Yaml : Type 0 → Type 0
Yaml Params = Key → Stages Params

pub record BusinessPipelineConfig (Params Processor : Type 0) : Type 0 where
  pub recall_dag : DagPipeline Params Processor
  pub rank_pipeline : ProcessorPipeline Params Processor
  pub rerank_pipeline : ProcessorPipeline Params Processor
  pub filter_pipeline : ProcessorPipeline Params Processor
  pub postprocess_pipeline : ProcessorPipeline Params Processor

-- `configs_`
abbrev pub Configs : Type 0 → Type 0 → Type 0
Configs Params Processor = List (Bytes × BusinessPipelineConfig Params Processor)

-- The first key if the file has it, else the second.
abbrev pub prefer : {Params : Type 0} → Stages Params → Stages Params → Stages Params
prefer absent second = second
prefer not_sequence second = not_sequence
prefer (sequence ns) second = sequence ns

module _ {Params Processor : Type 0} where
  abbrev pub new_pipeline : ProcessorPipeline Params Processor
  new_pipeline = record { configs = []; processors = []; loaded = false }

  abbrev pub new_dag : DagPipeline Params Processor
  new_dag = record { node_configs = []; processors = []; downstream = []; loaded = false }

  -- `GetConfig`
  unfoldable pub get_config :
      Bytes → Configs Params Processor → Option (BusinessPipelineConfig Params Processor)
  get_config business m = find bytes_discrete business m

  module _ (R : Registry Params Processor) (fuel : ℕ) where
    -- The configuration of one file, given its recall pipeline.
    unfoldable pub load_config :
        DagPipeline Params Processor → Yaml Params → BusinessPipelineConfig Params Processor
    load_config dag yaml = record {
      recall_dag = dag;
      rank_pipeline = (load R new_pipeline (prefer (yaml coarse_rank_stages) (yaml rank_stages))).0;
      rerank_pipeline =
          (load R new_pipeline (prefer (yaml fine_rank_stages) (yaml rerank_stages))).0;
      filter_pipeline = (load R new_pipeline (yaml filter_stages)).0;
      postprocess_pipeline = (load R new_pipeline (yaml postprocess_stages)).0;
    }

    -- `PipelineManager::Init` over the files, on fuel for `BuildDag`.
    unfoldable pub init :
        List (Bytes × Yaml Params) → Configs Params Processor → Option (Configs Params Processor)
    init [] m = some m
    init ((business, yaml) ∷ files) m = elim (load_dag R fuel new_dag (yaml recall_stages)) [
      | none ↦ none
      | some (dag, ok) ↦ init files (insert bytes_discrete business (load_config dag yaml) m)
    ]

    -- A stage of one configuration.
    unfoldable pub reload :
        StageName
        → Yaml Params
        → BusinessPipelineConfig Params Processor
        → Option (BusinessPipelineConfig Params Processor × Bool)
    reload recall yaml c = elim (load_dag R fuel c.recall_dag (yaml recall_stages)) [
      | none ↦ none
      | some (dag, ok) ↦ some (
        record {
          recall_dag = dag;
          rank_pipeline = c.rank_pipeline;
          rerank_pipeline = c.rerank_pipeline;
          filter_pipeline = c.filter_pipeline;
          postprocess_pipeline = c.postprocess_pipeline;
        },
        ok,
      )
    ]
    reload rank yaml c =
        let r = load R c.rank_pipeline (yaml coarse_rank_stages) in
        some (
          record {
            recall_dag = c.recall_dag;
            rank_pipeline = r.0;
            rerank_pipeline = c.rerank_pipeline;
            filter_pipeline = c.filter_pipeline;
            postprocess_pipeline = c.postprocess_pipeline;
          },
          r.1,
        )
    reload rerank yaml c =
        let r = load R c.rerank_pipeline (yaml fine_rank_stages) in
        some (
          record {
            recall_dag = c.recall_dag;
            rank_pipeline = c.rank_pipeline;
            rerank_pipeline = r.0;
            filter_pipeline = c.filter_pipeline;
            postprocess_pipeline = c.postprocess_pipeline;
          },
          r.1,
        )
    reload filter yaml c =
        let r = load R c.filter_pipeline (yaml filter_stages) in
        some (
          record {
            recall_dag = c.recall_dag;
            rank_pipeline = c.rank_pipeline;
            rerank_pipeline = c.rerank_pipeline;
            filter_pipeline = r.0;
            postprocess_pipeline = c.postprocess_pipeline;
          },
          r.1,
        )
    reload postprocess yaml c =
        let r = load R c.postprocess_pipeline (yaml postprocess_stages) in
        some (
          record {
            recall_dag = c.recall_dag;
            rank_pipeline = c.rank_pipeline;
            rerank_pipeline = c.rerank_pipeline;
            filter_pipeline = c.filter_pipeline;
            postprocess_pipeline = r.0;
          },
          r.1,
        )
    reload unknown yaml c = some (c, false)

    -- `PipelineManager::HotReload`, on fuel for `BuildDag`
    unfoldable pub hot_reload :
        Configs Params Processor
        → Bytes
        → StageName
        → Yaml Params
        → Option (Configs Params Processor × Bool)
    hot_reload m business stage yaml = elim (find bytes_discrete business m) [
      | none ↦ some (m, false)
      | some c ↦ elim (reload stage yaml c) [
        | none ↦ none
        | some (c', ok) ↦ some (insert bytes_discrete business c' m, ok)
      ]
    ]
