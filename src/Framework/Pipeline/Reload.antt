-- ===== src/Framework/Pipeline/Reload.antt =====
-- src/framework/processor/processor_pipeline.cpp: `HotReload` after `Init`.
use mini_search_rec.Prelude.{
  ℕ, ◌≡◌, ◌≢◌, inl, inr, refl, Bool, true, false, List, [], ◌∷◌, some, arith, Bytes, bytes_discrete,
  find, insert, find-insert, Option-cases,
}
use mini_search_rec.Framework.Dag.{build_dag}
use mini_search_rec.Framework.Pipeline.{
  Registry, Stages, absent, not_sequence, sequence, ProcessorPipeline, DagPipeline, load, load_dag,
  load_nodes, dag_nodes,
}
use mini_search_rec.Framework.Pipeline.Manager.{
  recall_stages, coarse_rank_stages, fine_rank_stages, rank_stages, rerank_stages, filter_stages,
  postprocess_stages, StageName, recall, rank, rerank, filter, postprocess, unknown, Yaml,
  BusinessPipelineConfig, Configs, new_pipeline, new_dag, prefer, get_config, load_config, init,
  reload, hot_reload,
}

insert_found :
    {V : Type 0} (k : Bytes) (v : V) (m : List (Bytes × V))
    → find bytes_discrete k m ≡ some v
    → insert bytes_discrete k v m ≡ m
unfolding find insert
insert_found k v [] h = absurd (ground (arith, h))
insert_found k v ((j, w) ∷ m) h = ground (arith, h, insert_found k v m)

prefer_first : {Params : Type 0} (y z : Stages Params) → y ≢ absent → prefer y z ≡ y
prefer_first absent z h = absurd (h refl)
prefer_first not_sequence z h = refl
prefer_first (sequence ns) z h = refl

module _ {Params Processor : Type 0} (R : Registry Params Processor) (fuel : ℕ) where
  -- Loading again what is loaded changes nothing.
  load_again :
      (p : ProcessorPipeline Params Processor) (y : Stages Params)
      → (load R (load R p y).0 y).0 ≡ (load R p y).0
  unfolding load
  load_again p absent = refl
  load_again p not_sequence = refl
  load_again p (sequence ns) = refl

  load_dag_again :
      (p d : DagPipeline Params Processor) (ok : Bool) (y : Stages Params)
      → load_dag R fuel p y ≡ some (d, ok)
      → load_dag R fuel d y ≡ some (d, ok)
  unfolding load_dag
  load_dag_again p d ok absent h = h
  load_dag_again p d ok not_sequence h = ground (arith, h)
  load_dag_again p d ok (sequence ns) h =
      elim (Option-cases (build_dag fuel (dag_nodes R (load_nodes R ns).0))) [
        | inl e ↦ ground (arith, e, h)
        | inr ((true, down), e) ↦ ground (arith, e, h)
        | inr ((false, down), e) ↦ ground (arith, e, h)
      ]

  -- What a load returns.
  abbrev answer : ProcessorPipeline Params Processor → Stages Params → Bool
  answer p y = (load R p y).1

  reload_same :
      (dag : DagPipeline Params Processor) (ok : Bool) (yaml : Yaml Params) (stage : StageName)
      → load_dag R fuel new_dag (yaml recall_stages) ≡ some (dag, ok)
      → yaml coarse_rank_stages ≢ absent
      → yaml fine_rank_stages ≢ absent
      → (done' : Bool) × (reload R fuel stage yaml (load_config R fuel dag yaml)
          ≡ some (load_config R fuel dag yaml, done'))
  unfolding reload load_config
  reload_same dag ok yaml recall h c f =
      (ok, rw (load_dag_again new_dag dag ok (yaml recall_stages) h, reload) refl)
  reload_same dag ok yaml rank h c f = (
    answer (load_config R fuel dag yaml).rank_pipeline (yaml coarse_rank_stages),
    rw
        (
          prefer_first (yaml coarse_rank_stages) (yaml rank_stages) c,
          load_again new_pipeline (yaml coarse_rank_stages),
        )
        refl,
  )
  reload_same dag ok yaml rerank h c f = (
    answer (load_config R fuel dag yaml).rerank_pipeline (yaml fine_rank_stages),
    rw
        (
          prefer_first (yaml fine_rank_stages) (yaml rerank_stages) f,
          load_again new_pipeline (yaml fine_rank_stages),
        )
        refl,
  )
  reload_same dag ok yaml filter h c f = (
    answer (load_config R fuel dag yaml).filter_pipeline (yaml filter_stages),
    rw (load_again new_pipeline (yaml filter_stages)) refl,
  )
  reload_same dag ok yaml postprocess h c f = (
    answer (load_config R fuel dag yaml).postprocess_pipeline (yaml postprocess_stages),
    rw (load_again new_pipeline (yaml postprocess_stages)) refl,
  )
  reload_same dag ok yaml unknown h c f = (false, refl)

  -- After `Init` has read one more file whose recall pipeline loads within the fuel, and which has both
  -- coarse_rank_stages and fine_rank_stages, a reload of any stage of that business, or of an unknown one,
  -- from the same file leaves the configurations as they are.
  pub hot_reload-init :
      (business : Bytes) (yaml : Yaml Params) (m : Configs Params Processor) (stage : StageName)
      (dag : DagPipeline Params Processor) (ok : Bool)
      → load_dag R fuel new_dag (yaml recall_stages) ≡ some (dag, ok)
      → yaml coarse_rank_stages ≢ absent
      → yaml fine_rank_stages ≢ absent
      → (after : Configs Params Processor) × (done' : Bool) × (init R fuel ((business, yaml) ∷ []) m
          ≡ some after)
        × (hot_reload R fuel after business stage yaml ≡ some (after, done'))
        × (get_config business after ≡ some (load_config R fuel dag yaml))
  unfolding init hot_reload get_config
  hot_reload-init business yaml m stage dag ok h c f =
      let config = load_config R fuel dag yaml in
      let after = insert bytes_discrete business config m in
      let same = reload_same dag ok yaml stage h c f in
      let there : find bytes_discrete business after ≡ some config =
        ground (arith, find-insert bytes_discrete business business config m) in
      let kept = insert_found business config after there in
      (after, same.0, rw (h, init) refl, rw (there, hot_reload) (rw same.1 (rw kept refl)), there)

  -- A file that has rank_stages only: a reload of its coarse ranking says that it is done and leaves no
  -- processor.
  pub hot_reload_forgets :
      (business : Bytes) (yaml : Yaml Params) (m : Configs Params Processor)
      (config : BusinessPipelineConfig Params Processor)
      → find bytes_discrete business m ≡ some config
      → yaml coarse_rank_stages ≡ absent
      → (after : BusinessPipelineConfig Params Processor) × (hot_reload R fuel m business rank yaml
          ≡ some (insert bytes_discrete business after m, true))
        × (after.rank_pipeline.processors ≡ [])
  unfolding hot_reload reload load
  hot_reload_forgets business yaml m config there e = (
    record {
      recall_dag = config.recall_dag;
      rank_pipeline = record { configs = []; processors = []; loaded = true };
      rerank_pipeline = config.rerank_pipeline;
      filter_pipeline = config.filter_pipeline;
      postprocess_pipeline = config.postprocess_pipeline;
    },
    rw (there, hot_reload) (rw (e, reload) refl),
    refl,
  )
