-- ===== src/Framework/Pipeline/Tests.antt =====
-- A pipeline of processors that are numbers and add themselves to a session that is a number.
use mini_search_rec.Prelude.{
  ℕ, ◌+◌, ◌≡◌, ◌≢◌, arith, find, insert, bytes_discrete, ℕ_discrete, ◌⊎◌, refl, Bool, true, false,
  ltb, List, [], ◌∷◌, ◌++◌, Option, none, some, ℤ, pos, Bytes,
}
use mini_search_rec.Framework.Dag.{is_zero}
use mini_search_rec.Framework.Pipeline.{
  StageNode, Stages, absent, sequence, DagPipeline, load_dag, Registry, ProcessorPipeline, load,
  load_nodes, make, execute,
}
use mini_search_rec.Framework.Pipeline.Running.{run_all, execute-run_all}
use mini_search_rec.Framework.Pipeline.Manager.{
  Yaml, rank, rank_stages, recall_stages, BusinessPipelineConfig, Configs, new_dag, init,
  hot_reload, get_config, load_config,
}
use mini_search_rec.Framework.Pipeline.Reload.{hot_reload-init, hot_reload_forgets}

-- One processor is registered, under the name "a".
abbrev create : Bytes → Option ℕ
create [] = none
create (c ∷ cs) = some c

abbrev registry : Registry ℕ ℕ
registry = record {
  create = create;
  init = λ p params. (p + params, pos 0);
  configure = λ p params enable. p;
}

abbrev node_a : StageNode ℕ
node_a = record { name = b'a' ∷ []; enable = true; depends_on = []; params = 1 }

abbrev nameless : StageNode ℕ
nameless = record { name = []; enable = true; depends_on = []; params = 2 }

abbrev old : ProcessorPipeline ℕ ℕ
old = record { configs = []; processors = none ∷ []; loaded = true }

loaded_a :
    (load registry old (sequence (nameless ∷ node_a ∷ []))).0.processors ≡ some (b'a' + 1) ∷ []
unfolding load load_nodes make
loaded_a = refl

abbrev enabled : ℕ → Bool
enabled p = true

abbrev process : ℕ → ℕ → ℕ × ℤ
process p s = (p + s, pos 0)

abbrev late : ℕ → Bool
late s = ltb 2 s

execute-late : execute enabled process late (some 1 ∷ none ∷ some 2 ∷ some 3 ∷ []) 0 ≡ 3
unfolding execute
execute-late = refl

execute-run_all_example :
    ((before after : List (Option ℕ)) × (some 1 ∷ none ∷ some 2 ∷ some 3 ∷ [] ≡ before ++ after)
      × (execute enabled process late (some 1 ∷ none ∷ some 2 ∷ some 3 ∷ []) 0
          ≡ run_all enabled process late before 0)
      × ((after ≡ [])
          ⊎ (late (execute enabled process late (some 1 ∷ none ∷ some 2 ∷ some 3 ∷ []) 0) ≡ true)))
    × (((p u : ℕ) → is_zero (process p u).1 ≡ false)
        → execute enabled process late (some 1 ∷ none ∷ some 2 ∷ some 3 ∷ []) 0
          ≡ run_all enabled process late (some 1 ∷ none ∷ some 2 ∷ some 3 ∷ []) 0)
execute-run_all_example =
    execute-run_all enabled process late (some 1 ∷ none ∷ some 2 ∷ some 3 ∷ []) 0

-- A file without recall in which every other stage is the one processor.
abbrev yaml : Yaml ℕ
yaml recall_stages = absent
yaml _ = sequence (node_a ∷ [])

abbrev dag : DagPipeline ℕ ℕ
dag = record { node_configs = []; processors = []; downstream = []; loaded = true }

dag_loads : load_dag registry 2 new_dag (yaml recall_stages) ≡ some (dag, true)
unfolding load_dag
dag_loads = refl

sequence-present : ◌≢◌ {A = Stages ℕ} (sequence (node_a ∷ [])) absent
sequence-present = λ e. ground (arith, e)

hot_reload-init_example :
    (after : Configs ℕ ℕ) × (done' : Bool) × (init registry 2 ((b'x' ∷ [], yaml) ∷ []) []
      ≡ some after)
    × (hot_reload registry 2 after (b'x' ∷ []) rank yaml ≡ some (after, done'))
    × (get_config (b'x' ∷ []) after ≡ some (load_config registry 2 dag yaml))
hot_reload-init_example =
    hot_reload-init registry 2 (b'x' ∷ []) yaml [] rank dag true dag_loads sequence-present
      sequence-present

-- A file with rank_stages only.
abbrev short_yaml : Yaml ℕ
short_yaml rank_stages = sequence (node_a ∷ [])
short_yaml _ = absent

abbrev business : Configs ℕ ℕ
business = (b'x' ∷ [], load_config registry 2 dag yaml) ∷ []

rank_forgotten :
    (after : BusinessPipelineConfig ℕ ℕ) × (hot_reload registry 2 business
        (b'x' ∷ [])
        rank
        short_yaml
      ≡ some (insert bytes_discrete (b'x' ∷ []) after business, true))
    × (after.rank_pipeline.processors ≡ [])
unfolding find bytes_discrete ℕ_discrete
rank_forgotten =
    hot_reload_forgets registry 2 (b'x' ∷ []) short_yaml business (load_config registry 2 dag yaml)
      refl refl
