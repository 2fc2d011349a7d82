-- ===== src/CollectPlan/Stages.antt =====
-- The overriding of stages and the whole of `CalculateCollectStages` of
-- AndroidSource/src/Components/NatTraverserClient.cpp.
use nat_data_collector.Prelude.{
  ℕ, suc, String, Bool, true, false, not, ◌&&◌, Option, none, some, List, [], ◌∷◌, ◌++◌, map,
  length, get_elem?, ◌==◌, if◌then◌else◌, ◌>>=◌,
}
use nat_data_collector.Types.{Transaction}
use nat_data_collector.Errors.{Error, failed}
use nat_data_collector.Protocol.{DataPackage, create_data, get_object}
use nat_data_collector.Data.{ClientMetaData}
use nat_data_collector.Predictor.{config_index}
use nat_data_collector.Collect.{Stage}
use nat_data_collector.Collect.Stages.{update}
use nat_data_collector.CollectPlan.{
  OverrideStage, StageConfig, CollectingConfig, Objects, Ports, stage_of, dynamic_stage_of,
  same_sizes, configured, config_of,
}

module _ {J : Type 0} (objects : Objects J) where
  -- One equal condition, and the loop over all of them.
  abbrev pub holds : DataPackage J → DataPackage J → String → J → Bool
  holds dp_config dp_meta_data key val =
      if objects.json.contains dp_config.content key
      then objects.equal (objects.json.at dp_config.content key) val
      else if objects.json.contains dp_meta_data.content key
      then objects.equal (objects.json.at dp_meta_data.content key) val
      else false

  unfoldable pub all_hold : DataPackage J → DataPackage J → List (String × J) → Bool
  all_hold dp_config dp_meta_data [] = true
  all_hold dp_config dp_meta_data ((key, val) ∷ items) =
      holds dp_config dp_meta_data key val && all_hold dp_config dp_meta_data items

-- The new stage: the callback stays where neither the sample size nor the rate is overridden.
abbrev pub overridden_stage : String → Stage Ports → StageConfig → Stage Ports
overridden_stage server_address current config =
    if config.sample_size == current.settings.sample_size
      && (config.sample_rate_ms == current.settings.sample_rate_ms)
    then record (stage_of server_address config) { start_stage_cb = current.start_stage_cb }
    else stage_of server_address config

abbrev pub take_config : String → Stage Ports → StageConfig × Error → Stage Ports
take_config server_address current (config, err) =
    if failed err then current else overridden_stage server_address current config

module _ {J : Type 0} (objects : Objects J) where
  -- The body of the loop for a stage that is there.
  unfoldable pub override_stage :
      String → ClientMetaData → OverrideStage J → Stage Ports → Option (Stage Ports)
  unfolding all_hold create_data get_object
  override_stage server_address meta_data override current =
      let dp_config =
        create_data objects.json objects.config (config_of current) Transaction.no_transaction in
      let dp_meta_data =
        create_data objects.json objects.meta_data meta_data Transaction.no_transaction in
      if not (all_hold objects dp_config dp_meta_data (objects.items override.equal_conditions))
      then some current
      else (objects.update_fields dp_config.content override.override_fields >>= λ fields. some (
          take_config server_address current (
            get_object objects.config (record dp_config { content = fields })
              objects.config.fresh)))

  abbrev pub override_at :
      String
      → ClientMetaData
      → OverrideStage J
      → List (Stage Ports)
      → Option (Stage Ports)
      → Option (List (Stage Ports))
  override_at server_address meta_data override stages none = some stages
  override_at server_address meta_data override stages (some current) =
      override_stage server_address meta_data override current >>= λ stage.
      some (update (λ _. stage) override.stage_index stages)

  -- The loop over the overrides.
  unfoldable pub override_all :
      String
      → ClientMetaData
      → List (OverrideStage J)
      → List (Stage Ports)
      → Option (List (Stage Ports))
  unfolding override_stage
  override_all server_address meta_data [] stages = some stages
  override_all server_address meta_data (o ∷ os) stages =
      override_at server_address meta_data o stages (get_elem? stages o.stage_index) >>= λ next.
      override_all server_address meta_data os next

-- The index of the configurations; without one the size is a divisor that is 0.
abbrev pub index_for : ℕ → ℕ → List StageConfig → Option ℕ
index_for rand_max r [] = none
index_for rand_max r (c ∷ cs) = some (config_index rand_max r (suc (length cs)))

module _ {J : Type 0} (objects : Objects J) where
  -- The stages once the configuration is found valid.
  abbrev pub stages_at :
      String → CollectingConfig J → ClientMetaData → ℕ → Option (List (Stage Ports))
  stages_at server_address coll_conf meta_data i =
      configured server_address i coll_conf.stages >>= λ stages.
      override_all objects server_address meta_data coll_conf.override_stages
        (stages ++ map (dynamic_stage_of server_address) coll_conf.added_dynamic_stages)

  -- `CalculateCollectStages`; `r` is the value of `rand()`.
  unfoldable pub calculate_collect_stages :
      ℕ → ℕ → String → CollectingConfig J → ClientMetaData → Option (List (Stage Ports))
  unfolding config_index same_sizes configured override_all
  calculate_collect_stages rand_max r server_address coll_conf meta_data = elim coll_conf.stages [
    | [] ↦ some []
    | s ∷ rest ↦
        if not (same_sizes (s ∷ rest))
        then some []
        else (index_for rand_max r s.configs >>= stages_at server_address coll_conf meta_data)
  ]
