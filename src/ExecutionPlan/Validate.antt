-- ===== src/ExecutionPlan/Validate.antt =====
-- src/execution_plan.cpp: `validate_execution_plan`.
use ninfer_nvfp4_glm_5_3_fla.Prelude.{
  ℕ, ◌+◌, ◌/◌, ◌%◌, Bool, true, false, not, ◌&&◌, ◌||◌, List, [], ◌∷◌, ◌++◌, ltb, ◌==◌,
  if◌then◌else◌, text, Bytes, eq_list, decimal, length, Check, ◌reports◌, failures, is_empty,
}
use ninfer_nvfp4_glm_5_3_fla.ModelSpec.{LayerSpec, ModelSpec, eq_mixer, eq_ffn}
use ninfer_nvfp4_glm_5_3_fla.Deployment.{ValidationReport, DeploymentContract}
use ninfer_nvfp4_glm_5_3_fla.ExecutionPlan.{
  CollectiveKind, no_collective, all_reduce, PersistentStateKind, kda_recurrent,
  sparse_mla_kv_and_index, RankGeometry, LayerExecutionPlan, SpeculativePlan, ExecutionPlan,
  is_dflash, state_of, validate_inputs,
}

abbrev pub eq_collective : CollectiveKind → CollectiveKind → Bool
eq_collective no_collective no_collective = true
eq_collective all_reduce all_reduce = true
eq_collective _ _ = false

abbrev pub eq_state : PersistentStateKind → PersistentStateKind → Bool
eq_state kda_recurrent kda_recurrent = true
eq_state sparse_mla_kv_and_index sparse_mla_kv_and_index = true
eq_state _ _ = false

abbrev pub eq_bool : Bool → Bool → Bool
eq_bool true b = b
eq_bool false b = not b

abbrev pub head_matches : ℕ → ℕ → ℕ → Bool
head_matches world local_heads global_heads =
    world == 2
    && ltb 0 global_heads
    && global_heads % world == 0
    && local_heads == global_heads / world

abbrev pub rank_checks : ExecutionPlan → ModelSpec → DeploymentContract → List Check
rank_checks plan model d =
    (not (plan.rank_geometry.world_size == 2)
        || not (plan.rank_geometry.world_size == d.tensor_parallel)
      reports text "execution plan world_size must be exactly 2")
    ∷ (not (plan.rank_geometry.hyper_connection_streams == 4)
          || not (plan.rank_geometry.hyper_connection_streams == model.hyper_connection_streams)
        reports text "execution plan must preserve four mHC streams")
    ∷ []

abbrev pub head_checks : RankGeometry → ModelSpec → List Check
head_checks rank model =
    (not (head_matches rank.world_size rank.local_attention_heads model.attention_heads)
        || not (head_matches rank.world_size rank.local_kv_heads model.kv_heads)
        || not (head_matches rank.world_size rank.local_index_heads model.index_heads)
        || not (
            head_matches rank.world_size rank.local_linear_attention_heads
              model.linear_attention_heads)
      reports text "per-rank head geometry does not reconstruct the logical model geometry")
    ∷ []

-- One round of the loop over the layers, at slot `i`.
unfoldable pub check_plan_layer : ℕ → LayerExecutionPlan → LayerSpec → List Bytes
check_plan_layer i actual expected = failures (
    (not (actual.layer == expected.index)
        || not (eq_mixer actual.mixer expected.mixer)
        || not (eq_ffn actual.ffn expected.ffn)
      reports (text "execution plan layer topology diverges at layer " ++ decimal i))
    ∷ (not (eq_state actual.persistent_state (state_of expected.mixer))
        reports (text "persistent state kind diverges at layer " ++ decimal i))
    ∷ (not (eq_collective actual.mixer_output_collective all_reduce)
          || not (eq_collective actual.ffn_output_collective all_reduce)
        reports (text "TP2 branch outputs require explicit all-reduce boundaries at layer "
            ++ decimal i))
    ∷ [])

-- The loop, over lists that are of equal length where it is reached.
unfoldable pub check_plan_layers : ℕ → List LayerExecutionPlan → List LayerSpec → List Bytes
check_plan_layers i (actual ∷ actuals) (expected ∷ layers) =
    check_plan_layer i actual expected ++ check_plan_layers (i + 1) actuals layers
check_plan_layers i _ _ = []

abbrev pub limit_checks : ExecutionPlan → DeploymentContract → List Check
limit_checks plan d =
    (not (plan.max_context_tokens == d.max_model_len)
        || not (plan.max_inflight_sequences == d.max_num_seqs)
        || not (plan.max_batched_tokens == d.max_num_batched_tokens)
      reports text "scheduler limits in execution plan differ from deployment contract")
    ∷ []

abbrev pub identity_checks : SpeculativePlan → DeploymentContract → List Check
identity_checks speculative d =
    (not (speculative.proposal_tokens == d.dflash_tokens)
        || not (speculative.draft_tensor_parallel == d.dflash_draft_tp)
        || not (eq_list speculative.draft_model d.dflash_model)
        || not (eq_list speculative.draft_revision d.dflash_revision)
      reports text "DFlash identity or geometry differs from deployment")
    ∷ []

abbrev pub stale_checks : SpeculativePlan → List Check
stale_checks speculative =
    (not (speculative.proposal_tokens == 0)
        || not (speculative.draft_tensor_parallel == 0)
        || not (is_empty speculative.draft_model)
        || not (is_empty speculative.draft_revision)
      reports text "disabled speculative plan contains stale draft fields")
    ∷ []

unfoldable pub check_speculative : SpeculativePlan → DeploymentContract → List Bytes
check_speculative speculative d =
    failures (
      (not (eq_bool speculative.enabled (is_dflash d))
        reports text "speculative enabled state differs from deployment")
      ∷ [])
    ++ failures (if is_dflash d then identity_checks speculative d else stale_checks speculative)

-- What is checked once the numbers of layers agree.
unfoldable pub check_plan_rest : ExecutionPlan → ModelSpec → DeploymentContract → List Bytes
check_plan_rest plan model d =
    failures (head_checks plan.rank_geometry model)
    ++ check_plan_layers 0 plan.layers model.layers
    ++ failures (limit_checks plan d)
    ++ check_speculative plan.speculative d

unfoldable pub validate_execution_plan :
    ExecutionPlan → ModelSpec → DeploymentContract → ValidationReport
validate_execution_plan plan model d =
    let report = validate_inputs model d in
    record {
      errors =
          report.errors
          ++ failures (rank_checks plan model d)
          ++ (if not (length plan.layers == length model.layers)
              then text "execution plan layer count does not match model contract" ∷ []
              else check_plan_rest plan model d);
      warnings = report.warnings;
    }
