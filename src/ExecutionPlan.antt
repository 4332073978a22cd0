-- ===== src/ExecutionPlan.antt =====
-- src/execution_plan.cpp: the execution plan of two ranks, built from the model and the deployment.
mod Validate
mod Parts
mod Layers
pub mod Exact
pub mod Tests
use ninfer_nvfp4_glm_5_3_fla.Prelude.{
  ℕ, ◌/◌, ◌%◌, ◌≡◌, Bool, true, false, not, ◌&&◌, ◌||◌, List, [], ◌∷◌, ◌++◌, map, ltb, leb, ◌==◌,
  if◌then◌else◌, text, Bytes, eq_list, length, Check, ◌reports◌, failures, invalid_argument, Result,
  ok, threw, is_empty,
}
use ninfer_nvfp4_glm_5_3_fla.ModelSpec.{MixerKind, kda, sparse_mla, FfnKind, LayerSpec, ModelSpec}
use ninfer_nvfp4_glm_5_3_fla.ModelSpec.Validate.{validate_model_spec}
use ninfer_nvfp4_glm_5_3_fla.Deployment.{ValidationReport, DeploymentContract}

pub data CollectiveKind : Type 0 where
  no_collective all_reduce : CollectiveKind

pub data PersistentStateKind : Type 0 where
  kda_recurrent sparse_mla_kv_and_index : PersistentStateKind

pub record RankGeometry : Type 0 where
  pub world_size : ℕ
  pub hyper_connection_streams : ℕ
  pub local_attention_heads : ℕ
  pub local_kv_heads : ℕ
  pub local_index_heads : ℕ
  pub local_linear_attention_heads : ℕ

pub record LayerExecutionPlan : Type 0 where
  pub layer : ℕ
  pub mixer : MixerKind
  pub ffn : FfnKind
  pub persistent_state : PersistentStateKind
  pub mixer_output_collective : CollectiveKind
  pub ffn_output_collective : CollectiveKind

pub record SpeculativePlan : Type 0 where
  pub enabled : Bool
  pub proposal_tokens : ℕ
  pub draft_tensor_parallel : ℕ
  pub draft_model : Bytes
  pub draft_revision : Bytes

pub record ExecutionPlan : Type 0 where
  pub rank_geometry : RankGeometry
  pub layers : List LayerExecutionPlan
  pub speculative : SpeculativePlan
  pub max_context_tokens : ℕ
  pub max_inflight_sequences : ℕ
  pub max_batched_tokens : ℕ

abbrev pub is_hex : ℕ → Bool
is_hex ch = leb 48 ch && leb ch 57 || leb 97 ch && leb ch 102 || leb 65 ch && leb ch 70

-- `std::all_of`
unfoldable pub all_hex : Bytes → Bool
all_hex [] = true
all_hex (ch ∷ s) = is_hex ch && all_hex s

abbrev pub is_dflash : DeploymentContract → Bool
is_dflash d = eq_list d.speculative_method (text "dflash")

abbrev pub deployment_checks : ModelSpec → DeploymentContract → List Check
deployment_checks model d =
    (not (d.tensor_parallel == 2) || not (d.nodes == 2)
      reports text "execution requires exactly two ranks on two nodes")
    ∷ (d.max_model_len == 0
          || ltb model.max_position_embeddings d.max_model_len
          || d.max_num_seqs == 0
          || d.max_num_batched_tokens == 0
        reports text "execution scheduler limits are invalid")
    ∷ (not (eq_list d.speculative_method (text "none")) && not (is_dflash d)
        reports text "speculative method must be none or dflash")
    ∷ []

abbrev pub dflash_checks : DeploymentContract → List Check
dflash_checks d =
    (d.dflash_tokens == 0 || ltb 8 d.dflash_tokens || not (d.dflash_draft_tp == 2)
      reports text "DFlash requires 1..8 proposals and draft TP=2")
    ∷ (is_empty d.dflash_model || not (length d.dflash_revision == 40 && all_hex d.dflash_revision)
        reports text "DFlash requires a model identity and 40-hex revision")
    ∷ []

unfoldable pub validate_inputs : ModelSpec → DeploymentContract → ValidationReport
validate_inputs model d = record {
  errors =
      validate_model_spec model
      ++ failures (deployment_checks model d)
      ++ (if is_dflash d then failures (dflash_checks d) else []);
  warnings = [];
}

abbrev pub state_of : MixerKind → PersistentStateKind
state_of kda = kda_recurrent
state_of sparse_mla = sparse_mla_kv_and_index

abbrev pub plan_layer : LayerSpec → LayerExecutionPlan
plan_layer layer = record {
  layer = layer.index;
  mixer = layer.mixer;
  ffn = layer.ffn;
  persistent_state = state_of layer.mixer;
  mixer_output_collective = all_reduce;
  ffn_output_collective = all_reduce;
}

abbrev pub local_geometry : ModelSpec → ℕ → RankGeometry
local_geometry model tp = record {
  world_size = tp;
  hyper_connection_streams = model.hyper_connection_streams;
  local_attention_heads = model.attention_heads / tp;
  local_kv_heads = model.kv_heads / tp;
  local_index_heads = model.index_heads / tp;
  local_linear_attention_heads = model.linear_attention_heads / tp;
}

abbrev pub disabled : SpeculativePlan
disabled = record {
  enabled = false;
  proposal_tokens = 0;
  draft_tensor_parallel = 0;
  draft_model = [];
  draft_revision = [];
}

abbrev pub speculative_plan : DeploymentContract → SpeculativePlan
speculative_plan d =
    if is_dflash d
    then record {
      enabled = true;
      proposal_tokens = d.dflash_tokens;
      draft_tensor_parallel = d.dflash_draft_tp;
      draft_model = d.dflash_model;
      draft_revision = d.dflash_revision;
    }
    else disabled

abbrev pub divisible : ℕ → ℕ → Bool
divisible tp value = value % tp == 0

-- The part of `build_tp2_execution_plan` behind the check of the inputs.
unfoldable pub build_checked : ModelSpec → DeploymentContract → Result ExecutionPlan
build_checked model d =
    let tp = d.tensor_parallel in
    if not (divisible tp model.attention_heads)
      || not (divisible tp model.kv_heads)
      || not (divisible tp model.index_heads)
      || not (divisible tp model.linear_attention_heads)
    then threw
        (invalid_argument (text "model head geometry is not divisible by tensor parallel size"))
    else ok (record {
      rank_geometry = local_geometry model tp;
      layers = map plan_layer model.layers;
      speculative = speculative_plan d;
      max_context_tokens = d.max_model_len;
      max_inflight_sequences = d.max_num_seqs;
      max_batched_tokens = d.max_num_batched_tokens;
    })

-- `if (!report.ok()) throw std::invalid_argument(report.errors.front());`
abbrev pub throw_first : {A : Type 0} → List Bytes → Result A → Result A
throw_first [] rest = rest
throw_first (error ∷ errors) rest = threw (invalid_argument error)

unfoldable pub build_tp2_execution_plan : ModelSpec → DeploymentContract → Result ExecutionPlan
build_tp2_execution_plan model d =
    throw_first (validate_inputs model d).errors (build_checked model d)

-- `to_string` of both kinds.
unfoldable pub collective_to_string : CollectiveKind → Bytes
collective_to_string no_collective = text "none"
collective_to_string all_reduce = text "all_reduce"

unfoldable pub state_to_string : PersistentStateKind → Bytes
state_to_string kda_recurrent = text "kda_recurrent"
state_to_string sparse_mla_kv_and_index = text "sparse_mla_kv_index"
