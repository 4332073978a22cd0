-- ===== src/ModelSpec/Pinned.antt =====
-- src/model_spec.cpp: what the validation accepts.
use ninfer_nvfp4_glm_5_3_fla.Prelude.{
  ◌≡◌, ◌↔◌, refl, ap, ◌∙◌, [], text, Bytes, eq_list, double_eq, failures, append_empty, place,
  double_is_nan,
}
use ninfer_nvfp4_glm_5_3_fla.ModelSpec.{
  layer_count, ModelSpec, make_layers, glm53_flash_spec, is_sparse_mla_layer,
}
use ninfer_nvfp4_glm_5_3_fla.ModelSpec.Validate.{
  check_layers, dimension_checks, feature_checks, count_checks, validate_model_spec, check_layer,
  count_layers,
}
use ninfer_nvfp4_glm_5_3_fla.ModelSpec.Layers.{check_layers_lem}
use ninfer_nvfp4_glm_5_3_fla.ModelSpec.Fields.{
  Dimensions, Features, dimension_checks_lem, feature_checks_lem,
}

-- The specification of the model with another checkpoint.
abbrev pub pinned : Bytes → ModelSpec
pinned checkpoint = record glm53_flash_spec { checkpoint = checkpoint }

pinned_lem :
    (spec : ModelSpec)
    → Dimensions spec
    → Features spec
    → spec.layers ≡ make_layers layer_count 0
    → spec ≡ pinned spec.checkpoint
unfolding glm53_flash_spec
pinned_lem spec d f layers = λ i. record {
  checkpoint = spec.checkpoint;
  architecture = d.architecture i;
  hidden_size = d.hidden_size i;
  intermediate_size = d.intermediate_size i;
  vocab_size = d.vocab_size i;
  max_position_embeddings = d.max_position_embeddings i;
  attention_heads = d.attention_heads i;
  kv_heads = d.kv_heads i;
  q_lora_rank = d.q_lora_rank i;
  kv_lora_rank = d.kv_lora_rank i;
  qk_head_dim = d.qk_head_dim i;
  qk_nope_head_dim = d.qk_nope_head_dim i;
  qk_rope_head_dim = d.qk_rope_head_dim i;
  v_head_dim = d.v_head_dim i;
  index_heads = d.index_heads i;
  index_head_dim = d.index_head_dim i;
  index_topk = d.index_topk i;
  index_kpool = d.index_kpool i;
  linear_attention_heads = d.linear_attention_heads i;
  linear_attention_head_dim = d.linear_attention_head_dim i;
  short_conv_kernel_size = d.short_conv_kernel_size i;
  routed_experts = d.routed_experts i;
  shared_experts = d.shared_experts i;
  experts_per_token = d.experts_per_token i;
  moe_intermediate_size = d.moe_intermediate_size i;
  dense_prefix_layers = d.dense_prefix_layers i;
  kda_gate_lower_bound = f.kda_gate_lower_bound i;
  manifold_hyper_connections = f.manifold_hyper_connections i;
  hyper_connection_streams = f.hyper_connection_streams i;
  hyper_connection_epsilon = f.hyper_connection_epsilon i;
  hyper_connection_sinkhorn_iterations = f.hyper_connection_sinkhorn_iterations i;
  routed_scaling_factor = f.routed_scaling_factor i;
  swiglu_limit = f.swiglu_limit i;
  router_dtype = f.router_dtype i;
  router_scoring_function = f.router_scoring_function i;
  router_topk_method = f.router_topk_method i;
  mla_use_nope = f.mla_use_nope i;
  index_kpool_compress = f.index_kpool_compress i;
  index_kpool_always_select_tail = f.index_kpool_always_select_tail i;
  index_share_for_mtp_iteration = f.index_share_for_mtp_iteration i;
  indexer_rope_interleave = f.indexer_rope_interleave i;
  nextn_predict_layers = f.nextn_predict_layers i;
  mhc_parameters_fp32 = f.mhc_parameters_fp32 i;
  kda_decay_parameters_fp32 = f.kda_decay_parameters_fp32 i;
  layers = layers i;
}

pinned_passes : (checkpoint : Bytes) → validate_model_spec (pinned checkpoint) ≡ []
unfolding validate_model_spec glm53_flash_spec failures check_layers check_layer make_layers
    count_layers text eq_list double_eq double_is_nan place is_sparse_mla_layer
pinned_passes checkpoint = refl

-- The validation reports no error exactly for the specification of the model, up to its checkpoint.
pub validate_model_spec_iff :
    (spec : ModelSpec) → (validate_model_spec spec ≡ []) ↔ (spec ≡ pinned spec.checkpoint)
unfolding validate_model_spec
validate_model_spec_iff spec = (
  λ h.
      let (k3, h4) = append_empty _ (failures (count_checks spec)) h in
      let (k2, h3) = append_empty _ (check_layers 0 spec.layers) k3 in
      let (h1, h2) =
        append_empty (failures (dimension_checks spec)) (failures (feature_checks spec)) k2 in
      let d = dimension_checks_lem spec h1 in
      pinned_lem spec d (feature_checks_lem spec h2)
        (check_layers_lem 0 spec.layers h3 ∙ ap (λ n. make_layers n 0) d.layer_total),
  λ e. ap validate_model_spec e ∙ pinned_passes spec.checkpoint,
)
