-- ===== src/ModelSpec/Validate.antt =====
-- src/model_spec.cpp: `validate_model_spec`.
use ninfer_nvfp4_glm_5_3_fla.Prelude.{
  ℕ, ◌+◌, Bool, not, ◌||◌, List, [], ◌∷◌, ◌++◌, ◌==◌, text, Bytes, eq_list, decimal, length,
  double_eq, ◌reports◌, failures, if◌then◌else◌, Check,
}
use ninfer_nvfp4_glm_5_3_fla.ModelSpec.{
  MixerKind, kda, sparse_mla, eq_mixer, FfnKind, dense, sparse_moe, eq_ffn, LayerSpec, layer_count,
  ModelSpec, expected_mixer, expected_ffn, minus_five, one_millionth, two_and_a_half, ten,
}

-- `std::count_if` over the layers.
unfoldable pub count_layers : (LayerSpec → Bool) → List LayerSpec → ℕ
count_layers test [] = 0
count_layers test (layer ∷ layers) = (if test layer then 1 else 0) + count_layers test layers

abbrev pub count_mixer : ModelSpec → MixerKind → ℕ
count_mixer spec kind = count_layers (λ layer. eq_mixer layer.mixer kind) spec.layers

abbrev pub count_ffn : ModelSpec → FfnKind → ℕ
count_ffn spec kind = count_layers (λ layer. eq_ffn layer.ffn kind) spec.layers

-- One round of the loop over the layers, at slot `i`.
unfoldable pub check_layer : ℕ → LayerSpec → List Bytes
check_layer i layer = failures (
    (not (layer.index == i) reports (
      text "layer index mismatch at slot " ++ decimal i ++ text ": got " ++ decimal layer.index))
    ∷ (not (eq_mixer layer.mixer (expected_mixer i))
        reports (text "unexpected mixer kind at layer " ++ decimal i))
    ∷ (not (eq_ffn layer.ffn (expected_ffn i))
        reports (text "unexpected FFN kind at layer " ++ decimal i))
    ∷ [])

unfoldable pub check_layers : ℕ → List LayerSpec → List Bytes
check_layers i [] = []
check_layers i (layer ∷ layers) = check_layer i layer ++ check_layers (i + 1) layers

-- The checks before that loop, in two parts.
abbrev pub dimension_checks : ModelSpec → List Check
dimension_checks spec =
    (not (eq_list spec.architecture (text "Glm5NextForConditionalGeneration"))
      reports text "architecture must be Glm5NextForConditionalGeneration")
    ∷ (not (spec.hidden_size == 4096) reports text "hidden_size must be 4096")
    ∷ (not (spec.intermediate_size == 12288) reports text "intermediate_size must be 12288")
    ∷ (not (spec.vocab_size == 154880) reports text "vocab_size must be 154880")
    ∷ (not (spec.qk_head_dim == 256) reports text "qk_head_dim must be 256")
    ∷ (not (spec.qk_nope_head_dim == 256) reports text "qk_nope_head_dim must be 256")
    ∷ (not (spec.v_head_dim == 256) reports text "v_head_dim must be 256")
    ∷ (not (spec.index_kpool == 4) reports text "index_kpool must be 4")
    ∷ (not (spec.linear_attention_heads == 64) reports text "linear_attention_heads must be 64")
    ∷ (not (spec.linear_attention_head_dim == 128)
        reports text "linear_attention_head_dim must be 128")
    ∷ (not (spec.short_conv_kernel_size == 4) reports text "short_conv_kernel_size must be 4")
    ∷ (not (spec.shared_experts == 1) reports text "shared_experts must be 1")
    ∷ (not (spec.moe_intermediate_size == 2048) reports text "moe_intermediate_size must be 2048")
    ∷ (not (length spec.layers == layer_count) reports text "layer count must be 45")
    ∷ (not (spec.max_position_embeddings == 1048576)
        reports text "max_position_embeddings must be 1048576")
    ∷ (not (spec.attention_heads == 64) || not (spec.kv_heads == 64)
        reports text "attention and KV head counts must both be 64")
    ∷ (not (spec.q_lora_rank == 1536) || not (spec.kv_lora_rank == 512)
        reports text "MLA LoRA ranks do not match GLM-5.3-Flash")
    ∷ (not (spec.qk_rope_head_dim == 0)
        reports text "GLM-5.3-Flash contract expects qk_rope_head_dim=0")
    ∷ (not (spec.index_heads == 32)
          || not (spec.index_head_dim == 128)
          || not (spec.index_topk == 2048)
        reports text "sparse indexer geometry does not match GLM-5.3-Flash")
    ∷ (not (spec.routed_experts == 288) || not (spec.experts_per_token == 8)
        reports text "MoE geometry must be 288 routed experts with top-8 routing")
    ∷ (not (spec.dense_prefix_layers == 3) reports text "first three layers must use dense FFN")
    ∷ []

abbrev pub feature_checks : ModelSpec → List Check
feature_checks spec =
    (not spec.manifold_hyper_connections
        || not (spec.hyper_connection_streams == 4)
        || not (double_eq spec.hyper_connection_epsilon one_millionth)
        || not (spec.hyper_connection_sinkhorn_iterations == 20)
      reports text "mHC contract must use four streams, eps=1e-6 and 20 Sinkhorn iterations")
    ∷ (not (double_eq spec.kda_gate_lower_bound minus_five)
        reports text "KDA gate lower bound must be -5.0")
    ∷ (not (double_eq spec.routed_scaling_factor two_and_a_half)
          || not (double_eq spec.swiglu_limit ten)
        reports text "MoE routed scaling / SwiGLU clamp do not match GLM-5.3-Flash")
    ∷ (not (eq_list spec.router_dtype (text "float32"))
          || not (eq_list spec.router_scoring_function (text "sigmoid"))
          || not (eq_list spec.router_topk_method (text "noaux_tc"))
        reports text "MoE router contract does not match GLM-5.3-Flash")
    ∷ (not spec.mla_use_nope
          || not spec.index_kpool_compress
          || not spec.index_kpool_always_select_tail
          || not spec.index_share_for_mtp_iteration
          || not spec.indexer_rope_interleave
        reports text "sparse MLA/indexer feature flags do not match GLM-5.3-Flash")
    ∷ (not (spec.nextn_predict_layers == 1)
        reports text "official config declares one next-token-prediction layer")
    ∷ (not spec.mhc_parameters_fp32 || not spec.kda_decay_parameters_fp32
        reports text "mHC and KDA decay precision islands must remain fp32")
    ∷ []

-- The checks behind the loop.
abbrev pub count_checks : ModelSpec → List Check
count_checks spec =
    (not (count_mixer spec kda == 34) reports text "expected 34 KDA layers")
    ∷ (not (count_mixer spec sparse_mla == 11) reports text "expected 11 sparse-MLA layers")
    ∷ (not (count_ffn spec dense == 3) reports text "expected 3 dense FFN layers")
    ∷ (not (count_ffn spec sparse_moe == 42) reports text "expected 42 sparse-MoE layers")
    ∷ []

unfoldable pub validate_model_spec : ModelSpec → List Bytes
validate_model_spec spec =
    failures (dimension_checks spec)
    ++ failures (feature_checks spec)
    ++ check_layers 0 spec.layers
    ++ failures (count_checks spec)
