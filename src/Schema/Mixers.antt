-- ===== src/Schema/Mixers.antt =====
-- src/parameter_schema.cpp: the tensors of both mixers and of the hyper-connections.
use ninfer_nvfp4_glm_5_3_fla.Prelude.{◌+◌, ◌-◌, ◌*◌, ◌%◌, ◌^◌, List, [], ◌∷◌, ◌++◌, text, Bytes}
use ninfer_nvfp4_glm_5_3_fla.ModelSpec.{MixerKind, kda, sparse_mla, ModelSpec}
use ninfer_nvfp4_glm_5_3_fla.Schema.{ExpectedTensor}
use ninfer_nvfp4_glm_5_3_fla.Schema.Tensors.{add_bf16, add_f32}

unfoldable pub add_kda : ModelSpec → Bytes → Bytes → List ExpectedTensor
add_kda model logical source =
    let hidden = model.hidden_size in
    let heads = model.linear_attention_heads in
    let head_dim = model.linear_attention_head_dim in
    let width = model.linear_attention_heads * model.linear_attention_head_dim in
    let kernel = model.short_conv_kernel_size in
    add_f32 (logical ++ text "kda.a_log") (source ++ text "self_attn.A_log") (heads ∷ [])
    ∷ add_f32 (logical ++ text "kda.dt_bias") (source ++ text "self_attn.dt_bias") (width ∷ [])
    ∷ add_bf16 (logical ++ text "kda.b_proj") (source ++ text "self_attn.b_proj.weight")
        (heads ∷ hidden ∷ [])
    ∷ add_bf16 (logical ++ text "kda.f_a_proj") (source ++ text "self_attn.f_a_proj.weight")
        (head_dim ∷ hidden ∷ [])
    ∷ add_bf16 (logical ++ text "kda.f_b_proj") (source ++ text "self_attn.f_b_proj.weight")
        (width ∷ head_dim ∷ [])
    ∷ add_bf16 (logical ++ text "kda.g_a_proj") (source ++ text "self_attn.g_a_proj.weight")
        (head_dim ∷ hidden ∷ [])
    ∷ add_bf16 (logical ++ text "kda.g_b_proj") (source ++ text "self_attn.g_b_proj.weight")
        (width ∷ head_dim ∷ [])
    ∷ add_bf16 (logical ++ text "kda.q_proj") (source ++ text "self_attn.q_proj.weight")
        (width ∷ hidden ∷ [])
    ∷ add_bf16 (logical ++ text "kda.k_proj") (source ++ text "self_attn.k_proj.weight")
        (width ∷ hidden ∷ [])
    ∷ add_bf16 (logical ++ text "kda.v_proj") (source ++ text "self_attn.v_proj.weight")
        (width ∷ hidden ∷ [])
    ∷ add_f32 (logical ++ text "kda.q_conv") (source ++ text "self_attn.q_conv1d.weight")
        (width ∷ 1 ∷ kernel ∷ [])
    ∷ add_f32 (logical ++ text "kda.k_conv") (source ++ text "self_attn.k_conv1d.weight")
        (width ∷ 1 ∷ kernel ∷ [])
    ∷ add_f32 (logical ++ text "kda.v_conv") (source ++ text "self_attn.v_conv1d.weight")
        (width ∷ 1 ∷ kernel ∷ [])
    ∷ add_bf16 (logical ++ text "kda.o_norm") (source ++ text "self_attn.o_norm.weight")
        (head_dim ∷ [])
    ∷ []

unfoldable pub add_sparse_mla : ModelSpec → Bytes → Bytes → List ExpectedTensor
add_sparse_mla model logical source =
    let hidden = model.hidden_size in
    let q_lora = model.q_lora_rank in
    let kv_lora = model.kv_lora_rank in
    let q_out = model.attention_heads * model.qk_head_dim in
    let kv_b_out = model.attention_heads * (model.qk_nope_head_dim + model.v_head_dim) in
    let index_heads = model.index_heads in
    let index_dim = model.index_head_dim in
    let index_q_out = model.index_heads * model.index_head_dim in
    add_bf16 (logical ++ text "mla.q_a_proj") (source ++ text "self_attn.q_a_proj.weight")
      (q_lora ∷ hidden ∷ [])
    ∷ add_bf16 (logical ++ text "mla.q_a_norm") (source ++ text "self_attn.q_a_layernorm.weight")
        (q_lora ∷ [])
    ∷ add_bf16 (logical ++ text "mla.q_b_proj") (source ++ text "self_attn.q_b_proj.weight")
        (q_out ∷ q_lora ∷ [])
    ∷ add_bf16 (logical ++ text "mla.kv_a_proj")
        (source ++ text "self_attn.kv_a_proj_with_mqa.weight") (kv_lora ∷ hidden ∷ [])
    ∷ add_bf16 (logical ++ text "mla.kv_a_norm") (source ++ text "self_attn.kv_a_layernorm.weight")
        (kv_lora ∷ [])
    ∷ add_bf16 (logical ++ text "mla.kv_b_proj") (source ++ text "self_attn.kv_b_proj.weight")
        (kv_b_out ∷ kv_lora ∷ [])
    ∷ add_bf16 (logical ++ text "indexer.wk") (source ++ text "self_attn.indexer.wk.weight")
        (index_dim ∷ hidden ∷ [])
    ∷ add_bf16 (logical ++ text "indexer.wq_b") (source ++ text "self_attn.indexer.wq_b.weight")
        (index_q_out ∷ q_lora ∷ [])
    ∷ add_bf16 (logical ++ text "indexer.weights_proj")
        (source ++ text "self_attn.indexer.weights_proj.weight") (index_heads ∷ hidden ∷ [])
    ∷ add_bf16 (logical ++ text "indexer.k_norm") (source ++ text "self_attn.indexer.k_norm.weight")
        (index_dim ∷ [])
    ∷ add_bf16 (logical ++ text "indexer.k_norm_bias")
        (source ++ text "self_attn.indexer.k_norm.bias") (index_dim ∷ [])
    ∷ add_bf16 (logical ++ text "indexer.kpool_ape")
        (source ++ text "self_attn.indexer.index_kpool_compress_ape")
        (model.index_kpool ∷ index_dim ∷ [])
    ∷ add_bf16 (logical ++ text "indexer.kpool_gate")
        (source ++ text "self_attn.indexer.index_kpool_compress_gate") (index_dim ∷ hidden ∷ [])
    ∷ []

-- The arithmetic on `streams` is that of 32 bits.
unfoldable pub add_mhc : ModelSpec → Bytes → Bytes → List ExpectedTensor
add_mhc model logical source =
    let streams = model.hyper_connection_streams in
    let coeff = streams * ((streams + 2) % 2 ^ 32) % 2 ^ 32 in
    let scale = (streams + (2 ^ 32 - 1)) % 2 ^ 32 in
    let fn_in = model.hidden_size * streams in
    add_bf16 (logical ++ text "mhc.attn.base") (source ++ text "hc_attn_base") (coeff ∷ [])
    ∷ add_bf16 (logical ++ text "mhc.attn.fn") (source ++ text "hc_attn_fn") (coeff ∷ fn_in ∷ [])
    ∷ add_bf16 (logical ++ text "mhc.attn.scale") (source ++ text "hc_attn_scale") (scale ∷ [])
    ∷ add_bf16 (logical ++ text "mhc.ffn.base") (source ++ text "hc_ffn_base") (coeff ∷ [])
    ∷ add_bf16 (logical ++ text "mhc.ffn.fn") (source ++ text "hc_ffn_fn") (coeff ∷ fn_in ∷ [])
    ∷ add_bf16 (logical ++ text "mhc.ffn.scale") (source ++ text "hc_ffn_scale") (scale ∷ [])
    ∷ []

abbrev pub add_mixer : ModelSpec → Bytes → Bytes → MixerKind → List ExpectedTensor
add_mixer model logical source kda =
    add_bf16 (logical ++ text "mixer.o_proj") (source ++ text "self_attn.o_proj.weight")
      (model.hidden_size ∷ model.linear_attention_heads * model.linear_attention_head_dim ∷ [])
    ∷ add_kda model logical source
add_mixer model logical source sparse_mla =
    add_bf16 (logical ++ text "mixer.o_proj") (source ++ text "self_attn.o_proj.weight")
      (model.hidden_size ∷ model.attention_heads * model.v_head_dim ∷ [])
    ∷ add_sparse_mla model logical source
