-- ===== src/ModelSpec/Fields.antt =====
-- src/model_spec.cpp: what the checks of the dimensions and of the features accept.
use ninfer_nvfp4_glm_5_3_fla.Prelude.{
  ◌≡◌, true, [], arith, text, length, failures, failures_iff, same_nat, same_text, same_double,
  either, holds,
}
use ninfer_nvfp4_glm_5_3_fla.ModelSpec.{
  layer_count, ModelSpec, minus_five, one_millionth, two_and_a_half, ten,
}
use ninfer_nvfp4_glm_5_3_fla.ModelSpec.Validate.{dimension_checks, feature_checks}

-- The dimensions and the layers of a specification are those of the model.
pub record Dimensions (spec : ModelSpec) : Type 0 where
  pub architecture : spec.architecture ≡ text "Glm5NextForConditionalGeneration"
  pub hidden_size : spec.hidden_size ≡ 4096
  pub intermediate_size : spec.intermediate_size ≡ 12288
  pub vocab_size : spec.vocab_size ≡ 154880
  pub max_position_embeddings : spec.max_position_embeddings ≡ 1048576
  pub attention_heads : spec.attention_heads ≡ 64
  pub kv_heads : spec.kv_heads ≡ 64
  pub q_lora_rank : spec.q_lora_rank ≡ 1536
  pub kv_lora_rank : spec.kv_lora_rank ≡ 512
  pub qk_head_dim : spec.qk_head_dim ≡ 256
  pub qk_nope_head_dim : spec.qk_nope_head_dim ≡ 256
  pub qk_rope_head_dim : spec.qk_rope_head_dim ≡ 0
  pub v_head_dim : spec.v_head_dim ≡ 256
  pub index_heads : spec.index_heads ≡ 32
  pub index_head_dim : spec.index_head_dim ≡ 128
  pub index_topk : spec.index_topk ≡ 2048
  pub index_kpool : spec.index_kpool ≡ 4
  pub linear_attention_heads : spec.linear_attention_heads ≡ 64
  pub linear_attention_head_dim : spec.linear_attention_head_dim ≡ 128
  pub short_conv_kernel_size : spec.short_conv_kernel_size ≡ 4
  pub routed_experts : spec.routed_experts ≡ 288
  pub shared_experts : spec.shared_experts ≡ 1
  pub experts_per_token : spec.experts_per_token ≡ 8
  pub moe_intermediate_size : spec.moe_intermediate_size ≡ 2048
  pub dense_prefix_layers : spec.dense_prefix_layers ≡ 3
  pub layer_total : length spec.layers ≡ layer_count

pub record Features (spec : ModelSpec) : Type 0 where
  pub kda_gate_lower_bound : spec.kda_gate_lower_bound ≡ minus_five
  pub manifold_hyper_connections : spec.manifold_hyper_connections ≡ true
  pub hyper_connection_streams : spec.hyper_connection_streams ≡ 4
  pub hyper_connection_epsilon : spec.hyper_connection_epsilon ≡ one_millionth
  pub hyper_connection_sinkhorn_iterations : spec.hyper_connection_sinkhorn_iterations ≡ 20
  pub routed_scaling_factor : spec.routed_scaling_factor ≡ two_and_a_half
  pub swiglu_limit : spec.swiglu_limit ≡ ten
  pub router_dtype : spec.router_dtype ≡ text "float32"
  pub router_scoring_function : spec.router_scoring_function ≡ text "sigmoid"
  pub router_topk_method : spec.router_topk_method ≡ text "noaux_tc"
  pub mla_use_nope : spec.mla_use_nope ≡ true
  pub index_kpool_compress : spec.index_kpool_compress ≡ true
  pub index_kpool_always_select_tail : spec.index_kpool_always_select_tail ≡ true
  pub index_share_for_mtp_iteration : spec.index_share_for_mtp_iteration ≡ true
  pub indexer_rope_interleave : spec.indexer_rope_interleave ≡ true
  pub nextn_predict_layers : spec.nextn_predict_layers ≡ 1
  pub mhc_parameters_fp32 : spec.mhc_parameters_fp32 ≡ true
  pub kda_decay_parameters_fp32 : spec.kda_decay_parameters_fp32 ≡ true

pub dimension_checks_lem :
    (spec : ModelSpec) → failures (dimension_checks spec) ≡ [] → Dimensions spec
dimension_checks_lem spec h =
    let (
      arch,
      (
        hidden,
        (
          inter,
          (
            vocab,
            (
              qk,
              (
                nope,
                (
                  v,
                  (
                    pool,
                    (
                      lin,
                      (
                        lind,
                        (
                          conv,
                          (
                            shared,
                            (
                              moe,
                              (
                                total,
                                (pos, (heads, (lora, (rope, (index, (routed, (front, u))))))),
                              ),
                            ),
                          ),
                        ),
                      ),
                    ),
                  ),
                ),
              ),
            ),
          ),
        ),
      ),
    ) =
      (failures_iff (dimension_checks spec)).0 h in
    let (heads1, heads2) = either _ _ heads in
    let (lora1, lora2) = either _ _ lora in
    let (index12, index3) = either _ _ index in
    let (index1, index2) = either _ _ index12 in
    let (routed1, routed2) = either _ _ routed in
    record {
      architecture = same_text _ _ arch;
      hidden_size = same_nat _ _ hidden;
      intermediate_size = same_nat _ _ inter;
      vocab_size = same_nat _ _ vocab;
      max_position_embeddings = same_nat _ _ pos;
      attention_heads = same_nat _ _ heads1;
      kv_heads = same_nat _ _ heads2;
      q_lora_rank = same_nat _ _ lora1;
      kv_lora_rank = same_nat _ _ lora2;
      qk_head_dim = same_nat _ _ qk;
      qk_nope_head_dim = same_nat _ _ nope;
      qk_rope_head_dim = same_nat _ _ rope;
      v_head_dim = same_nat _ _ v;
      index_heads = same_nat _ _ index1;
      index_head_dim = same_nat _ _ index2;
      index_topk = same_nat _ _ index3;
      index_kpool = same_nat _ _ pool;
      linear_attention_heads = same_nat _ _ lin;
      linear_attention_head_dim = same_nat _ _ lind;
      short_conv_kernel_size = same_nat _ _ conv;
      routed_experts = same_nat _ _ routed1;
      shared_experts = same_nat _ _ shared;
      experts_per_token = same_nat _ _ routed2;
      moe_intermediate_size = same_nat _ _ moe;
      dense_prefix_layers = same_nat _ _ front;
      layer_total = same_nat _ _ total;
    }

pub feature_checks_lem : (spec : ModelSpec) → failures (feature_checks spec) ≡ [] → Features spec
feature_checks_lem spec h =
    let (mhc, (gate, (scaling, (router, (flags, (next, (fp32, u))))))) =
      (failures_iff (feature_checks spec)).0 h in
    let (mhc123, mhc4) = either _ _ mhc in
    let (mhc12, mhc3) = either _ _ mhc123 in
    let (mhc1, mhc2) = either _ _ mhc12 in
    let (scaling1, scaling2) = either _ _ scaling in
    let (router12, router3) = either _ _ router in
    let (router1, router2) = either _ _ router12 in
    let (flags1234, flag5) = either _ _ flags in
    let (flags123, flag4) = either _ _ flags1234 in
    let (flags12, flag3) = either _ _ flags123 in
    let (flag1, flag2) = either _ _ flags12 in
    let (fp1, fp2) = either _ _ fp32 in
    record {
      kda_gate_lower_bound = same_double _ minus_five (omega arith) gate;
      manifold_hyper_connections = holds _ mhc1;
      hyper_connection_streams = same_nat _ _ mhc2;
      hyper_connection_epsilon = same_double _ one_millionth (omega arith) mhc3;
      hyper_connection_sinkhorn_iterations = same_nat _ _ mhc4;
      routed_scaling_factor = same_double _ two_and_a_half (omega arith) scaling1;
      swiglu_limit = same_double _ ten (omega arith) scaling2;
      router_dtype = same_text _ _ router1;
      router_scoring_function = same_text _ _ router2;
      router_topk_method = same_text _ _ router3;
      mla_use_nope = holds _ flag1;
      index_kpool_compress = holds _ flag2;
      index_kpool_always_select_tail = holds _ flag3;
      index_share_for_mtp_iteration = holds _ flag4;
      indexer_rope_interleave = holds _ flag5;
      nextn_predict_layers = same_nat _ _ next;
      mhc_parameters_fp32 = holds _ fp1;
      kda_decay_parameters_fp32 = holds _ fp2;
    }
