-- ===== src/ModelSpec.antt =====
-- src/model_spec.cpp: the specification of the model and its validation.
pub mod Validate
pub mod Layers
mod Fields
pub mod Pinned
mod Tests
use ninfer_nvfp4_glm_5_3_fla.Prelude.{
  ℕ, zero, suc, ◌+◌, ◌-◌, ◌*◌, ◌%◌, ◌^◌, ◌≡◌, Bool, true, false, not, ◌&&◌, ◌||◌, List, [], ◌∷◌,
  ◌++◌, leb, ltb, ◌==◌, if◌then◌else◌, text, Bytes, eq_list, decimal, length, Double, double_eq,
}

pub data MixerKind : Type 0 where
  kda sparse_mla : MixerKind

pub data FfnKind : Type 0 where
  dense sparse_moe : FfnKind

abbrev pub eq_mixer : MixerKind → MixerKind → Bool
eq_mixer kda kda = true
eq_mixer sparse_mla sparse_mla = true
eq_mixer _ _ = false

abbrev pub eq_ffn : FfnKind → FfnKind → Bool
eq_ffn dense dense = true
eq_ffn sparse_moe sparse_moe = true
eq_ffn _ _ = false

pub record LayerSpec : Type 0 where
  pub index : ℕ
  pub mixer : MixerKind
  pub ffn : FfnKind

abbrev pub layer_count : ℕ
layer_count = 45

pub record ModelSpec : Type 0 where
  pub architecture : Bytes
  pub checkpoint : Bytes
  pub hidden_size : ℕ
  pub intermediate_size : ℕ
  pub vocab_size : ℕ
  pub max_position_embeddings : ℕ
  pub attention_heads : ℕ
  pub kv_heads : ℕ
  pub q_lora_rank : ℕ
  pub kv_lora_rank : ℕ
  pub qk_head_dim : ℕ
  pub qk_nope_head_dim : ℕ
  pub qk_rope_head_dim : ℕ
  pub v_head_dim : ℕ
  pub index_heads : ℕ
  pub index_head_dim : ℕ
  pub index_topk : ℕ
  pub index_kpool : ℕ
  pub linear_attention_heads : ℕ
  pub linear_attention_head_dim : ℕ
  pub short_conv_kernel_size : ℕ
  pub kda_gate_lower_bound : Double
  pub manifold_hyper_connections : Bool
  pub hyper_connection_streams : ℕ
  pub hyper_connection_epsilon : Double
  pub hyper_connection_sinkhorn_iterations : ℕ
  pub routed_experts : ℕ
  pub shared_experts : ℕ
  pub experts_per_token : ℕ
  pub moe_intermediate_size : ℕ
  pub dense_prefix_layers : ℕ
  pub routed_scaling_factor : Double
  pub swiglu_limit : Double
  pub router_dtype : Bytes
  pub router_scoring_function : Bytes
  pub router_topk_method : Bytes
  pub mla_use_nope : Bool
  pub index_kpool_compress : Bool
  pub index_kpool_always_select_tail : Bool
  pub index_share_for_mtp_iteration : Bool
  pub indexer_rope_interleave : Bool
  pub nextn_predict_layers : ℕ
  pub mhc_parameters_fp32 : Bool
  pub kda_decay_parameters_fp32 : Bool
  pub layers : List LayerSpec

unfoldable pub is_sparse_mla_layer : ℕ → Bool
is_sparse_mla_layer layer = leb 3 layer && (layer - 3) % 4 == 0

abbrev pub expected_mixer : ℕ → MixerKind
expected_mixer layer = if is_sparse_mla_layer layer then sparse_mla else kda

abbrev pub expected_ffn : ℕ → FfnKind
expected_ffn layer = if ltb layer 3 then dense else sparse_moe

-- The loop of `make_layers`, with `rounds` layers to go from `layer`.
unfoldable pub make_layers : ℕ → ℕ → List LayerSpec
make_layers zero layer = []
make_layers (suc rounds) layer =
    record { index = layer; mixer = expected_mixer layer; ffn = expected_ffn layer }
    ∷ make_layers rounds (layer + 1)

-- The doubles -5.0, 1e-6, 2.5 and 10.0.
abbrev pub minus_five : Double
minus_five = record { negative = true; bits = 1025 * 2 ^ 52 + 2 ^ 50 }

abbrev pub one_millionth : Double
one_millionth = record { negative = false; bits = 4517329193108106637 }

abbrev pub two_and_a_half : Double
two_and_a_half = record { negative = false; bits = 1024 * 2 ^ 52 + 2 ^ 50 }

abbrev pub ten : Double
ten = record { negative = false; bits = 1026 * 2 ^ 52 + 2 ^ 50 }

unfoldable pub glm53_flash_spec : ModelSpec
glm53_flash_spec = record {
  architecture = text "Glm5NextForConditionalGeneration";
  checkpoint = text "zai-org/GLM-5.3-Flash";
  hidden_size = 4096;
  intermediate_size = 12288;
  vocab_size = 154880;
  max_position_embeddings = 1048576;
  attention_heads = 64;
  kv_heads = 64;
  q_lora_rank = 1536;
  kv_lora_rank = 512;
  qk_head_dim = 256;
  qk_nope_head_dim = 256;
  qk_rope_head_dim = 0;
  v_head_dim = 256;
  index_heads = 32;
  index_head_dim = 128;
  index_topk = 2048;
  index_kpool = 4;
  linear_attention_heads = 64;
  linear_attention_head_dim = 128;
  short_conv_kernel_size = 4;
  kda_gate_lower_bound = minus_five;
  manifold_hyper_connections = true;
  hyper_connection_streams = 4;
  hyper_connection_epsilon = one_millionth;
  hyper_connection_sinkhorn_iterations = 20;
  routed_experts = 288;
  shared_experts = 1;
  experts_per_token = 8;
  moe_intermediate_size = 2048;
  dense_prefix_layers = 3;
  routed_scaling_factor = two_and_a_half;
  swiglu_limit = ten;
  router_dtype = text "float32";
  router_scoring_function = text "sigmoid";
  router_topk_method = text "noaux_tc";
  mla_use_nope = true;
  index_kpool_compress = true;
  index_kpool_always_select_tail = true;
  index_share_for_mtp_iteration = true;
  indexer_rope_interleave = true;
  nextn_predict_layers = 1;
  mhc_parameters_fp32 = true;
  kda_decay_parameters_fp32 = true;
  layers = make_layers layer_count 0;
}

-- `to_string` of both kinds.
unfoldable pub mixer_to_string : MixerKind → Bytes
mixer_to_string kda = text "kda"
mixer_to_string sparse_mla = text "sparse_mla"

unfoldable pub ffn_to_string : FfnKind → Bytes
ffn_to_string dense = text "dense"
ffn_to_string sparse_moe = text "sparse_moe"
