-- ===== src/Schema.antt =====
-- include/ninfer_glm53/parameter_schema.hpp and src/parameter_schema.cpp: the stored tensors, the
-- specifications of the vision tower and of the draft model, and their validation.
pub mod Tensors
pub mod Mixers
pub mod Layers
pub mod Catalog
mod Pinned
pub mod Validate
pub mod Distinct
mod Draft
mod Counts
mod Totals
mod Tests
use ninfer_nvfp4_glm_5_3_fla.Prelude.{
  ℕ, ◌*◌, ◌%◌, ◌^◌, ◌≡◌, Bool, true, false, not, ◌&&◌, ◌||◌, List, [], ◌∷◌, ◌++◌, ◌==◌, text, Bytes,
  eq_list, Check, ◌reports◌, failures, map, decimal, ◌+◌,
}

pub data DType : Type 0 where
  bf16 f16 f32 f8_e4m3 u8 i16 i32 : DType

pub data StorageClass : Type 0 where
  native_bf16 native_f32 nvfp4_packed_u8 nvfp4_block_scale_f8 nvfp4_global_scale_f32 : StorageClass
  fp8_block_weight fp8_block_scale_bf16 : StorageClass

-- `std::int64_t`, as far as its sign and value are read.
pub data ℤ : Type 0 where
  pos negsuc : ℕ → ℤ

abbrev pub nvfp4_group_size : ℕ
nvfp4_group_size = 16

pub record VisionSpec : Type 0 where
  pub depth : ℕ
  pub hidden_size : ℕ
  pub num_heads : ℕ
  pub intermediate_size : ℕ
  pub out_hidden_size : ℕ
  pub in_channels : ℕ
  pub patch_size : ℕ
  pub temporal_patch_size : ℕ
  pub spatial_merge_size : ℕ
  pub projection_intermediate_size : ℕ

pub record DFlash2Spec : Type 0 where
  pub layers : ℕ
  pub hidden_size : ℕ
  pub intermediate_size : ℕ
  pub vocab_size : ℕ
  pub num_heads : ℕ
  pub num_kv_heads : ℕ
  pub head_dim : ℕ
  pub selector_rank : ℕ
  pub conv_kernel_size : ℕ
  pub conv_group_size : ℕ
  pub block_size : ℕ
  pub num_target_layers : ℕ
  pub target_layer_ids : List ℕ

pub record ExpectedTensor : Type 0 where
  pub logical_id : Bytes
  pub source_name : Bytes
  pub dtype : DType
  pub storage : StorageClass
  pub shape : List ℤ
  pub mcg_payload : Bool

abbrev pub glm53_flash_vision_spec : VisionSpec
glm53_flash_vision_spec = record {
  depth = 24;
  hidden_size = 1024;
  num_heads = 16;
  intermediate_size = 4096;
  out_hidden_size = 4096;
  in_channels = 3;
  patch_size = 14;
  temporal_patch_size = 2;
  spatial_merge_size = 2;
  projection_intermediate_size = 10240;
}

abbrev pub glm53_flash_dflash2_spec : DFlash2Spec
glm53_flash_dflash2_spec = record {
  layers = 5;
  hidden_size = 4096;
  intermediate_size = 12288;
  vocab_size = 154880;
  num_heads = 32;
  num_kv_heads = 8;
  head_dim = 128;
  selector_rank = 256;
  conv_kernel_size = 2;
  conv_group_size = 16;
  block_size = 8;
  num_target_layers = 45;
  target_layer_ids = 5 ∷ 14 ∷ 24 ∷ 33 ∷ 42 ∷ [];
}

-- A remainder by zero is not taken: the test in front of it has failed.
abbrev pub vision_checks : VisionSpec → List Check
vision_checks spec =
    (not (spec.depth == 24) reports text "vision depth must be 24")
    ∷ (not (spec.hidden_size == 1024) || not (spec.num_heads == 16)
        reports text "vision hidden size / head count must be 1024 / 16")
    ∷ (spec.num_heads == 0 || not (spec.hidden_size % spec.num_heads == 0)
        reports text "vision head count must divide hidden size")
    ∷ (not (spec.intermediate_size == 4096) || not (spec.out_hidden_size == 4096)
        reports text "vision intermediate and merger width must be 4096")
    ∷ (not (spec.in_channels == 3)
          || not (spec.patch_size == 14)
          || not (spec.temporal_patch_size == 2)
          || not (spec.spatial_merge_size == 2)
        reports text "vision patch geometry does not match GLM-5.3-Flash")
    ∷ (not (spec.projection_intermediate_size == 10240)
        reports text "vision merger intermediate size must be 10240")
    ∷ []

unfoldable pub validate_vision_spec : VisionSpec → List Bytes
validate_vision_spec spec = failures (vision_checks spec)

-- The product of two 32-bit numbers wraps.
abbrev pub dflash2_checks : DFlash2Spec → List Check
dflash2_checks spec =
    (not (spec.layers == 5) reports text "DFlash2 draft must have 5 layers")
    ∷ (not (spec.hidden_size == 4096)
          || not (spec.intermediate_size == 12288)
          || not (spec.vocab_size == 154880)
        reports text "DFlash2 hidden/intermediate/vocab geometry does not match the pinned draft")
    ∷ (not (spec.num_heads == 32) || not (spec.num_kv_heads == 8) || not (spec.head_dim == 128)
        reports text "DFlash2 attention geometry must be 32 heads, 8 KV heads, head dim 128")
    ∷ (not (spec.num_heads * spec.head_dim % 2 ^ 32 == spec.hidden_size)
        reports text "DFlash2 query width must equal hidden size")
    ∷ (not (spec.selector_rank == 256)
          || not (spec.conv_kernel_size == 2)
          || not (spec.conv_group_size == 16)
          || not (spec.block_size == 8)
        reports text "DFlash2 selector/conv/block contract does not match the pinned draft")
    ∷ (spec.conv_group_size == 0 || not (spec.hidden_size % spec.conv_group_size == 0)
        reports text "DFlash2 conv group size must divide hidden size")
    ∷ (not (spec.num_target_layers == 45) reports text "DFlash2 num_target_layers must be 45")
    ∷ (not (eq_list spec.target_layer_ids (5 ∷ 14 ∷ 24 ∷ 33 ∷ 42 ∷ []))
        reports text "DFlash2 target layer ids must be 5,14,24,33,42")
    ∷ []

unfoldable pub validate_dflash2_spec : DFlash2Spec → List Bytes
validate_dflash2_spec spec = failures (dflash2_checks spec)

-- `to_string` of both kinds.
unfoldable pub dtype_to_string : DType → Bytes
dtype_to_string bf16 = text "BF16"
dtype_to_string f16 = text "F16"
dtype_to_string f32 = text "F32"
dtype_to_string f8_e4m3 = text "F8_E4M3"
dtype_to_string u8 = text "U8"
dtype_to_string i16 = text "I16"
dtype_to_string i32 = text "I32"

unfoldable pub storage_to_string : StorageClass → Bytes
storage_to_string native_bf16 = text "native_bf16"
storage_to_string native_f32 = text "native_f32"
storage_to_string nvfp4_packed_u8 = text "nvfp4_packed_u8"
storage_to_string nvfp4_block_scale_f8 = text "nvfp4_block_scale_f8"
storage_to_string nvfp4_global_scale_f32 = text "nvfp4_global_scale_f32"
storage_to_string fp8_block_weight = text "fp8_block_weight"
storage_to_string fp8_block_scale_bf16 = text "fp8_block_scale_bf16"

-- `std::to_string` of a signed number.
abbrev pub signed_decimal : ℤ → Bytes
signed_decimal (pos n) = decimal n
signed_decimal (negsuc n) = text "-" ++ decimal (n + 1)

-- The dimensions with commas between them.
unfoldable pub shape_to_string : List ℤ → Bytes
shape_to_string [] = []
shape_to_string (dim ∷ []) = signed_decimal dim
shape_to_string (dim ∷ next ∷ shape) =
    signed_decimal dim ++ text "," ++ shape_to_string (next ∷ shape)
