-- ===== src/Schema/Catalog.antt =====
-- src/parameter_schema.cpp: the catalogues of tensors that the checkpoints must hold.
use ninfer_nvfp4_glm_5_3_fla.Prelude.{
  ℕ, zero, suc, ◌+◌, ◌*◌, ◌/◌, ◌%◌, Bool, true, false, not, ◌||◌, List, [], ◌∷◌, ◌++◌, length, ltb,
  ◌==◌, if◌then◌else◌, text, Bytes, decimal, logic_error, Result, ok, threw, guard, ◌>>=◌, ◌>>◌,
}
use ninfer_nvfp4_glm_5_3_fla.ModelSpec.{sparse_mla, sparse_moe, LayerSpec, ModelSpec}
use ninfer_nvfp4_glm_5_3_fla.ModelSpec.Validate.{validate_model_spec}
use ninfer_nvfp4_glm_5_3_fla.Schema.{
  VisionSpec, DFlash2Spec, ExpectedTensor, validate_vision_spec, validate_dflash2_spec,
}
use ninfer_nvfp4_glm_5_3_fla.Schema.Tensors.{add_bf16}
use ninfer_nvfp4_glm_5_3_fla.Schema.Layers.{add_language_layer}

-- `errors.empty()`
abbrev pub no_errors : List Bytes → Bool
no_errors [] = true
no_errors (error ∷ errors) = false

-- One round of the loop over the blocks of the vision tower.
unfoldable pub vision_block : VisionSpec → ℕ → List ExpectedTensor
vision_block vision block =
    let hidden = vision.hidden_size in
    let head_dim = vision.hidden_size / vision.num_heads in
    let intermediate = vision.intermediate_size in
    let qkv = hidden * 3 in
    let source = text "model.visual.blocks." ++ decimal block ++ text "." in
    let logical = text "vision.block." ++ decimal block ++ text "." in
    add_bf16 (logical ++ text "norm1") (source ++ text "norm1.weight") (hidden ∷ [])
    ∷ add_bf16 (logical ++ text "norm2") (source ++ text "norm2.weight") (hidden ∷ [])
    ∷ add_bf16 (logical ++ text "attn.q_norm") (source ++ text "attn.q_norm.weight") (head_dim ∷ [])
    ∷ add_bf16 (logical ++ text "attn.k_norm") (source ++ text "attn.k_norm.weight") (head_dim ∷ [])
    ∷ add_bf16 (logical ++ text "attn.qkv") (source ++ text "attn.qkv.weight") (qkv ∷ hidden ∷ [])
    ∷ add_bf16 (logical ++ text "attn.qkv_bias") (source ++ text "attn.qkv.bias") (qkv ∷ [])
    ∷ add_bf16 (logical ++ text "attn.proj") (source ++ text "attn.proj.weight")
        (hidden ∷ hidden ∷ [])
    ∷ add_bf16 (logical ++ text "attn.proj_bias") (source ++ text "attn.proj.bias") (hidden ∷ [])
    ∷ add_bf16 (logical ++ text "mlp.gate_proj") (source ++ text "mlp.gate_proj.weight")
        (intermediate ∷ hidden ∷ [])
    ∷ add_bf16 (logical ++ text "mlp.gate_bias") (source ++ text "mlp.gate_proj.bias")
        (intermediate ∷ [])
    ∷ add_bf16 (logical ++ text "mlp.up_proj") (source ++ text "mlp.up_proj.weight")
        (intermediate ∷ hidden ∷ [])
    ∷ add_bf16 (logical ++ text "mlp.up_bias") (source ++ text "mlp.up_proj.bias")
        (intermediate ∷ [])
    ∷ add_bf16 (logical ++ text "mlp.down_proj") (source ++ text "mlp.down_proj.weight")
        (hidden ∷ intermediate ∷ [])
    ∷ add_bf16 (logical ++ text "mlp.down_bias") (source ++ text "mlp.down_proj.bias") (hidden ∷ [])
    ∷ []

unfoldable pub vision_blocks : VisionSpec → ℕ → ℕ → List ExpectedTensor
vision_blocks vision zero block = []
vision_blocks vision (suc rounds) block =
    vision_block vision block ++ vision_blocks vision rounds (block + 1)

abbrev pub vision_ends : VisionSpec → List ExpectedTensor
vision_ends vision =
    let hidden = vision.hidden_size in
    let out_hidden = vision.out_hidden_size in
    let proj_mid = vision.projection_intermediate_size in
    let merge = vision.spatial_merge_size in
    add_bf16 (text "vision.patch_embed") (text "model.visual.patch_embed.proj.weight") (
      hidden ∷ vision.in_channels ∷ vision.temporal_patch_size ∷ vision.patch_size
      ∷ vision.patch_size ∷ [])
    ∷ add_bf16 (text "vision.patch_embed_bias") (text "model.visual.patch_embed.proj.bias")
        (hidden ∷ [])
    ∷ add_bf16 (text "vision.downsample") (text "model.visual.downsample.weight")
        (out_hidden ∷ hidden ∷ merge ∷ merge ∷ [])
    ∷ add_bf16 (text "vision.downsample_bias") (text "model.visual.downsample.bias")
        (out_hidden ∷ [])
    ∷ add_bf16 (text "vision.post_layernorm") (text "model.visual.post_layernorm.weight")
        (hidden ∷ [])
    ∷ add_bf16 (text "vision.merger.gate_proj") (text "model.visual.merger.gate_proj.weight")
        (proj_mid ∷ out_hidden ∷ [])
    ∷ add_bf16 (text "vision.merger.up_proj") (text "model.visual.merger.up_proj.weight")
        (proj_mid ∷ out_hidden ∷ [])
    ∷ add_bf16 (text "vision.merger.down_proj") (text "model.visual.merger.down_proj.weight")
        (out_hidden ∷ proj_mid ∷ [])
    ∷ add_bf16 (text "vision.merger.proj") (text "model.visual.merger.proj.weight")
        (out_hidden ∷ out_hidden ∷ [])
    ∷ add_bf16 (text "vision.merger.post_norm")
        (text "model.visual.merger.post_projection_norm.weight") (out_hidden ∷ [])
    ∷ add_bf16 (text "vision.merger.post_norm_bias")
        (text "model.visual.merger.post_projection_norm.bias") (out_hidden ∷ [])
    ∷ []

unfoldable pub add_vision : VisionSpec → Result (List ExpectedTensor)
add_vision vision =
    if vision.num_heads == 0 || not (vision.hidden_size % vision.num_heads == 0)
    then threw (logic_error (text "vision hidden size must divide evenly by head count"))
    else ok (vision_blocks vision vision.depth 0 ++ vision_ends vision)

unfoldable pub add_layers : ModelSpec → List LayerSpec → Result (List ExpectedTensor)
add_layers model [] = ok []
add_layers model (layer ∷ layers) = do
  tensors ← add_language_layer model layer.index false layer.mixer layer.ffn
  rest ← add_layers model layers
  ok (tensors ++ rest)

abbrev pub language_ends : ModelSpec → List ExpectedTensor
language_ends model =
    add_bf16 (text "language.embed_tokens") (text "model.language_model.embed_tokens.weight")
      (model.vocab_size ∷ model.hidden_size ∷ [])
    ∷ add_bf16 (text "language.final_norm") (text "model.language_model.norm.weight")
        (model.hidden_size ∷ [])
    ∷ add_bf16 (text "language.lm_head") (text "lm_head.weight")
        (model.vocab_size ∷ model.hidden_size ∷ [])
    ∷ []

unfoldable pub expected_glm53_flash_tensors : ModelSpec → VisionSpec → Result (List ExpectedTensor)
expected_glm53_flash_tensors model vision = do
  if no_errors (validate_model_spec model)
      then guard (no_errors (validate_vision_spec vision)) (
          logic_error
            (text "GLM-5.3-Flash parameter schema requires the pinned model and vision contracts"))
      else threw (
          logic_error
            (text "GLM-5.3-Flash parameter schema requires the pinned model and vision contracts"))
  guard (model.nextn_predict_layers == 1)
      (logic_error (text "parameter schema expects exactly one next-token layer"))
  guard (not (ltb model.hyper_connection_streams 2))
      (logic_error (text "mHC scale width is streams-1"))
  layers ← add_layers model model.layers
  nextn ← add_language_layer model (length model.layers) true sparse_mla sparse_moe
  tower ← add_vision vision
  ok (language_ends model ++ layers ++ nextn ++ tower)

-- One round of the loop over the layers of the draft model.
unfoldable pub draft_layer : DFlash2Spec → ℕ → List ExpectedTensor
draft_layer spec layer =
    let hidden = spec.hidden_size in
    let intermediate = spec.intermediate_size in
    let q_width = spec.num_heads * spec.head_dim in
    let kv_width = spec.num_kv_heads * spec.head_dim in
    let head_dim = spec.head_dim in
    let kernel = spec.conv_kernel_size in
    let conv_out = kernel * kernel * (hidden / spec.conv_group_size) in
    let source = text "layers." ++ decimal layer ++ text "." in
    let logical = text "draft.layer." ++ decimal layer ++ text "." in
    add_bf16 (logical ++ text "input_norm") (source ++ text "input_layernorm.weight") (hidden ∷ [])
    ∷ add_bf16 (logical ++ text "post_attn_norm") (source ++ text "post_attention_layernorm.weight")
        (hidden ∷ [])
    ∷ add_bf16 (logical ++ text "attn.q_proj") (source ++ text "self_attn.q_proj.weight")
        (q_width ∷ hidden ∷ [])
    ∷ add_bf16 (logical ++ text "attn.k_proj") (source ++ text "self_attn.k_proj.weight")
        (kv_width ∷ hidden ∷ [])
    ∷ add_bf16 (logical ++ text "attn.v_proj") (source ++ text "self_attn.v_proj.weight")
        (kv_width ∷ hidden ∷ [])
    ∷ add_bf16 (logical ++ text "attn.o_proj") (source ++ text "self_attn.o_proj.weight")
        (hidden ∷ q_width ∷ [])
    ∷ add_bf16 (logical ++ text "attn.q_norm") (source ++ text "self_attn.q_norm.weight")
        (head_dim ∷ [])
    ∷ add_bf16 (logical ++ text "attn.k_norm") (source ++ text "self_attn.k_norm.weight")
        (head_dim ∷ [])
    ∷ add_bf16 (logical ++ text "attn_conv.base") (source ++ text "attention_conv.base_kernel")
        (kernel ∷ kernel ∷ hidden ∷ [])
    ∷ add_bf16 (logical ++ text "attn_conv.kernel_proj")
        (source ++ text "attention_conv.kernel_projection.weight") (conv_out ∷ hidden ∷ [])
    ∷ add_bf16 (logical ++ text "mlp_conv.base") (source ++ text "mlp_conv.base_kernel")
        (kernel ∷ kernel ∷ hidden ∷ [])
    ∷ add_bf16 (logical ++ text "mlp_conv.kernel_proj")
        (source ++ text "mlp_conv.kernel_projection.weight") (conv_out ∷ hidden ∷ [])
    ∷ add_bf16 (logical ++ text "ffn.gate_proj") (source ++ text "mlp.gate_proj.weight")
        (intermediate ∷ hidden ∷ [])
    ∷ add_bf16 (logical ++ text "ffn.up_proj") (source ++ text "mlp.up_proj.weight")
        (intermediate ∷ hidden ∷ [])
    ∷ add_bf16 (logical ++ text "ffn.down_proj") (source ++ text "mlp.down_proj.weight")
        (hidden ∷ intermediate ∷ [])
    ∷ []

unfoldable pub draft_layers : DFlash2Spec → ℕ → ℕ → List ExpectedTensor
draft_layers spec zero layer = []
draft_layers spec (suc rounds) layer =
    draft_layer spec layer ++ draft_layers spec rounds (layer + 1)

abbrev pub draft_ends : DFlash2Spec → List ExpectedTensor
draft_ends spec =
    let hidden = spec.hidden_size in
    let vocab = spec.vocab_size in
    let targets = length spec.target_layer_ids in
    add_bf16 (text "draft.fc") (text "fc.weight") (hidden ∷ (targets * hidden) ∷ [])
    ∷ add_bf16 (text "draft.hidden_norm") (text "hidden_norm.weight") (hidden ∷ [])
    ∷ add_bf16 (text "draft.final_norm") (text "norm.weight") (hidden ∷ [])
    ∷ add_bf16 (text "draft.selector.hidden_proj")
        (text "candidate_selector.hidden_projection.weight") (spec.selector_rank ∷ hidden ∷ [])
    ∷ add_bf16 (text "draft.selector.predecessor_codebook")
        (text "candidate_selector.predecessor_codebook") (vocab ∷ spec.selector_rank ∷ [])
    ∷ add_bf16 (text "draft.selector.successor_codebook")
        (text "candidate_selector.successor_codebook") (vocab ∷ spec.selector_rank ∷ [])
    ∷ []

unfoldable pub expected_dflash2_tensors : DFlash2Spec → Result (List ExpectedTensor)
expected_dflash2_tensors spec =
    if no_errors (validate_dflash2_spec spec)
    then ok (draft_ends spec ++ draft_layers spec spec.layers 0)
    else threw (logic_error (text "DFlash2 parameter schema requires the pinned draft contract"))
