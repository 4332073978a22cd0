-- ===== src/Schema/Layers.antt =====
-- src/parameter_schema.cpp: the tensors of a language layer.
use ninfer_nvfp4_glm_5_3_fla.Prelude.{
  ℕ, zero, suc, ◌+◌, ◌*◌, Bool, List, [], ◌∷◌, ◌++◌, if◌then◌else◌, text, Bytes, decimal, Result,
  ok, ◌>>=◌,
}
use ninfer_nvfp4_glm_5_3_fla.ModelSpec.{MixerKind, FfnKind, dense, sparse_moe, ModelSpec}
use ninfer_nvfp4_glm_5_3_fla.Schema.{ExpectedTensor}
use ninfer_nvfp4_glm_5_3_fla.Schema.Tensors.{add_bf16, add_f32, add_nvfp4}
use ninfer_nvfp4_glm_5_3_fla.Schema.Mixers.{add_mhc, add_mixer}

-- Three matrices one after another.
abbrev pub add_three :
    Result (List ExpectedTensor)
    → Result (List ExpectedTensor)
    → Result (List ExpectedTensor)
    → Result (List ExpectedTensor)
add_three gate up down = do a ← gate; b ← up; c ← down; ok (a ++ b ++ c)

-- One round of the loop over the experts.
unfoldable pub add_expert : ModelSpec → Bytes → Bytes → Bool → ℕ → Result (List ExpectedTensor)
add_expert model logical source nextn expert =
    let hidden = model.hidden_size in
    let moe = model.moe_intermediate_size in
    let expert_source = source ++ text "mlp.experts." ++ decimal expert ++ text "." in
    let expert_logical = logical ++ text "moe.expert." ++ decimal expert ++ text "." in
    if nextn
    then ok (
        add_bf16 (expert_logical ++ text "gate") (expert_source ++ text "gate_proj.weight")
          (moe ∷ hidden ∷ [])
        ∷ add_bf16 (expert_logical ++ text "up") (expert_source ++ text "up_proj.weight")
            (moe ∷ hidden ∷ [])
        ∷ add_bf16 (expert_logical ++ text "down") (expert_source ++ text "down_proj.weight")
            (hidden ∷ moe ∷ [])
        ∷ [])
    else add_three
        (add_nvfp4 (expert_logical ++ text "gate") (expert_source ++ text "gate_proj") moe hidden)
        (add_nvfp4 (expert_logical ++ text "up") (expert_source ++ text "up_proj") moe hidden)
        (add_nvfp4 (expert_logical ++ text "down") (expert_source ++ text "down_proj") hidden moe)

unfoldable pub add_experts : ModelSpec → Bytes → Bytes → Bool → ℕ → ℕ → Result (List ExpectedTensor)
add_experts model logical source nextn zero expert = ok []
add_experts model logical source nextn (suc rounds) expert = do
  tensors ← add_expert model logical source nextn expert
  rest ← add_experts model logical source nextn rounds (expert + 1)
  ok (tensors ++ rest)

-- The router and the shared expert.
abbrev pub moe_shared : ModelSpec → Bytes → Bytes → List ExpectedTensor
moe_shared model logical source =
    let hidden = model.hidden_size in
    let moe = model.moe_intermediate_size in
    add_bf16 (logical ++ text "moe.router.weight") (source ++ text "mlp.gate.weight")
      (model.routed_experts ∷ hidden ∷ [])
    ∷ add_f32 (logical ++ text "moe.router.score_correction")
        (source ++ text "mlp.gate.e_score_correction_bias") (model.routed_experts ∷ [])
    ∷ add_bf16 (logical ++ text "moe.shared.gate_proj")
        (source ++ text "mlp.shared_experts.gate_proj.weight") (moe ∷ hidden ∷ [])
    ∷ add_bf16 (logical ++ text "moe.shared.up_proj")
        (source ++ text "mlp.shared_experts.up_proj.weight") (moe ∷ hidden ∷ [])
    ∷ add_bf16 (logical ++ text "moe.shared.down_proj")
        (source ++ text "mlp.shared_experts.down_proj.weight") (hidden ∷ moe ∷ [])
    ∷ []

unfoldable pub add_moe : ModelSpec → Bytes → Bytes → Bool → Result (List ExpectedTensor)
add_moe model logical source nextn =
    add_experts model logical source nextn model.routed_experts 0 >>= λ experts.
    ok (moe_shared model logical source ++ experts)

abbrev pub add_ffn : ModelSpec → Bytes → Bytes → Bool → FfnKind → Result (List ExpectedTensor)
add_ffn model logical source nextn dense =
    let hidden = model.hidden_size in
    let intermediate = model.intermediate_size in
    add_three
      (add_nvfp4 (logical ++ text "ffn.gate_proj") (source ++ text "mlp.gate_proj") intermediate
        hidden)
      (add_nvfp4 (logical ++ text "ffn.up_proj") (source ++ text "mlp.up_proj") intermediate hidden)
      (add_nvfp4 (logical ++ text "ffn.down_proj") (source ++ text "mlp.down_proj") hidden
        intermediate)
add_ffn model logical source nextn sparse_moe = add_moe model logical source nextn

-- What only the next-token layer has.
abbrev pub nextn_tensors : ModelSpec → Bytes → Bytes → List ExpectedTensor
nextn_tensors model logical source =
    let hidden = model.hidden_size in
    add_bf16 (logical ++ text "eh_proj") (source ++ text "eh_proj.weight")
      (hidden ∷ hidden * 2 ∷ [])
    ∷ add_bf16 (logical ++ text "enorm") (source ++ text "enorm.weight") (hidden ∷ [])
    ∷ add_bf16 (logical ++ text "hnorm") (source ++ text "hnorm.weight") (hidden ∷ [])
    ∷ add_bf16 (logical ++ text "shared_head_norm") (source ++ text "shared_head.norm.weight")
        (hidden ∷ [])
    ∷ []

-- What stands in front of the FFN of a layer.
abbrev pub layer_front : ModelSpec → Bytes → Bytes → Bool → MixerKind → List ExpectedTensor
layer_front model logical source nextn mixer =
    let hidden = model.hidden_size in
    let norms =
      add_bf16 (logical ++ text "input_norm") (source ++ text "input_layernorm.weight")
        (hidden ∷ [])
      ∷ add_bf16 (logical ++ text "post_attn_norm")
          (source ++ text "post_attention_layernorm.weight") (hidden ∷ [])
      ∷ [] in
    let streams = if nextn then [] else add_mhc model logical source in
    norms ++ streams ++ add_mixer model logical source mixer

abbrev pub layer_source : ℕ → Bytes
layer_source index = text "model.language_model.layers." ++ decimal index ++ text "."

abbrev pub layer_logical : ℕ → Bool → Bytes
layer_logical index nextn =
    if nextn then text "language.nextn." else text "language.layer." ++ decimal index ++ text "."

unfoldable pub add_language_layer :
    ModelSpec → ℕ → Bool → MixerKind → FfnKind → Result (List ExpectedTensor)
add_language_layer model index nextn mixer ffn =
    let source = layer_source index in
    let logical = layer_logical index nextn in
    let last = if nextn then nextn_tensors model logical source else [] in
    add_ffn model logical source nextn ffn >>= λ ffn_tensors.
    ok (layer_front model logical source nextn mixer ++ ffn_tensors ++ last)
