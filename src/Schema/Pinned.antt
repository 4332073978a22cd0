-- ===== src/Schema/Pinned.antt =====
-- src/parameter_schema.cpp: the specifications of the vision tower and of the draft model that the
-- validations accept.
use ninfer_nvfp4_glm_5_3_fla.Prelude.{
  ◌≡◌, ◌↔◌, refl, ap, ◌∙◌, [], ◌∷◌, eq_list, either, same_nat, same_text, failures, failures_iff,
}
use ninfer_nvfp4_glm_5_3_fla.Schema.{
  VisionSpec, DFlash2Spec, glm53_flash_vision_spec, glm53_flash_dflash2_spec, vision_checks,
  dflash2_checks, validate_vision_spec, validate_dflash2_spec,
}

vision_pinned :
    (spec : VisionSpec) → validate_vision_spec spec ≡ [] → spec ≡ glm53_flash_vision_spec
unfolding validate_vision_spec
vision_pinned spec h =
    let (depth, (widths, (divides, (inner, (patches, (projection, u)))))) =
      (failures_iff (vision_checks spec)).0 h in
    let (hidden, heads) = either _ _ widths in
    let (intermediate, out) = either _ _ inner in
    let (patches123, merge) = either _ _ patches in
    let (patches12, temporal) = either _ _ patches123 in
    let (channels, patch) = either _ _ patches12 in
    let a = same_nat spec.depth 24 depth in
    let b = same_nat spec.hidden_size 1024 hidden in
    let c = same_nat spec.num_heads 16 heads in
    let d = same_nat spec.intermediate_size 4096 intermediate in
    let e = same_nat spec.out_hidden_size 4096 out in
    let f = same_nat spec.in_channels 3 channels in
    let g = same_nat spec.patch_size 14 patch in
    let k = same_nat spec.temporal_patch_size 2 temporal in
    let l = same_nat spec.spatial_merge_size 2 merge in
    let m = same_nat spec.projection_intermediate_size 10240 projection in
    λ i. record {
      depth = a i;
      hidden_size = b i;
      num_heads = c i;
      intermediate_size = d i;
      out_hidden_size = e i;
      in_channels = f i;
      patch_size = g i;
      temporal_patch_size = k i;
      spatial_merge_size = l i;
      projection_intermediate_size = m i;
    }

vision_passes : validate_vision_spec glm53_flash_vision_spec ≡ []
unfolding validate_vision_spec failures
vision_passes = refl

-- The validation of a vision specification reports no error exactly for that of the model.
pub validate_vision_spec_iff :
    (spec : VisionSpec) → (validate_vision_spec spec ≡ []) ↔ (spec ≡ glm53_flash_vision_spec)
validate_vision_spec_iff spec = (vision_pinned spec, λ e. ap validate_vision_spec e ∙ vision_passes)

dflash2_pinned :
    (spec : DFlash2Spec) → validate_dflash2_spec spec ≡ [] → spec ≡ glm53_flash_dflash2_spec
unfolding validate_dflash2_spec
dflash2_pinned spec h =
    let (layers, (sizes, (heads, (width, (selector, (groups, (targets, (ids, u)))))))) =
      (failures_iff (dflash2_checks spec)).0 h in
    let (sizes12, vocab) = either _ _ sizes in
    let (hidden, intermediate) = either _ _ sizes12 in
    let (heads12, dim) = either _ _ heads in
    let (query, kv) = either _ _ heads12 in
    let (selector123, block) = either _ _ selector in
    let (selector12, group) = either _ _ selector123 in
    let (rank, kernel) = either _ _ selector12 in
    let a = same_nat spec.layers 5 layers in
    let b = same_nat spec.hidden_size 4096 hidden in
    let c = same_nat spec.intermediate_size 12288 intermediate in
    let d = same_nat spec.vocab_size 154880 vocab in
    let e = same_nat spec.num_heads 32 query in
    let f = same_nat spec.num_kv_heads 8 kv in
    let g = same_nat spec.head_dim 128 dim in
    let k = same_nat spec.selector_rank 256 rank in
    let l = same_nat spec.conv_kernel_size 2 kernel in
    let m = same_nat spec.conv_group_size 16 group in
    let n = same_nat spec.block_size 8 block in
    let o = same_nat spec.num_target_layers 45 targets in
    let p = same_text spec.target_layer_ids (5 ∷ 14 ∷ 24 ∷ 33 ∷ 42 ∷ []) ids in
    λ i. record {
      layers = a i;
      hidden_size = b i;
      intermediate_size = c i;
      vocab_size = d i;
      num_heads = e i;
      num_kv_heads = f i;
      head_dim = g i;
      selector_rank = k i;
      conv_kernel_size = l i;
      conv_group_size = m i;
      block_size = n i;
      num_target_layers = o i;
      target_layer_ids = p i;
    }

dflash2_passes : validate_dflash2_spec glm53_flash_dflash2_spec ≡ []
unfolding validate_dflash2_spec failures eq_list
dflash2_passes = refl

-- The validation of a draft specification reports no error exactly for that of the pinned draft.
pub validate_dflash2_spec_iff :
    (spec : DFlash2Spec) → (validate_dflash2_spec spec ≡ []) ↔ (spec ≡ glm53_flash_dflash2_spec)
validate_dflash2_spec_iff spec =
    (dflash2_pinned spec, λ e. ap validate_dflash2_spec e ∙ dflash2_passes)
