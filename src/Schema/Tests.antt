-- ===== src/Schema/Tests.antt =====
-- src/parameter_schema.cpp on the pinned specifications and on a small catalogue.
use ninfer_nvfp4_glm_5_3_fla.Prelude.{◌≡◌, ◌↔◌, List, [], ◌∷◌, map, text, refl, All}
use ninfer_nvfp4_glm_5_3_fla.Schema.{
  ExpectedTensor, glm53_flash_vision_spec, glm53_flash_dflash2_spec, validate_vision_spec,
  validate_dflash2_spec,
}
use ninfer_nvfp4_glm_5_3_fla.Schema.Tensors.{add_bf16, add_f32}
use ninfer_nvfp4_glm_5_3_fla.Schema.Validate.{validate_parameter_catalog}
use ninfer_nvfp4_glm_5_3_fla.Schema.Pinned.{validate_vision_spec_iff, validate_dflash2_spec_iff}
use ninfer_nvfp4_glm_5_3_fla.Schema.Distinct.{AllDistinct, IsEntry, validate_parameter_catalog_iff}
use ninfer_nvfp4_glm_5_3_fla.Schema.Counts.{Yields}
use ninfer_nvfp4_glm_5_3_fla.Schema.Totals.{expected_glm53_flash_tensors-Yields}
use ninfer_nvfp4_glm_5_3_fla.Schema.Catalog.{expected_glm53_flash_tensors}
use ninfer_nvfp4_glm_5_3_fla.ModelSpec.{glm53_flash_spec}
use ninfer_nvfp4_glm_5_3_fla.ModelSpec.Validate.{validate_model_spec}
use ninfer_nvfp4_glm_5_3_fla.ModelSpec.Pinned.{validate_model_spec_iff}
use ninfer_nvfp4_glm_5_3_fla.Schema.Draft.{HasCatalog, expected_dflash2_tensors-passes}

validate_dflash2_spec_iff_example :
    (validate_dflash2_spec glm53_flash_dflash2_spec ≡ [])
    ↔ (glm53_flash_dflash2_spec ≡ glm53_flash_dflash2_spec)
validate_dflash2_spec_iff_example = validate_dflash2_spec_iff glm53_flash_dflash2_spec

draft_accepted : validate_dflash2_spec glm53_flash_dflash2_spec ≡ []
draft_accepted = (validate_dflash2_spec_iff glm53_flash_dflash2_spec).1 refl

expected_dflash2_tensors-passes_example : HasCatalog glm53_flash_dflash2_spec
expected_dflash2_tensors-passes_example =
    expected_dflash2_tensors-passes glm53_flash_dflash2_spec draft_accepted

abbrev two_tensors : List ExpectedTensor
two_tensors =
    add_bf16 (text "a") (text "a.weight") (16 ∷ 32 ∷ [])
    ∷ add_f32 (text "b") (text "b.weight") (16 ∷ [])
    ∷ []

validate_parameter_catalog_iff_example : (validate_parameter_catalog two_tensors ≡ []) ↔ (
    All IsEntry two_tensors
    × AllDistinct (map (λ tensor. tensor.logical_id) two_tensors)
    × AllDistinct (map (λ tensor. tensor.source_name) two_tensors))
validate_parameter_catalog_iff_example = validate_parameter_catalog_iff two_tensors

model_accepted : validate_model_spec glm53_flash_spec ≡ []
unfolding glm53_flash_spec
model_accepted = (validate_model_spec_iff glm53_flash_spec).1 refl

vision_accepted : validate_vision_spec glm53_flash_vision_spec ≡ []
vision_accepted = (validate_vision_spec_iff glm53_flash_vision_spec).1 refl

expected_glm53_flash_tensors-Yields_example :
    Yields (expected_glm53_flash_tensors glm53_flash_spec glm53_flash_vision_spec) 147661
expected_glm53_flash_tensors-Yields_example =
    expected_glm53_flash_tensors-Yields glm53_flash_spec glm53_flash_vision_spec model_accepted
      vision_accepted
