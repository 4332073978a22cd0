-- ===== src/ModelSpec/Tests.antt =====
-- src/model_spec.cpp on a specification that differs in the checkpoint alone.
use ninfer_nvfp4_glm_5_3_fla.Prelude.{◌≡◌, ◌↔◌, [], text}
use ninfer_nvfp4_glm_5_3_fla.ModelSpec.{ModelSpec, glm53_flash_spec}
use ninfer_nvfp4_glm_5_3_fla.ModelSpec.Validate.{validate_model_spec}
use ninfer_nvfp4_glm_5_3_fla.ModelSpec.Pinned.{pinned, validate_model_spec_iff}

abbrev renamed : ModelSpec
renamed = record glm53_flash_spec { checkpoint = text "local/GLM-5.3-Flash" }

validate_model_spec_iff_example :
    (validate_model_spec renamed ≡ []) ↔ (renamed ≡ pinned renamed.checkpoint)
validate_model_spec_iff_example = validate_model_spec_iff renamed
