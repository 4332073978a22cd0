-- ===== src/Schema/Draft.antt =====
-- src/parameter_schema.cpp: the catalogue of the draft model.
use mathlib.Core.Path.{subst}
use ninfer_nvfp4_glm_5_3_fla.Prelude.{
  ◌≡◌, refl, sym, List, [], ◌++◌, text, eq_list, length, digits, failures, ok,
}
use ninfer_nvfp4_glm_5_3_fla.Schema.{
  DFlash2Spec, ExpectedTensor, glm53_flash_dflash2_spec, validate_dflash2_spec,
}
use ninfer_nvfp4_glm_5_3_fla.Schema.Pinned.{validate_dflash2_spec_iff}
use ninfer_nvfp4_glm_5_3_fla.Schema.Catalog.{
  draft_layer, draft_layers, draft_ends, expected_dflash2_tensors,
}
use ninfer_nvfp4_glm_5_3_fla.Schema.Validate.{
  eq_dtype, eq_storage, has, dim_errors, entry_errors, catalog_errors, validate_parameter_catalog,
}

-- A specification has a catalogue of 81 tensors, which passes the validation of catalogues.
abbrev pub HasCatalog : DFlash2Spec → Type 0
HasCatalog spec =
    (catalog : List ExpectedTensor) × (expected_dflash2_tensors spec ≡ ok catalog)
    × (length catalog ≡ 81)
    × (validate_parameter_catalog catalog ≡ [])

abbrev draft_catalog : List ExpectedTensor
draft_catalog = draft_ends glm53_flash_dflash2_spec ++ draft_layers glm53_flash_dflash2_spec 5 0

draft_length : length draft_catalog ≡ 81
unfolding draft_layers draft_layer
draft_length = refl

draft_passes : validate_parameter_catalog draft_catalog ≡ []
unfolding draft_layers draft_layer catalog_errors entry_errors dim_errors has eq_storage eq_dtype
    failures text eq_list digits
draft_passes = refl

draft_returns : expected_dflash2_tensors glm53_flash_dflash2_spec ≡ ok draft_catalog
unfolding expected_dflash2_tensors validate_dflash2_spec failures eq_list
draft_returns = refl

-- A draft specification without errors has a catalogue: the call returns it, it has 81 tensors, and
-- it passes the validation of catalogues.
pub expected_dflash2_tensors-passes :
    (spec : DFlash2Spec) → validate_dflash2_spec spec ≡ [] → HasCatalog spec
expected_dflash2_tensors-passes spec h =
    subst HasCatalog (sym ((validate_dflash2_spec_iff spec).0 h))
      (draft_catalog, draft_returns, draft_length, draft_passes)
