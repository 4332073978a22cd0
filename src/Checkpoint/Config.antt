-- ===== src/Checkpoint/Config.antt =====
-- src/checkpoint_binding.cpp: the checks of config.json.
use ninfer_nvfp4_glm_5_3_fla.Prelude.{
  ℕ, Bool, false, not, ◌&&◌, ◌||◌, List, [], ◌∷◌, ◌++◌, Option, none, some, if◌then◌else◌, text,
  Bytes, eq_list, Result, ok, ◌>>=◌,
}
use ninfer_nvfp4_glm_5_3_fla.Schema.{ℤ, pos, signed_decimal}
use ninfer_nvfp4_glm_5_3_fla.Deployment.Strings.{contains}
use ninfer_nvfp4_glm_5_3_fla.JsonScan.Find.{find_string, find_int, find_int_array}
use ninfer_nvfp4_glm_5_3_fla.Checkpoint.{
  CheckpointKind, glm53_nvfp4_target, dflash2_draft, BindingReport,
}
use ninfer_nvfp4_glm_5_3_fla.Checkpoint.Shard.{io_error}
use ninfer_nvfp4_glm_5_3_fla.Checkpoint.Bind.{eq_shape}

-- `!actual || *actual != expected`
abbrev pub is_text : Option Bytes → Bytes → Bool
is_text none expected = false
is_text (some actual) expected = eq_list actual expected

abbrev pub is_shape : Option (List ℤ) → List ℤ → Bool
is_shape none expected = false
is_shape (some actual) expected = eq_shape actual expected

abbrev pub is_int : Option ℤ → ℤ → Bool
is_int none expected = false
is_int (some actual) expected = eq_shape (actual ∷ []) (expected ∷ [])

-- `if (!test) { ++report.io_errors; add_error(report, message); }`
abbrev pub io_check : Bool → Bytes → BindingReport → BindingReport
io_check test message report = if test then report else io_error report message

unfoldable pub require_string : Bytes → Bytes → Bytes → BindingReport → Result BindingReport
require_string json key expected report = do
  actual ← find_string json key
  ok (
      io_check (is_text actual expected)
        (text "config field " ++ key ++ text " must be " ++ expected) report)

unfoldable pub require_int : Bytes → Bytes → ℕ → BindingReport → Result BindingReport
require_int json key expected report = do
  actual ← find_int json key
  ok (
      io_check (is_int actual (pos expected))
        (text "config field " ++ key ++ text " must be " ++ signed_decimal (pos expected)) report)

abbrev pub target_architecture : Bytes
target_architecture = text "\"Glm5NextForConditionalGeneration\""

abbrev pub draft_architecture : Bytes
draft_architecture = text "\"DFlash2DraftModel\""

unfoldable pub check_target : Bytes → BindingReport → Result BindingReport
check_target json r0 = do
  let r1 =
      io_check (contains target_architecture json)
        (text "config architecture must be Glm5NextForConditionalGeneration") r0
  method ← find_string json (text "quant_method")
  let r2 =
      io_check (not (is_text method (text "compressed-tensors")))
        (text
          "compressed-tensors NVFP4 is not the product checkpoint; use official nvidia/GLM-5.3-Flash-NVFP4")
        r1
  r3 ← require_string json (text "quant_method") (text "modelopt") r2
  let r4 =
      io_check (contains (text "quant_algo") json && contains (text "NVFP4") json)
        (text "config must declare quant_algo NVFP4") r3
  r5 ← require_int json (text "num_hidden_layers") 45 r4
  r6 ← require_int json (text "n_routed_experts") 288 r5
  r7 ← require_int json (text "num_nextn_predict_layers") 1 r6
  require_int json (text "depth") 24 r7

unfoldable pub check_draft : Bytes → BindingReport → Result BindingReport
check_draft json r0 = do
  let r1 =
      io_check (contains draft_architecture json)
        (text "config architecture must be DFlash2DraftModel") r0
  r2 ← require_int json (text "num_hidden_layers") 5 r1
  r3 ← require_int json (text "hidden_size") 4096 r2
  r4 ← require_int json (text "vocab_size") 154880 r3
  r5 ← require_int json (text "block_size") 8 r4
  r6 ← require_int json (text "conv_kernel_size") 2 r5
  r7 ← require_int json (text "conv_group_size") 16 r6
  r8 ← require_int json (text "selector_rank") 256 r7
  ids ← find_int_array json (text "target_layer_ids")
  ok (
      io_check (is_shape ids (pos 5 ∷ pos 14 ∷ pos 24 ∷ pos 33 ∷ pos 42 ∷ []))
        (text "DFlash2 target_layer_ids must be [5, 14, 24, 33, 42]") r8)

unfoldable pub check_config : CheckpointKind → Bytes → BindingReport → Result BindingReport
check_config glm53_nvfp4_target json report = check_target json report
check_config dflash2_draft json report = check_draft json report

unfoldable pub detect_kind : Bytes → BindingReport → CheckpointKind × BindingReport
detect_kind config report =
    let target = contains target_architecture config in
    let draft = contains draft_architecture config in
    if target && draft || not target && not draft
    then (
      glm53_nvfp4_target,
      io_error report (
          text
            "config.json must declare exactly one of Glm5NextForConditionalGeneration or DFlash2DraftModel"),
    )
    else (if target then glm53_nvfp4_target else dflash2_draft, report)
