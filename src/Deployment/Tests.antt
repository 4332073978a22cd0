-- ===== src/Deployment/Tests.antt =====
-- src/deployment_contract.cpp on the baseline deployment and on a small file.
use ninfer_nvfp4_glm_5_3_fla.Prelude.{
  ◌≡◌, inr, refl, List, [], ◌∷◌, text, Bytes, decimal, arith, some, ok, eq_list, All, failures,
  double_lt, double_le, double_is_nan, place, ◌++◌, ◌+◌, threw, length,
}
use ninfer_nvfp4_glm_5_3_fla.ModelSpec.{glm53_flash_spec}
use ninfer_nvfp4_glm_5_3_fla.ModelSpec.Pinned.{validate_model_spec_iff}
use ninfer_nvfp4_glm_5_3_fla.ModelSpec.Validate.{validate_model_spec}
use ninfer_nvfp4_glm_5_3_fla.ExecutionPlan.{all_hex, build_tp2_execution_plan}
use ninfer_nvfp4_glm_5_3_fla.ExecutionPlan.Exact.{plan_for}
use ninfer_nvfp4_glm_5_3_fla.ExecutionPlan.Tests.{baseline}
use ninfer_nvfp4_glm_5_3_fla.Deployment.Admission.{HasDraft, build_tp2_execution_plan-admitted}
use ninfer_nvfp4_glm_5_3_fla.Deployment.Strings.{
  contains, starts_with, unquote, strip_inline_comment,
}
use ninfer_nvfp4_glm_5_3_fla.Deployment.Env.{
  EnvMap, find, parse_u32, parse_env_file, all_key, line_error,
}
use ninfer_nvfp4_glm_5_3_fla.Deployment.Contract.{validate_deployment_contract}
use ninfer_nvfp4_glm_5_3_fla.Deployment.Digits.{parse_u32-decimal}
use ninfer_nvfp4_glm_5_3_fla.Deployment.Lines.{is_plain}
use ninfer_nvfp4_glm_5_3_fla.Deployment.Refused.{parse_env_file-refuses}
use ninfer_nvfp4_glm_5_3_fla.Deployment.Quoted.{is_quotable, unquote-strip_inline_comment}
use ninfer_nvfp4_glm_5_3_fla.Deployment.Files.{IsEntry, printed, assign_all, parse_env_file-printed}

abbrev ports : EnvMap
ports = (text "PORT", decimal 8000) ∷ []

ports-find : find (text "PORT") ports ≡ some (decimal 8000)
unfolding find text eq_list
ports-find = refl

parse_u32-decimal_example : parse_u32 ports (text "PORT") ≡ ok 8000
parse_u32-decimal_example = parse_u32-decimal ports (text "PORT") 8000 (omega arith) ports-find

port_read : parse_u32 ports (text "PORT") ≡ ok 8000
port_read = parse_u32-decimal ports (text "PORT") 8000 (omega arith) ports-find

abbrev small_file : List (Bytes × Bytes)
small_file = (84 ∷ 80 ∷ [], 49 ∷ []) ∷ (84 ∷ 80 ∷ [], 50 ∷ []) ∷ (95 ∷ [], []) ∷ []

small_entries : All IsEntry small_file
unfolding all_key is_plain
small_entries = (
  (λ e. ground arith, refl, refl),
  ((λ e. ground arith, refl, refl), ((λ e. ground arith, refl, refl), tt)),
)

parse_env_file-printed_example :
    parse_env_file (text "env") (some (printed small_file)) ≡ ok (assign_all [] small_file)
parse_env_file-printed_example = parse_env_file-printed (text "env") small_file small_entries

baseline_passes : (validate_deployment_contract baseline glm53_flash_spec).errors ≡ []
unfolding validate_deployment_contract glm53_flash_spec failures text eq_list contains starts_with
    double_lt double_le double_is_nan place
baseline_passes = refl

model_passes : validate_model_spec glm53_flash_spec ≡ []
unfolding glm53_flash_spec
model_passes = (validate_model_spec_iff glm53_flash_spec).1 refl

baseline_draft : HasDraft baseline
unfolding all_hex
baseline_draft = record { few = omega arith; ranks = refl; revision = refl; hex = refl }

build_tp2_execution_plan-admitted_example :
    build_tp2_execution_plan glm53_flash_spec baseline ≡ ok (plan_for glm53_flash_spec baseline)
build_tp2_execution_plan-admitted_example =
    build_tp2_execution_plan-admitted glm53_flash_spec baseline model_passes baseline_passes
      (inr (refl, baseline_draft))

-- The text `a #b`.
abbrev spaced : Bytes
spaced = 97 ∷ 32 ∷ 35 ∷ 98 ∷ []

unquote-strip_inline_comment_example :
    (unquote (strip_inline_comment (34 ∷ (spaced ++ 34 ∷ []))) ≡ spaced)
    × (unquote (strip_inline_comment (34 ∷ (spaced ++ 34 ∷ 32 ∷ 35 ∷ spaced))) ≡ spaced)
unfolding is_quotable
unquote-strip_inline_comment_example = unquote-strip_inline_comment spaced spaced refl

-- The line `TP`.
abbrev no_assignment : Bytes
no_assignment = 84 ∷ 80 ∷ []

parse_env_file-refuses_example :
    parse_env_file (text "env") (some (printed small_file ++ (no_assignment ++ 10 ∷ [])))
    ≡ threw (line_error (text "env") (1 + length small_file) (text ": expected KEY=VALUE"))
unfolding all_key
parse_env_file-refuses_example =
    parse_env_file-refuses (text "env") small_file no_assignment [] small_entries
      (λ e. ground arith) refl
