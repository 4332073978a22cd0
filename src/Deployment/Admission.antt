-- ===== src/Deployment/Admission.antt =====
-- src/deployment_contract.cpp and src/execution_plan.cpp: which admitted deployments have a plan.
use ninfer_nvfp4_glm_5_3_fla.Prelude.{
  ℕ, ◌≤◌, ◌≡◌, ◌⊎◌, inl, inr, refl, ◌∙◌, Bool, true, false, not, ◌&&◌, ◌||◌, [], arith, ltb, ◌==◌,
  if◌then◌else◌, text, eq_list, eq_list_iff, is_empty, length, failures, failures_iff, append_empty,
  ok,
}
use ninfer_nvfp4_glm_5_3_fla.ModelSpec.{ModelSpec}
use ninfer_nvfp4_glm_5_3_fla.ModelSpec.Validate.{validate_model_spec}
use ninfer_nvfp4_glm_5_3_fla.Deployment.{DeploymentContract}
use ninfer_nvfp4_glm_5_3_fla.Deployment.Contract.{
  host_checks, draft_checks, scheduler_checks, validate_deployment_contract,
}
use ninfer_nvfp4_glm_5_3_fla.ExecutionPlan.{
  all_hex, is_dflash, deployment_checks, dflash_checks, validate_inputs, build_tp2_execution_plan,
}
use ninfer_nvfp4_glm_5_3_fla.ExecutionPlan.Exact.{plan_for, build_tp2_execution_plan_lem}

-- What the plan asks of the draft model beyond the contract: with DFlash, at most eight proposals, two
-- draft ranks and a revision of forty hexadecimal digits.
pub record HasDraft (d : DeploymentContract) : Type 0 where
  pub few : d.dflash_tokens ≤ 8
  pub ranks : d.dflash_draft_tp ≡ 2
  pub revision : length d.dflash_revision ≡ 40
  pub hex : all_hex d.dflash_revision ≡ true

neither : (a b : Bool) → a ≡ false → b ≡ false → (a || b) ≡ false
neither a b h k = rw (h, k) refl

few_enough : (n : ℕ) → n ≤ 8 → ltb 8 n ≡ false
few_enough n h = ground arith

draft_passes :
    (d : DeploymentContract)
    → HasDraft d
    → failures (draft_checks d) ≡ []
    → failures (dflash_checks d) ≡ []
draft_passes d h e =
    let (model, (tokens, u)) = (failures_iff (draft_checks d)).0 e in
    let few =
      neither (d.dflash_tokens == 0) (ltb 8 d.dflash_tokens) tokens
        (few_enough d.dflash_tokens h.few) in
    let geometry = neither _ (not (d.dflash_draft_tp == 2)) few (rw (h.ranks) refl) in
    let identity =
      neither (is_empty d.dflash_model)
        (not (length d.dflash_revision == 40 && all_hex d.dflash_revision)) model
        (rw (h.revision, h.hex) refl) in
    (failures_iff (dflash_checks d)).1 (geometry, (identity, tt))

none-dflash : eq_list (text "none") (text "dflash") ≡ false
unfolding text eq_list
none-dflash = refl

-- The draft model's checks, by the method.
method_passes :
    (d : DeploymentContract)
    → (d.speculative_method ≡ text "none") ⊎ ((d.speculative_method ≡ text "dflash") × HasDraft d)
    → (if is_dflash d then failures (draft_checks d) else []) ≡ []
    → ((not (eq_list d.speculative_method (text "none")) && not (is_dflash d)) ≡ false)
      × ((if is_dflash d then failures (dflash_checks d) else []) ≡ [])
method_passes d (inl e) h =
    (rw (e, (eq_list_iff (text "none") (text "none")).1 refl) refl, rw (e, none-dflash) refl)
method_passes d (inr (e, draft)) h =
    let same : is_dflash d ≡ true = (eq_list_iff d.speculative_method (text "dflash")).1 e in
    (rw same (ground arith), rw same (draft_passes d draft (rw same at h)))

-- A deployment without errors has a plan for a model without errors, if it uses no draft model or one that
-- the plan allows.
pub build_tp2_execution_plan-admitted :
    (model : ModelSpec) (d : DeploymentContract)
    → validate_model_spec model ≡ []
    → (validate_deployment_contract d model).errors ≡ []
    → (d.speculative_method ≡ text "none") ⊎ ((d.speculative_method ≡ text "dflash") × HasDraft d)
    → build_tp2_execution_plan model d ≡ ok (plan_for model d)
unfolding validate_deployment_contract validate_inputs
build_tp2_execution_plan-admitted model d hm hd method =
    let (k, h3) = append_empty _ (failures (scheduler_checks d model)) hd in
    let (h1, h2) = append_empty (failures (host_checks d)) _ k in
    let (tp, (nodes, others)) = (failures_iff (host_checks d)).0 h1 in
    let (len, (seqs, (batched, more))) = (failures_iff (scheduler_checks d model)).0 h3 in
    let (named, draft) = method_passes d method h2 in
    let two = neither (not (d.tensor_parallel == 2)) (not (d.nodes == 2)) tp nodes in
    let length_limits =
      neither (d.max_model_len == 0 || ltb model.max_position_embeddings d.max_model_len)
        (d.max_num_seqs == 0) len seqs in
    let limits = neither _ (d.max_num_batched_tokens == 0) length_limits batched in
    let passed = (failures_iff (deployment_checks model d)).1 (two, (limits, (named, tt))) in
    let inputs : (validate_inputs model d).errors ≡ [] = rw (hm, passed, draft) refl in
    build_tp2_execution_plan_lem model d ∙ rw inputs refl
