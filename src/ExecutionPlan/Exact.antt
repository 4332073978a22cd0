-- ===== src/ExecutionPlan/Exact.antt =====
-- src/execution_plan.cpp: the validation accepts the plan that is built, and no other.
use ninfer_nvfp4_glm_5_3_fla.Prelude.{
  Exception, threw, invalid_argument, ℕ, ◌≡◌, ◌↔◌, refl, sym, ap, ◌∙◌, true, not, List, [], ◌∷◌,
  map, arith, ◌==◌, if◌then◌else◌, text, Bytes, length, length-map, failures, failures_iff,
  append_empty, Result, ok, same_nat, either, ==_iff, ok-injective,
}
use ninfer_nvfp4_glm_5_3_fla.ModelSpec.{ModelSpec, glm53_flash_spec}
use ninfer_nvfp4_glm_5_3_fla.ModelSpec.Validate.{validate_model_spec}
use ninfer_nvfp4_glm_5_3_fla.ModelSpec.Pinned.{validate_model_spec_iff}
use ninfer_nvfp4_glm_5_3_fla.Deployment.{DeploymentContract}
use ninfer_nvfp4_glm_5_3_fla.ExecutionPlan.{
  ExecutionPlan, is_dflash, plan_layer, local_geometry, speculative_plan, deployment_checks,
  dflash_checks, validate_inputs, build_checked, throw_first, build_tp2_execution_plan,
}
use ninfer_nvfp4_glm_5_3_fla.ExecutionPlan.Parts.{
  Admitted, geometry_exact, heads_pass, speculative_exact, speculative_passes,
}
use ninfer_nvfp4_glm_5_3_fla.ExecutionPlan.Validate.{
  rank_checks, head_checks, check_plan_layers, limit_checks, check_speculative, check_plan_rest,
  validate_execution_plan,
}
use ninfer_nvfp4_glm_5_3_fla.ExecutionPlan.Layers.{layers_exact, layers_pass}

validate_inputs-Admitted :
    (model : ModelSpec) (d : DeploymentContract)
    → (validate_inputs model d).errors ≡ []
    → Admitted model d
unfolding validate_inputs glm53_flash_spec
validate_inputs-Admitted model d h =
    let (k, h3) = append_empty _ (if is_dflash d then failures (dflash_checks d) else []) h in
    let (h1, h2) =
      append_empty (validate_model_spec model) (failures (deployment_checks model d)) k in
    let e = (validate_model_spec_iff model).0 h1 in
    let (two, rest) = (failures_iff (deployment_checks model d)).0 h2 in
    record {
      ranks = ground arith;
      streams = ap (λ m. m.hyper_connection_streams) e;
      attention = ap (λ m. m.attention_heads) e;
      kv = ap (λ m. m.kv_heads) e;
      index = ap (λ m. m.index_heads) e;
      linear = ap (λ m. m.linear_attention_heads) e;
    }

-- The plan for valid inputs.
abbrev pub plan_for : ModelSpec → DeploymentContract → ExecutionPlan
plan_for model d = record {
  rank_geometry = local_geometry model d.tensor_parallel;
  layers = map plan_layer model.layers;
  speculative = speculative_plan d;
  max_context_tokens = d.max_model_len;
  max_inflight_sequences = d.max_num_seqs;
  max_batched_tokens = d.max_num_batched_tokens;
}

build_checked_lem :
    (model : ModelSpec) (d : DeploymentContract)
    → Admitted model d
    → build_checked model d ≡ ok (plan_for model d)
unfolding build_checked
build_checked_lem model d a = rw (a.ranks, a.attention, a.kv, a.index, a.linear) refl

throw_first_cong :
    {A : Type 0} (errors : List Bytes) (m n : Result A)
    → (errors ≡ [] → m ≡ n)
    → throw_first errors m ≡ throw_first errors n
throw_first_cong [] m n h = h refl
throw_first_cong (e ∷ errors) m n h = refl

-- No valid model fails the test of the head counts.
pub build_tp2_execution_plan_lem :
    (model : ModelSpec) (d : DeploymentContract)
    → build_tp2_execution_plan model d
      ≡ throw_first (validate_inputs model d).errors (ok (plan_for model d))
unfolding build_tp2_execution_plan
build_tp2_execution_plan_lem model d =
    throw_first_cong (validate_inputs model d).errors (build_checked model d)
      (ok (plan_for model d)) (λ h. build_checked_lem model d (validate_inputs-Admitted model d h))

throw_first_iff :
    {A : Type 0} (errors : List Bytes) (a : A) (x : Exception)
    → (throw_first errors (ok a) ≡ threw x)
      ↔ ((e : Bytes) × (rest : List Bytes) × (errors ≡ e ∷ rest) × (x ≡ invalid_argument e))
throw_first_iff [] a x = (λ h. cc, λ (e, rest, none, same). cc)
throw_first_iff (error ∷ errors) a x =
    (λ h. (error, errors, refl, cc), λ (e, rest, same, thrown). cc)

-- The build throws exactly the first error in the report of the inputs, as an invalid argument: on
-- inputs without errors nothing is thrown, neither by the test of the head counts.
pub build_tp2_execution_plan-throws_iff :
    (model : ModelSpec) (d : DeploymentContract) (x : Exception)
    → (build_tp2_execution_plan model d ≡ threw x) ↔ (
        (e : Bytes) × (rest : List Bytes) × ((validate_inputs model d).errors ≡ e ∷ rest)
        × (x ≡ invalid_argument e))
build_tp2_execution_plan-throws_iff model d x =
    rw (build_tp2_execution_plan_lem model d)
      (throw_first_iff (validate_inputs model d).errors (plan_for model d) x)

limits_exact :
    (plan : ExecutionPlan) (d : DeploymentContract)
    → failures (limit_checks plan d) ≡ []
    → (plan.max_context_tokens ≡ d.max_model_len)
      × (plan.max_inflight_sequences ≡ d.max_num_seqs)
      × (plan.max_batched_tokens ≡ d.max_num_batched_tokens)
limits_exact plan d h =
    let (limits, u) = (failures_iff (limit_checks plan d)).0 h in
    let (limits12, batched) = either _ _ limits in
    let (context, inflight) = either _ _ limits12 in
    (same_nat _ _ context, same_nat _ _ inflight, same_nat _ _ batched)

-- A plan that passes behind valid inputs is the plan for them.
rest_exact :
    (plan : ExecutionPlan) (model : ModelSpec) (d : DeploymentContract)
    → failures (rank_checks plan model d) ≡ []
    → length plan.layers ≡ length model.layers
    → check_plan_rest plan model d ≡ []
    → plan ≡ plan_for model d
unfolding check_plan_rest
rest_exact plan model d ranks count h =
    let (k3, h4) = append_empty _ (check_speculative plan.speculative d) h in
    let (k2, h3) = append_empty _ (failures (limit_checks plan d)) k3 in
    let (h1, h2) =
      append_empty (failures (head_checks plan.rank_geometry model))
        (check_plan_layers 0 plan.layers model.layers) k2 in
    let geometry = geometry_exact plan model d ranks h1 in
    let layers = layers_exact 0 plan.layers model.layers count h2 in
    let speculative = speculative_exact plan.speculative d h4 in
    let (context, inflight, batched) = limits_exact plan d h3 in
    λ i. record {
      rank_geometry = geometry i;
      layers = layers i;
      speculative = speculative i;
      max_context_tokens = context i;
      max_inflight_sequences = inflight i;
      max_batched_tokens = batched i;
    }

plan_for_passes :
    (model : ModelSpec) (d : DeploymentContract)
    → (validate_inputs model d).errors ≡ []
    → (validate_execution_plan (plan_for model d) model d).errors ≡ []
unfolding validate_execution_plan check_plan_rest
plan_for_passes model d h =
    let a = validate_inputs-Admitted model d h in
    let ranks : failures (rank_checks (plan_for model d) model d) ≡ [] =
      (failures_iff (rank_checks (plan_for model d) model d)).1
        (rw (a.ranks) refl, (rw (a.streams) refl, tt)) in
    let limits : failures (limit_checks (plan_for model d) d) ≡ [] =
      (failures_iff (limit_checks (plan_for model d) d)).1 (ground arith, tt) in
    let count : (length (map plan_layer model.layers) == length model.layers) ≡ true =
      (==_iff _ _).1 (length-map model.layers plan_layer) in
    rw
      (
        h,
        ranks,
        count,
        heads_pass model d a,
        layers_pass 0 model.layers,
        limits,
        speculative_passes d,
      )
      refl

throw_first_ok :
    {A : Type 0} (errors : List Bytes) {a b : A}
    → throw_first errors (ok a) ≡ ok b
    → (errors ≡ []) × (a ≡ b)
throw_first_ok [] h = (refl, ok-injective h)
throw_first_ok (e ∷ errors) h = cc

counted :
    (m n : ℕ) (message : Bytes) (rest : List Bytes)
    → (if not (m == n) then message ∷ [] else rest) ≡ []
    → (m ≡ n) × (rest ≡ [])
counted m n message rest h = ground arith

-- The validation of a plan reports no error exactly when the plan is the one that is built.
pub validate_execution_plan_iff :
    (plan : ExecutionPlan) (model : ModelSpec) (d : DeploymentContract)
    → ((validate_execution_plan plan model d).errors ≡ [])
      ↔ (build_tp2_execution_plan model d ≡ ok plan)
unfolding validate_execution_plan
validate_execution_plan_iff plan model d = (
  λ h.
      let (k, h3) =
        append_empty _
          (if not (length plan.layers == length model.layers)
            then text "execution plan layer count does not match model contract" ∷ []
            else check_plan_rest plan model d)
          h in
      let (h1, h2) =
        append_empty (validate_inputs model d).errors (failures (rank_checks plan model d)) k in
      let (count, rest) = counted (length plan.layers) (length model.layers) _ _ h3 in
      build_tp2_execution_plan_lem model d
      ∙ rw h1 (ap ok (sym (rest_exact plan model d h2 count rest))),
  λ h.
      let (k, e) =
        throw_first_ok (validate_inputs model d).errors
          (sym (build_tp2_execution_plan_lem model d) ∙ h) in
      rw (← e) (plan_for_passes model d k),
)
