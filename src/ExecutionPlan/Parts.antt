-- ===== src/ExecutionPlan/Parts.antt =====
-- src/execution_plan.cpp: what the checks of a plan's geometry and of its draft model accept.
use ninfer_nvfp4_glm_5_3_fla.Prelude.{
  ℕ, ◌/◌, ◌≡◌, refl, ap, ◌∙◌, Bool, true, false, not, [], ◌∷◌, arith, if◌then◌else◌, Bytes, eq_list,
  eq_list_iff, failures, failures_iff, append_empty, either, holds, same_nat, same_text, is_empty,
}
use ninfer_nvfp4_glm_5_3_fla.ModelSpec.{ModelSpec}
use ninfer_nvfp4_glm_5_3_fla.Deployment.{DeploymentContract}
use ninfer_nvfp4_glm_5_3_fla.ExecutionPlan.{
  SpeculativePlan, ExecutionPlan, is_dflash, local_geometry, speculative_plan, disabled,
}
use ninfer_nvfp4_glm_5_3_fla.ExecutionPlan.Validate.{
  eq_bool, head_matches, rank_checks, head_checks, identity_checks, stale_checks, check_speculative,
}

-- What valid inputs agree on.
pub record Admitted (model : ModelSpec) (d : DeploymentContract) : Type 0 where
  pub ranks : d.tensor_parallel ≡ 2
  pub streams : model.hyper_connection_streams ≡ 4
  pub attention : model.attention_heads ≡ 64
  pub kv : model.kv_heads ≡ 64
  pub index : model.index_heads ≡ 32
  pub linear : model.linear_attention_heads ≡ 64

head_matches_lem :
    (world local_heads global_heads : ℕ)
    → head_matches world local_heads global_heads ≡ true
    → local_heads ≡ global_heads / world
head_matches_lem world local_heads global_heads h = ground arith

pub geometry_exact :
    (plan : ExecutionPlan) (model : ModelSpec) (d : DeploymentContract)
    → failures (rank_checks plan model d) ≡ []
    → failures (head_checks plan.rank_geometry model) ≡ []
    → plan.rank_geometry ≡ local_geometry model d.tensor_parallel
geometry_exact plan model d h k =
    let rank = plan.rank_geometry in
    let (worlds, (streams, u)) = (failures_iff (rank_checks plan model d)).0 h in
    let (heads, v) = (failures_iff (head_checks rank model)).0 k in
    let (two, world) = either _ _ worlds in
    let (four, stream) = either _ _ streams in
    let (heads123, linear) = either _ _ heads in
    let (heads12, index) = either _ _ heads123 in
    let (attention, kv) = either _ _ heads12 in
    let w = same_nat rank.world_size d.tensor_parallel world in
    let s = same_nat rank.hyper_connection_streams model.hyper_connection_streams stream in
    let by : (a b : ℕ) → head_matches rank.world_size a b ≡ true → a ≡ b / d.tensor_parallel =
      λ a b e. head_matches_lem rank.world_size a b e ∙ ap (λ n. b / n) w in
    let a = by rank.local_attention_heads model.attention_heads (holds _ attention) in
    let b = by rank.local_kv_heads model.kv_heads (holds _ kv) in
    let c = by rank.local_index_heads model.index_heads (holds _ index) in
    let l = by rank.local_linear_attention_heads model.linear_attention_heads (holds _ linear) in
    λ i. record {
      world_size = w i;
      hyper_connection_streams = s i;
      local_attention_heads = a i;
      local_kv_heads = b i;
      local_index_heads = c i;
      local_linear_attention_heads = l i;
    }

pub heads_pass :
    (model : ModelSpec) (d : DeploymentContract)
    → Admitted model d
    → failures (head_checks (local_geometry model d.tensor_parallel) model) ≡ []
unfolding failures
heads_pass model d a = rw (a.ranks, a.attention, a.kv, a.index, a.linear) refl

eq_bool_lem : (a b : Bool) → not (eq_bool a b) ≡ false → a ≡ b
eq_bool_lem true true h = refl
eq_bool_lem false false h = refl
eq_bool_lem true false h = absurd (ground arith)
eq_bool_lem false true h = absurd (ground arith)

empty_lem : (xs : Bytes) → not (is_empty xs) ≡ false → xs ≡ []
empty_lem [] h = refl
empty_lem (x ∷ xs) h = absurd (ground arith)

eq_list_self : (xs : Bytes) → eq_list xs xs ≡ true
eq_list_self xs = (eq_list_iff xs xs).1 refl

abbrev enabled_plan : DeploymentContract → SpeculativePlan
enabled_plan d = record {
  enabled = true;
  proposal_tokens = d.dflash_tokens;
  draft_tensor_parallel = d.dflash_draft_tp;
  draft_model = d.dflash_model;
  draft_revision = d.dflash_revision;
}

speculative_exact_by :
    (dflash : Bool) (s : SpeculativePlan) (d : DeploymentContract)
    → not (eq_bool s.enabled dflash) ≡ false
    → failures (if dflash then identity_checks s d else stale_checks s) ≡ []
    → s ≡ (if dflash then enabled_plan d else disabled)
speculative_exact_by true s d e h =
    let (all, u) = (failures_iff (identity_checks s d)).0 h in
    let (all123, revision) = either _ _ all in
    let (all12, model) = either _ _ all123 in
    let (tokens, tp) = either _ _ all12 in
    let on = eq_bool_lem s.enabled true e in
    let a = same_nat s.proposal_tokens d.dflash_tokens tokens in
    let b = same_nat s.draft_tensor_parallel d.dflash_draft_tp tp in
    let c = same_text s.draft_model d.dflash_model model in
    let r = same_text s.draft_revision d.dflash_revision revision in
    λ i. record {
      enabled = on i;
      proposal_tokens = a i;
      draft_tensor_parallel = b i;
      draft_model = c i;
      draft_revision = r i;
    }
speculative_exact_by false s d e h =
    let (all, u) = (failures_iff (stale_checks s)).0 h in
    let (all123, revision) = either _ _ all in
    let (all12, model) = either _ _ all123 in
    let (tokens, tp) = either _ _ all12 in
    let off = eq_bool_lem s.enabled false e in
    let a = same_nat s.proposal_tokens 0 tokens in
    let b = same_nat s.draft_tensor_parallel 0 tp in
    let c = empty_lem s.draft_model model in
    let r = empty_lem s.draft_revision revision in
    λ i. record {
      enabled = off i;
      proposal_tokens = a i;
      draft_tensor_parallel = b i;
      draft_model = c i;
      draft_revision = r i;
    }

pub speculative_exact :
    (s : SpeculativePlan) (d : DeploymentContract)
    → check_speculative s d ≡ []
    → s ≡ speculative_plan d
unfolding check_speculative
speculative_exact s d h =
    let (h1, h2) =
      append_empty _ (failures (if is_dflash d then identity_checks s d else stale_checks s)) h in
    speculative_exact_by (is_dflash d) s d ((failures_iff _).0 h1).0 h2

speculative_passes_by :
    (dflash : Bool) (d : DeploymentContract)
    → (not (eq_bool (if dflash then enabled_plan d else disabled).enabled dflash) ≡ false)
      × (failures (
            if dflash
            then identity_checks (if dflash then enabled_plan d else disabled) d
            else stale_checks (if dflash then enabled_plan d else disabled))
          ≡ [])
unfolding failures
speculative_passes_by true d =
    (refl, rw (eq_list_self d.dflash_model, eq_list_self d.dflash_revision) (ground arith))
speculative_passes_by false d = (refl, refl)

pub speculative_passes : (d : DeploymentContract) → check_speculative (speculative_plan d) d ≡ []
unfolding check_speculative failures
speculative_passes d = let (e, h) = speculative_passes_by (is_dflash d) d in rw (e, h) refl
