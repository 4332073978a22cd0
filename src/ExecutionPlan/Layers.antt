-- ===== src/ExecutionPlan/Layers.antt =====
-- src/execution_plan.cpp: the loop over the layers accepts the planned layers and no others.
use ninfer_nvfp4_glm_5_3_fla.Prelude.{
  ℕ, ◌+◌, ◌≡◌, refl, ap, true, false, not, ◌||◌, List, [], ◌∷◌, map, arith, ◌==◌, length,
  failures_iff, append_empty, same_nat, either,
}
use ninfer_nvfp4_glm_5_3_fla.ModelSpec.{LayerSpec, eq_mixer, eq_ffn}
use ninfer_nvfp4_glm_5_3_fla.ModelSpec.Layers.{eq_mixer_lem, eq_ffn_lem, eq_mixer_self, eq_ffn_self}
use ninfer_nvfp4_glm_5_3_fla.ExecutionPlan.{
  CollectiveKind, no_collective, all_reduce, PersistentStateKind, kda_recurrent,
  sparse_mla_kv_and_index, LayerExecutionPlan, state_of, plan_layer,
}
use ninfer_nvfp4_glm_5_3_fla.ExecutionPlan.Validate.{
  eq_collective, eq_state, check_plan_layer, check_plan_layers,
}

eq_state_lem : (a b : PersistentStateKind) → not (eq_state a b) ≡ false → a ≡ b
eq_state_lem kda_recurrent kda_recurrent h = refl
eq_state_lem sparse_mla_kv_and_index sparse_mla_kv_and_index h = refl
eq_state_lem kda_recurrent sparse_mla_kv_and_index h = absurd (ground arith)
eq_state_lem sparse_mla_kv_and_index kda_recurrent h = absurd (ground arith)

eq_state_self : (a : PersistentStateKind) → eq_state a a ≡ true
eq_state_self kda_recurrent = refl
eq_state_self sparse_mla_kv_and_index = refl

eq_collective_lem : (a b : CollectiveKind) → not (eq_collective a b) ≡ false → a ≡ b
eq_collective_lem no_collective no_collective h = refl
eq_collective_lem all_reduce all_reduce h = refl
eq_collective_lem no_collective all_reduce h = absurd (ground arith)
eq_collective_lem all_reduce no_collective h = absurd (ground arith)

layer_exact :
    (i : ℕ) (actual : LayerExecutionPlan) (expected : LayerSpec)
    → check_plan_layer i actual expected ≡ []
    → actual ≡ plan_layer expected
unfolding check_plan_layer
layer_exact i actual expected h =
    let (topology, (states, (collectives, u))) = (failures_iff _).0 h in
    let (topology12, ffns) = either _ _ topology in
    let (indices, mixers) = either _ _ topology12 in
    let (mixer_out, ffn_out) = either _ _ collectives in
    let p = same_nat actual.layer expected.index indices in
    let q = eq_mixer_lem actual.mixer expected.mixer mixers in
    let r = eq_ffn_lem actual.ffn expected.ffn ffns in
    let s = eq_state_lem actual.persistent_state (state_of expected.mixer) states in
    let t = eq_collective_lem actual.mixer_output_collective all_reduce mixer_out in
    let w = eq_collective_lem actual.ffn_output_collective all_reduce ffn_out in
    λ j. record {
      layer = p j;
      mixer = q j;
      ffn = r j;
      persistent_state = s j;
      mixer_output_collective = t j;
      ffn_output_collective = w j;
    }

layer_passes :
    (i : ℕ) (expected : LayerSpec) → check_plan_layer i (plan_layer expected) expected ≡ []
unfolding check_plan_layer
layer_passes i expected =
    let topology : (not (expected.index == expected.index)
          || not (eq_mixer expected.mixer expected.mixer)
          || not (eq_ffn expected.ffn expected.ffn))
        ≡ false =
      rw (eq_mixer_self expected.mixer, eq_ffn_self expected.ffn) (ground arith) in
    let states : not (eq_state (state_of expected.mixer) (state_of expected.mixer)) ≡ false =
      rw (eq_state_self (state_of expected.mixer)) in
    (failures_iff _).1 (topology, (states, (refl, tt)))

pub layers_exact :
    (i : ℕ) (actuals : List LayerExecutionPlan) (layers : List LayerSpec)
    → length actuals ≡ length layers
    → check_plan_layers i actuals layers ≡ []
    → actuals ≡ map plan_layer layers
unfolding check_plan_layers
layers_exact i [] [] e h = refl
layers_exact i [] (x ∷ layers) e h = absurd (omega arith)
layers_exact i (a ∷ actuals) [] e h = absurd (omega arith)
layers_exact i (a ∷ actuals) (x ∷ layers) e h =
    let (h1, h2) =
      append_empty (check_plan_layer i a x) (check_plan_layers (i + 1) actuals layers) h in
    rw (layer_exact i a x h1)
      (ap (λ ls. plan_layer x ∷ ls) (layers_exact (i + 1) actuals layers (omega arith) h2))

pub layers_pass :
    (i : ℕ) (layers : List LayerSpec) → check_plan_layers i (map plan_layer layers) layers ≡ []
unfolding check_plan_layers
layers_pass i [] = refl
layers_pass i (x ∷ layers) = rw (layer_passes i x) (layers_pass (i + 1) layers)
