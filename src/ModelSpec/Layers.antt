-- ===== src/ModelSpec/Layers.antt =====
-- src/model_spec.cpp: the loop over the layers accepts the layers of `make_layers` and no others.
use ninfer_nvfp4_glm_5_3_fla.Prelude.{
  ℕ, zero, suc, ◌+◌, ◌≡◌, refl, ap, true, false, not, List, [], ◌∷◌, arith, length, failures_iff,
  append_empty, same_nat,
}
use ninfer_nvfp4_glm_5_3_fla.ModelSpec.{
  MixerKind, kda, sparse_mla, eq_mixer, FfnKind, dense, sparse_moe, eq_ffn, LayerSpec,
  expected_mixer, expected_ffn, make_layers,
}
use ninfer_nvfp4_glm_5_3_fla.ModelSpec.Validate.{check_layer, check_layers}

pub eq_mixer_lem : (a b : MixerKind) → not (eq_mixer a b) ≡ false → a ≡ b
eq_mixer_lem kda kda h = refl
eq_mixer_lem sparse_mla sparse_mla h = refl
eq_mixer_lem kda sparse_mla h = absurd (ground arith)
eq_mixer_lem sparse_mla kda h = absurd (ground arith)

pub eq_ffn_lem : (a b : FfnKind) → not (eq_ffn a b) ≡ false → a ≡ b
eq_ffn_lem dense dense h = refl
eq_ffn_lem sparse_moe sparse_moe h = refl
eq_ffn_lem dense sparse_moe h = absurd (ground arith)
eq_ffn_lem sparse_moe dense h = absurd (ground arith)

pub eq_mixer_self : (a : MixerKind) → eq_mixer a a ≡ true
eq_mixer_self kda = refl
eq_mixer_self sparse_mla = refl

pub eq_ffn_self : (a : FfnKind) → eq_ffn a a ≡ true
eq_ffn_self dense = refl
eq_ffn_self sparse_moe = refl

check_layer_lem :
    (i : ℕ) (layer : LayerSpec)
    → check_layer i layer ≡ []
    → layer ≡ record { index = i; mixer = expected_mixer i; ffn = expected_ffn i }
unfolding check_layer
check_layer_lem i layer h =
    let (e1, (e2, (e3, u))) = (failures_iff _).0 h in
    let p = same_nat layer.index i e1 in
    let q = eq_mixer_lem layer.mixer (expected_mixer i) e2 in
    let r = eq_ffn_lem layer.ffn (expected_ffn i) e3 in
    λ t. record { index = p t; mixer = q t; ffn = r t }

check_layer_accepts :
    (i : ℕ)
    → check_layer i (record { index = i; mixer = expected_mixer i; ffn = expected_ffn i }) ≡ []
unfolding check_layer
check_layer_accepts i =
    let mixers : not (eq_mixer (expected_mixer i) (expected_mixer i)) ≡ false =
      rw (eq_mixer_self (expected_mixer i)) refl in
    let ffns : not (eq_ffn (expected_ffn i) (expected_ffn i)) ≡ false =
      rw (eq_ffn_self (expected_ffn i)) refl in
    (failures_iff _).1 (ground arith, (mixers, (ffns, tt)))

pub check_layers_lem :
    (i : ℕ) (layers : List LayerSpec)
    → check_layers i layers ≡ []
    → layers ≡ make_layers (length layers) i
unfolding check_layers make_layers
check_layers_lem i [] h = refl
check_layers_lem i (layer ∷ layers) h =
    let (h1, h2) = append_empty (check_layer i layer) (check_layers (i + 1) layers) h in
    rw (check_layer_lem i layer h1) (
      ap (λ ls. record { index = i; mixer = expected_mixer i; ffn = expected_ffn i } ∷ ls)
        (check_layers_lem (i + 1) layers h2))

pub check_layers_accepts : (n i : ℕ) → check_layers i (make_layers n i) ≡ []
unfolding check_layers make_layers
check_layers_accepts zero i = refl
check_layers_accepts (suc n) i = rw (check_layer_accepts i) (check_layers_accepts n (i + 1))
