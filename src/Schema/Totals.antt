-- ===== src/Schema/Totals.antt =====
-- src/parameter_schema.cpp: the catalogue of the model has 147,661 tensors, each of which passes the
-- checks of its shape and storage.
use mathlib.Core.Path.{subst}
use ninfer_nvfp4_glm_5_3_fla.Prelude.{
  ◌==◌, ltb, ℕ, ◌+◌, ◌≡◌, refl, sym, ◌∙◌, true, false, List, [], ◌∷◌, ◌++◌, arith, Bytes, length,
  length-append, failures,
}
use ninfer_nvfp4_glm_5_3_fla.ModelSpec.{
  MixerKind, sparse_mla, FfnKind, sparse_moe, LayerSpec, ModelSpec, glm53_flash_spec, make_layers,
  is_sparse_mla_layer,
}
use ninfer_nvfp4_glm_5_3_fla.ModelSpec.Validate.{validate_model_spec}
use ninfer_nvfp4_glm_5_3_fla.ModelSpec.Pinned.{pinned, validate_model_spec_iff}
use ninfer_nvfp4_glm_5_3_fla.Schema.{
  VisionSpec, ExpectedTensor, glm53_flash_vision_spec, validate_vision_spec,
}
use ninfer_nvfp4_glm_5_3_fla.Schema.Pinned.{validate_vision_spec_iff}
use ninfer_nvfp4_glm_5_3_fla.Schema.Layers.{
  add_language_layer, layer_front, layer_source, layer_logical, nextn_tensors,
}
use ninfer_nvfp4_glm_5_3_fla.Schema.Catalog.{
  vision_block, vision_blocks, add_vision, add_layers, language_ends, expected_glm53_flash_tensors,
}
use ninfer_nvfp4_glm_5_3_fla.Schema.Validate.{eq_dtype, eq_storage, dim_errors, entry_errors}
use ninfer_nvfp4_glm_5_3_fla.Schema.Counts.{
  shape_errors, Yields, shape_errors-append, both-Yields, between-Yields, front_count, ffn_count,
  ffn-Yields, front_passes, next_moe-Yields, next_front_passes, next_back_passes,
}

abbrev layer_total : List LayerSpec → ℕ
layer_total [] = 0
layer_total (layer ∷ layers) =
    (front_count layer.mixer + ffn_count layer.ffn + 0) + layer_total layers

layer-Yields :
    (checkpoint : Bytes) (index : ℕ) (mixer : MixerKind) (ffn : FfnKind)
    → Yields
        (add_language_layer (pinned checkpoint) index false mixer ffn)
        (front_count mixer + ffn_count ffn + 0)
unfolding add_language_layer shape_errors
layer-Yields checkpoint index mixer ffn =
    between-Yields
      (layer_front (pinned checkpoint) (layer_logical index false) (layer_source index) false mixer)
      [] (front_count mixer) 0 _ (ffn_count ffn)
      (front_passes checkpoint (layer_logical index false) (layer_source index) mixer) (refl, refl)
      (ffn-Yields checkpoint (layer_logical index false) (layer_source index) ffn)

next_layer-Yields :
    (checkpoint : Bytes) (index : ℕ)
    → Yields (add_language_layer (pinned checkpoint) index true sparse_mla sparse_moe) 889
unfolding add_language_layer
next_layer-Yields checkpoint index =
    between-Yields
      (layer_front (pinned checkpoint) (layer_logical index true) (layer_source index) true
        sparse_mla)
      (nextn_tensors (pinned checkpoint) (layer_logical index true) (layer_source index)) 16 4 _ 869
      (next_front_passes checkpoint (layer_logical index true) (layer_source index))
      (next_back_passes checkpoint (layer_logical index true) (layer_source index))
      (next_moe-Yields checkpoint (layer_logical index true) (layer_source index))

layers-Yields :
    (checkpoint : Bytes) (layers : List LayerSpec)
    → Yields (add_layers (pinned checkpoint) layers) (layer_total layers)
unfolding add_layers shape_errors
layers-Yields checkpoint [] = record { tensors = []; returns = refl; counted = refl; passes = refl }
layers-Yields checkpoint (layer ∷ layers) =
    both-Yields (add_language_layer (pinned checkpoint) layer.index false layer.mixer layer.ffn) _ _
      _ (layer-Yields checkpoint layer.index layer.mixer layer.ffn)
      (layers-Yields checkpoint layers)

model_layers-Yields :
    (checkpoint : Bytes) → Yields (add_layers (pinned checkpoint) (pinned checkpoint).layers) 146422
unfolding glm53_flash_spec make_layers is_sparse_mla_layer
model_layers-Yields checkpoint = layers-Yields checkpoint (pinned checkpoint).layers

vision-Yields : Yields (add_vision glm53_flash_vision_spec) 347
unfolding add_vision vision_blocks vision_block shape_errors entry_errors dim_errors failures
    eq_storage eq_dtype
vision-Yields = record { tensors = _; returns = refl; counted = refl; passes = refl }

ends_pass :
    (checkpoint : Bytes)
    → (length (language_ends (pinned checkpoint)) ≡ 3)
      × (shape_errors (language_ends (pinned checkpoint)) ≡ [])
unfolding glm53_flash_spec shape_errors entry_errors dim_errors failures eq_storage eq_dtype
ends_pass checkpoint = (refl, refl)

four_lengths :
    (ws xs ys zs : List ExpectedTensor)
    → length (ws ++ xs ++ ys ++ zs) ≡ ((length ws + length xs) + length ys) + length zs
four_lengths ws xs ys zs =
    length-append (ws ++ xs ++ ys) zs
    ∙ omega (arith, length-append (ws ++ xs) ys, length-append ws xs)

-- The guards in front of the catalogue let the pinned specifications pass.
model_accepted :
    (checkpoint : Bytes)
    → (validate_model_spec (pinned checkpoint) ≡ [])
      × (((pinned checkpoint).nextn_predict_layers == 1) ≡ true)
      × (ltb (pinned checkpoint).hyper_connection_streams 2 ≡ false)
      × (length (pinned checkpoint).layers ≡ 45)
unfolding glm53_flash_spec make_layers
model_accepted checkpoint = ((validate_model_spec_iff (pinned checkpoint)).1 refl, refl, refl, refl)

vision_accepted : validate_vision_spec glm53_flash_vision_spec ≡ []
vision_accepted = (validate_vision_spec_iff glm53_flash_vision_spec).1 refl

pinned-Yields :
    (checkpoint : Bytes)
    → Yields (expected_glm53_flash_tensors (pinned checkpoint) glm53_flash_vision_spec) 147661
unfolding expected_glm53_flash_tensors
pinned-Yields checkpoint =
    let layers = model_layers-Yields checkpoint in
    let next = next_layer-Yields checkpoint 45 in
    let vision = vision-Yields in
    let ends = language_ends (pinned checkpoint) in
    let ends_count = ends_pass checkpoint in
    let accepted = model_accepted checkpoint in
    record {
      tensors = ends ++ layers.tensors ++ next.tensors ++ vision.tensors;
      returns =
          rw
            (
              accepted.0, vision_accepted, accepted.1, accepted.2, accepted.3, layers.returns,
              next.returns, vision.returns,
            )
            refl;
      counted =
          four_lengths ends layers.tensors next.tensors vision.tensors
          ∙ omega (arith, ends_count.0, layers.counted, next.counted, vision.counted);
      passes =
          shape_errors-append (ends ++ layers.tensors ++ next.tensors) vision.tensors
            (shape_errors-append (ends ++ layers.tensors) next.tensors
              (shape_errors-append ends layers.tensors ends_count.1 layers.passes) next.passes)
            vision.passes;
    }

-- For a model and a vision specification without errors, the call returns a catalogue of 147,661
-- tensors, and none of them fails a check of its shape or storage.
pub expected_glm53_flash_tensors-Yields :
    (model : ModelSpec) (vision : VisionSpec)
    → validate_model_spec model ≡ []
    → validate_vision_spec vision ≡ []
    → Yields (expected_glm53_flash_tensors model vision) 147661
expected_glm53_flash_tensors-Yields model vision hm hv =
    subst (λ m. Yields (expected_glm53_flash_tensors m vision) 147661)
      (sym ((validate_model_spec_iff model).0 hm))
      (subst (λ v. Yields (expected_glm53_flash_tensors (pinned model.checkpoint) v) 147661)
        (sym ((validate_vision_spec_iff vision).0 hv)) (pinned-Yields model.checkpoint))
