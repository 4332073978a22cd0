-- ===== src/Checkpoint/Complete.antt =====
-- src/checkpoint_binding.cpp: when `bind_catalog` reports a complete checkpoint.
use ninfer_nvfp4_glm_5_3_fla.Prelude.{
  ℕ, ◌+◌, ◌≡◌, ◌↔◌, ◌⊎◌, inl, inr, refl, sym, ap, ◌∙◌, Bool, true, false, List, [], ◌∷◌, arith,
  eq_list_iff, length, replicate, All, Bool-cases,
}
use ninfer_nvfp4_glm_5_3_fla.Schema.{ℤ, pos, negsuc, ExpectedTensor, dtype_to_string}
use ninfer_nvfp4_glm_5_3_fla.Schema.Distinct.{AllDistinct}
use ninfer_nvfp4_glm_5_3_fla.Schema.Validate.{validate_parameter_catalog}
use ninfer_nvfp4_glm_5_3_fla.Checkpoint.{CheckpointKind, ObservedTensor, TensorCatalog, has_key}
use ninfer_nvfp4_glm_5_3_fla.Checkpoint.Bind.{
  eq_shape, started, bind_entries, count_missing, add_errors, bind_catalog,
}
use ninfer_nvfp4_glm_5_3_fla.Checkpoint.Faults.{
  faults, finish-faults, add_errors-faults, bound_faults, entry_faults, catalog_faults,
  bind_entries-faults, missing_faults, count_missing-faults,
}
use ninfer_nvfp4_glm_5_3_fla.Checkpoint.Seen.{names_of, bind_entries-marks, missing_marks}

-- An observed tensor that can be bound to an expected one: its type and shape are the expected ones,
-- or it has none, and none are required.
abbrev pub Fits : Bool → ExpectedTensor → ObservedTensor → Type 0
Fits required t o =
    ((o.has_metadata ≡ true) × (o.dtype ≡ dtype_to_string t.dtype) × (o.shape ≡ t.shape))
    ⊎ ((o.has_metadata ≡ false) × (required ≡ false))

eq_shape_iff : (xs ys : List ℤ) → (eq_shape xs ys ≡ true) ↔ (xs ≡ ys)
unfolding eq_shape
eq_shape_iff [] [] = ground arith
eq_shape_iff [] (y ∷ ys) = ground arith
eq_shape_iff (x ∷ xs) [] = ground arith
eq_shape_iff (pos m ∷ xs) (pos n ∷ ys) = ground (arith, eq_shape_iff xs ys)
eq_shape_iff (pos m ∷ xs) (negsuc n ∷ ys) = ground (arith, eq_shape_iff xs ys)
eq_shape_iff (negsuc m ∷ xs) (pos n ∷ ys) = ground (arith, eq_shape_iff xs ys)
eq_shape_iff (negsuc m ∷ xs) (negsuc n ∷ ys) = ground (arith, eq_shape_iff xs ys)

pub bound_faults_iff :
    (required : Bool) (t : ExpectedTensor) (o : ObservedTensor)
    → t.mcg_payload ≡ false
    → (bound_faults required t o ≡ 0) ↔ Fits required t o
bound_faults_iff required t o plain = (
  λ h. elim (Bool-cases o.has_metadata) [
    | inl e ↦ inl (
      e,
      ground (arith, e, h, eq_list_iff o.dtype (dtype_to_string t.dtype)),
      ground (arith, e, h, eq_shape_iff o.shape t.shape),
    )
    | inr e ↦ inr (e, ground (arith, e, h))
  ],
  λ fits. elim fits [
    | inl (e, dtype, shape) ↦
        let same_dtype = (eq_list_iff o.dtype (dtype_to_string t.dtype)).1 dtype in
        let same_shape = (eq_shape_iff o.shape t.shape).1 shape in
        ground (arith, e, plain, same_dtype, same_shape)
    | inr (e, optional) ↦ ground (arith, e, optional)
  ],
)

pub sum_zero : (a b : ℕ) → a + b ≡ 0 → (a ≡ 0) × (b ≡ 0)
sum_zero a b h = omega arith

pub catalog_faults_iff :
    (expected : List ExpectedTensor) (required : Bool) (observed : TensorCatalog)
    → (catalog_faults expected required observed ≡ 0)
      ↔ All (λ entry. entry_faults expected required entry ≡ 0) observed
catalog_faults_iff expected required [] = (λ h. tt, λ h. refl)
catalog_faults_iff expected required (entry ∷ observed) = (
  λ h.
      let (here, rest) =
        sum_zero (entry_faults expected required entry) (catalog_faults expected required observed)
          h in
      (here, (catalog_faults_iff expected required observed).0 rest),
  λ (here, rest).
      let more = (catalog_faults_iff expected required observed).1 rest in
      omega (arith, here, more),
)

abbrev pub seen_of : CheckpointKind → List ExpectedTensor → TensorCatalog → Bool → List Bool
seen_of kind expected observed required =
    let errors = validate_parameter_catalog expected in
    let report = add_errors errors (started kind expected observed required errors) in
    (bind_entries expected required observed (report, replicate (length expected) false)).1

-- What each loop of the call has against the checkpoint.
pub bind_catalog-faults :
    (kind : CheckpointKind) (expected : List ExpectedTensor) (observed : TensorCatalog)
    (required : Bool)
    → ((bind_catalog kind expected observed required).complete ≡ true) ↔ (
        length (validate_parameter_catalog expected)
          + catalog_faults expected required observed
          + missing_faults expected (seen_of kind expected observed required)
        ≡ 0)
unfolding bind_catalog
bind_catalog-faults kind expected observed required =
    let errors = validate_parameter_catalog expected in
    let report = add_errors errors (started kind expected observed required errors) in
    let fresh = replicate (length expected) false in
    let state = bind_entries expected required observed (report, fresh) in
    let total : faults (count_missing expected state.1 state.0)
        ≡ length errors
          + catalog_faults expected required observed
          + missing_faults expected state.1 =
      count_missing-faults expected state.1 state.0
      ∙ ap (λ n. n + missing_faults expected state.1)
          (bind_entries-faults expected required observed (report, fresh)
            ∙ ap (λ n. n + catalog_faults expected required observed)
                (add_errors-faults errors (started kind expected observed required errors)
                  ∙ (unfold faults in omega arith))) in
    let finished = finish-faults (count_missing expected state.1 state.0) in
    (λ h. sym total ∙ finished.0 h, λ h. finished.1 (total ∙ h))

-- Once the catalogue is valid, the marks are for the observed names.
pub missing_iff :
    (kind : CheckpointKind) (expected : List ExpectedTensor) (observed : TensorCatalog)
    (required : Bool)
    → AllDistinct (names_of expected)
    → (missing_faults expected (seen_of kind expected observed required) ≡ 0)
      ↔ All (λ t. has_key t.source_name observed ≡ true) expected
missing_iff kind expected observed required d =
    rw (bind_entries-marks expected required observed _ d) (missing_marks observed expected)
