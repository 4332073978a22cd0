-- ===== src/Checkpoint/Faults.antt =====
-- src/checkpoint_binding.cpp: what `bind_catalog` counts against a checkpoint.
use ninfer_nvfp4_glm_5_3_fla.Prelude.{
  ℕ, ◌+◌, ◌≡◌, ◌↔◌, inl, inr, refl, ap, ◌∙◌, Bool, true, false, not, List, [], ◌∷◌, none, some,
  arith, ltb, if◌then◌else◌, Bytes, eq_list, length, Bool-cases, Option-cases,
}
use ninfer_nvfp4_glm_5_3_fla.Schema.{ExpectedTensor, dtype_to_string}
use ninfer_nvfp4_glm_5_3_fla.Checkpoint.{ObservedTensor, TensorCatalog, BindingReport}
use ninfer_nvfp4_glm_5_3_fla.Checkpoint.Shard.{add_error}
use ninfer_nvfp4_glm_5_3_fla.Checkpoint.Bind.{
  find_source, eq_shape, check_dtype, check_shape, check_mcg, check_metadata, check_bound,
  bind_entry, bind_entries, count_missing, add_errors, finish,
}

-- The counters that `finish` wants to be zero.
unfoldable pub faults : BindingReport → ℕ
faults r =
    r.io_errors + r.schema_errors + r.missing + r.unexpected + r.dtype_mismatches
    + r.shape_mismatches + r.mcg_mismatches

pub finish-faults : (r : BindingReport) → ((finish r).complete ≡ true) ↔ (faults r ≡ 0)
unfolding finish faults
finish-faults r = ground arith

pub add_error-faults : (r : BindingReport) (m : Bytes) → faults (add_error r m) ≡ faults r
unfolding add_error faults
add_error-faults r m = elim (Bool-cases (ltb (length r.errors) 24)) [
  | inl e ↦ rw e refl
  | inr e ↦ rw e refl
]

pub add_errors-faults :
    (errors : List Bytes) (r : BindingReport) → faults (add_errors errors r) ≡ faults r
unfolding add_errors
add_errors-faults [] r = refl
add_errors-faults (e ∷ errors) r = add_errors-faults errors (add_error r e) ∙ add_error-faults r e

abbrev pub fault_if : Bool → ℕ
fault_if true = 1
fault_if false = 0

check_dtype-faults :
    (t : ExpectedTensor) (o : ObservedTensor) (r : BindingReport)
    → faults (check_dtype t o r)
      ≡ faults r + fault_if (not (eq_list o.dtype (dtype_to_string t.dtype)))
unfolding check_dtype
check_dtype-faults t o r = elim (Bool-cases (eq_list o.dtype (dtype_to_string t.dtype))) [
  | inl e ↦ rw e (omega arith)
  | inr e ↦ rw e (add_error-faults _ _ ∙ (unfold faults in omega arith))
]

check_shape-faults :
    (t : ExpectedTensor) (o : ObservedTensor) (r : BindingReport)
    → faults (check_shape t o r) ≡ faults r + fault_if (not (eq_shape o.shape t.shape))
unfolding check_shape
check_shape-faults t o r = elim (Bool-cases (eq_shape o.shape t.shape)) [
  | inl e ↦ rw e (omega arith)
  | inr e ↦ rw e (add_error-faults _ _ ∙ (unfold faults in omega arith))
]

check_mcg-faults :
    (t : ExpectedTensor) (r : BindingReport)
    → faults (check_mcg t r) ≡ faults r + fault_if t.mcg_payload
unfolding check_mcg
check_mcg-faults t r = elim (Bool-cases t.mcg_payload) [
  | inl e ↦ rw e (add_error-faults _ _ ∙ (unfold faults in omega arith))
  | inr e ↦ rw e (omega arith)
]

check_metadata-faults :
    (required : Bool) (name : Bytes) (r : BindingReport)
    → faults (check_metadata required name r) ≡ faults r + fault_if required
unfolding check_metadata
check_metadata-faults true name r = add_error-faults _ _ ∙ (unfold faults in omega arith)
check_metadata-faults false name r = omega arith

abbrev pub bound_faults : Bool → ExpectedTensor → ObservedTensor → ℕ
bound_faults required t o =
    if o.has_metadata
    then fault_if (not (eq_list o.dtype (dtype_to_string t.dtype)))
      + fault_if (not (eq_shape o.shape t.shape))
      + fault_if t.mcg_payload
    else fault_if required

check_bound-faults :
    (required : Bool) (name : Bytes) (t : ExpectedTensor) (o : ObservedTensor) (r : BindingReport)
    → faults (check_bound required name t o r) ≡ faults r + bound_faults required t o
unfolding check_bound
check_bound-faults required name t o r = ground (
  arith,
  check_mcg-faults t (check_shape t o (check_dtype t o r)),
  check_shape-faults t o (check_dtype t o r),
  check_dtype-faults t o r,
  check_metadata-faults required name r,
)

abbrev pub entry_faults : List ExpectedTensor → Bool → Bytes × ObservedTensor → ℕ
entry_faults expected required (name, o) = elim (find_source name 0 expected) [
  | none ↦ 1
  | some (i, t) ↦ bound_faults required t o
]

abbrev pub catalog_faults : List ExpectedTensor → Bool → TensorCatalog → ℕ
catalog_faults expected required [] = 0
catalog_faults expected required (entry ∷ catalog) =
    entry_faults expected required entry + catalog_faults expected required catalog

bind_entry-faults :
    (expected : List ExpectedTensor) (required : Bool) (name : Bytes) (o : ObservedTensor)
    (r : BindingReport) (seen : List Bool)
    → faults (bind_entry expected required name o (r, seen)).0
      ≡ faults r + entry_faults expected required (name, o)
unfolding bind_entry
bind_entry-faults expected required name o r seen =
    elim (Option-cases (find_source name 0 expected)) [
      | inl e ↦
          rw (e, bind_entry, entry_faults) (add_error-faults _ _ ∙ (unfold faults in omega arith))
      | inr ((i, t), e) ↦
          rw (e, bind_entry, entry_faults)
            (check_bound-faults required name t o _ ∙ (unfold faults in refl))
    ]

pub bind_entries-faults :
    (expected : List ExpectedTensor) (required : Bool) (catalog : TensorCatalog)
    (state : BindingReport × List Bool)
    → faults (bind_entries expected required catalog state).0
      ≡ faults state.0 + catalog_faults expected required catalog
unfolding bind_entries
bind_entries-faults expected required [] state = omega arith
bind_entries-faults expected required ((name, o) ∷ catalog) (r, seen) = omega (
  arith,
  bind_entry-faults expected required name o r seen,
  bind_entries-faults expected required catalog (bind_entry expected required name o (r, seen)),
)

abbrev pub missing_faults : List ExpectedTensor → List Bool → ℕ
missing_faults [] seen = 0
missing_faults (t ∷ expected) [] = 0
missing_faults (t ∷ expected) (b ∷ seen) = fault_if (not b) + missing_faults expected seen

pub count_missing-faults :
    (expected : List ExpectedTensor) (seen : List Bool) (r : BindingReport)
    → faults (count_missing expected seen r) ≡ faults r + missing_faults expected seen
unfolding count_missing
count_missing-faults [] seen r = omega arith
count_missing-faults (t ∷ expected) [] r = omega arith
count_missing-faults (t ∷ expected) (true ∷ seen) r =
    omega (arith, count_missing-faults expected seen r)
count_missing-faults (t ∷ expected) (false ∷ seen) r =
    count_missing-faults expected seen _
    ∙ ap (λ n. n + missing_faults expected seen) (add_error-faults _ _)
    ∙ (unfold faults in omega arith)
