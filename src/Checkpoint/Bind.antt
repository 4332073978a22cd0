-- ===== src/Checkpoint/Bind.antt =====
-- src/checkpoint_binding.cpp: `bind_catalog`. src/parameter_schema.cpp: the digest of a catalogue.
use ninfer_nvfp4_glm_5_3_fla.Prelude.{
  ℕ, ◌+◌, Bool, true, false, ◌&&◌, ◌||◌, List, [], ◌∷◌, ◌++◌, map, replicate, Option, none, some,
  ltb, ◌==◌, if◌then◌else◌, text, Bytes, eq_list, length, set,
}
use ninfer_nvfp4_glm_5_3_fla.Schema.{
  ℤ, pos, negsuc, ExpectedTensor, dtype_to_string, shape_to_string,
}
use ninfer_nvfp4_glm_5_3_fla.Schema.Validate.{validate_parameter_catalog}
use ninfer_nvfp4_glm_5_3_fla.Sha256.{new_hasher, update, hex_digest}
use ninfer_nvfp4_glm_5_3_fla.Checkpoint.{
  CheckpointKind, ObservedTensor, TensorCatalog, BindingReport, blank_report,
}
use ninfer_nvfp4_glm_5_3_fla.Checkpoint.Shard.{add_error}

-- `operator<` of `std::string`.
unfoldable pub less : Bytes → Bytes → Bool
less s [] = false
less [] (d ∷ t) = true
less (c ∷ s) (d ∷ t) = ltb c d || c == d && less s t

-- `std::sort` by a key. Entries of one key, whose order the library leaves open, keep theirs.
module _ {A : Type 0} (key : A → Bytes) where
  unfoldable pub insert_by : A → List A → List A
  insert_by x [] = x ∷ []
  insert_by x (y ∷ ys) =
      let rest = insert_by x ys in if less (key y) (key x) then y ∷ rest else x ∷ y ∷ ys

  unfoldable pub sort_by : List A → List A
  sort_by [] = []
  sort_by (x ∷ xs) = insert_by x (sort_by xs)

abbrev tab : Bytes
tab = 9 ∷ []

abbrev pub newline : Bytes
newline = 10 ∷ []

-- What the digest of a catalogue hashes for an entry.
abbrev pub catalog_line : ExpectedTensor → Bytes
catalog_line tensor =
    tensor.logical_id
    ++ (tab
        ++ (tensor.source_name
            ++ (tab
                ++ (dtype_to_string tensor.dtype
                    ++ (tab ++ (shape_to_string tensor.shape ++ newline))))))

unfoldable pub concat_map : {A : Type 0} → (A → Bytes) → List A → Bytes
concat_map f [] = []
concat_map f (x ∷ xs) = f x ++ concat_map f xs

unfoldable pub logical_catalog_sha256 : List ExpectedTensor → Bytes
logical_catalog_sha256 catalog =
    hex_digest
      (update (concat_map catalog_line (sort_by (λ tensor. tensor.logical_id) catalog)) new_hasher)

unfoldable pub names_sha256 : TensorCatalog → Bytes
names_sha256 catalog = hex_digest (
    update
      (concat_map (λ name. name ++ newline)
        (sort_by (λ name. name) (map (λ entry. entry.0) catalog)))
      new_hasher)

-- `by_source.find`: the first entry of a source name, with its index.
unfoldable pub find_source : Bytes → ℕ → List ExpectedTensor → Option (ℕ × ExpectedTensor)
find_source name i [] = none
find_source name i (tensor ∷ expected) =
    if eq_list name tensor.source_name then some (i, tensor) else find_source name (i + 1) expected

abbrev eq_dim : ℤ → ℤ → Bool
eq_dim (pos m) (pos n) = m == n
eq_dim (negsuc m) (negsuc n) = m == n
eq_dim _ _ = false

unfoldable pub eq_shape : List ℤ → List ℤ → Bool
eq_shape [] [] = true
eq_shape (m ∷ xs) (n ∷ ys) = eq_dim m n && eq_shape xs ys
eq_shape _ _ = false

-- The three tests of a bound tensor with metadata, and the one of a tensor without.
unfoldable pub check_dtype : ExpectedTensor → ObservedTensor → BindingReport → BindingReport
check_dtype required observed report =
    if eq_list observed.dtype (dtype_to_string required.dtype)
    then report
    else add_error (record report { dtype_mismatches = report.dtype_mismatches + 1 })
        (text "dtype mismatch for "
          ++ required.logical_id
          ++ text ": expected "
          ++ dtype_to_string required.dtype
          ++ text ", got "
          ++ observed.dtype)

unfoldable pub check_shape : ExpectedTensor → ObservedTensor → BindingReport → BindingReport
check_shape required observed report =
    if eq_shape observed.shape required.shape
    then report
    else add_error (record report { shape_mismatches = report.shape_mismatches + 1 })
        (text "shape mismatch for "
          ++ required.logical_id
          ++ text ": expected ["
          ++ shape_to_string required.shape
          ++ text "], got ["
          ++ shape_to_string observed.shape
          ++ text "]")

unfoldable pub check_mcg : ExpectedTensor → BindingReport → BindingReport
check_mcg required report =
    if required.mcg_payload
    then add_error (record report { mcg_mismatches = report.mcg_mismatches + 1 })
        (text "NVFP4 binding does not accept an MCG payload for " ++ required.logical_id)
    else report

unfoldable pub check_metadata : Bool → Bytes → BindingReport → BindingReport
check_metadata required name report =
    if required
    then add_error (record report { dtype_mismatches = report.dtype_mismatches + 1 })
        (text "missing dtype and shape for " ++ name)
    else report

unfoldable pub check_bound :
    Bool → Bytes → ExpectedTensor → ObservedTensor → BindingReport → BindingReport
check_bound metadata_required name required observed report =
    if observed.has_metadata
    then check_mcg required (check_shape required observed (check_dtype required observed report))
    else check_metadata metadata_required name report

-- One round of the loop over the observed tensors, with `seen`.
unfoldable pub bind_entry :
    List ExpectedTensor
    → Bool
    → Bytes
    → ObservedTensor
    → BindingReport × List Bool
    → BindingReport × List Bool
bind_entry expected metadata_required name observed (report, seen) =
    elim (find_source name 0 expected) [
      | none ↦ (
        add_error (record report { unexpected = report.unexpected + 1 })
            (text "unexpected tensor " ++ name),
        seen,
      )
      | some (i, required) ↦ (
        check_bound metadata_required name required observed
            (record report { bound = report.bound + 1 }),
        set seen i true,
      )
    ]

unfoldable pub bind_entries :
    List ExpectedTensor
    → Bool
    → TensorCatalog
    → BindingReport × List Bool
    → BindingReport × List Bool
bind_entries expected metadata_required [] state = state
bind_entries expected metadata_required ((name, observed) ∷ catalog) state =
    bind_entries expected metadata_required catalog
      (bind_entry expected metadata_required name observed state)

unfoldable pub count_missing : List ExpectedTensor → List Bool → BindingReport → BindingReport
count_missing [] seen report = report
count_missing (tensor ∷ expected) (true ∷ seen) report = count_missing expected seen report
count_missing (tensor ∷ expected) (false ∷ seen) report = count_missing expected seen (
    add_error (record report { missing = report.missing + 1 })
      (text "missing tensor " ++ tensor.source_name))
count_missing (tensor ∷ expected) [] report = report

unfoldable pub add_errors : List Bytes → BindingReport → BindingReport
add_errors [] report = report
add_errors (error ∷ errors) report = add_errors errors (add_error report error)

unfoldable pub finish : BindingReport → BindingReport
finish report = record report {
  complete =
      report.io_errors == 0
      && report.schema_errors == 0
      && report.missing == 0
      && report.unexpected == 0
      && report.dtype_mismatches == 0
      && report.shape_mismatches == 0
      && report.mcg_mismatches == 0;
}

unfoldable pub any_mcg : List ExpectedTensor → Bool
any_mcg [] = false
any_mcg (tensor ∷ expected) = tensor.mcg_payload || any_mcg expected

abbrev pub started :
    CheckpointKind → List ExpectedTensor → TensorCatalog → Bool → List Bytes → BindingReport
started kind expected observed metadata_required schema_errors = record blank_report {
  kind = kind;
  expected_tensors = length expected;
  observed_tensors = length observed;
  shapes_checked = metadata_required;
  logical_catalog_sha256 = logical_catalog_sha256 expected;
  observed_names_sha256 = names_sha256 observed;
  mcg_payload_checked = metadata_required && any_mcg expected;
  schema_errors = length schema_errors;
}

unfoldable pub bind_catalog :
    CheckpointKind → List ExpectedTensor → TensorCatalog → Bool → BindingReport
bind_catalog kind expected observed metadata_required =
    let schema_errors = validate_parameter_catalog expected in
    let report =
      add_errors schema_errors (started kind expected observed metadata_required schema_errors) in
    let (bound, seen) =
      bind_entries expected metadata_required observed
        (report, replicate (length expected) false) in
    finish (count_missing expected seen bound)
