-- ===== src/Checkpoint/Directory.antt =====
-- src/checkpoint_binding.cpp: `bind_checkpoint_directory`, on what the file system shows.
use ninfer_nvfp4_glm_5_3_fla.Prelude.{
  ℕ, ◌+◌, ◌%◌, ◌^◌, Bool, false, not, ◌&&◌, ◌||◌, List, [], ◌∷◌, ◌++◌, Option, none, some, ltb,
  ◌==◌, if◌then◌else◌, text, Bytes, eq_list, is_empty, length, runtime_error, Result, ok, threw,
  bind, ◌>>=◌,
}
use ninfer_nvfp4_glm_5_3_fla.Schema.{ℤ}
use ninfer_nvfp4_glm_5_3_fla.Sha256.{sha256_hex, is_hex40}
use ninfer_nvfp4_glm_5_3_fla.JsonScan.Find.{find_string, find_int}
use ninfer_nvfp4_glm_5_3_fla.Checkpoint.{Table, TensorCatalog, BindingReport, blank_report}
use ninfer_nvfp4_glm_5_3_fla.Checkpoint.Header.{member}
use ninfer_nvfp4_glm_5_3_fla.Checkpoint.Shard.{io_error, read_shard}
use ninfer_nvfp4_glm_5_3_fla.Checkpoint.Bind.{sort_by, bind_catalog, finish}
use ninfer_nvfp4_glm_5_3_fla.Checkpoint.Config.{io_check, check_config, detect_kind}
use ninfer_nvfp4_glm_5_3_fla.Checkpoint.Gather.{
  what, or_old, agrees, index_bytes, distinct_shards, merge_catalog, given_back, check_owners,
  check_indexed, named_catalog, counts, expected_for, merge_report, names_only_warning,
}

-- What the calls of `std::filesystem` and of streams give below the directory: whether a name is a
-- regular file, its bytes if it opens, its path, its size, the regular files with the extension .safetensors,
-- and the file names on the canonical path of the directory, from its own up.
pub record Files : Type 0 where
  pub is_regular : Bytes → Bool
  pub contents : Bytes → Option Bytes
  pub path : Bytes → Bytes
  pub size : Bytes → ℕ
  pub safetensors : List Bytes
  pub ancestors : List Bytes

unfoldable pub snapshot_revision : List Bytes → Bytes
snapshot_revision [] = []
snapshot_revision (name ∷ parents) =
    let rest = snapshot_revision parents in if is_hex40 name then name else rest

-- The components of a path between its slashes.
unfoldable pub components : Bytes → List Bytes
components [] = [] ∷ []
components (ch ∷ path) =
    let rest = components path in
    if ch == 47
    then [] ∷ rest
    else elim rest [ [] ↦ (ch ∷ []) ∷ [] | name ∷ more ↦ (ch ∷ name) ∷ more ]

-- Without `..`, a path is `.` in its normal form if no component is a name.
unfoldable pub names_something : List Bytes → Bool
names_something [] = false
names_something (name ∷ names) =
    not (is_empty name || eq_list name (46 ∷ [])) || names_something names

abbrev pub starts_with_slash : Bytes → Bool
starts_with_slash [] = false
starts_with_slash (ch ∷ path) = ch == 47

-- On the target's file system a path has no root name, and it is absolute if it has a root directory.
unfoldable pub safe_relative_shard_name : Bytes → Bool
safe_relative_shard_name shard =
    not (is_empty shard)
    && not (starts_with_slash shard)
    && not (member (46 ∷ 46 ∷ []) (components shard))
    && names_something (components shard)

module _ (files : Files) where
  unfoldable pub read_text : Bytes → Result Bytes
  read_text name = elim (files.contents name) [
    | none ↦ threw (runtime_error (text "cannot read " ++ files.path name))
    | some bytes ↦ ok bytes
  ]

  -- A member of an optional JSON file.
  abbrev pub text_if : Bytes → (Bytes → Result (Option Bytes)) → Result (Option Bytes)
  text_if name find = if files.is_regular name then read_text name >>= find else ok none

  abbrev pub int_if : Bytes → (Bytes → Result (Option ℤ)) → Result (Option ℤ)
  int_if name find = if files.is_regular name then read_text name >>= find else ok none

  unfoldable pub read_index : Option Bytes → BindingReport → Result (Table Bytes × BindingReport)
  read_index receipt_index_sha report =
      let index = text "model.safetensors.index.json" in
      if files.is_regular index
      then bind (read_text index) (λ bytes. ok (index_bytes receipt_index_sha bytes report))
      else ok ([], report)

  unfoldable pub list_shards : Table Bytes → BindingReport → List Bytes × BindingReport
  list_shards (entry ∷ weight_map) report =
      (sort_by (λ name. name) (distinct_shards (entry ∷ weight_map) []), report)
  list_shards [] report =
      if is_empty report.index_sha256
      then (
        sort_by (λ name. name) files.safetensors,
        io_check (ltb 0 (length files.safetensors))
            (text "no weight index and no safetensors shards") report,
      )
      else ([], report)

  -- The first loop over the shards.
  unfoldable pub weigh_shards : Bool → List Bytes → BindingReport → BindingReport
  weigh_shards names_only [] report = report
  weigh_shards names_only (shard ∷ shards) report = weigh_shards names_only shards (
      if not (safe_relative_shard_name shard)
      then io_error report (text "unsafe shard path in weight_map: " ++ shard)
      else if not (files.is_regular shard)
      then (if names_only then report else io_error report (text "missing shard " ++ shard))
      else record report { weight_bytes = (report.weight_bytes + files.size shard) % 2 ^ 64 })

  unfoldable pub read_shards :
      Bool → List Bytes → TensorCatalog × BindingReport → TensorCatalog × BindingReport
  read_shards names_only [] state = state
  read_shards names_only (shard ∷ shards) (catalog, report) = read_shards names_only shards (
      if not (safe_relative_shard_name shard) || not (files.is_regular shard)
      then (catalog, report)
      else elim (read_shard shard (files.contents shard) shard (not names_only) (some report)) [
        | threw error ↦ (catalog, io_error report (what error))
        | ok (tensors, back) ↦ merge_catalog tensors (catalog, given_back back report)
      ])

  unfoldable pub gather_catalog :
      Bool → Table Bytes → List Bytes → BindingReport → TensorCatalog × BindingReport
  gather_catalog names_only weight_map shard_names report =
      let (catalog, read) = read_shards names_only shard_names ([], report) in
      let checked =
        if ltb 0 (length weight_map)
        then check_indexed weight_map catalog (check_owners catalog weight_map read)
        else read in
      if names_only && ltb 0 (length weight_map)
      then (named_catalog weight_map, report)
      else if report.io_errors == 0 || ltb 0 (length shard_names)
      then (catalog, checked)
      else ([], report)

  -- The part behind the index: the shards, the catalogue and its binding.
  unfoldable pub conclude : Bool → Option ℤ → Table Bytes × BindingReport → Result BindingReport
  conclude names_only tensor_count index =
      let shards = list_shards index.0 index.1 in
      let weighed =
        names_only_warning names_only shards.0 (weigh_shards names_only shards.0 shards.1) in
      let gathered = gather_catalog names_only index.0 shards.0 weighed in
      let r5 =
        io_check (counts tensor_count (length gathered.0) || names_only)
          (text "observed tensor count does not match materialization-receipt output_tensor_count")
          gathered.1 in
      bind (expected_for r5.kind) (λ expected.
        ok (merge_report (bind_catalog r5.kind expected gathered.0 (not names_only)) r5))

  -- The part behind the test for config.json.
  unfoldable pub bind_configured : Bool → BindingReport → Result BindingReport
  bind_configured names_only r0 = do
    config ← read_text (text "config.json")
    let digest = sha256_hex config
    let detected = detect_kind config (record r0 { config_sha256 = digest })
    r1 ← check_config detected.0 config (record detected.1 { kind = detected.0 })
    mirror ← text_if (text "MIRROR.json") (λ s. find_string s (text "upstream_revision"))
    let r2 = record r1 { mirror_upstream_revision = or_old mirror r1.mirror_upstream_revision }
    let receipt = text "materialization-receipt.json"
    revision ← text_if receipt (λ s. find_string s (text "source_model_revision"))
    let r3 = record r2 { source_model_revision = or_old revision r2.source_model_revision }
    config_sha ← text_if receipt (λ s. find_string s (text "config_sha256"))
    index_sha ← text_if receipt (λ s. find_string s (text "index_sha256"))
    tensor_count ← int_if receipt (λ s. find_int s (text "output_tensor_count"))
    let r4 =
        io_check (agrees config_sha digest)
          (text "config.json sha256 does not match materialization-receipt.json") r3
    index ← read_index index_sha r4
    conclude names_only tensor_count index

  unfoldable pub bind_checkpoint_directory : Bool → Result BindingReport
  bind_checkpoint_directory names_only =
      let report = record blank_report { snapshot_revision = snapshot_revision files.ancestors } in
      if files.is_regular (text "config.json")
      then bind_configured names_only report
      else ok (finish (io_error report (text "missing config.json")))
