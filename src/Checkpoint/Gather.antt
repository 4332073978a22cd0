-- ===== src/Checkpoint/Gather.antt =====
-- src/checkpoint_binding.cpp: the steps of `bind_checkpoint_directory` on what has been read.
use ninfer_nvfp4_glm_5_3_fla.Prelude.{
  ℕ, ◌+◌, ◌-◌, ◌^◌, Bool, true, not, ◌&&◌, List, [], ◌∷◌, ◌++◌, Option, none, some, ltb, ◌==◌,
  if◌then◌else◌, text, Bytes, eq_list, length, Exception, runtime_error, invalid_argument,
  logic_error, out_of_range, overflow_error, Result, ok, threw,
}
use ninfer_nvfp4_glm_5_3_fla.ModelSpec.{glm53_flash_spec}
use ninfer_nvfp4_glm_5_3_fla.Schema.{
  ℤ, pos, negsuc, ExpectedTensor, glm53_flash_vision_spec, glm53_flash_dflash2_spec,
}
use ninfer_nvfp4_glm_5_3_fla.Schema.Catalog.{expected_glm53_flash_tensors, expected_dflash2_tensors}
use ninfer_nvfp4_glm_5_3_fla.Sha256.{sha256_hex}
use ninfer_nvfp4_glm_5_3_fla.Checkpoint.{
  CheckpointKind, glm53_nvfp4_target, dflash2_draft, blank_observed, Table, TensorCatalog, lookup,
  has_key, emplace, BindingReport,
}
use ninfer_nvfp4_glm_5_3_fla.Checkpoint.Header.{member, parse_weight_map}
use ninfer_nvfp4_glm_5_3_fla.Checkpoint.Shard.{io_error}
use ninfer_nvfp4_glm_5_3_fla.Checkpoint.Bind.{add_errors, finish}
use ninfer_nvfp4_glm_5_3_fla.Checkpoint.Config.{io_check}

-- `error.what()`
abbrev pub what : Exception → Bytes
what (runtime_error message) = message
what (invalid_argument message) = message
what (logic_error message) = message
what (out_of_range message) = message
what (overflow_error message) = message

abbrev pub or_old : Option Bytes → Bytes → Bytes
or_old none old = old
or_old (some new) old = new

-- `expected && *expected != actual`, negated.
abbrev pub agrees : Option Bytes → Bytes → Bool
agrees none actual = true
agrees (some expected) actual = eq_list expected actual

-- The index file, with the weight map that is parsed from it.
unfoldable pub index_bytes : Option Bytes → Bytes → BindingReport → Table Bytes × BindingReport
index_bytes receipt_index_sha index_text report =
    let hashed = record report { index_sha256 = sha256_hex index_text } in
    let parsed : Table Bytes × BindingReport = elim (parse_weight_map index_text) [
      | ok weight_map ↦ (weight_map, hashed)
      | threw error ↦ ([], io_error hashed (text "weight map parse failed: " ++ what error))
    ] in
    let filled = io_check (ltb 0 (length parsed.0)) (text "weight_map is empty") parsed.1 in
    (
      parsed.0,
      io_check (agrees receipt_index_sha (sha256_hex index_text))
          (text "model.safetensors.index.json sha256 does not match materialization-receipt.json")
          filled,
    )

unfoldable pub distinct_shards : Table Bytes → List Bytes → List Bytes
distinct_shards [] seen = seen
distinct_shards ((name, shard) ∷ weight_map) seen =
    distinct_shards weight_map (if member shard seen then seen else seen ++ shard ∷ [])

-- The tensors of a shard join those of the shards before it.
unfoldable pub merge_catalog :
    TensorCatalog → TensorCatalog × BindingReport → TensorCatalog × BindingReport
merge_catalog [] state = state
merge_catalog ((name, observed) ∷ tensors) (catalog, report) = merge_catalog tensors (
  emplace name observed catalog,
  io_check (not (has_key name catalog)) (text "duplicate tensor across shards: " ++ name) report,
)

-- The report that `read_shard` was given comes back.
abbrev pub given_back : Option BindingReport → BindingReport → BindingReport
given_back none report = report
given_back (some new) report = new

-- Every indexed tensor is in the shard that the weight map says.
unfoldable pub check_owners : TensorCatalog → Table Bytes → BindingReport → BindingReport
check_owners catalog [] report = report
check_owners catalog ((name, owner) ∷ weight_map) report =
    check_owners catalog weight_map (elim (lookup name catalog) [
      | none ↦ io_error report (text "indexed tensor missing from shard headers: " ++ name)
      | some found ↦
          io_check (eq_list found.shard owner)
            (text "indexed tensor "
              ++ name
              ++ text " is in "
              ++ found.shard
              ++ text " but weight_map says "
              ++ owner)
            report
    ])

unfoldable pub check_indexed : Table Bytes → TensorCatalog → BindingReport → BindingReport
check_indexed weight_map [] report = report
check_indexed weight_map ((name, observed) ∷ catalog) report = check_indexed weight_map catalog (
    io_check (has_key name weight_map) (text "header tensor missing from weight_map: " ++ name)
      report)

unfoldable pub named_catalog : Table Bytes → TensorCatalog
named_catalog [] = []
named_catalog ((name, shard) ∷ weight_map) =
    (name, record blank_observed { shard = shard }) ∷ named_catalog weight_map

-- `static_cast<std::uint64_t>` of the count in the receipt.
abbrev pub counts : Option ℤ → ℕ → Bool
counts none n = true
counts (some (pos m)) n = m == n
counts (some (negsuc m)) n = 2 ^ 64 - 1 - m == n

abbrev pub expected_for : CheckpointKind → Result (List ExpectedTensor)
expected_for glm53_nvfp4_target =
    expected_glm53_flash_tensors glm53_flash_spec glm53_flash_vision_spec
expected_for dflash2_draft = expected_dflash2_tensors glm53_flash_dflash2_spec

-- The binding takes over what was found before it.
unfoldable pub merge_report : BindingReport → BindingReport → BindingReport
merge_report bound report =
    let summed = record bound {
      io_errors = bound.io_errors + report.io_errors;
      warnings = bound.warnings ++ report.warnings;
    } in
    finish (record (add_errors report.errors summed) {
      weight_bytes = report.weight_bytes;
      config_sha256 = report.config_sha256;
      index_sha256 = report.index_sha256;
      mirror_upstream_revision = report.mirror_upstream_revision;
      source_model_revision = report.source_model_revision;
      snapshot_revision = report.snapshot_revision;
      kind = report.kind;
    })

abbrev pub names_only_warning : Bool → List Bytes → BindingReport → BindingReport
names_only_warning names_only shard_names report =
    if names_only && report.weight_bytes == 0 && ltb 0 (length shard_names)
    then record report {
      warnings =
          report.warnings
          ++ text "names-only bind did not open weight shards; shapes were not checked" ∷ [];
    }
    else report
