-- ===== src/Checkpoint/Trust.antt =====
-- src/checkpoint_binding.cpp: what a directory whose binding is complete has.
use ninfer_nvfp4_glm_5_3_fla.Prelude.{◌≡◌, Bool, true, not, List, Bytes, ok, All}
use ninfer_nvfp4_glm_5_3_fla.Schema.{ExpectedTensor}
use ninfer_nvfp4_glm_5_3_fla.Checkpoint.{TensorCatalog, BindingReport}
use ninfer_nvfp4_glm_5_3_fla.Checkpoint.Bind.{bind_catalog}
use ninfer_nvfp4_glm_5_3_fla.Checkpoint.{Table}
use ninfer_nvfp4_glm_5_3_fla.Checkpoint.Gather.{merge_report, expected_for}
use ninfer_nvfp4_glm_5_3_fla.Checkpoint.Origin.{Origin}
use ninfer_nvfp4_glm_5_3_fla.Checkpoint.Indexed.{IsIndex}
use ninfer_nvfp4_glm_5_3_fla.Checkpoint.Covered.{IsWhole}
use ninfer_nvfp4_glm_5_3_fla.Checkpoint.Directory.{Files, list_shards}

-- What a complete report stands for: the report of a complete binding of a catalogue that was gathered
-- from the files, merged into what had been reported before; with the weight map of the index file and
-- the shards that the directory shows.
pub record IsBacked (files : Files) (names_only : Bool) (r : BindingReport) : Type 0 where
  pub expected : List ExpectedTensor
  pub catalog : TensorCatalog
  pub before : BindingReport
  pub schema : expected_for r.kind ≡ ok expected
  pub bound : (bind_catalog r.kind expected catalog (not names_only)).complete ≡ true
  pub merged : r ≡ merge_report (bind_catalog r.kind expected catalog (not names_only)) before
  pub clean : before.io_errors ≡ 0
  pub origins : All (Origin files names_only) catalog
  pub weight_map : Table Bytes
  pub shards : List Bytes
  pub told : BindingReport
  pub index : IsIndex files names_only weight_map
  pub named : shards ≡ (list_shards files weight_map told).0
  pub whole : IsWhole files names_only weight_map shards catalog

-- A complete report is backed.
abbrev Backed : Files → Bool → BindingReport → Type 0
Backed files names_only r = (r.complete ≡ true) → IsBacked files names_only r
