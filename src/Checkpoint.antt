-- ===== src/Checkpoint.antt =====
-- include/ninfer_glm53/checkpoint_binding.hpp: what is observed of a checkpoint, and the report of
-- its binding to the expected tensors.
pub mod Escape
pub mod Escaped
pub mod Header
pub mod Shard
pub mod Ranges
pub mod Payload
pub mod Bind
pub mod Faults
pub mod Seen
pub mod Complete
pub mod Found
pub mod Whole
pub mod Config
pub mod Gather
pub mod Directory
pub mod Origin
pub mod Indexed
pub mod Covered
pub mod Trust
mod Tests
pub mod Receipt
use ninfer_nvfp4_glm_5_3_fla.Prelude.{
  ℕ, Bool, true, false, List, [], ◌∷◌, ◌++◌, Option, none, some, if◌then◌else◌, text, Bytes,
  eq_list,
}
use ninfer_nvfp4_glm_5_3_fla.Schema.{ℤ}

pub data CheckpointKind : Type 0 where
  glm53_nvfp4_target dflash2_draft : CheckpointKind

unfoldable pub kind_to_string : CheckpointKind → Bytes
kind_to_string glm53_nvfp4_target = text "glm53_flash_nvfp4_target"
kind_to_string dflash2_draft = text "dflash2_draft"

pub record ObservedTensor : Type 0 where
  pub dtype : Bytes
  pub shape : List ℤ
  pub shard : Bytes
  pub has_metadata : Bool
  pub has_mcg_value : Bool
  pub mcg_value : ℕ

abbrev pub blank_observed : ObservedTensor
blank_observed = record {
  dtype = [];
  shape = [];
  shard = [];
  has_metadata = false;
  has_mcg_value = false;
  mcg_value = 0;
}

-- `std::unordered_map` as the list of its entries in the order of its iteration, which the code
-- leaves open.
abbrev pub Table : Type 0 → Type 0
Table V = List (Bytes × V)

abbrev pub TensorCatalog : Type 0
TensorCatalog = Table ObservedTensor

-- `find`, and `contains`.
unfoldable pub lookup : {V : Type 0} → Bytes → Table V → Option V
lookup key [] = none
lookup key ((k, v) ∷ table) = if eq_list key k then some v else lookup key table

unfoldable pub has_key : {V : Type 0} → Bytes → Table V → Bool
has_key key [] = false
has_key key ((k, v) ∷ table) = if eq_list key k then true else has_key key table

-- `emplace`, whose `second` is the negation of `has_key`.
unfoldable pub emplace : {V : Type 0} → Bytes → V → Table V → Table V
emplace key v table = if has_key key table then table else table ++ (key, v) ∷ []

pub record BindingReport : Type 0 where
  pub complete : Bool
  pub shapes_checked : Bool
  pub mcg_payload_checked : Bool
  pub kind : CheckpointKind
  pub expected_tensors : ℕ
  pub observed_tensors : ℕ
  pub bound : ℕ
  pub missing : ℕ
  pub unexpected : ℕ
  pub dtype_mismatches : ℕ
  pub shape_mismatches : ℕ
  pub mcg_mismatches : ℕ
  pub schema_errors : ℕ
  pub io_errors : ℕ
  pub weight_bytes : ℕ
  pub errors : List Bytes
  pub warnings : List Bytes
  pub config_sha256 : Bytes
  pub index_sha256 : Bytes
  pub logical_catalog_sha256 : Bytes
  pub observed_names_sha256 : Bytes
  pub mirror_upstream_revision : Bytes
  pub source_model_revision : Bytes
  pub snapshot_revision : Bytes

abbrev pub blank_report : BindingReport
blank_report = record {
  complete = false;
  shapes_checked = false;
  mcg_payload_checked = false;
  kind = glm53_nvfp4_target;
  expected_tensors = 0;
  observed_tensors = 0;
  bound = 0;
  missing = 0;
  unexpected = 0;
  dtype_mismatches = 0;
  shape_mismatches = 0;
  mcg_mismatches = 0;
  schema_errors = 0;
  io_errors = 0;
  weight_bytes = 0;
  errors = [];
  warnings = [];
  config_sha256 = [];
  index_sha256 = [];
  logical_catalog_sha256 = [];
  observed_names_sha256 = [];
  mirror_upstream_revision = [];
  source_model_revision = [];
  snapshot_revision = [];
}
