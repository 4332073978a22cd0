-- ===== src/Deployment.antt =====
-- include/ninfer_glm53/deployment_contract.hpp: the deployment contract and the validation report.
pub mod Strings
pub mod Env
pub mod Contract
pub mod Admission
pub mod Digits
mod Lines
mod Refused
mod Quoted
mod Files
mod Tests
use ninfer_nvfp4_glm_5_3_fla.Prelude.{ℕ, Bool, List, Bytes, Double}

pub record ValidationReport : Type 0 where
  pub errors : List Bytes
  pub warnings : List Bytes

pub record DeploymentContract : Type 0 where
  pub head_ip : Bytes
  pub worker_ip : Bytes
  pub head_cx7_if : Bytes
  pub worker_cx7_if : Bytes
  pub head_cx7_ib : Bytes
  pub worker_cx7_ib : Bytes
  pub nccl_ib_gid_index : ℕ
  pub head_gid : ℕ
  pub worker_gid : ℕ
  pub model : Bytes
  pub model_revision : Bytes
  pub served_model_name : Bytes
  pub quantization : Bytes
  pub kv_cache_dtype : Bytes
  pub speculative_method : Bytes
  pub dflash_model : Bytes
  pub dflash_revision : Bytes
  pub dflash_tokens : ℕ
  pub dflash_draft_tp : ℕ
  pub tensor_parallel : ℕ
  pub nodes : ℕ
  pub master_port : ℕ
  pub api_port : ℕ
  pub max_model_len : ℕ
  pub max_num_seqs : ℕ
  pub max_num_batched_tokens : ℕ
  pub gpu_memory_utilization : Double
  pub enforce_eager : Bool
  pub use_host_nccl : Bool
  pub indexer_workspace : Bytes
  pub adaptive_k : Bytes
  pub adaptive_k_set : Bytes
