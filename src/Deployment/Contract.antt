-- ===== src/Deployment/Contract.antt =====
-- src/deployment_contract.cpp: `validate_deployment_contract`.
use ninfer_nvfp4_glm_5_3_fla.Prelude.{
  ◌*◌, ◌^◌, false, not, ◌&&◌, ◌||◌, List, [], ◌∷◌, ◌++◌, ltb, ◌==◌, if◌then◌else◌, text, Bytes,
  eq_list, is_empty, Double, double_lt, double_le, Check, ◌reports◌, failures,
}
use ninfer_nvfp4_glm_5_3_fla.ModelSpec.{ModelSpec}
use ninfer_nvfp4_glm_5_3_fla.Deployment.{ValidationReport, DeploymentContract}
use ninfer_nvfp4_glm_5_3_fla.Deployment.Strings.{contains}

-- `require_equal`
abbrev pub required : Bytes → Bytes → Bytes → Check
required label actual expected =
    not (eq_list actual expected)
    reports (label ++ text " must be '" ++ expected ++ text "' (got '" ++ actual ++ text "')")

-- The doubles 0.0, 1.0 and 0.85.
abbrev pub zero_double : Double
zero_double = record { negative = false; bits = 0 }

abbrev pub one_double : Double
one_double = record { negative = false; bits = 1023 * 2 ^ 52 }

abbrev pub baseline_utilization : Double
baseline_utilization = record { negative = false; bits = 4605831338911806259 }

abbrev pub host_checks : DeploymentContract → List Check
host_checks d =
    (not (d.tensor_parallel == 2) reports text "TP must be exactly 2 for the target runtime")
    ∷ (not (d.nodes == 2) reports text "NNODES must be exactly 2 for the target runtime")
    ∷ (is_empty d.head_ip || is_empty d.worker_ip || eq_list d.head_ip d.worker_ip
        reports text "HEAD_IP and WORKER_IP must be non-empty and distinct")
    ∷ (is_empty d.head_cx7_if || is_empty d.worker_cx7_if
        reports text "both CX-7 Ethernet interfaces must be specified")
    ∷ (is_empty d.head_cx7_ib || is_empty d.worker_cx7_ib
        reports text "both CX-7 RDMA devices must be specified")
    ∷ (not (d.head_gid == d.nccl_ib_gid_index) || not (d.worker_gid == d.nccl_ib_gid_index)
        reports text "HEAD_GID and WORKER_GID must match NCCL_IB_GID_INDEX")
    ∷ required (text "QUANTIZATION") d.quantization (text "nvfp4")
    ∷ required (text "KV_CACHE_DTYPE") d.kv_cache_dtype (text "fp8")
    ∷ (not (contains (text "GLM-5.3-Flash") d.model) || not (contains (text "NVFP4") d.model)
        reports text "MODEL must identify a GLM-5.3-Flash NVFP4 checkpoint")
    ∷ (contains (text "EXL3") d.model
        reports text "MODEL must not be an EXL3 checkpoint; this runtime consumes NVFP4")
    ∷ []

abbrev pub draft_checks : DeploymentContract → List Check
draft_checks d =
    (is_empty d.dflash_model reports text "DFLASH_MODEL is required for dflash")
    ∷ (d.dflash_tokens == 0 reports text "DFLASH_TOKENS must be positive")
    ∷ []

abbrev pub scheduler_checks : DeploymentContract → ModelSpec → List Check
scheduler_checks d model =
    (d.max_model_len == 0 || ltb model.max_position_embeddings d.max_model_len
      reports text "MAX_MODEL_LEN must be in 1..model.max_position_embeddings")
    ∷ (d.max_num_seqs == 0 reports text "MAX_NUM_SEQS must be positive")
    ∷ (d.max_num_batched_tokens == 0 reports text "MAX_NUM_BATCHED_TOKENS must be positive")
    ∷ (not (
          double_lt zero_double d.gpu_memory_utilization
          && double_le d.gpu_memory_utilization one_double)
        reports text "GPU_MEM_UTIL must be in (0,1]")
    ∷ (d.master_port == 0 || ltb 65535 d.master_port || d.api_port == 0 || ltb 65535 d.api_port
        reports text "MASTER_PORT and PORT must be valid TCP ports")
    ∷ []

abbrev pub draft_warnings : DeploymentContract → List Check
draft_warnings d =
    (is_empty d.dflash_revision
      reports text "DFLASH_REVISION is empty; draft/target pairing is not reproducible")
    ∷ (not (d.dflash_draft_tp == 2)
        reports text "DFLASH_DRAFT_TP differs from the validated TP=2 baseline")
    ∷ (not (d.dflash_tokens == 7)
        reports text "DFLASH_TOKENS differs from the validated k=7 baseline")
    ∷ []

abbrev pub baseline_warnings : DeploymentContract → List Check
baseline_warnings d =
    (not (d.max_model_len == 1000000)
      reports text "MAX_MODEL_LEN differs from the validated 1,000,000-token baseline")
    ∷ (not (d.max_num_seqs == 1)
        reports text "MAX_NUM_SEQS differs from the validated single-inflight baseline")
    ∷ (not (d.max_num_batched_tokens == 7168)
        reports text "MAX_NUM_BATCHED_TOKENS differs from the current 7168-token baseline")
    ∷ (double_lt baseline_utilization d.gpu_memory_utilization
        reports text "GPU_MEM_UTIL exceeds the current validated 0.85 baseline")
    ∷ (d.enforce_eager reports text "ENFORCE_EAGER=1 disables the intended CUDA-graph decode path")
    ∷ (d.use_host_nccl
        reports text "USE_HOST_NCCL=1 departs from the validated image-NCCL baseline")
    ∷ (not (eq_list d.indexer_workspace (text "rightsize"))
        reports text "GLM53_INDEXER_WORKSPACE differs from the current rightsize baseline")
    ∷ []

-- Errors and warnings go to lists of their own, so each list keeps its order.
unfoldable pub validate_deployment_contract : DeploymentContract → ModelSpec → ValidationReport
validate_deployment_contract d model =
    let dflash = eq_list d.speculative_method (text "dflash") in
    record {
      errors =
          failures (host_checks d)
          ++ (if dflash then failures (draft_checks d) else [])
          ++ failures (scheduler_checks d model);
      warnings =
          failures (
            (is_empty d.model_revision
              reports text
                  "MODEL_REVISION is empty; reproducible checkpoint loading requires a pin")
            ∷ [])
          ++ (if dflash
              then failures (draft_warnings d)
              else text "SPEC_METHOD is not dflash; the first optimized runtime targets DFlash2"
                ∷ [])
          ++ failures (baseline_warnings d);
    }
