-- ===== src/ExecutionPlan/Tests.antt =====
-- src/execution_plan.cpp on the baseline deployment.
use ninfer_nvfp4_glm_5_3_fla.Prelude.{
  ◌≡◌, ◌↔◌, false, [], text, replicate, ok, Exception, invalid_argument, threw, List, ◌∷◌, Bytes,
}
use ninfer_nvfp4_glm_5_3_fla.ModelSpec.{glm53_flash_spec}
use ninfer_nvfp4_glm_5_3_fla.Deployment.{DeploymentContract}
use ninfer_nvfp4_glm_5_3_fla.ExecutionPlan.{
  ExecutionPlan, validate_inputs, build_tp2_execution_plan,
}
use ninfer_nvfp4_glm_5_3_fla.ExecutionPlan.Validate.{validate_execution_plan}
use ninfer_nvfp4_glm_5_3_fla.ExecutionPlan.Exact.{
  plan_for, build_tp2_execution_plan-throws_iff, validate_execution_plan_iff,
}

abbrev pub baseline : DeploymentContract
baseline = record {
  head_ip = text "10.0.0.1";
  worker_ip = text "10.0.0.2";
  head_cx7_if = text "enp1";
  worker_cx7_if = text "enp1";
  head_cx7_ib = text "rocep1";
  worker_cx7_ib = text "rocep1";
  nccl_ib_gid_index = 3;
  head_gid = 3;
  worker_gid = 3;
  model = text "GLM-5.3-Flash-NVFP4";
  model_revision = [];
  served_model_name = text "glm";
  quantization = text "nvfp4";
  kv_cache_dtype = text "fp8";
  speculative_method = text "dflash";
  dflash_model = text "draft";
  dflash_revision = replicate 40 97;
  dflash_tokens = 7;
  dflash_draft_tp = 2;
  tensor_parallel = 2;
  nodes = 2;
  master_port = 29501;
  api_port = 8000;
  max_model_len = 1000000;
  max_num_seqs = 1;
  max_num_batched_tokens = 7168;
  gpu_memory_utilization = record { negative = false; bits = 4605831338911806259 };
  enforce_eager = false;
  use_host_nccl = false;
  indexer_workspace = text "rightsize";
  adaptive_k = [];
  adaptive_k_set = [];
}

abbrev baseline_plan : ExecutionPlan
baseline_plan = plan_for glm53_flash_spec baseline

validate_execution_plan_iff_example :
    ((validate_execution_plan baseline_plan glm53_flash_spec baseline).errors ≡ [])
    ↔ (build_tp2_execution_plan glm53_flash_spec baseline ≡ ok baseline_plan)
validate_execution_plan_iff_example =
    validate_execution_plan_iff baseline_plan glm53_flash_spec baseline

-- The baseline on three ranks.
abbrev three_ranks : DeploymentContract
three_ranks = record baseline { tensor_parallel = 3 }

abbrev thrown : Exception
thrown = invalid_argument (text "x")

build_tp2_execution_plan-throws_iff_example :
    (build_tp2_execution_plan glm53_flash_spec three_ranks ≡ threw thrown) ↔ (
      (e : Bytes) × (rest : List Bytes) × ((validate_inputs glm53_flash_spec three_ranks).errors
        ≡ e ∷ rest)
      × (thrown ≡ invalid_argument e))
build_tp2_execution_plan-throws_iff_example =
    build_tp2_execution_plan-throws_iff glm53_flash_spec three_ranks thrown
