-- ===== src/Deployment/Env.antt =====
-- src/deployment_contract.cpp: the environment file, from its bytes to a deployment contract.
use ninfer_nvfp4_glm_5_3_fla.Prelude.{
  ℕ, ◌+◌, Bool, true, false, not, ◌&&◌, ◌||◌, List, [], ◌∷◌, ◌++◌, Option, none, some, ◌==◌,
  if◌then◌else◌, text, Bytes, eq_list, decimal, length, drop, get_or, Double, is_empty, Exception,
  runtime_error, Result, ok, threw, guard, ◌>>=◌, ◌>>◌,
}
use ninfer_nvfp4_glm_5_3_fla.Deployment.{DeploymentContract}
use ninfer_nvfp4_glm_5_3_fla.Deployment.Strings.{
  is_alnum, starts_with, split_at, trim, strip_inline_comment, unquote, from_chars,
}

-- `std::map<std::string, std::string>`, of which only lookups are made.
abbrev pub EnvMap : Type 0
EnvMap = List (Bytes × Bytes)

unfoldable pub find : Bytes → EnvMap → Option Bytes
find key [] = none
find key ((k, v) ∷ env) = if eq_list key k then some v else find key env

unfoldable pub insert_or_assign : Bytes → Bytes → EnvMap → EnvMap
insert_or_assign key value [] = (key, value) ∷ []
insert_or_assign key value ((k, v) ∷ env) =
    let rest = insert_or_assign key value env in
    if eq_list key k then (k, value) ∷ env else (k, v) ∷ rest

-- The lines that `std::getline` gives: a last line without its end counts unless it is empty.
unfoldable pub lines : Bytes → List Bytes
lines [] = []
lines (ch ∷ s) =
    let rest = lines s in
    if ch == 10
    then [] ∷ rest
    else elim rest [ [] ↦ (ch ∷ []) ∷ [] | line ∷ more ↦ (ch ∷ line) ∷ more ]

unfoldable pub all_key : Bytes → Bool
all_key [] = true
all_key (ch ∷ s) = (is_alnum ch || ch == 95) && all_key s

abbrev pub byte_order_mark : Bytes
byte_order_mark = 239 ∷ 187 ∷ 191 ∷ []

-- `path.string() + ":" + std::to_string(line_number) + message`
abbrev pub line_error : Bytes → ℕ → Bytes → Exception
line_error path number message = runtime_error (path ++ text ":" ++ decimal number ++ message)

-- The rest of a round of `parse_env_file`, for a line that is neither empty nor a comment.
unfoldable pub parse_assignment : Bytes → ℕ → EnvMap → Bytes → Result EnvMap
parse_assignment path number env line = elim (split_at 61 line) [
  | none ↦ threw (line_error path number (text ": expected KEY=VALUE"))
  | some (before, behind) ↦
      let key = trim before in
      guard (not (is_empty key)) (line_error path number (text ": empty key"))
      >> guard (all_key key) (line_error path number (text ": invalid key: " ++ key))
      >> ok (insert_or_assign key (unquote (strip_inline_comment behind)) env)
]

unfoldable pub parse_line : Bytes → ℕ → EnvMap → Bytes → Result EnvMap
parse_line path number env raw =
    let marked = number == 1 && starts_with byte_order_mark raw in
    let line = trim (if marked then drop 3 raw else raw) in
    if is_empty line || get_or line 0 0 == 35
    then ok env
    else parse_assignment path number env
        (if starts_with (text "export ") line then trim (drop 7 line) else line)

-- The loop, with the number of the next line.
unfoldable pub parse_lines : Bytes → ℕ → EnvMap → List Bytes → Result EnvMap
parse_lines path number env [] = ok env
parse_lines path number env (line ∷ rest) = do
  next ← parse_line path number env line
  parse_lines path (number + 1) next rest

-- The bytes of the file are an argument; `none` is a file that does not open.
unfoldable pub parse_env_file : Bytes → Option Bytes → Result EnvMap
parse_env_file path none = threw (runtime_error (text "unable to open deployment env: " ++ path))
parse_env_file path (some bytes) = parse_lines path 1 [] (lines bytes)

unfoldable pub require : EnvMap → Bytes → Result Bytes
require env key = elim (find key env) [
  | none ↦ threw (runtime_error (text "missing required deployment key: " ++ key))
  | some value ↦
      if is_empty value
      then threw (runtime_error (text "missing required deployment key: " ++ key))
      else ok value
]

abbrev pub optional_string : EnvMap → Bytes → Bytes
optional_string env key = elim (find key env) [ none ↦ [] | some value ↦ value ]

-- `it == env.end() || it->second.empty()`
abbrev pub is_blank : EnvMap → Bytes → Bool
is_blank env key = is_empty (optional_string env key)

-- The part of `parse_u32` behind the lookup.
unfoldable pub parse_value : Bytes → Bytes → Result ℕ
parse_value key value = elim (from_chars value) [
  | none ↦ threw (runtime_error (text "invalid unsigned integer for " ++ key ++ text ": " ++ value))
  | some (parsed, rest) ↦
      if is_empty rest
      then ok parsed
      else threw (runtime_error (text "invalid unsigned integer for " ++ key ++ text ": " ++ value))
]

unfoldable pub parse_u32 : EnvMap → Bytes → Result ℕ
parse_u32 env key = require env key >>= parse_value key

unfoldable pub parse_u32_default : EnvMap → Bytes → ℕ → Result ℕ
parse_u32_default env key fallback = if is_blank env key then ok fallback else parse_u32 env key

unfoldable pub parse_bool01_default : EnvMap → Bytes → Bool → Result Bool
parse_bool01_default env key fallback = if is_blank env key then ok fallback else do
  value ← require env key
  if eq_list value (text "1") || eq_list value (text "true") || eq_list value (text "TRUE")
      then ok true
      else if eq_list value (text "0")
          || eq_list value (text "false")
          || eq_list value (text "FALSE")
      then ok false
      else threw
          (runtime_error (text "invalid boolean for " ++ key ++ text ": expected 0/1/true/false"))

-- `std::stod` is a parameter: the value and the number of characters read, or what it throws.
module _ (stod : Bytes → Result (Double × ℕ)) where
  unfoldable pub parse_double : EnvMap → Bytes → Result Double
  parse_double env key = do
    value ← require env key
    parsed ← stod value
    guard (parsed.1 == length value)
        (runtime_error (text "invalid floating-point value for " ++ key ++ text ": " ++ value))
    ok parsed.0

  unfoldable pub deployment_from_env : EnvMap → Result DeploymentContract
  deployment_from_env env = do
    head_ip ← require env (text "HEAD_IP")
    worker_ip ← require env (text "WORKER_IP")
    head_cx7_if ← require env (text "HEAD_CX7_IF")
    worker_cx7_if ← require env (text "WORKER_CX7_IF")
    head_cx7_ib ← require env (text "HEAD_CX7_IB")
    worker_cx7_ib ← require env (text "WORKER_CX7_IB")
    nccl_ib_gid_index ← parse_u32 env (text "NCCL_IB_GID_INDEX")
    head_gid ← parse_u32_default env (text "HEAD_GID") nccl_ib_gid_index
    worker_gid ← parse_u32_default env (text "WORKER_GID") nccl_ib_gid_index
    model ← require env (text "MODEL")
    served_model_name ← require env (text "SERVED_MODEL_NAME")
    quantization ← require env (text "QUANTIZATION")
    kv_cache_dtype ← require env (text "KV_CACHE_DTYPE")
    speculative_method ← require env (text "SPEC_METHOD")
    dflash_tokens ← parse_u32_default env (text "DFLASH_TOKENS") 0
    dflash_draft_tp ← parse_u32_default env (text "DFLASH_DRAFT_TP") 0
    tensor_parallel ← parse_u32 env (text "TP")
    nodes ← parse_u32 env (text "NNODES")
    master_port ← parse_u32 env (text "MASTER_PORT")
    api_port ← parse_u32 env (text "PORT")
    max_model_len ← parse_u32 env (text "MAX_MODEL_LEN")
    max_num_seqs ← parse_u32 env (text "MAX_NUM_SEQS")
    max_num_batched_tokens ← parse_u32 env (text "MAX_NUM_BATCHED_TOKENS")
    gpu_memory_utilization ← parse_double env (text "GPU_MEM_UTIL")
    enforce_eager ← parse_bool01_default env (text "ENFORCE_EAGER") false
    use_host_nccl ← parse_bool01_default env (text "USE_HOST_NCCL") false
    ok (record {
      head_ip = head_ip;
      worker_ip = worker_ip;
      head_cx7_if = head_cx7_if;
      worker_cx7_if = worker_cx7_if;
      head_cx7_ib = head_cx7_ib;
      worker_cx7_ib = worker_cx7_ib;
      nccl_ib_gid_index = nccl_ib_gid_index;
      head_gid = head_gid;
      worker_gid = worker_gid;
      model = model;
      model_revision = optional_string env (text "MODEL_REVISION");
      served_model_name = served_model_name;
      quantization = quantization;
      kv_cache_dtype = kv_cache_dtype;
      speculative_method = speculative_method;
      dflash_model = optional_string env (text "DFLASH_MODEL");
      dflash_revision = optional_string env (text "DFLASH_REVISION");
      dflash_tokens = dflash_tokens;
      dflash_draft_tp = dflash_draft_tp;
      tensor_parallel = tensor_parallel;
      nodes = nodes;
      master_port = master_port;
      api_port = api_port;
      max_model_len = max_model_len;
      max_num_seqs = max_num_seqs;
      max_num_batched_tokens = max_num_batched_tokens;
      gpu_memory_utilization = gpu_memory_utilization;
      enforce_eager = enforce_eager;
      use_host_nccl = use_host_nccl;
      indexer_workspace = optional_string env (text "GLM53_INDEXER_WORKSPACE");
      adaptive_k = optional_string env (text "GLM53_ADAPTIVE_K");
      adaptive_k_set = optional_string env (text "GLM53_ADAPTIVE_K_SET");
    })

  abbrev pub load_deployment_contract : Bytes → Option Bytes → Result DeploymentContract
  load_deployment_contract path file = parse_env_file path file >>= deployment_from_env
