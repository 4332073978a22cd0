-- ===== src/Checkpoint/Shard.antt =====
-- src/checkpoint_binding.cpp: `read_shard`, on the bytes of the file.
use ninfer_nvfp4_glm_5_3_fla.Prelude.{
  ℕ, ◌+◌, ◌-◌, ◌*◌, Bool, true, false, not, ◌&&◌, ◌||◌, List, [], ◌∷◌, ◌++◌, Option, none, some,
  ltb, leb, ◌==◌, if◌then◌else◌, text, Bytes, eq_list, length, take, drop, runtime_error, Result,
  ok, threw, bind, guard, ◌>>=◌, ◌>>◌,
}
use ninfer_nvfp4_glm_5_3_fla.Schema.{ℤ, pos}
use ninfer_nvfp4_glm_5_3_fla.Checkpoint.{TensorCatalog, has_key, emplace, BindingReport}
use ninfer_nvfp4_glm_5_3_fla.Checkpoint.Header.{
  ParsedTensor, offsets, validate_tensor_offsets, parse_safetensors_header,
}

abbrev pub max_listed_errors : ℕ
max_listed_errors = 24

unfoldable pub add_error : BindingReport → Bytes → BindingReport
add_error report message =
    if ltb (length report.errors) max_listed_errors
    then record report { errors = report.errors ++ message ∷ [] }
    else report

-- `++report.io_errors` with its message.
abbrev pub io_error : BindingReport → Bytes → BindingReport
io_error report message = add_error (record report { io_errors = report.io_errors + 1 }) message

-- A number whose lowest byte stands first.
unfoldable pub little_endian : Bytes → ℕ
little_endian [] = 0
little_endian (b ∷ bytes) = b + 256 * little_endian bytes

abbrev pub is_one : List ℤ → Bool
is_one (pos n ∷ []) = n == 1
is_one _ = false

-- `file` is what `input` reads, from its start. Too few bytes leave the tensor alone.
unfoldable pub read_mcg_payload : Bytes → ℕ → ParsedTensor → ParsedTensor
read_mcg_payload file data_start parsed = elim (offsets parsed.data_begin parsed.data_end) [
  | none ↦ parsed
  | some (b, e) ↦
      let bytes = take 4 (drop (data_start + b) file) in
      if eq_list parsed.observed.dtype (text "I32")
        && is_one parsed.observed.shape
        && e - b == 4
        && length bytes == 4
      then record parsed {
        observed = record parsed.observed { has_mcg_value = true; mcg_value = little_endian bytes };
      }
      else parsed
]

-- `std::sort` on pairs of numbers.
unfoldable pub insert_range : ℕ × ℕ → List (ℕ × ℕ) → List (ℕ × ℕ)
insert_range r [] = r ∷ []
insert_range r (q ∷ ranges) =
    let rest = insert_range r ranges in
    if ltb r.0 q.0 || r.0 == q.0 && leb r.1 q.1 then r ∷ q ∷ ranges else q ∷ rest

unfoldable pub sort_ranges : List (ℕ × ℕ) → List (ℕ × ℕ)
sort_ranges [] = []
sort_ranges (r ∷ ranges) = insert_range r (sort_ranges ranges)

-- Whether a range starts before the end of the one in front of it.
unfoldable pub overlapping : List (ℕ × ℕ) → Bool
overlapping [] = false
overlapping (r ∷ []) = false
overlapping (r ∷ q ∷ ranges) = ltb q.0 r.1 || overlapping (q ∷ ranges)

-- The loop that validates the tensors; empty ranges are left out.
unfoldable pub payload_ranges : ℕ → List ParsedTensor → Result (List (ℕ × ℕ))
payload_ranges payload_bytes [] = ok []
payload_ranges payload_bytes (tensor ∷ tensors) = do
  range ← validate_tensor_offsets tensor payload_bytes
  ranges ← payload_ranges payload_bytes tensors
  ok (if range.0 == range.1 then ranges else range ∷ ranges)

-- `report` is a pointer that may be null.
abbrev pub duplicate_error :
    Option BindingReport
    → Bytes
    → (Option BindingReport → Result (TensorCatalog × Option BindingReport))
    → Result (TensorCatalog × Option BindingReport)
duplicate_error (some report) message more = more (some (io_error report message))
duplicate_error none message more = threw (runtime_error message)

-- The loop that fills the catalogue: the first tensor of a name is kept.
unfoldable pub collect :
    (ParsedTensor → ParsedTensor)
    → Bytes
    → List ParsedTensor
    → TensorCatalog
    → Option BindingReport
    → Result (TensorCatalog × Option BindingReport)
collect load shard_name [] catalog report = ok (catalog, report)
collect load shard_name (tensor ∷ tensors) catalog report =
    let observed =
      (load
        (record tensor { observed = record tensor.observed { shard = shard_name } })).observed in
    let more = collect load shard_name tensors (emplace tensor.name observed catalog) in
    if has_key tensor.name catalog
    then duplicate_error report (text "duplicate tensor in shard header: " ++ tensor.name) more
    else more report

abbrev pub max_safetensors_header : ℕ
max_safetensors_header = 256 * 1024 * 1024

-- The part of `read_shard` behind the parsed header.
unfoldable pub read_tensors :
    Bytes
    → ℕ
    → Bytes
    → Bool
    → List ParsedTensor
    → Option BindingReport
    → Result (TensorCatalog × Option BindingReport)
read_tensors file data_start shard_name load_mcg_payload parsed report = do
  ranges ← payload_ranges (length file - data_start) parsed
  guard (not (overlapping (sort_ranges ranges)))
      (runtime_error (text "overlapping tensor payload ranges in " ++ shard_name))
  collect (if load_mcg_payload then read_mcg_payload file data_start else λ tensor. tensor)
      shard_name parsed [] report

unfoldable pub read_bytes :
    Bytes → Bytes → Bool → Option BindingReport → Result (TensorCatalog × Option BindingReport)
read_bytes file shard_name load_mcg_payload report = do
  let header_len = little_endian (take 8 file)
  guard (leb 8 (length file))
      (runtime_error (text "short safetensors header length in " ++ shard_name))
  guard (not (header_len == 0 || ltb max_safetensors_header header_len))
      (runtime_error (text "invalid safetensors header length in " ++ shard_name))
  guard (leb (8 + header_len) (length file))
      (runtime_error (text "truncated safetensors header in " ++ shard_name))
  parsed ← parse_safetensors_header (take header_len (drop 8 file))
  read_tensors file (8 + header_len) shard_name load_mcg_payload parsed report

-- `none` is a file that does not open.
unfoldable pub read_shard :
    Bytes
    → Option Bytes
    → Bytes
    → Bool
    → Option BindingReport
    → Result (TensorCatalog × Option BindingReport)
read_shard path (some file) shard_name load_mcg_payload report =
    read_bytes file shard_name load_mcg_payload report
read_shard path none shard_name load_mcg_payload none =
    threw (runtime_error (text "cannot open shard " ++ path))
read_shard path none shard_name load_mcg_payload (some report) =
    ok ([], some (io_error report (text "cannot open shard " ++ shard_name)))

unfoldable pub read_safetensors_file : Bytes → Bytes → Option Bytes → Bool → Result TensorCatalog
read_safetensors_file path filename file read_payload =
    bind (read_shard path file filename read_payload none) (λ read. ok read.0)
