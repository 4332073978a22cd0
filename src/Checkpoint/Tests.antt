-- ===== src/Checkpoint/Tests.antt =====
-- src/checkpoint_binding.cpp on small checkpoints.
use ninfer_nvfp4_glm_5_3_fla.Prelude.{◌↔◌, take, drop, ◌-◌, ◌+◌, All}
use ninfer_nvfp4_glm_5_3_fla.Schema.{pos, bf16, native_bf16}
use ninfer_nvfp4_glm_5_3_fla.Schema.Distinct.{AllDistinct}
use ninfer_nvfp4_glm_5_3_fla.Checkpoint.{dflash2_draft, TensorCatalog, blank_observed}
use ninfer_nvfp4_glm_5_3_fla.Checkpoint.Header.{ParsedTensor}
use ninfer_nvfp4_glm_5_3_fla.Checkpoint.Escape.{json_escape}
use ninfer_nvfp4_glm_5_3_fla.Checkpoint.Escaped.{parse_string-json_escape}
use ninfer_nvfp4_glm_5_3_fla.Checkpoint.Seen.{names_of}
use ninfer_nvfp4_glm_5_3_fla.Checkpoint.Whole.{Present, bind_catalog-complete_iff}
use ninfer_nvfp4_glm_5_3_fla.Checkpoint.Payload.{
  IsPlaced, NoShare, header_length, read_bytes-NoShare,
}
use ninfer_nvfp4_glm_5_3_fla.Prelude.{
  ◌≡◌, refl, Bool, true, false, List, [], ◌∷◌, ◌++◌, none, some, if◌then◌else◌, text, Bytes,
  eq_list, ok, length, Result, threw,
}
use ninfer_nvfp4_glm_5_3_fla.Schema.{ExpectedTensor, glm53_flash_dflash2_spec}
use ninfer_nvfp4_glm_5_3_fla.Checkpoint.{BindingReport, blank_report}
use ninfer_nvfp4_glm_5_3_fla.Checkpoint.Directory.{Files}
use ninfer_nvfp4_glm_5_3_fla.JsonScan.{
  fail, skip_ws, peek, get, expect, string_body, parse_string, int_digits, signed_value, parse_int,
}
use ninfer_nvfp4_glm_5_3_fla.Checkpoint.{has_key, emplace}
use ninfer_nvfp4_glm_5_3_fla.Checkpoint.Header.{
  member, dtype_size_bytes, element_count, expected_tensor_bytes, offsets, validate_tensor_offsets,
  entries, object, dimensions, parse_shape, parse_offsets, tensor_value, parse_tensor_object,
  header_value, parse_safetensors_header,
}
use ninfer_nvfp4_glm_5_3_fla.Checkpoint.Bind.{bind_catalog}
use ninfer_nvfp4_glm_5_3_fla.Checkpoint.Shard.{
  little_endian, insert_range, sort_ranges, overlapping, payload_ranges, collect, read_tensors,
  read_bytes,
}
use ninfer_nvfp4_glm_5_3_fla.Schema.Catalog.{expected_dflash2_tensors}
use ninfer_nvfp4_glm_5_3_fla.Schema.Validate.{validate_parameter_catalog, has}

abbrev draft_config : Bytes
draft_config =
    text
      "{\"architectures\": [\"DFlash2DraftModel\"], \"num_hidden_layers\": 5, \"hidden_size\": 4096, \"vocab_size\": 154880, \"block_size\": 8, \"conv_kernel_size\": 2, \"conv_group_size\": 16, \"selector_rank\": 256, \"target_layer_ids\": [5, 14, 24, 33, 42]}"

abbrev index_entries : List ExpectedTensor → Bytes
index_entries [] = []
index_entries (t ∷ []) = 34 ∷ (t.source_name ++ text "\": \"model.safetensors\"")
index_entries (t ∷ u ∷ ts) =
    34 ∷ (t.source_name ++ (text "\": \"model.safetensors\", " ++ index_entries (u ∷ ts)))

abbrev draft_tensors : Result (List ExpectedTensor) → List ExpectedTensor
draft_tensors (ok ts) = ts
draft_tensors (threw e) = []

draft_index : Bytes
draft_index =
    text "{\"weight_map\": {"
    ++ (index_entries (draft_tensors (expected_dflash2_tensors glm53_flash_dflash2_spec))
        ++ text "}}")

abbrev draft_files : Files
draft_files = record {
  is_regular = λ name.
      if eq_list name (text "config.json")
      then true
      else eq_list name (text "model.safetensors.index.json");
  contents = λ name.
      if eq_list name (text "config.json")
      then some draft_config
      else if eq_list name (text "model.safetensors.index.json")
      then some draft_index
      else none;
  path = λ name. name;
  size = λ name. 0;
  safetensors = [];
  ancestors = [];
}

abbrev is_complete : Result BindingReport → Bool
is_complete (ok r) = r.complete
is_complete (threw e) = false

abbrev report_of : Result BindingReport → BindingReport
report_of (ok r) = r
report_of (threw e) = blank_report

-- A quotation mark, a control character, a line end and a letter.
abbrev awkward : Bytes
awkward = 34 ∷ 1 ∷ 10 ∷ 65 ∷ []

parse_string-json_escape_example :
    parse_string 14 (34 ∷ (json_escape awkward ++ 34 ∷ 44 ∷ [])) ≡ ok (awkward, 44 ∷ [])
parse_string-json_escape_example = parse_string-json_escape 14 awkward (44 ∷ [])

abbrev weight : ExpectedTensor
weight = record {
  logical_id = 119 ∷ [];
  source_name = 97 ∷ [];
  dtype = bf16;
  storage = native_bf16;
  shape = pos 1 ∷ [];
  mcg_payload = false;
}

abbrev stored : TensorCatalog
stored =
    (
      97 ∷ [],
      record blank_observed {
        dtype = 66 ∷ 70 ∷ 49 ∷ 54 ∷ [];
        shape = pos 1 ∷ [];
        shard = 115 ∷ [];
        has_metadata = true;
      },
    )
    ∷ []

bind_catalog-complete_iff_example :
    ((bind_catalog dflash2_draft (weight ∷ []) stored true).complete ≡ true) ↔ (
      (validate_parameter_catalog (weight ∷ []) ≡ [])
      × All (Present true stored) (weight ∷ [])
      × All (λ entry. has (names_of (weight ∷ [])) entry.0 ≡ true) stored)
unfolding AllDistinct
bind_catalog-complete_iff_example =
    bind_catalog-complete_iff dflash2_draft (weight ∷ []) stored true (tt, tt)

-- A shard with one tensor of two bytes.
abbrev header : Bytes
header = text "{\"a\":{\"dtype\":\"BF16\",\"shape\":[1],\"data_offsets\":[0,2]}}"

abbrev shard_file : Bytes
shard_file = 55 ∷ 0 ∷ 0 ∷ 0 ∷ 0 ∷ 0 ∷ 0 ∷ 0 ∷ (header ++ 7 ∷ 8 ∷ [])

shard_read : read_bytes shard_file (115 ∷ []) false none ≡ ok (stored, none)
unfolding read_bytes little_endian read_tensors payload_ranges validate_tensor_offsets offsets
    expected_tensor_bytes element_count dtype_size_bytes member overlapping sort_ranges insert_range
    collect has_key emplace parse_safetensors_header header_value parse_tensor_object tensor_value
    parse_shape dimensions parse_offsets object entries parse_string string_body parse_int
    int_digits signed_value expect get peek skip_ws fail text eq_list
shard_read = refl

read_bytes-NoShare_example :
    (tensors : List ParsedTensor) × (parse_safetensors_header
        (take (header_length shard_file) (drop 8 shard_file))
      ≡ ok tensors)
    × All (IsPlaced (length shard_file - (8 + header_length shard_file))) tensors
    × NoShare tensors
read_bytes-NoShare_example =
    read_bytes-NoShare shard_file (115 ∷ []) false none (stored, none) shard_read
