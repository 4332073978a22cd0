-- ===== src/Schema/Tensors.antt =====
-- src/parameter_schema.cpp: one tensor of a catalogue, and the storage of a quantized matrix.
use ninfer_nvfp4_glm_5_3_fla.Prelude.{
  ℕ, ◌/◌, ◌%◌, false, not, ◌||◌, List, [], ◌∷◌, ◌++◌, map, ◌==◌, if◌then◌else◌, text, Bytes,
  logic_error, Result, ok, threw,
}
use ninfer_nvfp4_glm_5_3_fla.Schema.{
  DType, bf16, f32, f8_e4m3, u8, StorageClass, native_bf16, native_f32, nvfp4_packed_u8,
  nvfp4_block_scale_f8, nvfp4_global_scale_f32, pos, nvfp4_group_size, ExpectedTensor,
}

-- `add` appends this tensor; the dimensions that the schema computes are not negative.
abbrev pub add : Bytes → Bytes → DType → StorageClass → List ℕ → ExpectedTensor
add logical source dtype storage shape = record {
  logical_id = logical;
  source_name = source;
  dtype = dtype;
  storage = storage;
  shape = map pos shape;
  mcg_payload = false;
}

abbrev pub add_bf16 : Bytes → Bytes → List ℕ → ExpectedTensor
add_bf16 logical source shape = add logical source bf16 native_bf16 shape

abbrev pub add_f32 : Bytes → Bytes → List ℕ → ExpectedTensor
add_f32 logical source shape = add logical source f32 native_f32 shape

-- The storage of a quantized matrix of `rows` by `cols`.
abbrev pub nvfp4_tensors : Bytes → Bytes → ℕ → ℕ → List ExpectedTensor
nvfp4_tensors logical source rows cols =
    add (logical ++ text ".weight") (source ++ text ".weight") u8 nvfp4_packed_u8
      (rows ∷ cols / 2 ∷ [])
    ∷ add (logical ++ text ".weight_scale") (source ++ text ".weight_scale") f8_e4m3
        nvfp4_block_scale_f8 (rows ∷ cols / nvfp4_group_size ∷ [])
    ∷ add (logical ++ text ".weight_scale_2") (source ++ text ".weight_scale_2") f32
        nvfp4_global_scale_f32 []
    ∷ add (logical ++ text ".input_scale") (source ++ text ".input_scale") f32
        nvfp4_global_scale_f32 []
    ∷ []

unfoldable pub add_nvfp4 : Bytes → Bytes → ℕ → ℕ → Result (List ExpectedTensor)
add_nvfp4 logical source rows cols =
    if rows == 0 || cols == 0 || not (cols % nvfp4_group_size == 0)
    then threw
        (logic_error (text "NVFP4 input features must be a positive multiple of the group size"))
    else ok (nvfp4_tensors logical source rows cols)
