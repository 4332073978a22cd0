-- ===== src/Schema/Validate.antt =====
-- src/parameter_schema.cpp: `validate_parameter_catalog`.
use ninfer_nvfp4_glm_5_3_fla.Prelude.{
  ℕ, Bool, true, false, not, ◌&&◌, ◌||◌, List, [], ◌∷◌, ◌++◌, length, ltb, ◌==◌, if◌then◌else◌,
  text, Bytes, eq_list, is_empty, Check, ◌reports◌, failures,
}
use ninfer_nvfp4_glm_5_3_fla.Schema.{
  DType, bf16, f16, f32, f8_e4m3, u8, i16, i32, StorageClass, native_bf16, native_f32,
  nvfp4_packed_u8, nvfp4_block_scale_f8, nvfp4_global_scale_f32, fp8_block_weight,
  fp8_block_scale_bf16, ℤ, pos, negsuc, ExpectedTensor,
}

abbrev dtype_code : DType → ℕ
dtype_code bf16 = 0
dtype_code f16 = 1
dtype_code f32 = 2
dtype_code f8_e4m3 = 3
dtype_code u8 = 4
dtype_code i16 = 5
dtype_code i32 = 6

abbrev storage_code : StorageClass → ℕ
storage_code native_bf16 = 0
storage_code native_f32 = 1
storage_code nvfp4_packed_u8 = 2
storage_code nvfp4_block_scale_f8 = 3
storage_code nvfp4_global_scale_f32 = 4
storage_code fp8_block_weight = 5
storage_code fp8_block_scale_bf16 = 6

-- `operator==` on the enumerations.
unfoldable pub eq_dtype : DType → DType → Bool
eq_dtype a b = dtype_code a == dtype_code b

unfoldable pub eq_storage : StorageClass → StorageClass → Bool
eq_storage a b = storage_code a == storage_code b

-- `dim <= 0`
abbrev pub is_positive : ℤ → Bool
is_positive (pos n) = ltb 0 n
is_positive (negsuc n) = false

-- `std::unordered_set::insert(…).second` is the negation of this.
unfoldable pub has : List Bytes → Bytes → Bool
has [] name = false
has (seen ∷ names) name = eq_list name seen || has names name

abbrev pub is_shapeless : List ℤ → Bool
is_shapeless [] = true
is_shapeless (dim ∷ shape) = false

unfoldable pub dim_errors : Bytes → List ℤ → List Bytes
dim_errors logical [] = []
dim_errors logical (dim ∷ shape) =
    let rest = dim_errors logical shape in
    if is_positive dim then rest else (text "non-positive shape for " ++ logical) ∷ rest

-- A storage class that asks for a type and a number of dimensions.
abbrev pub storage_mismatch : ExpectedTensor → StorageClass → DType → ℕ → Bool
storage_mismatch tensor storage dtype rank =
    eq_storage tensor.storage storage
    && (not (eq_dtype tensor.dtype dtype) || not (length tensor.shape == rank))

-- The checks of an entry with both names, behind those for duplicates: in front of the loop over the
-- dimensions, and behind it.
abbrev pub shape_checks : ExpectedTensor → List Check
shape_checks tensor =
    (not (eq_storage tensor.storage nvfp4_global_scale_f32) && is_shapeless tensor.shape
      reports (text "missing shape for " ++ tensor.logical_id))
    ∷ []

abbrev pub storage_checks : ExpectedTensor → List Check
storage_checks tensor =
    (tensor.mcg_payload
      reports (text "NVFP4 catalog does not use an MCG payload for " ++ tensor.logical_id))
    ∷ (eq_storage tensor.storage native_bf16 && not (eq_dtype tensor.dtype bf16)
        reports (text "native bf16 storage has the wrong dtype for " ++ tensor.logical_id))
    ∷ (eq_storage tensor.storage native_f32 && not (eq_dtype tensor.dtype f32)
        reports (text "native fp32 storage has the wrong dtype for " ++ tensor.logical_id))
    ∷ (storage_mismatch tensor nvfp4_packed_u8 u8 2
        reports (text "NVFP4 packed storage must be U8[N, K/2] for " ++ tensor.logical_id))
    ∷ (storage_mismatch tensor nvfp4_block_scale_f8 f8_e4m3 2
        reports (text "NVFP4 block scale must be F8_E4M3[N, K/16] for " ++ tensor.logical_id))
    ∷ (storage_mismatch tensor nvfp4_global_scale_f32 f32 0
        reports (text "NVFP4 per-tensor scale must be rank-0 F32 for " ++ tensor.logical_id))
    ∷ (storage_mismatch tensor fp8_block_weight f8_e4m3 2
        reports (text "FP8 block weight must be F8_E4M3[N, K] for " ++ tensor.logical_id))
    ∷ (storage_mismatch tensor fp8_block_scale_bf16 bf16 2
        reports (text "FP8 block scale must be BF16[N/128, K/128] for " ++ tensor.logical_id))
    ∷ []

unfoldable pub entry_errors : ExpectedTensor → List Bytes
entry_errors tensor =
    failures (shape_checks tensor)
    ++ dim_errors tensor.logical_id tensor.shape
    ++ failures (storage_checks tensor)

abbrev pub duplicate_checks : List Bytes → List Bytes → ExpectedTensor → List Check
duplicate_checks ids names tensor =
    (has ids tensor.logical_id reports (text "duplicate logical id " ++ tensor.logical_id))
    ∷ (has names tensor.source_name reports (text "duplicate source name " ++ tensor.source_name))
    ∷ []

-- The loop over the catalogue, with the names that it has seen. A name that is seen twice is kept
-- twice here, which no later test tells.
unfoldable pub catalog_errors : List Bytes → List Bytes → List ExpectedTensor → List Bytes
catalog_errors ids names [] = []
catalog_errors ids names (tensor ∷ catalog) =
    let unnamed = is_empty tensor.logical_id || is_empty tensor.source_name in
    let ids' = if unnamed then ids else tensor.logical_id ∷ ids in
    let names' = if unnamed then names else tensor.source_name ∷ names in
    let rest = catalog_errors ids' names' catalog in
    if unnamed
    then text "parameter catalog entry is missing a logical id or source name" ∷ rest
    else failures (duplicate_checks ids names tensor) ++ entry_errors tensor ++ rest

abbrev pub validate_parameter_catalog : List ExpectedTensor → List Bytes
validate_parameter_catalog catalog = catalog_errors [] [] catalog
