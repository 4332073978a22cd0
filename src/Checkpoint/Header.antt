-- ===== src/Checkpoint/Header.antt =====
-- src/checkpoint_binding.cpp: the header of a shard, the weight map of an index, and the check of the
-- offsets of a tensor.
use ninfer_nvfp4_glm_5_3_fla.Prelude.{
  ℕ, zero, suc, ◌-◌, ◌*◌, ◌/◌, ◌^◌, Bool, true, false, not, ◌&&◌, ◌||◌, List, [], ◌∷◌, ◌++◌, Option,
  none, some, ltb, ◌==◌, if◌then◌else◌, text, Bytes, eq_list, is_empty, length, runtime_error,
  Result, ok, threw, bind, guard, ◌>>=◌, ◌>>◌,
}
use ninfer_nvfp4_glm_5_3_fla.Schema.{ℤ, pos, negsuc}
use ninfer_nvfp4_glm_5_3_fla.JsonScan.{out_of_fuel, fail, peek, expect, parse_string, parse_int}
use ninfer_nvfp4_glm_5_3_fla.JsonScan.Skip.{skip_value}
use ninfer_nvfp4_glm_5_3_fla.Checkpoint.{ObservedTensor, blank_observed, Table, has_key, emplace}

pub record ParsedTensor : Type 0 where
  pub name : Bytes
  pub observed : ObservedTensor
  pub data_begin : ℤ
  pub data_end : ℤ

abbrev pub named : Bytes → ParsedTensor
named name = record {
  name = name;
  observed = blank_observed;
  data_begin = negsuc 0;
  data_end = negsuc 0;
}

unfoldable pub member : Bytes → List Bytes → Bool
member name [] = false
member name (n ∷ names) = eq_list name n || member name names

abbrev pub byte_dtypes : List Bytes
byte_dtypes =
    text "BOOL"
    ∷ text "I8"
    ∷ text "U8"
    ∷ text "F8_E4M3"
    ∷ text "F8_E5M2"
    ∷ text "F8_E4M3FN"
    ∷ text "F8_E4M3FNUZ"
    ∷ text "F8_E5M2FNUZ"
    ∷ []

unfoldable pub dtype_size_bytes : Bytes → Result ℕ
unfolding member
dtype_size_bytes dtype =
    if member dtype byte_dtypes
    then ok 1
    else if member dtype (text "I16" ∷ text "U16" ∷ text "F16" ∷ text "BF16" ∷ [])
    then ok 2
    else if member dtype (text "I32" ∷ text "U32" ∷ text "F32" ∷ [])
    then ok 4
    else if member dtype (text "I64" ∷ text "U64" ∷ text "F64" ∷ [])
    then ok 8
    else threw (runtime_error (text "unsupported safetensors dtype: " ++ dtype))

abbrev pub tensor_error : {A : Type 0} → Bytes → Bytes → Result A
tensor_error name message = threw (runtime_error (text "tensor " ++ name ++ message))

abbrev pub uint64_max : ℕ
uint64_max = 2 ^ 64 - 1

-- The loop over the dimensions. No product is taken that would wrap.
unfoldable pub element_count : Bytes → ℕ → List ℤ → Result ℕ
element_count name elements [] = ok elements
element_count name elements (negsuc n ∷ shape) =
    tensor_error name (text " has a negative shape dimension")
element_count name elements (pos n ∷ shape) =
    let rest = element_count name (elements * n) shape in
    if not (n == 0) && ltb (uint64_max / n) elements
    then tensor_error name (text " shape size overflows uint64")
    else rest

unfoldable pub expected_tensor_bytes : ParsedTensor → Result ℕ
expected_tensor_bytes tensor =
    if is_empty tensor.observed.dtype
    then tensor_error tensor.name (text " is missing dtype")
    else do
      elements ← element_count tensor.name 1 tensor.observed.shape
      width ← dtype_size_bytes tensor.observed.dtype
      if not (elements == 0) && ltb (uint64_max / elements) width
          then tensor_error tensor.name (text " byte size overflows uint64")
          else ok (elements * width)

-- Both offsets, unless `data_begin < 0 || data_end < data_begin`.
unfoldable pub offsets : ℤ → ℤ → Option (ℕ × ℕ)
offsets (pos b) (pos e) = if ltb e b then none else some (b, e)
offsets _ _ = none

unfoldable pub validate_tensor_offsets : ParsedTensor → ℕ → Result (ℕ × ℕ)
validate_tensor_offsets tensor payload_bytes = elim (offsets tensor.data_begin tensor.data_end) [
  | none ↦ tensor_error tensor.name (text " has invalid data_offsets")
  | some (b, e) ↦ do
    expected ← expected_tensor_bytes tensor
    guard (e - b == expected) (
        runtime_error
          (text "tensor " ++ tensor.name ++ text " payload size does not match dtype and shape"))
    guard (not (ltb payload_bytes e))
        (runtime_error (text "tensor " ++ tensor.name ++ text " data_offsets exceed shard payload"))
    ok (b, e)
]

-- The loop of each parser of an object, given how an entry is read into what is collected. A round
-- takes a character, so that the length of the rest is fuel enough.
unfoldable pub entries :
    {S : Type 0} → ℕ → (S → Bytes → Result (S × Bytes)) → ℕ → S → Bytes → Result (S × Bytes)
entries size entry zero state [] = fail size (text "unexpected end") []
entries size entry zero state (ch ∷ s) = out_of_fuel
entries size entry (suc fuel) state s = do
  read ← entry state s
  next ← peek size read.1
  let more = bind (expect size 44 next.1) (entries size entry fuel read.0)
  if next.0 == 44 then more else bind (expect size 125 next.1) (λ rest. ok (read.0, rest))

unfoldable pub object :
    {S : Type 0} → ℕ → (S → Bytes → Result (S × Bytes)) → S → Bytes → Result (S × Bytes)
object size entry state s = do
  inside ← expect size 123 s
  next ← peek size inside
  if next.0 == 125
      then bind (expect size 125 next.1) (λ rest. ok (state, rest))
      else entries size entry (length next.1) state next.1

-- The loop over `shape`, which ends where no comma follows.
unfoldable pub dimensions : ℕ → ℕ → List ℤ → Bytes → Result (List ℤ × Bytes)
dimensions size zero shape [] = fail size (text "expected integer") []
dimensions size zero shape (ch ∷ s) = out_of_fuel
dimensions size (suc fuel) shape s = do
  dim ← parse_int size s
  next ← peek size dim.1
  let more = bind (expect size 44 next.1) (dimensions size fuel (shape ++ dim.0 ∷ []))
  if next.0 == 44 then more else ok (shape ++ dim.0 ∷ [], next.1)

unfoldable pub parse_shape : ℕ → List ℤ → Bytes → Result (List ℤ × Bytes)
parse_shape size shape s = do
  inside ← expect size 91 s
  next ← peek size inside
  read ← if next.0 == 93 then ok (shape, next.1) else dimensions size (length next.1) shape next.1
  rest ← expect size 93 read.1
  ok (read.0, rest)

unfoldable pub parse_offsets : ℕ → Bytes → Result ((ℤ × ℤ) × Bytes)
parse_offsets size s = do
  inside ← expect size 91 s
  first ← parse_int size inside
  behind ← expect size 44 first.1
  last ← parse_int size behind
  rest ← expect size 93 last.1
  ok ((first.0, last.0), rest)

-- What `parse_tensor_object` does with the value of a key.
unfoldable pub tensor_value : ℕ → Bytes → ParsedTensor → Bytes → Result (ParsedTensor × Bytes)
tensor_value size key parsed s =
    if eq_list key (text "dtype")
    then bind (parse_string size s) (λ read.
      ok (record parsed { observed = record parsed.observed { dtype = read.0 } }, read.1))
    else if eq_list key (text "shape")
    then bind (parse_shape size parsed.observed.shape s) (λ read.
      ok (record parsed { observed = record parsed.observed { shape = read.0 } }, read.1))
    else if eq_list key (text "data_offsets")
    then bind (parse_offsets size s)
        (λ read. ok (record parsed { data_begin = read.0.0; data_end = read.0.1 }, read.1))
    else bind (skip_value size s) (λ rest. ok (parsed, rest))

-- A key with its colon, and the value.
abbrev pub keyed :
    {S : Type 0} → ℕ → (Bytes → S → Bytes → Result (S × Bytes)) → S → Bytes → Result (S × Bytes)
keyed size value state s = do
  key ← parse_string size s
  behind ← expect size 58 key.1
  value key.0 state behind

unfoldable pub parse_tensor_object : ℕ → ParsedTensor → Bytes → Result (ParsedTensor × Bytes)
parse_tensor_object size parsed s = object size (keyed size (tensor_value size)) parsed s

unfoldable pub parse_safetensors_metadata : ℕ → Bytes → Result Bytes
parse_safetensors_metadata size s = do
  read ←
      object size
        (keyed size (λ key state t. bind (parse_string size t) (λ value. ok (state, value.1))))
        (tt {0}) s
  ok read.1

unfoldable pub header_value :
    ℕ → Bytes → List ParsedTensor → Bytes → Result (List ParsedTensor × Bytes)
header_value size key tensors s =
    if eq_list key (text "__metadata__")
    then bind (parse_safetensors_metadata size s) (λ rest. ok (tensors, rest))
    else do
      read ← parse_tensor_object size (named key) s
      let parsed = read.0
      ok (
        tensors ++ record parsed { observed = record parsed.observed { has_metadata = true } } ∷ [],
        read.1,
      )

-- What follows the closing brace is not read.
unfoldable pub parse_safetensors_header : Bytes → Result (List ParsedTensor)
parse_safetensors_header header = do
  let size = length header
  read ← object size (keyed size (header_value size)) [] header
  ok read.0

unfoldable pub weight_value : ℕ → Bytes → Table Bytes → Bytes → Result (Table Bytes × Bytes)
weight_value size name weight_map s = do
  shard ← parse_string size s
  guard (not (has_key name weight_map))
      (runtime_error (text "duplicate tensor in weight_map: " ++ name))
  ok (emplace name shard.0 weight_map, shard.1)

unfoldable pub index_value : ℕ → Bytes → Table Bytes → Bytes → Result (Table Bytes × Bytes)
index_value size key weight_map s =
    if eq_list key (text "weight_map")
    then object size (keyed size (weight_value size)) weight_map s
    else bind (skip_value size s) (λ rest. ok (weight_map, rest))

unfoldable pub parse_weight_map : Bytes → Result (Table Bytes)
parse_weight_map json = do
  let size = length json
  read ← object size (keyed size (index_value size)) [] json
  ok read.0
