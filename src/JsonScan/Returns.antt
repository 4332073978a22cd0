-- ===== src/JsonScan/Returns.antt =====
-- src/json_scan.hpp: `parse_string` and `skip_value` come to an end on any text.
use ninfer_nvfp4_glm_5_3_fla.Prelude.{ℕ, ◌<◌, ◌≡◌, ◌⊎◌, Bytes, length, runtime_error, ok, threw}
use ninfer_nvfp4_glm_5_3_fla.JsonScan.{parse_string}
use ninfer_nvfp4_glm_5_3_fla.JsonScan.Skip.{skip_value}
use ninfer_nvfp4_glm_5_3_fla.JsonScan.Fuel.{Taken, Shorter, Ends-cases, parse_string-Taken}
use ninfer_nvfp4_glm_5_3_fla.JsonScan.Shrink.{skip_nested-Shorter}

-- On any text, the parser of strings and the skipping of a value either return and have taken at
-- least one character, or throw a `runtime_error`: their loops never spend their fuel, which is the
-- length of the rest, as a loop that does not go on would, and throw the `logic_error` for it.
pub skip_value-ends :
    (size : ℕ) (s : Bytes)
    → (((rest : Bytes) × (skip_value size s ≡ ok rest) × (length rest < length s))
        ⊎ ((message : Bytes) × (skip_value size s ≡ threw (runtime_error message))))
      × (((read : Bytes × Bytes) × (parse_string size s ≡ ok read) × (length read.1 < length s))
          ⊎ ((message : Bytes) × (parse_string size s ≡ threw (runtime_error message))))
skip_value-ends size s = (
  Ends-cases (Shorter (length s)) _ (skip_nested-Shorter size 64 s),
  Ends-cases (Taken (length s)) _ (parse_string-Taken size s),
)
