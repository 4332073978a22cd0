-- ===== src/JsonScan/Tests.antt =====
-- src/json_scan.hpp on small values.
use ninfer_nvfp4_glm_5_3_fla.Prelude.{
  ℕ, zero, suc, ◌≤◌, ◌≡◌, ◌↔◌, refl, [], ◌∷◌, ◌++◌, arith, Bytes, length, ok, ◌<◌, ◌⊎◌,
  runtime_error, threw, true, false, some,
}
use ninfer_nvfp4_glm_5_3_fla.JsonScan.{parse_string}
use ninfer_nvfp4_glm_5_3_fla.JsonScan.Skip.{skip_value}
use ninfer_nvfp4_glm_5_3_fla.JsonScan.Values.{
  Numeral, Json, null, num, str, arr, obj, nil, cons, end, field, print, nesting,
}
use ninfer_nvfp4_glm_5_3_fla.JsonScan.Returns.{skip_value-ends}
use ninfer_nvfp4_glm_5_3_fla.JsonScan.TooDeep.{Refuses, skip_value-Refuses, skip_value-print_iff}

-- The number `-7.05e+3`.
abbrev seven : Numeral
seven = record {
  is_negative = true;
  whole = 7;
  fraction = some (record { first = 0; more = 5 ∷ [] });
  exponent =
      some
        (record { is_upper = false; sign = some false; power = record { first = 3; more = [] } });
}

-- The object with a key `a` for an array of that number and a text.
abbrev sample : Json
sample = obj (field (97 ∷ []) (arr (cons (num seven) (cons (str (34 ∷ [])) nil))) end)

skip_value-print_iff_example :
    (skip_value 20 (print sample ++ 44 ∷ []) ≡ ok (44 ∷ [])) ↔ (nesting sample ≤ 64)
skip_value-print_iff_example = skip_value-print_iff 20 sample (44 ∷ []) refl

-- So many arrays around `null`.
abbrev nest : ℕ → Json
nest zero = null
nest (suc n) = arr (cons (nest n) nil)

skip_value-Refuses_example : Refuses 134 (skip_value 134 (print (nest 65) ++ []))
unfolding nesting
skip_value-Refuses_example = skip_value-Refuses 134 (nest 65) [] (omega arith)

-- The text `1,2]`.
abbrev elements : Bytes
elements = 49 ∷ 44 ∷ 50 ∷ 93 ∷ []

skip_value-ends_example :
    (((rest : Bytes) × (skip_value 4 elements ≡ ok rest) × (length rest < length elements))
      ⊎ ((message : Bytes) × (skip_value 4 elements ≡ threw (runtime_error message))))
    × (((read : Bytes × Bytes) × (parse_string 4 elements ≡ ok read)
          × (length read.1 < length elements))
        ⊎ ((message : Bytes) × (parse_string 4 elements ≡ threw (runtime_error message))))
skip_value-ends_example = skip_value-ends 4 elements
