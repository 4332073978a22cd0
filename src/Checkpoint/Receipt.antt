-- ===== src/Checkpoint/Receipt.antt =====
-- src/checkpoint_binding.cpp: `binding_receipt_json`.
use ninfer_nvfp4_glm_5_3_fla.Prelude.{
  Bool, true, false, List, [], ◌∷◌, ◌++◌, if◌then◌else◌, text, Bytes, decimal,
}
use ninfer_nvfp4_glm_5_3_fla.Checkpoint.{BindingReport, kind_to_string}
use ninfer_nvfp4_glm_5_3_fla.Checkpoint.Escape.{json_escape}

-- The lines of the receipt: a key with the text of its value.
abbrev line : Bytes → Bytes → Bytes
line key value = text "  \"" ++ (key ++ (text "\": " ++ (value ++ (44 ∷ 10 ∷ []))))

abbrev in_quotes : Bytes → Bytes
in_quotes s = 34 ∷ (s ++ 34 ∷ [])

abbrev escaped : Bytes → Bytes
escaped s = in_quotes (json_escape s)

abbrev flag : Bool → Bytes
flag b = if b then text "true" else text "false"

-- The loop over messages, from the second on behind a comma.
unfoldable pub message_items : Bool → List Bytes → Bytes
message_items first [] = []
message_items first (message ∷ messages) =
    (if first then [] else 44 ∷ [])
    ++ (10 ∷ (text "    " ++ (escaped message ++ message_items false messages)))

unfoldable pub message_list : List Bytes → Bytes
unfolding message_items
message_list [] = 91 ∷ 93 ∷ []
message_list (message ∷ messages) =
    91 ∷ (message_items true (message ∷ messages) ++ (10 ∷ (text "  " ++ 93 ∷ [])))

unfoldable pub binding_receipt_json : BindingReport → Bytes
binding_receipt_json r =
    123
    ∷ 10
    ∷ (line (text "schema") (text "\"ninfer-glm53.binding-receipt.v1\"")
        ++ (line (text "kind") (in_quotes (kind_to_string r.kind))
            ++ (line (text "complete") (flag r.complete)
                ++ (line (text "shapes_checked") (flag r.shapes_checked)
                    ++ (line (text "mcg_payload_checked") (flag r.mcg_payload_checked)
                        ++ (line (text "expected_tensors") (decimal r.expected_tensors)
                            ++ (line (text "observed_tensors") (decimal r.observed_tensors)
                                ++ (line (text "bound") (decimal r.bound)
                                    ++ (line (text "missing") (decimal r.missing)
                                        ++ (line (text "unexpected") (decimal r.unexpected)
                                            ++ (line (text "dtype_mismatches")
                                                  (decimal r.dtype_mismatches)
                                                ++ (line (text "shape_mismatches")
                                                      (decimal r.shape_mismatches)
                                                    ++ (line (text "mcg_mismatches")
                                                          (decimal r.mcg_mismatches)
                                                        ++ (line (text "schema_errors")
                                                            (decimal r.schema_errors)
                                                            ++ (line (text "io_errors")
                                                            (decimal r.io_errors)
                                                            ++ (line (text "weight_bytes")
                                                            (decimal r.weight_bytes)
                                                            ++ (line (text "config_sha256")
                                                            (escaped r.config_sha256)
                                                            ++ (line (text "index_sha256")
                                                            (escaped r.index_sha256)
                                                            ++ (line (text "logical_catalog_sha256")
                                                            (escaped r.logical_catalog_sha256)
                                                            ++ (line (text "observed_names_sha256")
                                                            (escaped r.observed_names_sha256)
                                                            ++ (line
                                                            (text "mirror_upstream_revision")
                                                            (escaped r.mirror_upstream_revision)
                                                            ++ (line (text "source_model_revision")
                                                            (escaped r.source_model_revision)
                                                            ++ (line (text "snapshot_revision")
                                                            (escaped r.snapshot_revision)
                                                            ++ (line (text "warnings")
                                                            (message_list r.warnings)
                                                            ++ (text "  \"errors\": "
                                                            ++ (message_list r.errors
                                                            ++ (10 ∷ 125 ∷ 10
                                                            ∷ [])))))))))))))))))))))))))))
