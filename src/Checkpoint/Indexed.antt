-- ===== src/Checkpoint/Indexed.antt =====
-- src/checkpoint_binding.cpp: the weight map is that of the index file, and the gathered catalogue comes
-- from the files.
use ninfer_nvfp4_glm_5_3_fla.Prelude.{
  ◌≡◌, ◌⊎◌, inl, inr, refl, sym, ap, ◌∙◌, Bool, true, ◌&&◌, ◌||◌, List, [], ◌++◌, Option, some, ltb,
  ◌==◌, text, Bytes, length, All, Option-cases, Result, ok, threw, bind-eq-ok, ok-injective, arith,
}
use mathlib.Core.Path.{subst}
use ninfer_nvfp4_glm_5_3_fla.Sha256.{sha256_hex}
use ninfer_nvfp4_glm_5_3_fla.Checkpoint.{Table, BindingReport}
use ninfer_nvfp4_glm_5_3_fla.Checkpoint.Header.{parse_weight_map}
use ninfer_nvfp4_glm_5_3_fla.Checkpoint.Shard.{io_error}
use ninfer_nvfp4_glm_5_3_fla.Checkpoint.Gather.{what, index_bytes, named_catalog}
use ninfer_nvfp4_glm_5_3_fla.Checkpoint.Directory.{Files, read_text, read_index, gather_catalog}
use ninfer_nvfp4_glm_5_3_fla.Checkpoint.Origin.{
  index_name, Origin, named_catalog-All, if-cases, Gathered, read_shards-Origin,
}

module _ (files : Files) (names_only : Bool) where
  -- The weight map is that of the index file, or empty.
  abbrev pub IsIndex : Table Bytes → Type 0
  IsIndex weight_map =
      (weight_map ≡ [])
      ⊎ ((bytes : Bytes) × (files.is_regular index_name ≡ true)
          × (files.contents index_name ≡ some bytes)
          × (parse_weight_map bytes ≡ ok weight_map))

  parsed_or_empty :
      (hashed : BindingReport) (m : Result (Table Bytes))
      → let parsed : Table Bytes × BindingReport = elim m [
        | ok weight_map ↦ (weight_map, hashed)
        | threw error ↦ ([], io_error hashed (text "weight map parse failed: " ++ what error))
      ] in
        (parsed.0 ≡ []) ⊎ (m ≡ ok parsed.0)
  parsed_or_empty hashed (ok weight_map) = inr refl
  parsed_or_empty hashed (threw error) = inl refl

  index_bytes-parsed :
      (receipt : Option Bytes) (bytes : Bytes) (report : BindingReport)
      → let weight_map = (index_bytes receipt bytes report).0 in
        (weight_map ≡ []) ⊎ (parse_weight_map bytes ≡ ok weight_map)
  unfolding index_bytes
  index_bytes-parsed receipt bytes report =
      parsed_or_empty (record report { index_sha256 = sha256_hex bytes }) (parse_weight_map bytes)

  read_text-contents :
      (name bytes : Bytes) → read_text files name ≡ ok bytes → files.contents name ≡ some bytes
  unfolding read_text
  read_text-contents name bytes h = elim (Option-cases (files.contents name)) [
    | inl e ↦ let h' = rw (e, read_text) at h in absurd (cc)
    | inr (b, e) ↦ let h' = rw (e, read_text) at h in e ∙ ap some (ok-injective h')
  ]

  pub read_index-IsIndex :
      (receipt : Option Bytes) (report : BindingReport) (index : Table Bytes × BindingReport)
      → read_index files receipt report ≡ ok index
      → IsIndex index.0
  unfolding read_index
  read_index-IsIndex receipt report index h =
      if-cases (λ m. m ≡ ok index → IsIndex index.0) (files.is_regular index_name) _ _
        (λ regular h'.
          let (bytes, contents, parsed) = bind-eq-ok (read_text files index_name) _ h' in
          subst (λ i. IsIndex i.0) (ok-injective parsed)
            (elim (index_bytes-parsed receipt bytes report) [
              | inl empty ↦ inl empty
              | inr e ↦ inr (bytes, regular, read_text-contents index_name bytes contents, e)
            ]))
        (λ absent h'. inl (ap (λ i. i.0) (sym (ok-injective h')))) h

  named-Origin :
      (weight_map : Table Bytes)
      → names_only ≡ true
      → IsIndex weight_map
      → All (Origin files names_only) (named_catalog weight_map)
  named-Origin weight_map e (inl empty) =
      subst (λ m. All (Origin files names_only) (named_catalog m)) (sym empty)
        (unfold named_catalog in tt)
  named-Origin weight_map e (inr (bytes, regular, contents, parsed)) =
      named_catalog-All (Origin files names_only) weight_map λ name shard listed. inl (
        e,
        record {
          bytes = bytes;
          weight_map = weight_map;
          shard = shard;
          is_file = regular;
          contents = contents;
          parsed = parsed;
          listed = listed;
          is_blank = refl;
        },
      )

  -- Every entry of the gathered catalogue comes from a file of the directory.
  pub gather_catalog-Origin :
      (weight_map : Table Bytes) (shards : List Bytes) (report : BindingReport)
      → IsIndex weight_map
      → All (Origin files names_only) (gather_catalog files names_only weight_map shards report).0
  unfolding gather_catalog
  gather_catalog-Origin weight_map shards report index =
      if-cases (Gathered files names_only) (names_only && ltb 0 (length weight_map))
        (named_catalog weight_map, report) _
        (λ e. let named : names_only ≡ true = ground arith in named-Origin weight_map named index)
        λ e.
          if-cases (Gathered files names_only) (report.io_errors == 0 || ltb 0 (length shards)) _
            ([], report) (λ f. read_shards-Origin files names_only shards ([], report) tt) (λ f. tt)
