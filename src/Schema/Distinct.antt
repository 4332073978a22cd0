-- ===== src/Schema/Distinct.antt =====
-- src/parameter_schema.cpp: what the validation of a catalogue accepts.
use ninfer_nvfp4_glm_5_3_fla.Prelude.{
  ◌≡◌, ◌≢◌, ◌↔◌, refl, sym, false, ◌||◌, List, [], ◌∷◌, map, arith, Bytes, eq_list, eq_list_iff,
  is_empty, All, either, Bool-cases, inl, inr, failures, failures_iff, append_empty,
}
use ninfer_nvfp4_glm_5_3_fla.Schema.{ExpectedTensor}
use ninfer_nvfp4_glm_5_3_fla.Schema.Validate.{
  has, entry_errors, duplicate_checks, catalog_errors, validate_parameter_catalog,
}

-- No two texts of the list are equal.
unfoldable pub AllDistinct : List Bytes → Type 0
AllDistinct [] = Unit
AllDistinct (x ∷ xs) = All (λ y. x ≢ y) xs × AllDistinct xs

-- An entry with both names, which passes the checks of its shape and storage.
abbrev pub IsEntry : ExpectedTensor → Type 0
IsEntry tensor =
    (is_empty tensor.logical_id ≡ false)
    × (is_empty tensor.source_name ≡ false)
    × (entry_errors tensor ≡ [])

-- Each text is new against those seen before it.
unfoldable AllFresh : List Bytes → List Bytes → Type 0
AllFresh seen [] = Unit
AllFresh seen (x ∷ xs) = (has seen x ≡ false) × AllFresh (x ∷ seen) xs

apart_iff : (x y : Bytes) → (eq_list y x ≡ false) ↔ (x ≢ y)
apart_iff x y = (
  λ e p. ground (arith, e, (eq_list_iff y x).1 (sym p)),
  λ ne. elim (Bool-cases (eq_list y x)) [
    | inl e ↦ absurd (ne (sym ((eq_list_iff y x).0 e)))
    | inr e ↦ e
  ],
)

split_seen :
    (x : Bytes) (seen xs : List Bytes)
    → All (λ y. has (x ∷ seen) y ≡ false) xs
    → All (λ y. x ≢ y) xs × All (λ y. has seen y ≡ false) xs
unfolding has
split_seen x seen [] h = (tt, tt)
split_seen x seen (y ∷ ys) h =
    let (e, k) = either (eq_list y x) (has seen y) h.0 in
    let (ne, old) = split_seen x seen ys h.1 in (((apart_iff x y).0 e, ne), (k, old))

join_seen :
    (x : Bytes) (seen xs : List Bytes)
    → All (λ y. x ≢ y) xs
    → All (λ y. has seen y ≡ false) xs
    → All (λ y. has (x ∷ seen) y ≡ false) xs
unfolding has
join_seen x seen [] h k = tt
join_seen x seen (y ∷ ys) h k = (rw ((apart_iff x y).1 h.0, k.0) refl, join_seen x seen ys h.1 k.1)

fresh_iff :
    (seen xs : List Bytes) → AllFresh seen xs ↔ (AllDistinct xs × All (λ y. has seen y ≡ false) xs)
unfolding AllFresh AllDistinct
fresh_iff seen [] = (λ h. (tt, tt), λ h. tt)
fresh_iff seen (x ∷ xs) = (
  λ h.
      let (d, all) = (fresh_iff (x ∷ seen) xs).0 h.1 in
      let (ne, old) = split_seen x seen xs all in ((ne, d), (h.0, old)),
  λ (d, old). (old.0, (fresh_iff (x ∷ seen) xs).1 (d.1, join_seen x seen xs d.0 old.1)),
)

All-has : (xs : List Bytes) → All (λ y. has [] y ≡ false) xs
unfolding has
All-has [] = tt
All-has (x ∷ xs) = (refl, All-has xs)

abbrev ids_of : List ExpectedTensor → List Bytes
ids_of catalog = map (λ tensor. tensor.logical_id) catalog

abbrev names_of : List ExpectedTensor → List Bytes
names_of catalog = map (λ tensor. tensor.source_name) catalog

never : {A : Type 0} (x : Bytes) (xs : List Bytes) → x ∷ xs ≡ [] → A
never x xs h = absurd cc

catalog_accepts :
    (ids names : List Bytes) (catalog : List ExpectedTensor)
    → All IsEntry catalog
    → AllFresh ids (ids_of catalog)
    → AllFresh names (names_of catalog)
    → catalog_errors ids names catalog ≡ []
unfolding catalog_errors AllFresh failures
catalog_accepts ids names [] h f g = refl
catalog_accepts ids names (t ∷ catalog) h f g =
    let (id, name, passes) = h.0 in
    let rest = catalog_accepts (t.logical_id ∷ ids) (t.source_name ∷ names) catalog h.1 f.1 g.1 in
    rw (id, name, f.0, g.0, passes, rest) refl

catalog_lem :
    (ids names : List Bytes) (catalog : List ExpectedTensor)
    → catalog_errors ids names catalog ≡ []
    → All IsEntry catalog × AllFresh ids (ids_of catalog) × AllFresh names (names_of catalog)
unfolding catalog_errors AllFresh
catalog_lem ids names [] h = (tt, tt, tt)
catalog_lem ids names (t ∷ catalog) h =
    elim (Bool-cases (is_empty t.logical_id || is_empty t.source_name)) [
      | inl e ↦ let bad = rw e at h in never _ _ bad
      | inr e ↦
          let (id, name) = either (is_empty t.logical_id) (is_empty t.source_name) e in
          let good = rw e at h in
          let (k, rest) =
            append_empty _ (catalog_errors (t.logical_id ∷ ids) (t.source_name ∷ names) catalog)
              good in
          let (dups, passes) =
            append_empty (failures (duplicate_checks ids names t)) (entry_errors t) k in
          let (new_id, (new_name, u)) = (failures_iff (duplicate_checks ids names t)).0 dups in
          let (all, f, g) = catalog_lem (t.logical_id ∷ ids) (t.source_name ∷ names) catalog rest in
          (((id, name, passes), all), (new_id, f), (new_name, g))
    ]

-- The validation of a catalogue reports no error exactly when every entry has both names and passes
-- the checks of its shape and storage, no two entries share a logical id, and no two a source name.
pub validate_parameter_catalog_iff :
    (catalog : List ExpectedTensor)
    → (validate_parameter_catalog catalog ≡ []) ↔ (
        All IsEntry catalog
        × AllDistinct (map (λ tensor. tensor.logical_id) catalog)
        × AllDistinct (map (λ tensor. tensor.source_name) catalog))
validate_parameter_catalog_iff catalog = (
  λ h.
      let (all, f, g) = catalog_lem [] [] catalog h in
      (all, ((fresh_iff [] (ids_of catalog)).0 f).0, ((fresh_iff [] (names_of catalog)).0 g).0),
  λ (all, d, e).
      catalog_accepts [] [] catalog all
        ((fresh_iff [] (ids_of catalog)).1 (d, All-has (ids_of catalog)))
        ((fresh_iff [] (names_of catalog)).1 (e, All-has (names_of catalog))),
)
