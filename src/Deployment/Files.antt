-- ===== src/Deployment/Files.antt =====
-- src/deployment_contract.cpp: `parse_env_file` reads back a file of plain assignments, and what
-- a lookup in its result finds.
use ninfer_nvfp4_glm_5_3_fla.Prelude.{
  ℕ, ◌+◌, ◌≡◌, ◌≢◌, refl, sym, true, false, not, List, [], ◌∷◌, ◌++◌, some, arith, ◌==◌, Bytes,
  eq_list, eq_list_iff, Bool-cases, inl, inr, All, ok,
}
use ninfer_nvfp4_glm_5_3_fla.Deployment.Strings.{is_space}
use ninfer_nvfp4_glm_5_3_fla.Deployment.Env.{
  EnvMap, find, insert_or_assign, lines, all_key, parse_lines, parse_env_file,
}
use ninfer_nvfp4_glm_5_3_fla.Deployment.Lines.{
  is_plain, no_space, both, no_space-append, no_space-key, tail_spaces, parse_line_assigns,
}

-- An assignment with a key of letters, digits and underscores and a plain value.
abbrev pub IsEntry : Bytes × Bytes → Type 0
IsEntry (key, value) = (key ≢ []) × (all_key key ≡ true) × (is_plain value ≡ true)

unfoldable pub printed : List (Bytes × Bytes) → Bytes
printed [] = []
printed ((key, value) ∷ entries) = (key ++ 61 ∷ value) ++ 10 ∷ printed entries

-- The assignments in their order.
unfoldable pub assign_all : EnvMap → List (Bytes × Bytes) → EnvMap
assign_all env [] = env
assign_all env ((key, value) ∷ entries) = assign_all (insert_or_assign key value env) entries

pub lines-line : (line s : Bytes) → no_space line ≡ true → lines (line ++ 10 ∷ s) ≡ line ∷ lines s
unfolding lines no_space
lines-line [] s h = refl
lines-line (c ∷ line) s h =
    let (hc, hs) = both (not (is_space c)) (no_space line) h in
    let other : (c == 10) ≡ false = ground arith in rw (other, lines-line line s hs) refl

parse_lines-printed :
    (path : Bytes) (number : ℕ) (env : EnvMap) (entries : List (Bytes × Bytes))
    → All IsEntry entries
    → parse_lines path number env (lines (printed entries)) ≡ ok (assign_all env entries)
unfolding parse_lines printed assign_all lines
parse_lines-printed path number env [] h = refl
parse_lines-printed path number env ((key, value) ∷ entries) h =
    let (full, hk, hv) = h.0 in
    let spaces = no_space-append key (61 ∷ value) (no_space-key key hk) (tail_spaces value hv) in
    rw
      (
        lines-line (key ++ 61 ∷ value) (printed entries) spaces,
        parse_lines,
        parse_line_assigns path number env key value full hk hv,
      )
      (parse_lines-printed path (number + 1) (insert_or_assign key value env) entries h.1)

-- A file of assignments to keys of letters, digits and underscores, one to a line, with values
-- free of spaces, quotation marks and `#`, is read as these assignments in their order.
pub parse_env_file-printed :
    (path : Bytes) (entries : List (Bytes × Bytes))
    → All IsEntry entries
    → parse_env_file path (some (printed entries)) ≡ ok (assign_all [] entries)
unfolding parse_env_file
parse_env_file-printed path entries h = parse_lines-printed path 1 [] entries h

find-insert_self :
    (key value : Bytes) (env : EnvMap) → find key (insert_or_assign key value env) ≡ some value
unfolding find insert_or_assign
find-insert_self key value [] = rw ((eq_list_iff key key).1 refl) refl
find-insert_self key value ((k, v) ∷ env) = elim (Bool-cases (eq_list key k)) [
  | inl e ↦ rw (e) (rw e refl)
  | inr e ↦ rw (e) (rw e (find-insert_self key value env))
]

different : (key other : Bytes) → key ≢ other → eq_list other key ≡ false
different key other h = elim (Bool-cases (eq_list other key)) [
  | inl e ↦ absurd (h (sym ((eq_list_iff other key).0 e)))
  | inr e ↦ e
]

find-insert_other :
    (key other value : Bytes) (env : EnvMap)
    → key ≢ other
    → find other (insert_or_assign key value env) ≡ find other env
unfolding find insert_or_assign
find-insert_other key other value [] h = rw (different key other h) refl
find-insert_other key other value ((k, v) ∷ env) h = elim (Bool-cases (eq_list key k)) [
  | inl e ↦
      let same : key ≡ k = (eq_list_iff key k).0 e in
      let apart : eq_list other k ≡ false = rw (← same) (different key other h) in
      rw e (rw apart refl)
  | inr e ↦ rw (e) (rw (find-insert_other key other value env h) refl)
]

-- An assignment is found under its key, and leaves what the other keys find.
pub find-insert_or_assign :
    (key other value : Bytes) (env : EnvMap)
    → (find key (insert_or_assign key value env) ≡ some value)
      × (key ≢ other → find other (insert_or_assign key value env) ≡ find other env)
find-insert_or_assign key other value env =
    (find-insert_self key value env, find-insert_other key other value env)
