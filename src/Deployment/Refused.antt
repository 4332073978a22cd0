-- ===== src/Deployment/Refused.antt =====
-- src/deployment_contract.cpp: `parse_env_file` on a file with a line that assigns nothing.
use ninfer_nvfp4_glm_5_3_fla.Prelude.{
  ℕ, ◌+◌, ◌≡◌, ◌≢◌, refl, ap, ◌∙◌, true, false, ◌||◌, List, [], ◌∷◌, ◌++◌, append_assoc, none, some,
  arith, ◌==◌, text, Bytes, length, All, threw,
}
use ninfer_nvfp4_glm_5_3_fla.Deployment.Strings.{is_alnum, starts_with, split_at}
use ninfer_nvfp4_glm_5_3_fla.Deployment.Env.{
  EnvMap, insert_or_assign, lines, all_key, byte_order_mark, line_error, parse_assignment,
  parse_line, parse_lines, parse_env_file,
}
use ninfer_nvfp4_glm_5_3_fla.Deployment.Lines.{
  both, and_false, no_space-append, no_space-key, tail_spaces, trim-no_space, not_export,
  parse_line_assigns,
}
use ninfer_nvfp4_glm_5_3_fla.Deployment.Files.{IsEntry, printed, lines-line}

no_sign : (word : Bytes) → all_key word ≡ true → split_at 61 word ≡ none
unfolding split_at all_key
no_sign [] h = refl
no_sign (c ∷ word) h =
    let (hc, hs) = both (is_alnum c || c == 95) (all_key word) h in
    let other : (c == 61) ≡ false = ground arith in rw (other, no_sign word hs) refl

no_mark : (word : Bytes) → all_key word ≡ true → starts_with byte_order_mark word ≡ false
unfolding starts_with all_key
no_mark [] h = refl
no_mark (c ∷ word) h =
    let (hc, hs) = both (is_alnum c || c == 95) (all_key word) h in
    let other : (239 == c) ≡ false = ground arith in rw other refl

parse_line_refuses :
    (path : Bytes) (number : ℕ) (env : EnvMap) (word : Bytes)
    → word ≢ []
    → all_key word ≡ true
    → parse_line path number env word ≡ threw (line_error path number (text ": expected KEY=VALUE"))
unfolding parse_line parse_assignment all_key
parse_line_refuses path number env [] full h = absurd (full refl)
parse_line_refuses path number env (c ∷ word) full h =
    let (hc, hs) = both (is_alnum c || c == 95) (all_key word) h in
    let spaces = no_space-key (c ∷ word) h in
    let hash : (c == 35) ≡ false = ground arith in
    rw
      (
        no_mark (c ∷ word) h,
        and_false (number == 1),
        trim-no_space (c ∷ word) spaces,
        hash,
        not_export (c ∷ word) spaces,
        parse_assignment,
        no_sign (c ∷ word) h,
      )
      refl

parse_lines-refuses :
    (path : Bytes) (number : ℕ) (env : EnvMap) (entries : List (Bytes × Bytes)) (word rest : Bytes)
    → All IsEntry entries
    → word ≢ []
    → all_key word ≡ true
    → parse_lines path number env (lines (printed entries ++ (word ++ 10 ∷ rest)))
      ≡ threw (line_error path (number + length entries) (text ": expected KEY=VALUE"))
unfolding parse_lines printed
parse_lines-refuses path number env [] word rest h full hw =
    rw
      (
        lines-line word rest (no_space-key word hw),
        parse_lines,
        parse_line_refuses path number env word full hw,
      )
      (ap (λ n. threw (line_error path n (text ": expected KEY=VALUE"))) (omega arith))
parse_lines-refuses path number env ((key, value) ∷ entries) word rest h full hw =
    let (named, hk, hv) = h.0 in
    let spaces = no_space-append key (61 ∷ value) (no_space-key key hk) (tail_spaces value hv) in
    rw
      (
        append_assoc (key ++ 61 ∷ value) (10 ∷ printed entries) (word ++ 10 ∷ rest),
        lines-line (key ++ 61 ∷ value) (printed entries ++ (word ++ 10 ∷ rest)) spaces,
        parse_lines,
        parse_line_assigns path number env key value named hk hv,
      )
      (parse_lines-refuses path (number + 1) (insert_or_assign key value env) entries word rest h.1
          full hw
        ∙ ap (λ n. threw (line_error path n (text ": expected KEY=VALUE"))) (omega arith))

-- A word of letters, digits and underscores on a line of its own, behind assignments to such keys of
-- values free of spaces, quotation marks and `#`, one to a line, ends the reading with the number of
-- its line, whatever follows.
pub parse_env_file-refuses :
    (path : Bytes) (entries : List (Bytes × Bytes)) (word rest : Bytes)
    → All IsEntry entries
    → word ≢ []
    → all_key word ≡ true
    → parse_env_file path (some (printed entries ++ (word ++ 10 ∷ rest)))
      ≡ threw (line_error path (1 + length entries) (text ": expected KEY=VALUE"))
unfolding parse_env_file
parse_env_file-refuses path entries word rest h full hw =
    parse_lines-refuses path 1 [] entries word rest h full hw
