-- ===== src/Deployment/Quoted.antt =====
-- src/deployment_contract.cpp: a value in double quotes, with or without a comment behind it.
use ninfer_nvfp4_glm_5_3_fla.Prelude.{
  take-front, ℕ, suc, ◌+◌, ◌-◌, ◌≡◌, refl, ap, ◌∙◌, Bool, true, false, not, ◌&&◌, [], ◌∷◌, ◌++◌,
  arith, leb, ◌==◌, Bytes, is_empty, length, length-append, get_or,
}
use ninfer_nvfp4_glm_5_3_fla.Deployment.Strings.{
  is_space, trim_start, trim_end, trim, Quotes, next_quotes, before_comment, no_quotes,
  strip_inline_comment, unquote,
}
use ninfer_nvfp4_glm_5_3_fla.Deployment.Lines.{both, is_false, and_false}

-- No double quotation mark and no backslash.
unfoldable pub is_quotable : Bytes → Bool
is_quotable [] = true
is_quotable (c ∷ s) = not (c == 34) && not (c == 92) && is_quotable s

abbrev inside : Quotes
inside = record { in_single = false; in_double = true; escaped = false }

next_quotes-inside : (c : ℕ) → (c == 34) ≡ false → (c == 92) ≡ false → next_quotes inside c ≡ inside
unfolding next_quotes
next_quotes-inside c mark slash = rw (slash, and_false (c == 39), mark) refl

closing : next_quotes inside 34 ≡ no_quotes
unfolding next_quotes
closing = refl

opening : next_quotes no_quotes 34 ≡ inside
unfolding next_quotes
opening = refl

quiet : (a b : Bool) → (((a && true) && false) && b) ≡ false
quiet true b = refl
quiet false b = refl

before_comment-inside :
    (after_space : Bool) (v rest : Bytes)
    → is_quotable v ≡ true
    → before_comment inside after_space (v ++ 34 ∷ rest)
      ≡ v ++ 34 ∷ before_comment no_quotes false rest
unfolding before_comment is_quotable
before_comment-inside b [] rest h = rw (closing)
before_comment-inside b (c ∷ v) rest h =
    let (h2, hv) = both _ (is_quotable v) h in
    let (mark, slash) = both (not (c == 34)) (not (c == 92)) h2 in
    rw
      (
        next_quotes-inside c (is_false (c == 34) mark) (is_false (c == 92) slash),
        quiet (c == 35) b,
        before_comment-inside (is_space c) v rest hv,
      )
      refl

quoted_kept :
    (v rest : Bytes)
    → is_quotable v ≡ true
    → before_comment no_quotes true (34 ∷ (v ++ 34 ∷ rest))
      ≡ 34 ∷ (v ++ 34 ∷ before_comment no_quotes false rest)
unfolding before_comment
quoted_kept v rest h = rw (opening, before_comment-inside false v rest h) refl

nothing_left : before_comment no_quotes false [] ≡ []
unfolding before_comment
nothing_left = refl

comment_dropped : (comment : Bytes) → before_comment no_quotes false (32 ∷ 35 ∷ comment) ≡ 32 ∷ []
unfolding before_comment next_quotes
comment_dropped comment = refl

full : (xs ys : Bytes) (c : ℕ) → is_empty (xs ++ c ∷ ys) ≡ false
full [] ys c = refl
full (x ∷ xs) ys c = refl

trim_end-mark : (xs : Bytes) → trim_end (xs ++ 34 ∷ []) ≡ xs ++ 34 ∷ []
unfolding trim_end
trim_end-mark [] = refl
trim_end-mark (x ∷ xs) = rw (trim_end-mark xs, full xs [] 34) refl

trim_end-space : (xs : Bytes) → trim_end (xs ++ 34 ∷ 32 ∷ []) ≡ xs ++ 34 ∷ []
unfolding trim_end
trim_end-space [] = refl
trim_end-space (x ∷ xs) = rw (trim_end-space xs, full xs [] 34) refl

get_or-last : (v : Bytes) → get_or (v ++ 34 ∷ []) (length v) 0 ≡ 34
get_or-last [] = refl
get_or-last (c ∷ v) = get_or-last v

unquote-quoted : (v : Bytes) → unquote (34 ∷ (v ++ 34 ∷ [])) ≡ v
unfolding unquote trim_start
unquote-quoted v =
    let n = length v in
    let size : length (34 ∷ (v ++ 34 ∷ [])) ≡ n + 2 =
      omega (arith, length-append {0} v (34 ∷ [])) in
    let enough : leb 2 (n + 2) ≡ true = ground arith in
    let back : (n + 2) - 1 ≡ suc n = omega arith in
    let inner : (n + 2) - 2 ≡ n = omega arith in
    rw (trim_end-mark (34 ∷ v), size, enough, back, inner, get_or-last v) (take-front v (34 ∷ []))

-- A value in double quotes, free of double quotes and backslashes inside, is read as it stands
-- between them, spaces and `#` included, whether the line ends there or a comment follows.
pub unquote-strip_inline_comment :
    (v comment : Bytes)
    → is_quotable v ≡ true
    → (unquote (strip_inline_comment (34 ∷ (v ++ 34 ∷ []))) ≡ v)
      × (unquote (strip_inline_comment (34 ∷ (v ++ 34 ∷ 32 ∷ 35 ∷ comment))) ≡ v)
unfolding trim_start
unquote-strip_inline_comment v comment h =
    let whole : before_comment no_quotes true (34 ∷ (v ++ 34 ∷ [])) ≡ 34 ∷ (v ++ 34 ∷ []) =
      quoted_kept v [] h ∙ ap (λ t. 34 ∷ (v ++ 34 ∷ t)) nothing_left in
    let cut : before_comment no_quotes true (34 ∷ (v ++ 34 ∷ 32 ∷ 35 ∷ comment))
        ≡ 34 ∷ (v ++ 34 ∷ 32 ∷ []) =
      quoted_kept v (32 ∷ 35 ∷ comment) h
      ∙ ap (λ t. 34 ∷ (v ++ 34 ∷ t)) (comment_dropped comment) in
    (
      ap (λ s. unquote (trim s)) whole ∙ ap unquote (trim_end-mark (34 ∷ v)) ∙ unquote-quoted v,
      ap (λ s. unquote (trim s)) cut ∙ ap unquote (trim_end-space (34 ∷ v)) ∙ unquote-quoted v,
    )
