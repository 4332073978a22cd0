-- ===== src/Deployment/Lines.antt =====
-- src/deployment_contract.cpp: `parse_env_file` on a file of plain assignments.
use ninfer_nvfp4_glm_5_3_fla.Prelude.{
  ℕ, suc, ◌≡◌, ◌≢◌, inl, inr, refl, ap, ◌∙◌, Bool, true, false, not, ◌&&◌, ◌||◌, [], ◌∷◌, ◌++◌,
  some, arith, leb, ◌==◌, text, Bytes, is_empty, length, Bool-cases, ok,
}
use ninfer_nvfp4_glm_5_3_fla.Deployment.Strings.{
  is_space, is_alnum, starts_with, split_at, trim_start, trim_end, trim, next_quotes,
  before_comment, no_quotes, strip_inline_comment, unquote,
}
use ninfer_nvfp4_glm_5_3_fla.Deployment.Env.{
  EnvMap, insert_or_assign, all_key, byte_order_mark, parse_assignment, parse_line,
}

-- No space of any kind.
unfoldable pub no_space : Bytes → Bool
no_space [] = true
no_space (c ∷ s) = not (is_space c) && no_space s

-- A value that needs no quotes: no space, no quotation mark and no `#`.
unfoldable pub is_plain : Bytes → Bool
is_plain [] = true
is_plain (c ∷ s) = not (is_space c) && not (c == 34) && not (c == 39) && not (c == 35) && is_plain s

pub both : (a b : Bool) → (a && b) ≡ true → (a ≡ true) × (b ≡ true)
both a b h = ground arith

pub is_false : (a : Bool) → not a ≡ true → a ≡ false
is_false a h = ground arith

pub and_false : (a : Bool) → (a && false) ≡ false
and_false true = refl
and_false false = refl

trim_start-no_space : (s : Bytes) → no_space s ≡ true → trim_start s ≡ s
unfolding trim_start no_space
trim_start-no_space [] h = refl
trim_start-no_space (c ∷ s) h = rw (is_false (is_space c) (both _ (no_space s) h).0) refl

trim_end-no_space : (s : Bytes) → no_space s ≡ true → trim_end s ≡ s
unfolding trim_end no_space
trim_end-no_space [] h = refl
trim_end-no_space (c ∷ s) h =
    let (hc, hs) = both (not (is_space c)) (no_space s) h in
    let rest = trim_end s in
    rw (is_false (is_space c) hc, and_false (is_empty rest), trim_end-no_space s hs) refl

pub trim-no_space : (s : Bytes) → no_space s ≡ true → trim s ≡ s
trim-no_space s h = ap trim_end (trim_start-no_space s h) ∙ trim_end-no_space s h

split_at-key :
    (key value : Bytes) → all_key key ≡ true → split_at 61 (key ++ 61 ∷ value) ≡ some (key, value)
unfolding split_at all_key
split_at-key [] value h = ground arith
split_at-key (c ∷ key) value h =
    let (hc, hs) = both (is_alnum c || c == 95) (all_key key) h in
    let other : (c == 61) ≡ false = ground arith in rw (other, split_at-key key value hs) refl

starts_with-no_space :
    (p s : Bytes) → starts_with p s ≡ true → no_space s ≡ true → no_space p ≡ true
unfolding starts_with no_space
starts_with-no_space [] s h k = refl
starts_with-no_space (p ∷ ps) [] h k = cc
starts_with-no_space (p ∷ ps) (c ∷ s) h k =
    let (h1, h2) = both (p == c) (starts_with ps s) h in
    let (k1, k2) = both (not (is_space c)) (no_space s) k in
    let space : not (is_space p) ≡ true = ground arith in
    rw (space, starts_with-no_space ps s h2 k2) refl

-- What a plain value says of its first character and of the rest.
record PlainHead (c : ℕ) (s : Bytes) : Type 0 where
  space : is_space c ≡ false
  double_mark : (c == 34) ≡ false
  single_mark : (c == 39) ≡ false
  hash : (c == 35) ≡ false
  rest : is_plain s ≡ true

plain_head : (c : ℕ) (s : Bytes) → is_plain (c ∷ s) ≡ true → PlainHead c s
unfolding is_plain
plain_head c s h =
    let (h4, rest) = both _ (is_plain s) h in
    let (h3, hash) = both _ (not (c == 35)) h4 in
    let (h2, single) = both _ (not (c == 39)) h3 in
    let (h1, double) = both (not (is_space c)) (not (c == 34)) h2 in
    record {
      space = is_false (is_space c) h1;
      double_mark = is_false (c == 34) double;
      single_mark = is_false (c == 39) single;
      hash = is_false (c == 35) hash;
      rest = rest;
    }

next_quotes-plain :
    (c : ℕ) → (c == 34) ≡ false → (c == 39) ≡ false → next_quotes no_quotes c ≡ no_quotes
unfolding next_quotes
next_quotes-plain c double single = rw (and_false (c == 92), single, double) refl

before_comment-plain :
    (after_space : Bool) (s : Bytes)
    → is_plain s ≡ true
    → before_comment no_quotes after_space s ≡ s
unfolding before_comment
before_comment-plain b [] h = refl
before_comment-plain b (c ∷ s) h =
    let p = plain_head c s h in
    rw
      (
        next_quotes-plain c p.double_mark p.single_mark,
        p.hash,
        before_comment-plain (is_space c) s p.rest,
      )
      refl

no_space-plain : (s : Bytes) → is_plain s ≡ true → no_space s ≡ true
unfolding no_space
no_space-plain [] h = refl
no_space-plain (c ∷ s) h = let p = plain_head c s h in rw (p.space, no_space-plain s p.rest) refl

unquote-plain : (s : Bytes) → is_plain s ≡ true → unquote s ≡ s
unfolding unquote
unquote-plain [] h = rw (trim-no_space [] (no_space-plain [] h)) refl
unquote-plain (c ∷ s) h =
    let p = plain_head c s h in
    rw
      (
        trim-no_space (c ∷ s) (no_space-plain (c ∷ s) h),
        p.double_mark,
        p.single_mark,
        and_false (leb 2 (suc (length s))),
      )
      refl

value-plain : (s : Bytes) → is_plain s ≡ true → unquote (strip_inline_comment s) ≡ s
value-plain s h =
    rw (before_comment-plain true s h, trim-no_space s (no_space-plain s h)) (unquote-plain s h)

-- Every character of a key is a letter, a digit or an underscore.
pub no_space-key : (s : Bytes) → all_key s ≡ true → no_space s ≡ true
unfolding no_space all_key
no_space-key [] h = refl
no_space-key (c ∷ s) h =
    let (hc, hs) = both (is_alnum c || c == 95) (all_key s) h in
    let space : not (is_space c) ≡ true = ground arith in rw (space, no_space-key s hs) refl

pub no_space-append :
    (s t : Bytes) → no_space s ≡ true → no_space t ≡ true → no_space (s ++ t) ≡ true
unfolding no_space
no_space-append [] t h k = k
no_space-append (c ∷ s) t h k =
    let (hc, hs) = both (not (is_space c)) (no_space s) h in rw (hc, no_space-append s t hs k) refl

pub not_export : (s : Bytes) → no_space s ≡ true → starts_with (text "export ") s ≡ false
unfolding text no_space
not_export s h = elim (Bool-cases (starts_with (text "export ") s)) [
  | inl e ↦ absurd (ground (arith, starts_with-no_space (text "export ") s e h))
  | inr e ↦ e
]

unmarked_lem :
    (key value : Bytes)
    → all_key key ≡ true
    → starts_with byte_order_mark (key ++ 61 ∷ value) ≡ false
unfolding starts_with all_key
unmarked_lem [] value h = refl
unmarked_lem (c ∷ key) value h =
    let (hc, hs) = both (is_alnum c || c == 95) (all_key key) h in
    let other : (239 == c) ≡ false = ground arith in rw other refl

pub tail_spaces : (value : Bytes) → is_plain value ≡ true → no_space (61 ∷ value) ≡ true
unfolding no_space
tail_spaces value h = no_space-plain value h

-- A line `key=value` with a key of letters, digits and underscores and a plain value assigns the
-- value to the key, whatever line of the file it is.
pub parse_line_assigns :
    (path : Bytes) (number : ℕ) (env : EnvMap) (key value : Bytes)
    → key ≢ []
    → all_key key ≡ true
    → is_plain value ≡ true
    → parse_line path number env (key ++ 61 ∷ value) ≡ ok (insert_or_assign key value env)
unfolding parse_line parse_assignment all_key
parse_line_assigns path number env [] value full hk hv = absurd (full refl)
parse_line_assigns path number env (c ∷ key) value full hk hv =
    let (hc, hs) = both (is_alnum c || c == 95) (all_key key) hk in
    let line = (c ∷ key) ++ 61 ∷ value in
    let spaces : no_space line ≡ true =
      no_space-append (c ∷ key) (61 ∷ value) (no_space-key (c ∷ key) hk) (tail_spaces value hv) in
    let unmarked : starts_with byte_order_mark line ≡ false = unmarked_lem (c ∷ key) value hk in
    let hash : (c == 35) ≡ false = ground arith in
    rw
      (
        unmarked,
        and_false (number == 1),
        trim-no_space line spaces,
        hash,
        not_export line spaces,
        parse_assignment,
        split_at-key (c ∷ key) value hk,
        trim-no_space (c ∷ key) (no_space-key (c ∷ key) hk),
        hk,
        value-plain value hv,
      )
      refl
