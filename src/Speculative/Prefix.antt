-- ===== src/Speculative/Prefix.antt =====
-- src/speculative.cpp: the draft tokens that `commit_dflash2` accepts are the longest prefix on
-- which the draft and the target agree, so the committed tokens are the target's own.
use ninfer_nvfp4_glm_5_3_fla.Prelude.{
  ℕ, zero, suc, ◌≤◌, ◌<◌, ◌≡◌, refl, ap, ◌≢◌, ◌⊎◌, inl, List, [], ◌∷◌, ◌++◌, arith, length, take,
  get_or,
}
use ninfer_nvfp4_glm_5_3_fla.Speculative.{Token, match_prefix, accepted_tokens}

-- `m` is the length of the longest common prefix among the first `k` tokens.
pub record IsLongestMatch (k m : ℕ) (draft target : List Token) : Type 0 where
  pub within : m ≤ k
  pub agrees : take m draft ≡ take m target
  pub stops : (m ≡ k) ⊎ (get_or draft m 0 ≢ get_or target m 0)

pub match_prefix-IsLongestMatch :
    (k : ℕ) (draft target : List Token)
    → k ≤ length draft
    → k ≤ length target
    → IsLongestMatch k (match_prefix k draft target) draft target
unfolding match_prefix
match_prefix-IsLongestMatch zero draft target hd ht = record {
  within = omega arith;
  agrees = refl;
  stops = inl refl;
}
match_prefix-IsLongestMatch (suc k) [] target hd ht = absurd (omega arith)
match_prefix-IsLongestMatch (suc k) (d ∷ draft) [] hd ht = absurd (omega arith)
match_prefix-IsLongestMatch (suc k) (d ∷ draft) (t ∷ target) hd ht =
    let rest = match_prefix-IsLongestMatch k draft target (omega arith) (omega arith) in
    ground (arith, rest)

take-suc :
    (m : ℕ) (xs : List Token) → m < length xs → take (suc m) xs ≡ take m xs ++ get_or xs m 0 ∷ []
take-suc m [] h = absurd (omega arith)
take-suc zero (x ∷ xs) h = refl
take-suc (suc m) (x ∷ xs) h = ap (◌∷◌ x) (take-suc m xs (omega arith))

pub accepted_tokens-eq-take :
    (m : ℕ) (draft target : List Token)
    → take m draft ≡ take m target
    → m < length target
    → accepted_tokens m draft target ≡ take (suc m) target
unfolding accepted_tokens
accepted_tokens-eq-take zero draft target e h = ground (arith, take-suc 0 target)
accepted_tokens-eq-take (suc m) draft target e h = ground (arith, take-suc (suc m) target)

-- A longest match is the one that the loop finds.
pub match_prefix_unique :
    (k m : ℕ) (xs ys : List Token)
    → m ≤ length xs
    → m ≤ length ys
    → IsLongestMatch k m xs ys
    → match_prefix k xs ys ≡ m
unfolding match_prefix
match_prefix_unique zero zero xs ys hx hy h = refl
match_prefix_unique zero (suc m) xs ys hx hy h = absurd (omega (arith, h.within))
match_prefix_unique (suc k) zero [] ys hx hy h = refl
match_prefix_unique (suc k) zero (x ∷ xs) [] hx hy h = refl
match_prefix_unique (suc k) zero (x ∷ xs) (y ∷ ys) hx hy h = ground arith
match_prefix_unique (suc k) (suc m) [] ys hx hy h = absurd (omega arith)
match_prefix_unique (suc k) (suc m) (x ∷ xs) [] hx hy h = absurd (omega arith)
match_prefix_unique (suc k) (suc m) (x ∷ xs) (y ∷ ys) hx hy h =
    ground (arith, match_prefix_unique k m xs ys (omega arith) (omega arith) rest)
  where
    rest : IsLongestMatch k m xs ys
    rest = ground (arith, h)
