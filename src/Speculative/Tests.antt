-- ===== src/Speculative/Tests.antt =====
-- The commits of tests/test_speculative.cpp.
use ninfer_nvfp4_glm_5_3_fla.Prelude.{
  ℕ, suc, ◌≡◌, refl, true, List, [], ◌∷◌, some, arith, eq_list, ◌≤◌, false, take, ◌⊎◌,
}
use ninfer_nvfp4_glm_5_3_fla.Speculative.{
  Token, RankRecord, blank_rank, match_prefix, accepted_tokens, commit_same_tokens, commit_dflash2,
}
use ninfer_nvfp4_glm_5_3_fla.Speculative.Prefix.{IsLongestMatch}
use ninfer_nvfp4_glm_5_3_fla.Speculative.Commit.{
  written, commit_same_tokens_lem, Holds, commit_dflash2_lem,
}

abbrev draft : List Token
draft = 10 ∷ 11 ∷ 12 ∷ 13 ∷ 14 ∷ 15 ∷ 16 ∷ []

abbrev partial : List Token
partial = 10 ∷ 11 ∷ 12 ∷ 99 ∷ 14 ∷ 15 ∷ 16 ∷ 77 ∷ []

partial_accept :
    (commit_dflash2 (some draft) 7 (some partial) (some blank_rank) (some blank_rank)).0.tokens
    ≡ 10 ∷ 11 ∷ 12 ∷ 99 ∷ 0 ∷ 0 ∷ 0 ∷ 0 ∷ 0 ∷ 0 ∷ 0 ∷ 0 ∷ 0 ∷ 0 ∷ 0 ∷ 0 ∷ []
unfolding commit_dflash2 match_prefix accepted_tokens commit_same_tokens eq_list
partial_accept = refl

commit_dflash2_lem_example :
    (m : ℕ) × IsLongestMatch 7 m draft partial
    × (commit_dflash2 (some draft) 7 (some partial) (some blank_rank) (some blank_rank) ≡ (
      record {
        tokens = (written (suc m) partial blank_rank).tokens;
        committed = suc m;
        ranks_agree = true;
      },
      some (written (suc m) partial blank_rank),
      some (written (suc m) partial blank_rank),
    ))
commit_dflash2_lem_example =
    commit_dflash2_lem 7 draft partial blank_rank blank_rank (omega arith) (omega arith)
      (omega arith) (omega arith)

commit_same_tokens_lem_example :
    (((◌≡◌ {A = ℕ} 2 2) × (2 ≤ 16) × (take 2 draft ≡ take 2 partial))
      × (t0 t1 : RankRecord) × (commit_same_tokens
            (record { tokens = some draft; count = 2 })
            (record { tokens = some partial; count = 2 })
            (some blank_rank)
            (some blank_rank)
          ≡ (true, some t0, some t1))
      × Holds 2 draft blank_rank t0
      × Holds 2 partial blank_rank t1)
    ⊎ ((¬ ((◌≡◌ {A = ℕ} 2 2) × (2 ≤ 16) × (take 2 draft ≡ take 2 partial)))
        × (commit_same_tokens
              (record { tokens = some draft; count = 2 })
              (record { tokens = some partial; count = 2 })
              (some blank_rank)
              (some blank_rank)
            ≡ (false, some blank_rank, some blank_rank)))
commit_same_tokens_lem_example =
    commit_same_tokens_lem 2 2 draft partial blank_rank blank_rank (omega arith) (omega arith)
