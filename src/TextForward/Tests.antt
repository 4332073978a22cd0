-- ===== src/TextForward/Tests.antt =====
-- src/text_forward.cpp on a small model and on two ranks.
use ninfer_nvfp4_glm_5_3_fla.Prelude.{
  ℕ, some, eq_list, ◌*◌, ◌≡◌, ◌≢◌, ◌↔◌, refl, true, false, [], ◌∷◌, ◌++◌, arith, ok, text,
}
use ninfer_nvfp4_glm_5_3_fla.Schema.{pos}
use ninfer_nvfp4_glm_5_3_fla.DflashLoop.{DflashOutput, eos}
use ninfer_nvfp4_glm_5_3_fla.DflashLoop.Greedy.{greedy}
use ninfer_nvfp4_glm_5_3_fla.DflashLoop.Tests.{
  Cache, counting, counting_next, cached_tokens, IsFresh, counting-Decodes, empty_cache,
}
use ninfer_nvfp4_glm_5_3_fla.TextForward.{
  fixed_prompt_tokens, prime_capture_kda, greedy_tokens, dflash_tokens,
}
use ninfer_nvfp4_glm_5_3_fla.TextForward.Decoding.{dflash_tokens-greedy_tokens}
use ninfer_nvfp4_glm_5_3_fla.TextForward.Link.{
  Produced, sent, recv_words, recv_word, recv_payload, recv_drafts, recv_reply,
}
use ninfer_nvfp4_glm_5_3_fla.TextForward.Generate.{
  GenerateResult, World, generate_text, generate_prompt, generate_checked, generate_pair,
  token_budget, stop_if, is_done, run_pair, conclude_pair,
}
use ninfer_nvfp4_glm_5_3_fla.TextForward.Agreement.{IsSound}
use ninfer_nvfp4_glm_5_3_fla.TextForward.Generated.{generate_text-IsSound}
use ninfer_nvfp4_glm_5_3_fla.TextForward.Paired.{asked, mode_of, generate_text-is_ok_iff}
use ninfer_nvfp4_glm_5_3_fla.TextForward.Peer.{generate_text_peer}
use ninfer_nvfp4_glm_5_3_fla.TextForward.Mirror.{generate_text_peer-mirrors}
use ninfer_nvfp4_glm_5_3_fla.TextForward.Rows.{apply_rows, meet, linear_rows}
use ninfer_nvfp4_glm_5_3_fla.TextForward.Gathered.{linear_rows-gathered}
use ninfer_nvfp4_glm_5_3_fla.TextForward.Bf16.{
  IsNearest, bf16_to_f32, f32_to_bf16, round_bf16_store, f32_to_bf16-IsNearest,
}

abbrev empty_caches : Cache → Cache
empty_caches s = ([], s.1)

dflash_tokens-greedy_tokens_example :
    (s0 s1 s2 : Cache) × (out : DflashOutput) × (prime_capture_kda counting empty_caches empty_cache
      ≡ (ok tt, s0))
    × (greedy_tokens counting empty_caches (11 ∷ 22 ∷ []) 8 empty_cache ≡ (ok out.tokens, s1))
    × (dflash_tokens counting empty_caches (11 ∷ 22 ∷ []) 8 empty_cache ≡ (ok out, s2))
    × (out.tokens ≡ greedy counting_next 8 (cached_tokens s0 ++ 11 ∷ 22 ∷ []))
dflash_tokens-greedy_tokens_example =
    dflash_tokens-greedy_tokens counting cached_tokens IsFresh counting_next 2000 17
      (counting-Decodes 17) empty_caches (11 ∷ 22 ∷ []) 8 empty_cache (λ s'. omega arith)
      (omega arith) (omega arith) (λ e. cc e) (omega arith)

-- Three tokens, up to the end of the sequence, with one accepted draft.
abbrev sample : Produced
sample = record {
  tokens = 198 ∷ 13041 ∷ 154820 ∷ [];
  drafts = 13041 ∷ 5 ∷ 5 ∷ 5 ∷ 5 ∷ 5 ∷ 5 ∷ [];
  accepted = 1;
  finish = eos;
  verify_rounds = 1;
  margin = 0;
}

abbrev agreeing : World
agreeing = record {
  socketpair = true;
  nonblock = true;
  forked = true;
  rank0 = ok sample;
  link = sent (ok sample);
  child_ok = true;
}

generate_text-is_ok_iff_example :
    (r : GenerateResult) × (generate_text agreeing
        (text "fixed-text-v1")
        (mode_of true)
        (pos 8)
        true
      ≡ ok r)
    × (r.token_ids ≡ 198 ∷ 13041 ∷ 154820 ∷ [])
    × ((r.is_ok ≡ true) ↔ (
        (sample.tokens ≡ sample.tokens)
        × (sample.tokens ≢ [])
        × (sample.drafts ≡ sample.drafts)
        × (sample.accepted ≡ sample.accepted)
        × (true ≡ true → is_done 8 sample ≡ true)))
generate_text-is_ok_iff_example =
    generate_text-is_ok_iff agreeing true 8 sample sample
      (record {
        socketpair = refl;
        nonblock = refl;
        forked = refl;
        rank0 = refl;
        link = refl;
        child_ok = refl;
        tokens = omega arith;
        drafts = omega arith;
      })
      (omega arith) (omega arith)

-- The result of a pair of which the other rank died in the middle of its tokens.
abbrev broken : World
broken = record agreeing { link = 2 ∷ 198 ∷ 7 ∷ 1 ∷ 0 ∷ []; child_ok = false }

abbrev broken_result : GenerateResult
broken_result =
    conclude_pair (text "dflash") 8 sample
      (record {
        child_count = 2;
        payload_ok = true;
        child = 198 ∷ 7 ∷ [];
        child_accept = 1;
        child_draft = [];
      })
      false asked

broken_run :
    generate_text broken (text "fixed-text-v1") (text "dflash") (pos 8) true ≡ ok broken_result
unfolding generate_text generate_prompt fixed_prompt_tokens eq_list text generate_checked
    token_budget generate_pair stop_if run_pair recv_reply recv_payload recv_drafts recv_words
    recv_word
broken_run = refl

generate_text-IsSound_example : IsSound broken_result
generate_text-IsSound_example =
    generate_text-IsSound broken (text "fixed-text-v1") (text "dflash") (pos 8) true broken_result
      broken_run

abbrev two_tokens : Produced
two_tokens = record sample { tokens = 198 ∷ 13041 ∷ [] }

generate_text_peer-mirrors_example :
    (r0 r1 : GenerateResult) × (meet 4
        (generate_text_peer (ok sample) 0 (text "fixed-text-v1") (pos 4))
        (generate_text_peer (ok two_tokens) 1 (text "fixed-text-v1") (pos 4))
      ≡ some (ok r0, ok r1))
    × (r0.rank0_tokens ≡ sample.tokens)
    × (r1.rank0_tokens ≡ sample.tokens)
    × (r0.rank1_tokens ≡ two_tokens.tokens)
    × (r1.rank1_tokens ≡ two_tokens.tokens)
    × (r0.is_ok ≡ r1.is_ok)
    × ((r0.is_ok ≡ true) ↔ ((sample.tokens ≡ two_tokens.tokens) × (sample.tokens ≢ [])))
generate_text_peer-mirrors_example =
    generate_text_peer-mirrors 4 sample two_tokens (omega arith) (omega arith) (omega arith)
      (omega arith)

abbrev squares : ℕ → ℕ
squares row = row * row

linear_rows-gathered_example :
    (meet 2
        (linear_rows true 0 1 squares 3 (7 ∷ 7 ∷ 7 ∷ []))
        (linear_rows true 1 1 squares 3 (8 ∷ 8 ∷ 8 ∷ []))
      ≡ some (
        apply_rows false 0 1 squares 3 (0 ∷ 0 ∷ 0 ∷ []),
        apply_rows false 0 1 squares 3 (0 ∷ 0 ∷ 0 ∷ []),
      ))
    × (apply_rows false 0 2 squares 3 (0 ∷ 0 ∷ 0 ∷ [])
        ≡ apply_rows false 0 1 squares 3 (0 ∷ 0 ∷ 0 ∷ []))
linear_rows-gathered_example =
    linear_rows-gathered squares 3 (0 ∷ 0 ∷ 0 ∷ []) (7 ∷ 7 ∷ 7 ∷ []) (8 ∷ 8 ∷ 8 ∷ []) (omega arith)
      refl refl refl

-- A float halfway between two bfloat16 numbers, and a NaN.
f32_to_bf16-IsNearest_example :
    IsNearest 0x3f818000 (f32_to_bf16 0x3f818000)
    × (round_bf16_store 0x7fc00001 ≡ bf16_to_f32 (f32_to_bf16 0x7fc00001))
    × (f32_to_bf16 (bf16_to_f32 0x7fc0) ≡ 0x7fc0)
f32_to_bf16-IsNearest_example =
    f32_to_bf16-IsNearest 0x3f818000 0x7fc00001 0x7fc0 (omega arith) (omega arith) (omega arith)
