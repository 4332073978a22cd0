-- ===== src/TextForward/Peer.antt =====
-- src/text_forward.cpp: `generate_text_peer`, one rank of two on two machines.
use ninfer_nvfp4_glm_5_3_fla.Prelude.{
  ℕ, Bool, true, false, ◌&&◌, Option, none, some, List, [], ◌∷◌, ◌==◌, if◌then◌else◌, text, Bytes,
  eq_list, length, runtime_error, Result, ok, threw, get_or,
}
use ninfer_nvfp4_glm_5_3_fla.Schema.{ℤ}
use ninfer_nvfp4_glm_5_3_fla.Speculative.{Token}
use ninfer_nvfp4_glm_5_3_fla.TextForward.{fixed_prompt_tokens}
use ninfer_nvfp4_glm_5_3_fla.TextForward.Link.{Produced, is_count}
use ninfer_nvfp4_glm_5_3_fla.TextForward.Rows.{Exchange, done, sending, receiving}
use ninfer_nvfp4_glm_5_3_fla.TextForward.Generate.{
  GenerateResult, blank_generated, stopped, token_budget,
}

abbrev pub is_nonempty : List Token → Bool
is_nonempty [] = false
is_nonempty (t ∷ ids) = true

-- What a rank does on the link, in words of 32 bits.
abbrev pub PeerRun : Type 0
PeerRun = Exchange ℕ (Result GenerateResult)

-- `send_ids`: the count, and the tokens if there are any.
unfoldable pub send_ids : List Token → PeerRun → PeerRun
send_ids ids next = sending (length ids ∷ []) (if is_nonempty ids then sending ids next else next)

-- `recv_ids`, up to what is done with the tokens.
unfoldable pub recv_ids : ℕ → (List Token → PeerRun) → PeerRun
recv_ids new_tokens next = receiving 1 λ words.
    let count = get_or words 0 0 in
    if is_count new_tokens count
    then (if count == 0 then next [] else receiving count next)
    else done (threw (runtime_error (text "peer token count")))

-- Both lists by rank: rank 0 has its own first.
abbrev pub peer_tokens : ℕ → List Token → List Token → List Token × List Token
peer_tokens rank own other = if rank == 0 then (own, other) else (other, own)

unfoldable pub peer_result : ℕ → Produced → List Token → GenerateResult → GenerateResult
peer_result rank p other result =
    let tokens = peer_tokens rank p.tokens other in
    let agree = eq_list tokens.0 tokens.1 && is_nonempty tokens.0 in
    record result {
      world_size = 2;
      token_ids = p.tokens;
      committed = length p.tokens;
      logit_margin = p.margin;
      rank0_tokens = tokens.0;
      rank0_committed = length tokens.0;
      rank1_tokens = tokens.1;
      rank1_committed = length tokens.1;
      is_ok = agree;
      reason = if agree then result.reason else text "tp2_rank_mismatch";
    }

-- Rank 0 sends its tokens first, rank 1 receives first.
unfoldable pub exchange_ids : ℕ → ℕ → List Token → (List Token → PeerRun) → PeerRun
exchange_ids rank new_tokens generated next =
    if rank == 0
    then send_ids generated (recv_ids new_tokens next)
    else recv_ids new_tokens λ other. send_ids generated (next other)

-- `own` is what this rank makes of the prompt, once the link is open.
unfoldable pub run_peer : Result Produced → ℕ → ℕ → GenerateResult → PeerRun
run_peer (threw e) rank new_tokens result = done (threw e)
run_peer (ok p) rank new_tokens result =
    exchange_ids rank new_tokens p.tokens λ other. done (ok (peer_result rank p other result))

unfoldable pub peer_checked : Result Produced → ℕ → Option ℕ → GenerateResult → PeerRun
peer_checked own rank none result = done (stopped (text "new_tokens_out_of_range") result)
peer_checked own rank (some new_tokens) result = run_peer own rank new_tokens result

unfoldable pub peer_prompt : Result Produced → ℕ → ℤ → Option (Bytes × List Token) → PeerRun
peer_prompt own rank new_tokens none = done (stopped (text "unknown_prompt") blank_generated)
peer_prompt own rank new_tokens (some (words, tokens)) =
    peer_checked own rank (token_budget new_tokens)
      (record blank_generated { prompt_text = words; prompt_tokens = tokens })

unfoldable pub generate_text_peer : Result Produced → ℕ → Bytes → ℤ → PeerRun
generate_text_peer own rank prompt_id new_tokens =
    peer_prompt own rank new_tokens (fixed_prompt_tokens prompt_id)
