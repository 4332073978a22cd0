-- ===== src/TextForward/Paired.antt =====
-- src/text_forward.cpp: two ranks that both return, from the link to the result.
use ninfer_nvfp4_glm_5_3_fla.Prelude.{
  ◌≢◌, ℕ, ◌≤◌, ◌≡◌, refl, ap, ◌∙◌, sym, ◌↔◌, Bool, true, false, not, ◌||◌, arith, ok, length,
  eq_list, text, Bytes, some, if◌then◌else◌, ◌∷◌, [],
}
use ninfer_nvfp4_glm_5_3_fla.Schema.{pos}
use ninfer_nvfp4_glm_5_3_fla.Speculative.{slots}
use ninfer_nvfp4_glm_5_3_fla.TextForward.{fixed_prompt_tokens}
use ninfer_nvfp4_glm_5_3_fla.TextForward.Link.{Produced, sent}
use ninfer_nvfp4_glm_5_3_fla.TextForward.Wire.{reply_of, recv_reply-sent}
use ninfer_nvfp4_glm_5_3_fla.TextForward.Generate.{
  GenerateResult, World, blank_generated, conclude_pair, run_pair, generate_pair, generate_checked,
  generate_prompt, generate_text, is_done, token_budget, stop_if,
}
use ninfer_nvfp4_glm_5_3_fla.TextForward.Agreement.{
  conclude_pair-is_ok, conclude_pair-token_ids, is_agreed_iff, and-true,
}

-- Both ranks run and return: rank 1 sends what it produced and exits with 0.
pub record BothReturn (world : World) (new_tokens : ℕ) (p0 p1 : Produced) : Type 0 where
  pub socketpair : world.socketpair ≡ true
  pub nonblock : world.nonblock ≡ true
  pub forked : world.forked ≡ true
  pub rank0 : world.rank0 ≡ ok p0
  pub link : world.link ≡ sent (ok p1)
  pub child_ok : world.child_ok ≡ true
  pub tokens : length p1.tokens ≤ new_tokens
  pub drafts : length p1.drafts ≤ 7

abbrev pub mode_of : Bool → Bytes
mode_of draft = if draft then text "dflash" else text "tp2"

abbrev pub asked : GenerateResult
asked = record blank_generated {
  world_size = 2;
  prompt_text = text "Hi";
  prompt_tokens = 13041 ∷ [];
}

run_pair-returned :
    (world : World) (mode : Bytes) (n : ℕ) (p0 p1 : Produced) (result : GenerateResult)
    → BothReturn world n p0 p1
    → n ≤ 8
    → run_pair world mode n result ≡ ok (conclude_pair mode n p0 (reply_of p1) true result)
unfolding run_pair
run_pair-returned world mode n p0 p1 result b hn =
    rw b.rank0 (rw b.link (rw (recv_reply-sent n p1 hn b.tokens b.drafts) (rw b.child_ok refl)))

pub budgeted : (n : ℕ) → 1 ≤ n → n ≤ 8 → token_budget (pos n) ≡ some n
unfolding token_budget
budgeted n low high = ground arith

-- What `passes` asks of the mode.
done_in_mode :
    (draft b : Bool)
    → (not (eq_list (mode_of draft) (text "dflash")) || b ≡ true) ↔ (draft ≡ true → b ≡ true)
unfolding eq_list text
done_in_mode true b = (λ h _. h, λ h. h refl)
done_in_mode false b = (λ h e. cc, λ h. refl)

generate_text-returned :
    (world : World) (draft : Bool) (n : ℕ) (p0 p1 : Produced)
    → BothReturn world n p0 p1
    → 1 ≤ n
    → n ≤ 8
    → generate_text world (text "fixed-text-v1") (mode_of draft) (pos n) true
      ≡ ok (conclude_pair (mode_of draft) n p0 (reply_of p1) true asked)
unfolding generate_text generate_prompt fixed_prompt_tokens eq_list text generate_pair stop_if
    generate_checked run_pair
generate_text-returned world true n p0 p1 b low high = rw (budgeted n low high) (
    rw b.socketpair
      (rw b.nonblock (rw b.forked (run_pair-returned world (text "dflash") n p0 p1 asked b high))))
generate_text-returned world false n p0 p1 b low high = rw (budgeted n low high) (
    rw b.socketpair
      (rw b.nonblock (rw b.forked (run_pair-returned world (text "tp2") n p0 p1 asked b high))))

-- In a mode of two ranks, for the fixed prompt, one to eight tokens and a given draft model, and with
-- ranks that both return, rank 1 no more tokens than asked for and seven drafts at most, the call
-- returns. The result has the tokens of rank 0, and it is good exactly if both ranks produced the
-- same tokens, one at least, the same drafts and the same count of accepted drafts and, with the
-- draft model, the continuation came to its end.
pub generate_text-is_ok_iff :
    (world : World) (draft : Bool) (n : ℕ) (p0 p1 : Produced)
    → BothReturn world n p0 p1
    → 1 ≤ n
    → n ≤ 8
    → (r : GenerateResult) × (generate_text world
          (text "fixed-text-v1")
          (mode_of draft)
          (pos n)
          true
        ≡ ok r)
      × (r.token_ids ≡ p0.tokens)
      × ((r.is_ok ≡ true) ↔ (
          (p0.tokens ≡ p1.tokens)
          × (p0.tokens ≢ [])
          × (p0.drafts ≡ p1.drafts)
          × (p0.accepted ≡ p1.accepted)
          × (draft ≡ true → is_done n p0 ≡ true)))
generate_text-is_ok_iff world draft n p0 p1 b low high =
    let is_ok = conclude_pair-is_ok (mode_of draft) n p0 (reply_of p1) true asked in
    (
      conclude_pair (mode_of draft) n p0 (reply_of p1) true asked,
      generate_text-returned world draft n p0 p1 b low high,
      conclude_pair-token_ids (mode_of draft) n p0 (reply_of p1) true asked,
      (
        λ good.
            let (agreed, done) = (and-true _ _).0 (sym is_ok ∙ good) in
            let a = (is_agreed_iff p0 (reply_of p1) true).0 agreed in
            (a.tokens, a.filled, a.drafts, a.accepted, (done_in_mode draft _).0 done),
        λ same.
            let fits : length p0.tokens ≤ slots = omega (arith, ap length same.0, b.tokens) in
            let agreed = (is_agreed_iff p0 (reply_of p1) true).1 (record {
              exits = refl;
              whole = refl;
              tokens = same.0;
              fits = fits;
              filled = same.1;
              drafts = same.2;
              accepted = same.3;
            }) in
            is_ok ∙ (and-true _ _).1 (agreed, (done_in_mode draft _).1 same.4),
      ),
    )
