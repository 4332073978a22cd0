-- ===== src/TextForward/Generated.antt =====
-- src/text_forward.cpp: what `generate_text` returns.
use ninfer_nvfp4_glm_5_3_fla.Prelude.{
  text, ℕ, ℕ, ◌≡◌, refl, Bool, true, false, List, arith, ok, some, none, Bytes, Ensures,
  Ensures-bind_any, Ensures-if, Ensures-ok, Option, Result,
}
use ninfer_nvfp4_glm_5_3_fla.Schema.{ℤ}
use ninfer_nvfp4_glm_5_3_fla.Speculative.{Token}
use ninfer_nvfp4_glm_5_3_fla.TextForward.{fixed_prompt_tokens}
use ninfer_nvfp4_glm_5_3_fla.TextForward.Link.{recv_reply}
use ninfer_nvfp4_glm_5_3_fla.TextForward.Generate.{
  GenerateResult, World, blank_generated, run_pair, generate_pair, generate_single,
  generate_checked, stop_if, generate_prompt, generate_text, token_budget,
}
use ninfer_nvfp4_glm_5_3_fla.TextForward.Agreement.{
  IsSound, IsBlank, blank-IsSound, conclude_pair-IsSound,
}

-- What was committed does not depend on the reason or on the size of the world.
same-IsBlank :
    (reason : Bytes) (world_size : ℕ) (result : GenerateResult)
    → IsBlank result
    → IsBlank (record result { reason = reason; world_size = world_size })
same-IsBlank reason world_size result blank = record {
  bad = blank.bad;
  none_committed = blank.none_committed;
  rank0_none = blank.rank0_none;
  rank1_none = blank.rank1_none;
}

stopped-IsSound :
    (reason : Bytes) (result : GenerateResult)
    → IsBlank result
    → IsSound (record result { reason = reason })
stopped-IsSound reason result blank =
    blank-IsSound (record result { reason = reason })
      (same-IsBlank reason result.world_size result blank)

generate_single-IsSound :
    (world : World) (result : GenerateResult)
    → result.world_size ≡ 1
    → Ensures IsSound (generate_single world result)
unfolding generate_single
generate_single-IsSound world result one = Ensures-bind_any IsSound world.rank0 _ λ p. record {
  refused = λ h. cc;
  counted = λ h. refl;
  rank0 = λ h. (refl, refl);
  rank1 = λ h two. absurd (omega (arith, one, two));
}

run_pair-IsSound :
    (world : World) (mode : Bytes) (new_tokens : ℕ) (result : GenerateResult)
    → IsBlank result
    → Ensures IsSound (run_pair world mode new_tokens result)
unfolding run_pair
run_pair-IsSound world mode new_tokens result blank = Ensures-bind_any IsSound world.rank0 _ λ p.
    Ensures-bind_any IsSound (recv_reply new_tokens world.link) _
      λ reply. conclude_pair-IsSound mode new_tokens p reply world.child_ok result blank

-- A result on which nothing was committed yet may be returned with a reason.
stop_if-IsSound :
    (test : Bool) (reason : Bytes) (result : GenerateResult) (more : Result GenerateResult)
    → IsBlank result
    → Ensures IsSound more
    → Ensures IsSound (stop_if test reason result more)
unfolding stop_if
stop_if-IsSound true reason result more blank h = stopped-IsSound reason result blank
stop_if-IsSound false reason result more blank h = h

generate_pair-IsSound :
    (world : World) (mode : Bytes) (new_tokens : ℕ) (draft_given : Bool) (result : GenerateResult)
    → IsBlank result
    → Ensures IsSound (generate_pair world mode new_tokens draft_given result)
unfolding generate_pair
generate_pair-IsSound world mode new_tokens draft_given result blank =
    stop_if-IsSound _ _ result _ blank (
      stop_if-IsSound _ _ result _ blank (
        Ensures-if IsSound world.nonblock _ _
          (stop_if-IsSound _ _ result _ blank (run_pair-IsSound world mode new_tokens result blank))
          tt))

generate_checked-IsSound :
    (world : World) (mode : Bytes) (budget : Option ℕ) (draft_given : Bool)
    (result : GenerateResult)
    → IsBlank result
    → result.world_size ≡ 1
    → Ensures IsSound (generate_checked world mode budget draft_given result)
unfolding generate_checked
generate_checked-IsSound world mode none draft_given result blank one =
    stopped-IsSound (text "new_tokens_out_of_range") result blank
generate_checked-IsSound world mode (some n) draft_given result blank one =
    Ensures-if IsSound _ _ _ (generate_single-IsSound world result one) (
      generate_pair-IsSound world mode n draft_given (record result { world_size = 2 })
        (same-IsBlank result.reason 2 result blank))

fresh : IsBlank blank_generated
fresh = record { bad = refl; none_committed = refl; rank0_none = refl; rank1_none = refl }

generate_prompt-IsSound :
    (world : World) (mode : Bytes) (new_tokens : ℤ) (draft_given : Bool)
    (prompt : Option (Bytes × List Token))
    → Ensures IsSound (generate_prompt world mode new_tokens draft_given prompt)
unfolding generate_prompt
generate_prompt-IsSound world mode new_tokens draft_given none =
    stopped-IsSound (text "unknown_prompt") blank_generated fresh
generate_prompt-IsSound world mode new_tokens draft_given (some (words, tokens)) =
    let result = record blank_generated { prompt_text = words; prompt_tokens = tokens } in
    let blank : IsBlank result = record {
      bad = refl;
      none_committed = refl;
      rank0_none = refl;
      rank1_none = refl;
    } in
    stop_if-IsSound _ _ result _ blank
      (generate_checked-IsSound world mode (token_budget new_tokens) draft_given result blank refl)

-- Every result of `generate_text` is sound, whatever the ranks do and the link carries: one that is
-- not good has committed nothing on any rank, and a good one has committed all of its tokens on rank
-- 0, and the same tokens on rank 1 in a world of two.
pub generate_text-IsSound :
    (world : World) (prompt_id mode : Bytes) (new_tokens : ℤ) (draft_given : Bool)
    (r : GenerateResult)
    → generate_text world prompt_id mode new_tokens draft_given ≡ ok r
    → IsSound r
unfolding generate_text
generate_text-IsSound world prompt_id mode new_tokens draft_given r =
    Ensures-ok IsSound (generate_text world prompt_id mode new_tokens draft_given)
      (generate_prompt-IsSound world mode new_tokens draft_given (fixed_prompt_tokens prompt_id))
