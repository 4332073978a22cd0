-- ===== src/TextForward.antt =====
-- src/text_forward.cpp: how tokens are produced from a prompt, above the model's own arithmetic.
pub mod Decoding
pub mod Link
pub mod Wire
pub mod Generate
pub mod Agreement
pub mod Generated
pub mod Paired
pub mod Peer
pub mod Mirror
pub mod Rows
pub mod Gathered
pub mod Bf16
mod Tests
use ninfer_nvfp4_glm_5_3_fla.Prelude.{
  ℕ, zero, suc, ◌+◌, Bool, true, false, ok, Option, none, some, List, [], ◌∷◌, ◌++◌, if◌then◌else◌,
  text, Bytes, eq_list,
}
use ninfer_nvfp4_glm_5_3_fla.Speculative.{Token}
use ninfer_nvfp4_glm_5_3_fla.DflashLoop.{
  Method, continue, ◌>>=◌, ◌>>◌, pure, Target, DflashOutput, is_generation_eos, step_all,
  generate_dflash_continuation,
}

-- The one prompt there is, its text and its tokens.
unfoldable pub fixed_prompt_tokens : Bytes → Option (Bytes × List Token)
fixed_prompt_tokens prompt_id =
    if eq_list prompt_id (text "fixed-text-v1") then some (text "Hi", 13041 ∷ []) else none

module _ {State Snapshot : Type 0} (model : Target State Snapshot) where
  open model use {step, argmax, set_capture}

  -- `clear` empties the caches of the attention layers.
  unfoldable pub prime_capture_kda : (State → State) → Method State (Unit {0})
  prime_capture_kda clear = do step 0; λ s. (ok tt, clear s)

  -- Only a token that another one follows is stepped.
  abbrev pub step_on :
      ℕ → Token → Method State (List Token) → List Token → Method State (List Token)
  step_on zero token more generated = pure generated
  step_on (suc left) token more generated = do step token; more

  -- The loop that emits tokens, with the number of those that are left.
  unfoldable pub emit_tokens : ℕ → List Token → Method State (List Token)
  emit_tokens zero generated = pure generated
  emit_tokens (suc left) generated = do
    token ← argmax
    if is_generation_eos token
        then pure (generated ++ token ∷ [])
        else step_on left token (emit_tokens left (generated ++ token ∷ []))
            (generated ++ token ∷ [])

  unfoldable pub greedy_tokens : (State → State) → List Token → ℕ → Method State (List Token)
  greedy_tokens clear prompt new_tokens =
      prime_capture_kda clear
      >> (λ s. step_all model prompt (set_capture true s))
      >> (λ s. emit_tokens new_tokens [] (set_capture false s))

  -- The output as a whole: the callers take its tokens, its last proposals, its counts and its end.
  unfoldable pub dflash_tokens : (State → State) → List Token → ℕ → Method State DflashOutput
  dflash_tokens clear prompt new_tokens =
      prime_capture_kda clear >> generate_dflash_continuation model prompt new_tokens
