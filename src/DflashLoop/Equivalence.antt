-- ===== src/DflashLoop/Equivalence.antt =====
-- include/ninfer_glm53/dflash_loop.hpp: a DFlash2 continuation is the greedy continuation of the target.
use ninfer_nvfp4_glm_5_3_fla.Prelude.{
  ℕ, suc, ◌+◌, ◌≤◌, ◌<◌, ◌≢◌, ◌∙◌, true, false, List, [], ◌++◌, arith, length, length-append, All,
  inl, inr, ◌⊎◌,
}
use ninfer_nvfp4_glm_5_3_fla.Speculative.{Token}
use ninfer_nvfp4_glm_5_3_fla.DflashLoop.{Target, blank_output, generate_dflash_continuation}
use ninfer_nvfp4_glm_5_3_fla.DflashLoop.Interface.{Decodes, step_all_runs}
use ninfer_nvfp4_glm_5_3_fla.DflashLoop.Continuation.{Continues, runs_as, rounds_run}

module _ {State Snapshot : Type 0} (model : Target State Snapshot) (history : State → List Token)
    (Ready : State → Type 0) (next : List Token → Token) (vocab limit : ℕ)
    (laws : Decodes model history Ready next vocab limit) where
  -- Whatever the proposer suggests, the continuation is the greedy one: for a prompt that is not
  -- empty, or a model that is ready, tokens of the vocabulary, and a cache with room for the run and
  -- the overshoot of its last verification, the call returns within its fuel, with the greedy
  -- tokens of the target, the reason for which they end, and as many accepted drafts as seven a
  -- round at most; the model has cached the prompt and all tokens but the last, and none of the
  -- rejected proposals.
  pub generate_dflash_continuation-greedy :
      (prompt : List Token) (n : ℕ) (s : State)
      → All (λ t. t < vocab) prompt
      → Ready s ⊎ (prompt ≢ [])
      → length (history s) + length prompt + n + 6 ≤ limit
      → Continues history next blank_output
          (history s ++ prompt)
          n
          (generate_dflash_continuation model prompt n s)
  unfolding generate_dflash_continuation
  generate_dflash_continuation-greedy prompt n s hv start hl =
      let s0 = model.set_capture true s in
      let (s1, run1, after1, ready1) =
        step_all_runs model history Ready next vocab limit laws prompt s0 (history s)
          (laws.capture_keeps true s) hv (omega arith) in
      let ready0 : Ready s0 ⊎ (prompt ≢ []) = elim start [
        | inl r ↦ inl (laws.capture_ready true s r)
        | inr ne ↦ inr ne
      ] in
      runs_as model history Ready next vocab limit laws (rw (run1, generate_dflash_continuation)) (
        rounds_run model history Ready next vocab limit laws (suc n) n blank_output
          (model.set_capture false s1) (history s ++ prompt) n (omega arith) (omega arith)
          (laws.capture_keeps false s1 ∙ after1) (laws.capture_ready false s1 (ready1 ready0))
          (omega (arith, length-append {0} (history s) prompt)))
