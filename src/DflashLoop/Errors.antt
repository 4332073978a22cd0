-- ===== src/DflashLoop/Errors.antt =====
-- include/ninfer_glm53/dflash_loop.hpp: what an exception leaves behind.
use ninfer_nvfp4_glm_5_3_fla.Prelude.{
  ℕ, ◌≡◌, ◌≢◌, List, false, arith, text, runtime_error, Result, ok, threw, length, ◌==◌,
}
use ninfer_nvfp4_glm_5_3_fla.Speculative.{Token, dflash_proposals}
use ninfer_nvfp4_glm_5_3_fla.DflashLoop.{
  Target, DflashOutput, restoring, verify_round, verify_restored, speculate,
}

module _ {State Snapshot : Type 0} (model : Target State Snapshot) (history : State → List Token)
    (restores : (s s' : State) → history (model.restore (model.save s) s') ≡ history s) where
  restoring-history :
      {A : Type 0} (s : State) (r : Result A × State)
      → history (restoring model (model.save s) r).1 ≡ history s
  restoring-history s (ok a, s') = restores s s'
  restoring-history s (threw e, s') = restores s s'

  -- Where restoring a snapshot brings back the cached tokens that were saved, a verification leaves
  -- them as they were, whether it ends normally or throws.
  pub verify_restored-history :
      (anchor : Token) (proposals : List Token) (s : State)
      → history (verify_restored model anchor proposals s).1 ≡ history s
  unfolding verify_restored
  verify_restored-history anchor proposals s =
      restoring-history s (verify_round model anchor proposals s)

module _ {State Snapshot : Type 0} (model : Target State Snapshot) where
  -- Where the proposer gives another number of tokens than seven, the call throws in the state that
  -- the proposer left: nothing is verified.
  pub speculate_miscounted :
      (n : ℕ) (anchor : Token) (out : DflashOutput) (s s1 : State) (proposals : List Token)
      → model.propose anchor s ≡ (ok proposals, s1)
      → length proposals ≢ dflash_proposals
      → speculate model n anchor out s ≡ (threw (runtime_error (text "DFlash proposal count")), s1)
  unfolding speculate
  speculate_miscounted n anchor out s s1 proposals run count =
      let miss : (length proposals == dflash_proposals) ≡ false = ground arith in rw (run, miss)
