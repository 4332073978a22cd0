-- ===== src/TextForward/Decoding.antt =====
-- src/text_forward.cpp: both ways to decode give the greedy tokens of the model.
use ninfer_nvfp4_glm_5_3_fla.Prelude.{
  ℕ, zero, suc, ◌+◌, ◌≤◌, ◌<◌, ◌≡◌, ◌≢◌, refl, ap, ◌∙◌, true, false, List, [], ◌∷◌, ◌++◌, arith,
  length, length-append, append-nil, append_assoc, All, ok, inl, inr, Bool-cases,
}
use ninfer_nvfp4_glm_5_3_fla.Speculative.{Token}
use ninfer_nvfp4_glm_5_3_fla.DflashLoop.{Target, DflashOutput, is_generation_eos}
use ninfer_nvfp4_glm_5_3_fla.DflashLoop.Greedy.{greedy}
use ninfer_nvfp4_glm_5_3_fla.DflashLoop.Interface.{Decodes, step_from, step_all_runs}
use ninfer_nvfp4_glm_5_3_fla.DflashLoop.Equivalence.{generate_dflash_continuation-greedy}
use ninfer_nvfp4_glm_5_3_fla.TextForward.{
  prime_capture_kda, emit_tokens, greedy_tokens, dflash_tokens,
}

module _ {State Snapshot : Type 0} (model : Target State Snapshot) (history : State → List Token)
    (Ready : State → Type 0) (next : List Token → Token) (vocab limit : ℕ)
    (laws : Decodes model history Ready next vocab limit) where
  -- The next token after a known history.
  argmax_from :
      (s : State) (h : List Token)
      → history s ≡ h
      → Ready s
      → (s' : State) × (model.argmax s ≡ (ok (next h), s')) × (history s' ≡ h) × Ready s'
  argmax_from s h e ready =
      let (s', run, after, ready') = laws.argmax_runs s ready in
      (s', rw e at run, after ∙ e, ready')

  -- The loop emits the greedy tokens of a known history.
  emit_tokens_runs :
      (n : ℕ) (generated : List Token) (s : State) (h : List Token)
      → history s ≡ h
      → Ready s
      → length h + n ≤ limit
      → (s' : State) × (emit_tokens model n generated s ≡ (ok (generated ++ greedy next n h), s'))
  unfolding emit_tokens greedy
  emit_tokens_runs zero generated s h e ready hl = (s, rw append-nil)
  emit_tokens_runs (suc zero) generated s h e ready hl =
      let (s1, run, after, ready1) = argmax_from s h e ready in
      elim (Bool-cases (is_generation_eos (next h))) [
        | inl eos ↦ (s1, rw run (rw eos refl))
        | inr go ↦ (s1, rw run (rw go refl))
      ]
  emit_tokens_runs (suc (suc n)) generated s h e ready hl =
      let (s1, run, after, ready1) = argmax_from s h e ready in
      let (s2, run2, after2, ready2) =
        step_from model history Ready next vocab limit laws (next h) s1 h after
          (laws.next_in_vocab h) (omega arith) in
      let (s3, run3) =
        emit_tokens_runs (suc n) (generated ++ next h ∷ []) s2 (h ++ next h ∷ []) after2 ready2
          (omega (arith, length-append {0} h (next h ∷ []))) in
      elim (Bool-cases (is_generation_eos (next h))) [
        | inl eos ↦ (s1, rw run (rw eos refl))
        | inr go ↦ (
          s3,
          rw run (
              rw go (
                rw run2 (
                  rw (append_assoc generated (next h ∷ []) (greedy next (suc n) (h ++ next h ∷ [])))
                    at run3))),
        )
      ]

  -- What the decoding of a prompt gives: the greedy tokens behind the prompt.
  greedy_tokens_runs :
      (clear : State → State) (prompt : List Token) (n : ℕ) (s s0 : State)
      → prime_capture_kda model clear s ≡ (ok tt, s0)
      → All (λ t. t < vocab) prompt
      → prompt ≢ []
      → length (history s0) + length prompt + n ≤ limit
      → (s' : State) × (greedy_tokens model clear prompt n s
          ≡ (ok (greedy next n (history s0 ++ prompt)), s'))
  unfolding greedy_tokens
  greedy_tokens_runs clear prompt n s s0 primed hv ne hl =
      let (s1, run1, after1, ready1) =
        step_all_runs model history Ready next vocab limit laws prompt (model.set_capture true s0)
          (history s0) (laws.capture_keeps true s0) hv (omega arith) in
      let (s2, run2) =
        emit_tokens_runs n [] (model.set_capture false s1) (history s0 ++ prompt)
          (laws.capture_keeps false s1 ∙ after1) (laws.capture_ready false s1 (ready1 (inr ne)))
          (omega (arith, length-append {0} (history s0) prompt)) in
      (s2, rw primed (rw run1 run2))

  -- Decoding with the draft model gives the tokens of plain greedy decoding, whatever it proposes:
  -- for a prompt that is not empty, of a vocabulary with token 0, a cache with room for the
  -- priming token, the run and the overshoot of its last verification, and a way to clear it that
  -- adds no token, both calls return, with the greedy tokens of the primed model behind the prompt.
  pub dflash_tokens-greedy_tokens :
      (clear : State → State) (prompt : List Token) (n : ℕ) (s : State)
      → ((s' : State) → length (history (clear s')) ≤ length (history s'))
      → 0 < vocab
      → All (λ t. t < vocab) prompt
      → prompt ≢ []
      → length (history s) + 1 + length prompt + n + 6 ≤ limit
      → (s0 s1 s2 : State) × (out : DflashOutput) × (prime_capture_kda model clear s ≡ (ok tt, s0))
        × (greedy_tokens model clear prompt n s ≡ (ok out.tokens, s1))
        × (dflash_tokens model clear prompt n s ≡ (ok out, s2))
        × (out.tokens ≡ greedy next n (history s0 ++ prompt))
  unfolding prime_capture_kda dflash_tokens
  dflash_tokens-greedy_tokens clear prompt n s shrinks h0 hv ne hl =
      let (p, run, after, ready) = laws.step_runs 0 s h0 (omega arith) in
      let primed : prime_capture_kda model clear s ≡ (ok tt, clear p) = rw run refl in
      let room : length (history (clear p)) ≤ length (history s) + 1 =
        omega (arith, shrinks p, ap length after, length-append {0} (history s) (0 ∷ [])) in
      let (s1, plain) = greedy_tokens_runs clear prompt n s (clear p) primed hv ne (omega arith) in
      let drafted =
        generate_dflash_continuation-greedy model history Ready next vocab limit laws prompt n
          (clear p) hv (inr ne) (omega arith) in
      (
        clear p,
        s1,
        drafted.after,
        drafted.final,
        primed,
        rw drafted.tokens plain,
        rw run drafted.returns,
        drafted.tokens,
      )
