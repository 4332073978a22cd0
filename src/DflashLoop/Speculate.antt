-- ===== src/DflashLoop/Speculate.antt =====
-- include/ninfer_glm53/dflash_loop.hpp: one speculative round emits the next greedy tokens.
use Prim.Native.Nat.{min}
use ninfer_nvfp4_glm_5_3_fla.Prelude.{
  ℕ, suc, ◌+◌, ◌-◌, ◌≤◌, ◌<◌, ◌≡◌, ◌≢◌, refl, ap, ◌∙◌, ◌||◌, List, [], ◌∷◌, ◌++◌, arith, length, ok,
  take, if◌then◌else◌, leb,
}
use ninfer_nvfp4_glm_5_3_fla.Speculative.{Token}
use ninfer_nvfp4_glm_5_3_fla.DflashLoop.{
  Target, DflashOutput, eos, budget, cut_at_eos, ends_eos, fit_budget, speculate,
}
use ninfer_nvfp4_glm_5_3_fla.DflashLoop.Greedy.{chain, length-chain}
use ninfer_nvfp4_glm_5_3_fla.DflashLoop.Interface.{Decodes}
use ninfer_nvfp4_glm_5_3_fla.DflashLoop.Verify.{verify_restored_runs}
use ninfer_nvfp4_glm_5_3_fla.DflashLoop.Round.{
  fit_budget-eq-take, All-cut_at_eos, All-chain, take-chain, length-cut_at_eos-le, emit_round_runs,
  stepped,
}

-- The verified round, cut to the budget, is a stretch of the greedy chain.
fitted :
    (next : List Token → Token) (emitted n r m : ℕ) (h tokens : List Token)
    → emitted + r ≡ n
    → tokens ≡ chain next (suc m) (h ++ next h ∷ [])
    → fit_budget emitted n (next h ∷ tokens) ≡ chain next (min r (suc (suc m))) h
unfolding chain
fitted next emitted n r m h tokens hn e =
    let left : n - emitted ≡ r = omega arith in
    fit_budget-eq-take emitted n (next h ∷ tokens) (omega arith)
    ∙ rw (left, e) (take-chain next r (suc (suc m)) h)

module _ {State Snapshot : Type 0} (model : Target State Snapshot) (history : State → List Token)
    (Ready : State → Type 0) (next : List Token → Token) (vocab limit : ℕ)
    (laws : Decodes model history Ready next vocab limit) where
  -- The next round of at most `r` tokens: the first `size` greedy tokens, cut at the end of the
  -- sequence.
  pub record Emitted (n : ℕ) (out : DflashOutput) (s : State) (h : List Token) (r : ℕ)
      : Type 0 where
    pub size : ℕ
    pub final : DflashOutput
    pub after : State
    pub some_token : 0 < size
    pub fits : size ≤ r
    pub runs :
        let round = cut_at_eos (chain next size h) in
        let terminal = ends_eos round || leb n (length out.tokens + length round) in
        speculate model n (next h) out s ≡ (ok (terminal, final), after)
    pub tokens : final.tokens ≡ out.tokens ++ cut_at_eos (chain next size h)
    pub finish :
        let round = cut_at_eos (chain next size h) in
        let terminal = ends_eos round || leb n (length out.tokens + length round) in
        final.finish ≡ (if terminal then (if ends_eos round then eos else budget) else out.finish)
    pub materialized :
        let round = cut_at_eos (chain next size h) in
        let terminal = ends_eos round || leb n (length out.tokens + length round) in
        final.materialized_generated
        ≡ out.materialized_generated
          ++ stepped model history Ready next vocab limit laws terminal round
    pub cached :
        let round = cut_at_eos (chain next size h) in
        let terminal = ends_eos round || leb n (length out.tokens + length round) in
        history after ≡ h ++ stepped model history Ready next vocab limit laws terminal round
    pub ready :
        let round = cut_at_eos (chain next size h) in
        let terminal = ends_eos round || leb n (length out.tokens + length round) in
        stepped model history Ready next vocab limit laws terminal round ≢ [] → Ready after
    pub accepted : final.accepted_drafts ≤ out.accepted_drafts + 7
    pub counted : final.verify_rounds ≡ out.verify_rounds + 1

  pub speculate_runs :
      (n : ℕ) (out : DflashOutput) (s : State) (h : List Token) (r : ℕ)
      → length out.tokens + r ≡ n
      → 2 ≤ r
      → history s ≡ h
      → length h + r + 6 ≤ limit
      → Emitted n out s h r
  unfolding speculate
  speculate_runs n out s h r hn hr e hl =
      let (ps, s1, run1, hp, hv, kept1) = laws.propose_runs (next h) s in
      let v =
        verify_restored_runs model history Ready next vocab limit laws (next h) ps s1 h (kept1 ∙ e)
          (laws.next_in_vocab h) hp hv (omega arith) in
      let size = min r (suc (suc v.matched)) in
      let round = cut_at_eos (chain next size h) in
      let shape : cut_at_eos
            (fit_budget (length out.tokens) n (next h ∷ take v.result.committed v.result.tokens))
          ≡ round =
        ap cut_at_eos (
          fitted next (length out.tokens) n r v.matched h (take v.result.committed v.result.tokens)
            hn v.greedy) in
      let (s2, run2, after2, ready2) =
        emit_round_runs model history Ready next vocab limit laws n v.matched round
          (record out { last_proposals = ps }) v.after h v.kept
          (All-cut_at_eos vocab (chain next size h)
            (All-chain next vocab size h laws.next_in_vocab))
          (omega (arith, length-cut_at_eos-le (chain next size h), length-chain next size h)) in
      record {
        size = size;
        final = record {
          tokens = out.tokens ++ round;
          finish =
              if ends_eos round || leb n (length out.tokens + length round)
              then (if ends_eos round then eos else budget)
              else out.finish;
          accepted_drafts = out.accepted_drafts + v.matched;
          verify_rounds = out.verify_rounds + 1;
          last_proposals = ps;
          materialized_generated =
              out.materialized_generated
              ++ stepped model history Ready next vocab limit laws
                  (ends_eos round || leb n (length out.tokens + length round)) round;
        };
        after = s2;
        some_token = omega arith;
        fits = omega arith;
        runs = rw (run1, hp, v.runs, v.accepted, shape) run2;
        tokens = refl;
        finish = refl;
        materialized = refl;
        cached = after2;
        ready = ready2;
        accepted = omega (arith, v.bound);
        counted = refl;
      }
