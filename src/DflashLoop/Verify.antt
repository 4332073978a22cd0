-- ===== src/DflashLoop/Verify.antt =====
-- include/ninfer_glm53/dflash_loop.hpp, the `try` block: the verified tokens are the greedy ones, and
-- the model is back at its history.
use Prim.Native.Nat.{min}
use ninfer_nvfp4_glm_5_3_fla.Prelude.{
  ℕ, zero, suc, ◌+◌, ◌≤◌, ◌<◌, ◌≡◌, refl, sym, ap, ◌∙◌, true, List, [], ◌∷◌, ◌++◌, arith, inl, inr,
  length, length-append, append-nil, append_assoc, All, ok, take, drop, length-take,
}
use ninfer_nvfp4_glm_5_3_fla.Speculative.{Token, SpecResult, blank_rank, blank_result, copy_prefix}
use ninfer_nvfp4_glm_5_3_fla.Speculative.Prefix.{IsLongestMatch, match_prefix_unique}
use ninfer_nvfp4_glm_5_3_fla.Speculative.Commit.{
  commit_dflash2_lem, take-copy_prefix, get_or-copy_prefix,
}
use ninfer_nvfp4_glm_5_3_fla.DflashLoop.{
  Target, verify_proposals, verify_round, verify_restored, count_matched,
}
use ninfer_nvfp4_glm_5_3_fla.DflashLoop.Greedy.{chain}
use ninfer_nvfp4_glm_5_3_fla.DflashLoop.Interface.{Decodes, step_from}

module _ (next : List Token → Token) where
  -- The target's choices behind each proposal.
  posteriors : List Token → List Token → List Token
  posteriors h [] = []
  posteriors h (p ∷ ps) = next (h ++ p ∷ []) ∷ posteriors (h ++ p ∷ []) ps

  length-posteriors : (h ps : List Token) → length (posteriors h ps) ≡ length ps
  unfolding posteriors
  length-posteriors h [] = refl
  length-posteriors h (p ∷ ps) = ap suc (length-posteriors (h ++ p ∷ []) ps)

  -- While the proposals agree with the choices, the choices are the greedy tokens.
  take-posteriors :
      (m : ℕ) (h ps : List Token)
      → m ≤ length ps
      → take m ps ≡ take m (next h ∷ posteriors h ps)
      → take (suc m) (next h ∷ posteriors h ps) ≡ chain next (suc m) h
  unfolding posteriors chain
  take-posteriors zero h ps hm e = refl
  take-posteriors (suc m) h [] hm e = absurd (omega arith)
  take-posteriors (suc m) h (p ∷ ps) hm e =
      let same : p ≡ next h = cc in
      let rest : take m ps ≡ take m (next (h ++ p ∷ []) ∷ posteriors (h ++ p ∷ []) ps) = cc in
      ap (◌∷◌ (next h)) (
        take-posteriors m (h ++ p ∷ []) ps (omega arith) rest
        ∙ ap (λ q. chain next (suc m) (h ++ q ∷ [])) same)

-- The result of a commit of the first `n` tokens of `posterior`.
abbrev pub committed_result : ℕ → List Token → SpecResult
committed_result n posterior = record {
  tokens = copy_prefix n posterior blank_result.tokens;
  committed = n;
  ranks_agree = true;
}

count_matched-committed :
    (m : ℕ) (ps posterior : List Token)
    → length ps ≡ 7
    → length posterior ≡ 8
    → IsLongestMatch 7 m ps posterior
    → count_matched (committed_result (suc m) posterior) ps ≡ m
unfolding count_matched
count_matched-committed m ps posterior hp hq h =
    let tokens = copy_prefix (suc m) posterior blank_result.tokens in
    let bound = h.within in
    match_prefix_unique (min (suc m) 7) m tokens ps
      (omega (
        arith,
        length-append {0} (take (suc m) posterior) (drop (suc m) blank_result.tokens),
        length-take {0} (suc m) posterior,
      ))
      (omega arith)
      (record {
        within = omega arith;
        agrees =
            take-copy_prefix m (suc m) posterior blank_result.tokens (omega arith) (omega arith)
            ∙ sym h.agrees;
        stops = elim h.stops [
          | inl full ↦ inl (omega arith)
          | inr differs ↦ inr (λ e. differs (
              sym e
              ∙ get_or-copy_prefix m (suc m) posterior blank_result.tokens (omega arith)
                  (omega arith)))
        ];
      })

module _ {State Snapshot : Type 0} (model : Target State Snapshot) (history : State → List Token)
    (Ready : State → Type 0) (next : List Token → Token) (vocab limit : ℕ)
    (laws : Decodes model history Ready next vocab limit) where
  verify_proposals_runs :
      (ps acc : List Token) (s : State) (h : List Token)
      → history s ≡ h
      → All (λ t. t < vocab) ps
      → length h + length ps ≤ limit
      → (s' : State) × (verify_proposals model ps acc s ≡ (ok (acc ++ posteriors next h ps), s'))
  unfolding verify_proposals posteriors
  verify_proposals_runs [] acc s h e hv hl = (s, rw append-nil)
  verify_proposals_runs (p ∷ ps) acc s h e hv hl =
      let (s1, run1, after1, ready1) =
        step_from model history Ready next vocab limit laws p s h e hv.0 (omega arith) in
      let (s2, run2, after2, ready2) = laws.argmax_runs s1 ready1 in
      let (s3, run3) =
        verify_proposals_runs ps (acc ++ next (h ++ p ∷ []) ∷ []) s2 (h ++ p ∷ []) (after2 ∙ after1)
          hv.1 (omega (arith, length-append {0} h (p ∷ []))) in
      (s3, rw (run1, run2, after1) (rw append_assoc at run3))

  -- What a round verifies, from a ready or unready state with history `h`.
  pub record Verified (h : List Token) (anchor : Token) (ps : List Token) (s : State) : Type 0 where
    pub matched : ℕ
    pub result : SpecResult
    pub after : State
    pub bound : matched ≤ 7
    pub runs : verify_restored model anchor ps s ≡ (ok result, after)
    pub kept : history after ≡ h
    pub count : result.committed ≡ suc matched
    pub greedy : take result.committed result.tokens ≡ chain next (suc matched) (h ++ anchor ∷ [])
    pub accepted : count_matched result ps ≡ matched

  pub verify_restored_runs :
      (anchor : Token) (ps : List Token) (s : State) (h : List Token)
      → history s ≡ h
      → anchor < vocab
      → length ps ≡ 7
      → All (λ t. t < vocab) ps
      → length h + 8 ≤ limit
      → Verified h anchor ps s
  unfolding verify_restored verify_round
  verify_restored_runs anchor ps s h e ha hp hv hl =
      let h' = h ++ anchor ∷ [] in
      let (s1, run1, after1, ready1) =
        step_from model history Ready next vocab limit laws anchor s h e ha (omega arith) in
      let (s2, run2, after2, ready2) = laws.argmax_runs s1 ready1 in
      let (s3, run3) =
        verify_proposals_runs ps (next h' ∷ []) s2 h' (after2 ∙ after1) hv
          (omega (arith, length-append {0} h (anchor ∷ []))) in
      let posterior = next h' ∷ posteriors next h' ps in
      let full : length posterior ≡ 8 = omega (arith, length-posteriors next h' ps) in
      let (m, longest, commits) =
        commit_dflash2_lem 7 ps posterior blank_rank blank_rank (omega arith) (omega arith)
          (omega arith) (omega arith) in
      record {
        matched = m;
        result = committed_result (suc m) posterior;
        after = model.restore (model.save s) s3;
        bound = longest.within;
        runs = rw (run1, run2, after1, run3, commits);
        kept = laws.restore_save s s3 ∙ e;
        count = refl;
        greedy =
            take-copy_prefix (suc m) (suc m) posterior blank_result.tokens (omega arith)
              (omega (arith, longest.within))
            ∙ take-posteriors next m h' ps (omega (arith, longest.within)) longest.agrees;
        accepted = count_matched-committed m ps posterior hp full longest;
      }
