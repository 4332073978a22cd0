-- ===== src/DflashLoop/Continuation.antt =====
-- include/ninfer_glm53/dflash_loop.hpp: the loop over the rounds gives the greedy tokens.
use native.Mathlib.Decide.{ℕ_discrete}
use ninfer_nvfp4_glm_5_3_fla.Prelude.{
  ℕ, zero, suc, ◌+◌, ◌*◌, ◌-◌, ◌≤◌, ◌<◌, ◌≡◌, ◌≢◌, refl, sym, ap, ◌∙◌, Bool, true, false, ◌||◌,
  List, [], ◌∷◌, ◌++◌, arith, length, length-append, Result, ok, if◌then◌else◌, leb, ltb, ◌==◌,
  Bool-cases, inl, inr, append-nil, append_assoc,
}
use ninfer_nvfp4_glm_5_3_fla.Speculative.{Token}
use ninfer_nvfp4_glm_5_3_fla.DflashLoop.{
  Target, DflashOutput, Finish, eos, budget, is_generation_eos, cut_at_eos, ends_eos, loop_body,
  generate_rounds,
}
use ninfer_nvfp4_glm_5_3_fla.DflashLoop.Greedy.{chain, greedy}
use ninfer_nvfp4_glm_5_3_fla.DflashLoop.Interface.{Decodes}
use ninfer_nvfp4_glm_5_3_fla.DflashLoop.Speculate.{Emitted, speculate_runs}
use ninfer_nvfp4_glm_5_3_fla.DflashLoop.Tokens.{
  all_but_last, all_but_last-append, take-all_but_last, finish_of, materialize_count-last,
  greedy-ne-nil, finish_of-append, stepped_all, greedy-split, greedy-zero, greedy-eos, greedy-one,
  length-uncut,
}

module _ {State : Type 0} (history : State → List Token) (next : List Token → Token) where
  -- The result of the loop from `out`, `h` with `r` tokens left: the greedy continuation is
  -- emitted, and all of it but the last token is cached.
  pub record Continues (out : DflashOutput) (h : List Token) (r : ℕ)
      (result : Result DflashOutput × State) : Type 0 where
    pub final : DflashOutput
    pub after : State
    pub returns : result ≡ (ok final, after)
    pub tokens : final.tokens ≡ out.tokens ++ greedy next r h
    pub finish : final.finish ≡ finish_of out.finish r (greedy next r h)
    pub materialized :
        final.materialized_generated ≡ out.materialized_generated ++ all_but_last (greedy next r h)
    pub cached : history after ≡ h ++ all_but_last (greedy next r h)
    pub accepted :
        final.accepted_drafts + 7 * out.verify_rounds
        ≤ out.accepted_drafts + 7 * final.verify_rounds

module _ {State Snapshot : Type 0} (model : Target State Snapshot) (history : State → List Token)
    (Ready : State → Type 0) (next : List Token → Token) (vocab limit : ℕ)
    (laws : Decodes model history Ready next vocab limit) where
  pub runs_as :
      {out : DflashOutput} {h : List Token} {r : ℕ} {result result' : Result DflashOutput × State}
      → result ≡ result'
      → Continues history next out h r result'
      → Continues history next out h r result
  runs_as e c = record {
    final = c.final;
    after = c.after;
    returns = e ∙ c.returns;
    tokens = c.tokens;
    finish = c.finish;
    materialized = c.materialized;
    cached = c.cached;
    accepted = c.accepted;
  }

  -- What the loop tests after a round.
  abbrev round_of : ℕ → List Token → List Token
  round_of size h = cut_at_eos (chain next size h)

  abbrev is_terminal : ℕ → DflashOutput → List Token → Bool
  is_terminal n out round = ends_eos round || leb n (length out.tokens + length round)

  -- A round that ends the run met an end-of-sequence token, or took all that was left.
  last_round :
      (n : ℕ) (out : DflashOutput) (s : State) (h : List Token) (r : ℕ)
      → (em : Emitted model history Ready next vocab limit laws n out s h (suc r))
      → is_terminal n out (round_of em.size h) ≡ true
      → greedy next (suc r) h ≡ round_of em.size h
      → Continues history next out h (suc r) (ok em.final, em.after)
  last_round n out s h r em terminal whole =
      let round = round_of em.size h in
      record {
        final = em.final;
        after = em.after;
        returns = refl;
        tokens = rw whole em.tokens;
        finish = rw whole (rw terminal at em.finish);
        materialized =
            rw (whole, ← take-all_but_last round, ← materialize_count-last)
              (rw terminal at em.materialized);
        cached =
            rw (whole, ← take-all_but_last round, ← materialize_count-last)
              (rw terminal at em.cached);
        accepted = omega (arith, em.accepted, em.counted);
      }

  -- After a round that does not end the run, the rest of the loop gives the rest of the tokens.
  middle_round :
      (n : ℕ) (out : DflashOutput) (s : State) (h : List Token) (r : ℕ)
      → (em : Emitted model history Ready next vocab limit laws n out s h r)
      → is_terminal n out (round_of em.size h) ≡ false
      → ends_eos (round_of em.size h) ≡ false
      → em.size < r
      → (result : Result DflashOutput × State)
      → Continues history next em.final (h ++ round_of em.size h) (r - em.size) result
      → Continues history next out h r result
  middle_round n out s h r em terminal running smaller result rest =
      let round = round_of em.size h in
      let tail = greedy next (r - em.size) (h ++ round) in
      let split : greedy next r h ≡ round ++ tail =
        greedy-split next em.size r h em.fits ∙ rw running in
      let ne : tail ≢ [] = greedy-ne-nil next (r - em.size) (h ++ round) (omega (arith, smaller)) in
      record {
        final = rest.final;
        after = rest.after;
        returns = rest.returns;
        tokens = rw split (rest.tokens ∙ rw em.tokens (append_assoc out.tokens round tail));
        finish = rw split (
            rest.finish
            ∙ finish_of-append out.finish em.final.finish r (r - em.size) round tail
                (omega (arith, smaller)) (omega (arith, smaller)) ne);
        materialized =
            rw (split, all_but_last-append round tail ne)
              (rest.materialized
                ∙ rw (em.materialized, terminal, stepped_all round)
                    (append_assoc out.materialized_generated round (all_but_last tail)));
        cached =
            rw (split, all_but_last-append round tail ne)
              (rest.cached ∙ append_assoc h round (all_but_last tail));
        accepted = omega (arith, em.accepted, em.counted, rest.accepted);
      }

  -- One round from `speculate`, and the rest of the loop after it.
  after_round :
      (n : ℕ) (out : DflashOutput) (s : State) (h : List Token) (r : ℕ)
      → length out.tokens + suc (suc r) ≡ n
      → length h + suc (suc r) + 6 ≤ limit
      → (em : Emitted model history Ready next vocab limit laws n out s h (suc (suc r)))
      → (fuel : ℕ) → suc r < fuel
      → ((o : DflashOutput) (t : State) (g : List Token) (k : ℕ)
          → length o.tokens + k ≡ n
          → k < fuel
          → history t ≡ g
          → Ready t
          → length g + k + 6 ≤ limit
          → Continues history next o g k (generate_rounds model fuel n o t))
      → Continues history next out h (suc (suc r)) (elim (is_terminal n out (round_of em.size h)) [
        | true ↦ (ok em.final, em.after)
        | false ↦ generate_rounds model fuel n em.final em.after
      ])
  after_round n out s h r hn hl em fuel hf loop =
      let round = round_of em.size h in
      let split = greedy-split next em.size (suc (suc r)) h em.fits in
      elim (Bool-cases (ends_eos round)) [
        | inl done ↦
            let terminal : is_terminal n out round ≡ true = rw done in
            rw terminal
              (last_round n out s h (suc r) em terminal (split ∙ rw done (append-nil round)))
        | inr running ↦
            let size = length-uncut next em.size h running in
            elim (ℕ_discrete em.size (suc (suc r))) [
              | yes full ↦
                  let filled : leb n (length out.tokens + length round) ≡ true =
                    ground (arith, size) in
                  let terminal : is_terminal n out round ≡ true = rw (running, filled) in
                  let none_left : suc (suc r) - em.size ≡ 0 = omega arith in
                  rw terminal (
                    last_round n out s h (suc r) em terminal
                      (split ∙ rw (running, none_left, greedy-zero) (append-nil round)))
              | no less ↦
                  let smaller : em.size < suc (suc r) = omega (arith, em.fits) in
                  let open_end : leb n (length out.tokens + length round) ≡ false =
                    ground (arith, size) in
                  let terminal : is_terminal n out round ≡ false = rw (running, open_end) in
                  let count : length em.final.tokens ≡ length out.tokens + em.size =
                    ap length em.tokens ∙ omega (arith, length-append {0} out.tokens round, size) in
                  let cached : history em.after ≡ h ++ round =
                    rw (terminal, stepped_all round) at em.cached in
                  let ne : round ≢ [] =
                    λ e. absurd (omega (arith, ap length e, size, em.some_token)) in
                  let ready : Ready em.after = em.ready (rw (terminal, stepped_all round) ne) in
                  rw terminal (
                    middle_round n out s h (suc (suc r)) em terminal running smaller _ (
                      loop em.final em.after (h ++ round) (suc (suc r) - em.size)
                        (omega (arith, count, em.fits)) (omega (arith, em.some_token)) cached ready
                        (omega (arith, length-append {0} h round, size, em.fits))))
            ]
      ]

  -- A run that stops at its anchor: it is the end of the sequence, or the last token of the budget.
  anchor_only :
      (out : DflashOutput) (h : List Token) (r : ℕ) (s : State) (f : Finish)
      → greedy next (suc r) h ≡ next h ∷ []
      → f ≡ (if is_generation_eos (next h) then eos else budget)
      → history s ≡ h
      → Continues history next out h
          (suc r)
          (ok (record out { tokens = out.tokens ++ next h ∷ []; finish = f }), s)
  unfolding ends_eos
  anchor_only out h r s f whole hf e = record {
    final = record out { tokens = out.tokens ++ next h ∷ []; finish = f };
    after = s;
    returns = refl;
    tokens = rw whole;
    finish = rw whole hf;
    materialized = rw whole (sym (append-nil out.materialized_generated));
    cached = rw (whole, append-nil) e;
    accepted = omega arith;
  }

  -- The loop with enough fuel, from a ready state.
  pub rounds_run :
      (fuel n : ℕ) (out : DflashOutput) (s : State) (h : List Token) (r : ℕ)
      → length out.tokens + r ≡ n
      → r < fuel
      → history s ≡ h
      → Ready s
      → length h + r + 6 ≤ limit
      → Continues history next out h r (generate_rounds model fuel n out s)
  unfolding generate_rounds loop_body
  rounds_run zero n out s h r hn hf e ready hl = absurd (omega arith)
  rounds_run (suc fuel) n out s h zero hn hf e ready hl =
      let stop : ltb (length out.tokens) n ≡ false = ground arith in
      record {
        final = out;
        after = s;
        returns = rw (stop, generate_rounds);
        tokens = rw greedy-zero (sym (append-nil out.tokens));
        finish = refl;
        materialized = rw greedy-zero (sym (append-nil out.materialized_generated));
        cached = rw greedy-zero (e ∙ sym (append-nil h));
        accepted = omega arith;
      }
  rounds_run (suc fuel) n out s h (suc zero) hn hf e ready hl =
      let going : ltb (length out.tokens) n ≡ true = ground arith in
      let last : (length out.tokens + 1 == n) ≡ true = ground arith in
      let (s1, run1, kept1, ready1) = laws.argmax_runs s ready in
      elim (Bool-cases (is_generation_eos (next h))) [
        | inl stops ↦
            runs_as (rw (going, generate_rounds, run1, e, stops))
              (anchor_only out h 0 s1 eos (greedy-eos next 0 h stops) (rw stops) (kept1 ∙ e))
        | inr goes ↦
            runs_as (rw (going, generate_rounds, run1, e, goes, last))
              (anchor_only out h 0 s1 budget (greedy-one next h) (rw goes) (kept1 ∙ e))
      ]
  rounds_run (suc fuel) n out s h (suc (suc r)) hn hf e ready hl =
      let going : ltb (length out.tokens) n ≡ true = ground arith in
      let more : (length out.tokens + 1 == n) ≡ false = ground arith in
      let (s1, run1, kept1, ready1) = laws.argmax_runs s ready in
      let em =
        speculate_runs model history Ready next vocab limit laws n out s1 h (suc (suc r)) hn
          (omega arith) (kept1 ∙ e) hl in
      elim (Bool-cases (is_generation_eos (next h))) [
        | inl stops ↦ runs_as (rw (going, generate_rounds, run1, e, stops)) (
            anchor_only out h (suc r) s1 eos (greedy-eos next (suc r) h stops) (rw stops)
              (kept1 ∙ e))
        | inr goes ↦
            runs_as (rw (going, generate_rounds, run1, e, goes, more, em.runs))
              (after_round n out s1 h r hn hl em fuel (omega arith) (rounds_run fuel n))
      ]
