-- ===== src/DflashLoop.antt =====
-- include/ninfer_glm53/dflash_loop.hpp: one temperature-0 continuation with DFlash2 proposals.
pub mod Greedy
pub mod Interface
pub mod Verify
pub mod Round
pub mod Speculate
pub mod Tokens
pub mod Continuation
pub mod Equivalence
pub mod Errors
pub mod Tests
use Prim.Native.Nat.{min}
use ninfer_nvfp4_glm_5_3_fla.Prelude.{
  ℕ, zero, suc, ◌+◌, ◌-◌, Bool, true, false, ◌&&◌, ◌||◌, List, [], ◌∷◌, ◌++◌, some, ltb, leb, ◌==◌,
  if◌then◌else◌, text, Exception, runtime_error, logic_error, Result, ok, threw, length, take,
}
use ninfer_nvfp4_glm_5_3_fla.Speculative.{
  Token, SpecResult, blank_rank, dflash_proposals, match_prefix, commit_dflash2,
}

unfoldable pub is_generation_eos : Token → Bool
is_generation_eos token = token == 154820 || token == 154827 || token == 154829

-- The three values of the string `finish`: "", "eos" and "budget".
pub data Finish : Type 0 where
  unfinished eos budget : Finish

pub record DflashOutput : Type 0 where
  pub tokens : List Token
  pub finish : Finish
  pub accepted_drafts : ℕ
  pub verify_rounds : ℕ
  pub last_proposals : List Token
  pub materialized_generated : List Token

abbrev pub blank_output : DflashOutput
blank_output = record {
  tokens = [];
  finish = unfinished;
  accepted_drafts = 0;
  verify_rounds = 0;
  last_proposals = [];
  materialized_generated = [];
}

-- A method of the model: it may throw, and leaves the model in the state it reached.
abbrev pub Method : Type 0 → Type 0 → Type 0
Method State A = State → Result A × State

abbrev pub continue :
    {State A B : Type 0} → Result A × State → (A → Method State B) → Result B × State
continue (ok a, s) f = f a s
continue (threw e, s) f = (threw e, s)

infixl 5 ◌>>=◌ ◌>>◌
abbrev pub ◌>>=◌ : {State A B : Type 0} → Method State A → (A → Method State B) → Method State B
◌>>=◌ m f s = continue (m s) f

abbrev pub ◌>>◌ : {State B : Type 0} → Method State (Unit {0}) → Method State B → Method State B
m >> k = m >>= λ _. k

abbrev pub pure : {State A : Type 0} → A → Method State A
pure a s = (ok a, s)

abbrev pub throw : {State A : Type 0} → Exception → Method State A
throw e s = (threw e, s)

-- The template parameters `Model` and `Propose`. The proposer reads and may change the model.
pub record Target (State Snapshot : Type 0) : Type 0 where
  pub set_capture : Bool → State → State
  pub step : Token → Method State (Unit {0})
  pub argmax : Method State Token
  pub save : State → Snapshot
  pub restore : Snapshot → State → State
  pub propose : Token → Method State (List Token)

-- Stops the round behind its first end-of-sequence token.
unfoldable pub cut_at_eos : List Token → List Token
cut_at_eos [] = []
cut_at_eos (t ∷ ts) = t ∷ (if is_generation_eos t then [] else cut_at_eos ts)

-- `!round.empty() && is_generation_eos(round.back())`
unfoldable pub ends_eos : List Token → Bool
ends_eos [] = false
ends_eos (t ∷ []) = is_generation_eos t
ends_eos (t ∷ u ∷ ts) = ends_eos (u ∷ ts)

-- `if (remaining >= 0 && round.size() > remaining) round.resize(remaining);`
unfoldable pub fit_budget : ℕ → ℕ → List Token → List Token
fit_budget emitted new_tokens round =
    if leb emitted new_tokens && ltb (new_tokens - emitted) (length round)
    then take (new_tokens - emitted) round
    else round

-- The count of matched drafts that the loop takes from the commit.
unfoldable pub count_matched : SpecResult → List Token → ℕ
count_matched commit proposals =
    match_prefix (min commit.committed dflash_proposals) commit.tokens proposals

-- How many tokens of the round are stepped: not the last one of a terminal round.
unfoldable pub materialize_count : Bool → ℕ → ℕ
materialize_count terminal size = if terminal && ltb 0 size then size - 1 else size

module _ {State Snapshot : Type 0} (model : Target State Snapshot) where
  open model use {set_capture, step, argmax, save, restore, propose}

  -- `for (token : prompt) model.step(token);`
  unfoldable pub step_all : List Token → Method State (Unit {0})
  step_all [] = pure tt
  step_all (t ∷ ts) = do step t; step_all ts

  unfoldable pub verify_proposals : List Token → List Token → Method State (List Token)
  verify_proposals [] posterior = pure posterior
  verify_proposals (p ∷ ps) posterior = do
    step p
    t ← argmax
    verify_proposals ps (posterior ++ t ∷ [])

  -- The body of the `try` block.
  unfoldable pub verify_round : Token → List Token → Method State SpecResult
  verify_round anchor proposals = do
    step anchor
    t ← argmax
    posterior ← verify_proposals proposals (t ∷ [])
    let commit =
        (commit_dflash2 (some proposals) dflash_proposals (some posterior) (some blank_rank)
          (some blank_rank)).0
    if commit.ranks_agree then pure commit else throw (runtime_error (text "dflash ranks disagree"))

  -- The snapshot is restored on the way out, by an exception and by the normal end.
  abbrev pub restoring : {A : Type 0} → Snapshot → Result A × State → Result A × State
  restoring snapshot (ok a, s) = (ok a, restore snapshot s)
  restoring snapshot (threw e, s) = (threw e, restore snapshot s)

  unfoldable pub verify_restored : Token → List Token → Method State SpecResult
  unfolding verify_round
  verify_restored anchor proposals s = restoring (save s) (verify_round anchor proposals s)

  unfoldable pub materialize : List Token → DflashOutput → Method State DflashOutput
  materialize [] out = pure out
  materialize (t ∷ ts) out = do
    step t
    materialize ts (record out { materialized_generated = out.materialized_generated ++ t ∷ [] })

  -- The rest of a round once its tokens are known; the flag is set where the loop breaks.
  unfoldable pub emit_round : ℕ → ℕ → List Token → DflashOutput → Method State (Bool × DflashOutput)
  emit_round new_tokens matched round out = do
    let done = ends_eos round
    let terminal = done || leb new_tokens (length out.tokens + length round)
    out' ← materialize (take (materialize_count terminal (length round)) round) (record out {
      tokens = out.tokens ++ round;
      accepted_drafts = out.accepted_drafts + matched;
      verify_rounds = out.verify_rounds + 1;
    })
    pure (
      terminal,
      record out' { finish = if terminal then (if done then eos else budget) else out'.finish },
    )

  -- The part of the loop's body from the call of `propose` on.
  unfoldable pub speculate : ℕ → Token → DflashOutput → Method State (Bool × DflashOutput)
  speculate new_tokens anchor out = do
    proposals ← propose anchor
    if length proposals == dflash_proposals
        then (do
          commit ← verify_restored anchor proposals
          emit_round new_tokens (count_matched commit proposals)
              (cut_at_eos (
                fit_budget (length out.tokens) new_tokens
                  (anchor ∷ take commit.committed commit.tokens)))
              (record out { last_proposals = proposals }))
        else throw (runtime_error (text "DFlash proposal count"))

  unfoldable pub loop_body : ℕ → DflashOutput → Method State (Bool × DflashOutput)
  loop_body new_tokens out = do
    anchor ← argmax
    if is_generation_eos anchor
        then pure (true, record out { tokens = out.tokens ++ anchor ∷ []; finish = eos })
        else if length out.tokens + 1 == new_tokens
        then pure (true, record out { tokens = out.tokens ++ anchor ∷ []; finish = budget })
        else speculate new_tokens anchor out

  -- `while (out.tokens.size() < new_tokens)`: each round that does not break emits a token, so
  -- `new_tokens` rounds are enough. Fuel that runs out gives a logic error, which the code does not.
  unfoldable pub generate_rounds : ℕ → ℕ → DflashOutput → Method State DflashOutput
  generate_rounds zero new_tokens out s = (threw (logic_error (text "out of fuel")), s)
  generate_rounds (suc fuel) new_tokens out s = elim (ltb (length out.tokens) new_tokens) [
    | true ↦
        continue (loop_body new_tokens out s)
          λ r s'. elim r.0 [ true ↦ (ok r.1, s') | false ↦ generate_rounds fuel new_tokens r.1 s' ]
    | false ↦ (ok out, s)
  ]

  unfoldable pub generate_dflash_continuation : List Token → ℕ → Method State DflashOutput
  generate_dflash_continuation prompt new_tokens s =
      continue (step_all prompt (set_capture true s))
        λ _ s'. generate_rounds (suc new_tokens) new_tokens blank_output (set_capture false s')
