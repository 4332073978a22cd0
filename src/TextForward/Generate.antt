-- ===== src/TextForward/Generate.antt =====
-- src/text_forward.cpp: `generate_text`, which runs one or two ranks and compares what they made.
use ninfer_nvfp4_glm_5_3_fla.Prelude.{
  ℕ, ◌*◌, Bool, true, false, not, ◌&&◌, Option, none, some, List, [], ◌∷◌, ◌++◌, leb, ◌==◌,
  if◌then◌else◌, text, Bytes, eq_list, length, Result, ok, bind, ◌>>=◌, ◌||◌, threw, runtime_error,
}
use ninfer_nvfp4_glm_5_3_fla.Schema.{ℤ, pos, negsuc}
use ninfer_nvfp4_glm_5_3_fla.Speculative.{
  Token, RankRecord, CommitView, blank_rank, view_of, commit_same_tokens,
}
use ninfer_nvfp4_glm_5_3_fla.DflashLoop.{Finish, unfinished, eos, budget, ends_eos}
use ninfer_nvfp4_glm_5_3_fla.TextForward.{fixed_prompt_tokens}
use ninfer_nvfp4_glm_5_3_fla.TextForward.Link.{
  minus_one, int_to_string, Produced, Reply, recv_reply,
}

-- The field `ok` is `is_ok` here. `logit_margin` is the bits of a float.
pub record GenerateResult : Type 0 where
  pub is_ok : Bool
  pub reason : Bytes
  pub token_ids : List Token
  pub committed : ℕ
  pub rank0_committed : ℕ
  pub rank1_committed : ℕ
  pub rank0_tokens : List Token
  pub rank1_tokens : List Token
  pub world_size : ℕ
  pub prompt_text : Bytes
  pub prompt_tokens : List Token
  pub dflash_accept : Bytes
  pub draft_tokens : List Token
  pub accept_count : ℕ
  pub logit_margin : ℕ

abbrev pub blank_generated : GenerateResult
blank_generated = record {
  is_ok = false;
  reason = [];
  token_ids = [];
  committed = 0;
  rank0_committed = 0;
  rank1_committed = 0;
  rank0_tokens = [];
  rank1_tokens = [];
  world_size = 1;
  prompt_text = [];
  prompt_tokens = [];
  dflash_accept = [];
  draft_tokens = [];
  accept_count = minus_one;
  logit_margin = 0;
}

-- The rest of the world: whether `socketpair`, `set_nonblock` on both ends and `fork` work, what this rank makes of the prompt,
-- and from the other one, the words on the link and whether it exits with 0.
pub record World : Type 0 where
  pub socketpair : Bool
  pub nonblock : Bool
  pub forked : Bool
  pub rank0 : Result Produced
  pub link : List ℕ
  pub child_ok : Bool

abbrev finish_to_string : Finish → Bytes
finish_to_string unfinished = []
finish_to_string eos = text "eos"
finish_to_string budget = text "budget"

-- `finish` of `generate_text`: the result takes the tokens.
abbrev pub finished : Produced → GenerateResult → GenerateResult
finished p result = record result {
  logit_margin = p.margin;
  token_ids = p.tokens;
  committed = length p.tokens;
  is_ok = true;
}

abbrev pub committed_of : Option RankRecord → ℕ
committed_of none = 0
committed_of (some rank) = rank.committed

-- What every refusal of a pair has in common.
abbrev pub refused : Produced → Reply → Bytes → GenerateResult → GenerateResult
refused p reply reason result = record result {
  is_ok = false;
  reason = reason;
  token_ids = p.tokens;
  rank0_tokens = p.tokens;
  rank1_tokens = reply.child;
  committed = 0;
}

abbrev first_of : List Token → Bytes
first_of [] = []
first_of (t ∷ child) = text " child0=" ++ int_to_string t

abbrev mismatch : Bytes → Reply → Bool → Bytes
mismatch mode reply child_ok =
    mode
    ++ (text "_rank_mismatch child_count="
        ++ (int_to_string reply.child_count
            ++ ((if child_ok then [] else text " child_status") ++ first_of reply.child)))

-- `budget_done || eos_done`
unfoldable pub is_done : ℕ → Produced → Bool
is_done new_tokens p = elim p.finish [
  | unfinished ↦ false
  | eos ↦ ends_eos p.tokens
  | budget ↦ length p.tokens == new_tokens
]

abbrev accept_name : Produced → Bytes
accept_name p =
    if p.verify_rounds == 0
    then text "anchor_only"
    else if p.accepted == 7 * p.verify_rounds
    then text "full_plus_bonus"
    else if p.accepted == 0
    then text "bonus_only"
    else text "partial_plus_bonus"

abbrev pub drafted : Produced → GenerateResult → GenerateResult
drafted p result = record result {
  reason = finish_to_string p.finish;
  draft_tokens = p.drafts;
  accept_count = p.accepted;
  dflash_accept = accept_name p;
}

abbrev pub both_ranks : Produced → Reply → ℕ → ℕ → GenerateResult → GenerateResult
both_ranks p reply committed0 committed1 result = record (finished p result) {
  rank0_tokens = p.tokens;
  rank1_tokens = reply.child;
  rank0_committed = committed0;
  rank1_committed = committed1;
}

-- The view of a `std::vector`: as in libstdc++, the data of one that holds nothing yet is a null
-- pointer.
abbrev pub vector_view : List Token → CommitView
vector_view [] = record { tokens = none; count = 0 }
vector_view (t ∷ tokens) = view_of (t ∷ tokens)

abbrev pub commit_vectors : List Token → List Token → Bool × Option RankRecord × Option RankRecord
commit_vectors mine theirs =
    commit_same_tokens (vector_view mine) (vector_view theirs) (some blank_rank) (some blank_rank)

abbrev pub pair_commit : Produced → Reply → Bool × Option RankRecord × Option RankRecord
pair_commit p reply = commit_vectors p.tokens reply.child

unfoldable pub is_agreed : Produced → Reply → Bool → Bool
is_agreed p reply child_ok =
    child_ok
    && (reply.payload_ok
        && ((pair_commit p reply).0
            && (eq_list p.drafts reply.child_draft && p.accepted == reply.child_accept)))

-- What rank 0 makes of both outcomes.
unfoldable pub conclude_pair : Bytes → ℕ → Produced → Reply → Bool → GenerateResult → GenerateResult
conclude_pair mode new_tokens p reply child_ok result =
    let commit = pair_commit p reply in
    let take_both = both_ranks p reply (committed_of commit.1) (committed_of commit.2) in
    if not (is_agreed p reply child_ok)
    then refused p reply (mismatch mode reply child_ok) result
    else if not (eq_list mode (text "dflash"))
    then take_both result
    else if is_done new_tokens p
    then take_both (drafted p result)
    else refused p reply
        (elim p.finish [ unfinished ↦ text "dflash_unfinished" | other ↦ finish_to_string other ])
        result

-- The part behind `fork`, on rank 0.
unfoldable pub run_pair : World → Bytes → ℕ → GenerateResult → Result GenerateResult
run_pair world mode new_tokens result = do
  p ← world.rank0
  reply ← recv_reply new_tokens world.link
  ok (conclude_pair mode new_tokens p reply world.child_ok result)

abbrev pub stopped : Bytes → GenerateResult → Result GenerateResult
stopped reason result = ok (record result { reason = reason })

-- `if (test) { result.reason = reason; return result; }`
unfoldable pub stop_if :
    Bool → Bytes → GenerateResult → Result GenerateResult → Result GenerateResult
stop_if true reason result more = stopped reason result
stop_if false reason result more = more

unfoldable pub generate_pair : World → Bytes → ℕ → Bool → GenerateResult → Result GenerateResult
generate_pair world mode new_tokens draft_given result =
    stop_if (eq_list mode (text "dflash") && not draft_given) (text "draft_absent") result (
      stop_if (not world.socketpair) (text "socketpair_failed") result (
        if world.nonblock
        then stop_if (not world.forked) (text "fork_failed") result
            (run_pair world mode new_tokens result)
        else threw (runtime_error (text "rank link nonblock failed"))))

unfoldable pub generate_single : World → GenerateResult → Result GenerateResult
generate_single world result = bind world.rank0 (λ p.
    ok (record (finished p result) { rank0_tokens = p.tokens; rank0_committed = length p.tokens }))

-- `new_tokens < 1 || new_tokens > 8`
unfoldable pub token_budget : ℤ → Option ℕ
token_budget (pos n) = if leb 1 n && leb n 8 then some n else none
token_budget (negsuc n) = none

unfoldable pub generate_checked :
    World → Bytes → Option ℕ → Bool → GenerateResult → Result GenerateResult
generate_checked world mode none draft_given result =
    stopped (text "new_tokens_out_of_range") result
generate_checked world mode (some new_tokens) draft_given result =
    if eq_list mode (text "greedy")
    then generate_single world result
    else generate_pair world mode new_tokens draft_given (record result { world_size = 2 })

abbrev pub is_mode : Bytes → Bool
is_mode mode =
    eq_list mode (text "greedy") || eq_list mode (text "tp2") || eq_list mode (text "dflash")

unfoldable pub generate_prompt :
    World → Bytes → ℤ → Bool → Option (Bytes × List Token) → Result GenerateResult
generate_prompt world mode new_tokens draft_given none =
    stopped (text "unknown_prompt") blank_generated
generate_prompt world mode new_tokens draft_given (some (words, tokens)) =
    let result = record blank_generated { prompt_text = words; prompt_tokens = tokens } in
    stop_if (not (is_mode mode)) (text "unknown_mode") result
      (generate_checked world mode (token_budget new_tokens) draft_given result)

unfoldable pub generate_text : World → Bytes → Bytes → ℤ → Bool → Result GenerateResult
generate_text world prompt_id mode new_tokens draft_given =
    generate_prompt world mode new_tokens draft_given (fixed_prompt_tokens prompt_id)
