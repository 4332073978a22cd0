-- ===== src/Speculative.antt =====
-- src/speculative.cpp and include/ninfer_glm53/speculative.hpp: the temperature-0 check of a draft
-- against the target, and the commit of the accepted tokens on both ranks.
pub mod Prefix
pub mod Commit
mod Tests
use ninfer_nvfp4_glm_5_3_fla.Prelude.{
  ℕ, zero, suc, ◌+◌, ◌*◌, ◌≤◌, ◌≡◌, Bool, true, false, not, ◌&&◌, ◌||◌, Option, none, some, List,
  [], ◌∷◌, ◌++◌, ltb, ◌==◌, if◌then◌else◌, eq_list, length, get_or, take, drop, replicate,
}

-- A `std::int32_t` token by its 32-bit pattern: the code only copies tokens and compares them.
abbrev pub Token : Type 0
Token = ℕ

abbrev pub dflash_proposals : ℕ
dflash_proposals = 7

-- The capacity of the `tokens[16]` arrays.
abbrev pub slots : ℕ
slots = 16

pub record RankRecord : Type 0 where
  pub tokens : List Token
  pub committed : ℕ

-- `RankRecord rank;`
abbrev pub blank_rank : RankRecord
blank_rank = record { tokens = replicate slots 0; committed = 0 }

-- A pointer is an option: `none` is `nullptr`, and the list is the memory that it points to.
pub record CommitView : Type 0 where
  pub tokens : Option (List Token)
  pub count : ℕ

pub record SpecResult : Type 0 where
  pub tokens : List Token
  pub committed : ℕ
  pub ranks_agree : Bool

-- `SpecResult result;`
abbrev pub blank_result : SpecResult
blank_result = record { tokens = replicate slots 0; committed = 0; ranks_agree = false }

-- `memcpy(to, from, count * sizeof(int32_t))`: the rest of the target array stays.
abbrev pub copy_prefix : ℕ → List Token → List Token → List Token
copy_prefix count from to = take count from ++ drop count to

-- `memcmp(a, b, count * sizeof(int32_t)) == 0`
abbrev pub same_prefix : ℕ → List Token → List Token → Bool
same_prefix count a b = eq_list (take count a) (take count b)

abbrev pub write_rank : CommitView → List Token → RankRecord → RankRecord
write_rank view from rank = record rank {
  committed = view.count;
  tokens = copy_prefix view.count from rank.tokens;
}

-- The checks of `commit_same_tokens` after those for `nullptr`, and its writes.
commit_checked :
    CommitView
    → CommitView
    → List Token
    → List Token
    → RankRecord
    → RankRecord
    → Bool × Option RankRecord × Option RankRecord
commit_checked rank0_view rank1_view from0 from1 rank0 rank1 =
    if not (rank0_view.count == rank1_view.count) || ltb slots rank0_view.count
    then (false, some rank0, some rank1)
    else if not (same_prefix rank0_view.count from0 from1)
    then (false, some rank0, some rank1)
    else (true, some (write_rank rank0_view from0 rank0), some (write_rank rank1_view from1 rank1))

commit_pointers :
    CommitView
    → CommitView
    → Option (List Token)
    → Option (List Token)
    → Option RankRecord
    → Option RankRecord
    → Bool × Option RankRecord × Option RankRecord
unfolding commit_checked
commit_pointers rank0_view rank1_view (some from0) (some from1) (some rank0) (some rank1) =
    commit_checked rank0_view rank1_view from0 from1 rank0 rank1
commit_pointers _ _ _ _ rank0 rank1 = (false, rank0, rank1)

-- The two ranks after the call stand beside the returned flag.
unfoldable pub commit_same_tokens :
    CommitView
    → CommitView
    → Option RankRecord
    → Option RankRecord
    → Bool × Option RankRecord × Option RankRecord
unfolding commit_pointers
commit_same_tokens rank0_view rank1_view rank0 rank1 =
    commit_pointers rank0_view rank1_view rank0_view.tokens rank1_view.tokens rank0 rank1

-- `while (matched < k && draft[matched] == target[matched]) ++matched;` over the rounds that are
-- left and the rest of both arrays.
unfoldable pub match_prefix : ℕ → List Token → List Token → ℕ
match_prefix (suc rounds) (d ∷ draft) (t ∷ target) =
    if d == t then suc (match_prefix rounds draft target) else 0
match_prefix _ _ _ = 0

-- The array `accepted`, filled up to `count`.
unfoldable pub accepted_tokens : ℕ → List Token → List Token → List Token
accepted_tokens matched draft target =
    if matched == 0
    then get_or target 0 0 ∷ []
    else take matched draft ++ get_or target matched 0 ∷ []

abbrev pub view_of : List Token → CommitView
view_of accepted = record { tokens = some accepted; count = length accepted }

commit_accepted :
    List Token
    → Option RankRecord
    → Option RankRecord
    → SpecResult × Option RankRecord × Option RankRecord
commit_accepted accepted rank0 rank1 =
    let (agree, rank0', rank1') =
      commit_same_tokens (view_of accepted) (view_of accepted) rank0 rank1 in
    if agree
    then (
      record {
        tokens = copy_prefix (length accepted) accepted blank_result.tokens;
        committed = length accepted;
        ranks_agree = true;
      },
      rank0',
      rank1',
    )
    else (blank_result, rank0', rank1')

-- The result and the two ranks after the call.
unfoldable pub commit_dflash2 :
    Option (List Token)
    → ℕ
    → Option (List Token)
    → Option RankRecord
    → Option RankRecord
    → SpecResult × Option RankRecord × Option RankRecord
unfolding commit_accepted
commit_dflash2 (some draft) k (some target) rank0 rank1 =
    if k == 0 || ltb 8 k
    then (blank_result, rank0, rank1)
    else commit_accepted (accepted_tokens (match_prefix k draft target) draft target) rank0 rank1
commit_dflash2 _ k _ rank0 rank1 = (blank_result, rank0, rank1)
