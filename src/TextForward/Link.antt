-- ===== src/TextForward/Link.antt =====
-- src/text_forward.cpp: what rank 1 sends to rank 0 over the link, and how rank 0 reads it.
use ninfer_nvfp4_glm_5_3_fla.Prelude.{
  ℕ, zero, suc, ◌-◌, ◌^◌, Bool, true, false, not, ◌&&◌, List, [], ◌∷◌, ◌++◌, leb, if◌then◌else◌,
  text, Bytes, decimal, length, runtime_error, Result, ok, threw, bind, ◌>>=◌,
}
use ninfer_nvfp4_glm_5_3_fla.Speculative.{Token}
use ninfer_nvfp4_glm_5_3_fla.DflashLoop.{Finish}

-- An `int` of the link or the result by its 32-bit pattern, of which that of -1 is the last.
abbrev pub minus_one : ℕ
minus_one = 2 ^ 32 - 1

abbrev pub is_negative : ℕ → Bool
is_negative n = leb (2 ^ 31) n

unfoldable pub int_to_string : ℕ → Bytes
int_to_string n = if is_negative n then text "-" ++ decimal (2 ^ 32 - n) else decimal n

-- What `produce` fills in, with the margin of the model. Greedy decoding leaves `finish` empty, no
-- drafts, no rounds and -1 accepted ones.
pub record Produced : Type 0 where
  pub tokens : List Token
  pub drafts : List Token
  pub accepted : ℕ
  pub finish : Finish
  pub verify_rounds : ℕ
  pub margin : ℕ

-- What rank 1 sends to rank 0, in words of 32 bits: its count, its tokens, and the same of its
-- drafts with the number of accepted ones in front; -1 alone after an exception.
unfoldable pub sent : Result Produced → List ℕ
sent (ok p) = length p.tokens ∷ p.tokens ++ p.accepted ∷ length p.drafts ∷ p.drafts
sent (threw e) = minus_one ∷ []

-- `recv_all` of so many words: a link that ends early throws.
unfoldable pub recv_words : ℕ → List ℕ → Result (List ℕ × List ℕ)
recv_words zero link = ok ([], link)
recv_words (suc n) [] = threw (runtime_error (text "rank link recv failed"))
recv_words (suc n) (word ∷ link) = do rest ← recv_words n link; ok (word ∷ rest.0, rest.1)

unfoldable pub recv_word : List ℕ → Result (ℕ × List ℕ)
recv_word [] = threw (runtime_error (text "rank link recv failed"))
recv_word (word ∷ link) = ok (word, link)

-- What rank 0 has read from rank 1, with `payload_ok`.
pub record Reply : Type 0 where
  pub child_count : ℕ
  pub payload_ok : Bool
  pub child : List Token
  pub child_accept : ℕ
  pub child_draft : List Token

-- The `int` range tests `0 <= n && n <= most`.
abbrev pub is_count : ℕ → ℕ → Bool
is_count most n = not (is_negative n) && leb n most

unfoldable pub recv_drafts : ℕ → List Token → ℕ → ℕ → List ℕ → Result Reply
recv_drafts count child accept draft_count link =
    if is_count 7 draft_count
    then bind (recv_words draft_count link) (λ drafts. ok (record {
      child_count = count;
      payload_ok = true;
      child = child;
      child_accept = accept;
      child_draft = drafts.0;
    }))
    else ok (record {
      child_count = count;
      payload_ok = false;
      child = child;
      child_accept = accept;
      child_draft = [];
    })

unfoldable pub recv_payload : ℕ → List ℕ → Result Reply
recv_payload count link = do
  child ← recv_words count link
  accept ← recv_word child.1
  draft_count ← recv_word accept.1
  recv_drafts count child.0 accept.0 draft_count.0 draft_count.1

unfoldable pub recv_reply : ℕ → List ℕ → Result Reply
recv_reply new_tokens link = do
  count ← recv_word link
  if is_count new_tokens count.0
      then recv_payload count.0 count.1
      else ok (record {
        child_count = count.0;
        payload_ok = false;
        child = [];
        child_accept = minus_one;
        child_draft = [];
      })
