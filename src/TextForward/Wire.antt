-- ===== src/TextForward/Wire.antt =====
-- src/text_forward.cpp: rank 0 reads from the link what rank 1 has sent.
use ninfer_nvfp4_glm_5_3_fla.Prelude.{
  ℕ, ◌^◌, ◌≤◌, ◌<◌, ◌≡◌, refl, true, List, [], ◌∷◌, ◌++◌, arith, ok, length, append-nil,
}
use ninfer_nvfp4_glm_5_3_fla.TextForward.Link.{
  Produced, Reply, sent, recv_words, recv_word, recv_drafts, recv_payload, recv_reply, is_count,
}

pub recv_words-append :
    (words rest : List ℕ) → recv_words (length words) (words ++ rest) ≡ ok (words, rest)
unfolding recv_words
recv_words-append [] rest = refl
recv_words-append (word ∷ words) rest = rw (recv_words-append words rest)

pub is_count-true : (most n : ℕ) → most < 2 ^ 31 → n ≤ most → is_count most n ≡ true
is_count-true most n small h = ground arith

-- What `rank 0` makes of the words of a rank that returned.
abbrev pub reply_of : Produced → Reply
reply_of p = record {
  child_count = length p.tokens;
  payload_ok = true;
  child = p.tokens;
  child_accept = p.accepted;
  child_draft = p.drafts;
}

-- Rank 0 reads what rank 1 has sent: its tokens, its drafts and how many of them were accepted, if
-- there are no more tokens than asked for, which are eight at most, and seven drafts at most.
pub recv_reply-sent :
    (new_tokens : ℕ) (p : Produced)
    → new_tokens ≤ 8
    → length p.tokens ≤ new_tokens
    → length p.drafts ≤ 7
    → recv_reply new_tokens (sent (ok p)) ≡ ok (reply_of p)
unfolding recv_reply sent recv_payload recv_drafts recv_word
recv_reply-sent new_tokens p hn ht hd =
    let drafts : recv_words (length p.drafts) p.drafts ≡ ok (p.drafts, []) =
      rw (append-nil p.drafts) at (recv_words-append p.drafts []) in
    rw (is_count-true new_tokens (length p.tokens) (omega arith) ht) (
      rw (recv_words-append p.tokens (p.accepted ∷ length p.drafts ∷ p.drafts))
        (rw (is_count-true 7 (length p.drafts) (omega arith) hd) (rw drafts refl)))
