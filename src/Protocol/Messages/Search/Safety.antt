-- ===== src/Protocol/Messages/Search/Safety.antt =====
-- message.rs: the decoders answer on any bytes.
use oakterm.Prelude.{ℕ, ◌+◌, ◌≤◌, List, length, arith}
use oakterm.Protocol.Wire.Safety.{
  Answers, bind-Answers, found-Answers, at_least-Answers, byte_at-found, u32_at-found, i64_at-found,
  decode_str-Answers,
}
use oakterm.Protocol.Wire.Enums.Answers.{search_direction_of-Answers}
use oakterm.Protocol.Messages.Search.{
  decode_find_prompt, decode_search_scrollback, decode_search_nav,
}

pub decode_find_prompt-Answers : (bytes : List ℕ) → Answers (decode_find_prompt bytes)
unfolding decode_find_prompt
decode_find_prompt-Answers bytes = at_least-Answers bytes _ 13 _ λ h.
    found-Answers _ _ (u32_at-found bytes 0 (omega (arith, h))) λ pane_id.
      found-Answers _ _ (i64_at-found bytes 4 (omega (arith, h))) λ from_offset.
        bind-Answers _ (λ _. Unit {0}) _ _
          (found-Answers _ _ (byte_at-found bytes 12 (omega (arith, h)))
            λ b. search_direction_of-Answers b)
          λ direction _. tt

pub decode_search_scrollback-Answers : (bytes : List ℕ) → Answers (decode_search_scrollback bytes)
unfolding decode_search_scrollback
decode_search_scrollback-Answers bytes = at_least-Answers bytes _ 5 _ λ h.
    found-Answers _ _ (u32_at-found bytes 0 (omega (arith, h))) λ pane_id.
      found-Answers _ _ (byte_at-found bytes 4 (omega (arith, h))) λ flags.
        bind-Answers _ (λ q. 5 + q.1 ≤ length bytes) _ _ (decode_str-Answers bytes 5) λ query _. tt

pub decode_search_nav-Answers : (bytes : List ℕ) → Answers (decode_search_nav bytes)
unfolding decode_search_nav
decode_search_nav-Answers bytes =
    at_least-Answers bytes _ 4 _
      λ h. found-Answers _ _ (u32_at-found bytes 0 (omega (arith, h))) λ pane_id. tt
