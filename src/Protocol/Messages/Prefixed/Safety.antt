-- ===== src/Protocol/Messages/Prefixed/Safety.antt =====
-- message.rs, input.rs: the decoders answer on any bytes.
use oakterm.Prelude.{ℕ, ◌+◌, ◌≤◌, List, length, arith}
use oakterm.Protocol.Wire.Safety.{
  Answers, bind-Answers, found-Answers, at_least-Answers, u16_at-found, u32_at-found, slice-found,
  from_utf8-Answers, text_in-Answers,
}
use oakterm.Protocol.Messages.Prefixed.{decode_create_pane, decode_yank_response, decode_key_input}

pub decode_create_pane-Answers : (bytes : List ℕ) → Answers (decode_create_pane bytes)
unfolding decode_create_pane
decode_create_pane-Answers bytes = at_least-Answers bytes _ 4 _ λ h.
    found-Answers _ _ (u16_at-found bytes 0 (omega (arith, h))) λ n.
      at_least-Answers bytes _ (2 + n + 2) _ λ h.
        bind-Answers _ (λ _. Unit {0}) _ _
          (found-Answers _ _ (slice-found bytes 2 n (omega (arith, h)))
            λ raw. from_utf8-Answers raw)
          λ s _. found-Answers _ _ (u16_at-found bytes (2 + n) (omega (arith, h))) λ k.
            bind-Answers _ (λ _. 2 + n + 2 + k ≤ length bytes) _ _
              (text_in-Answers bytes (2 + n + 2) k) λ t _. tt

pub decode_yank_response-Answers : (bytes : List ℕ) → Answers (decode_yank_response bytes)
unfolding decode_yank_response
decode_yank_response-Answers bytes = at_least-Answers bytes _ 4 _ λ h.
    found-Answers _ _ (u32_at-found bytes 0 (omega (arith, h)))
      λ n. bind-Answers _ (λ _. 4 + n ≤ length bytes) _ _ (text_in-Answers bytes 4 n) λ t _. tt

pub decode_key_input-Answers : (bytes : List ℕ) → Answers (decode_key_input bytes)
unfolding decode_key_input
decode_key_input-Answers bytes = at_least-Answers bytes _ 6 _ λ h.
    found-Answers _ _ (u32_at-found bytes 0 (omega (arith, h))) λ p.
      found-Answers _ _ (u16_at-found bytes 4 (omega (arith, h))) λ n.
        at_least-Answers bytes _ (6 + n) _ λ h. found-Answers _ _ (slice-found bytes 6 n h) λ s. tt
