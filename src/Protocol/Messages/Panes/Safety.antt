-- ===== src/Protocol/Messages/Panes/Safety.antt =====
-- message.rs: the decoders of panes answer on any bytes, and take no more than there are.
use oakterm.Prelude.{ℕ, ◌+◌, ◌≤◌, List, length, arith}
use oakterm.Protocol.Wire.Safety.{
  Answers, Consumes, bind-Answers, found-Answers, at_least-Answers, u16_at-found, u32_at-found,
  i32_at-found, slice-found, from_utf8-Answers, text_in-Answers, decode_each-Answers,
}
use oakterm.Protocol.Messages.Panes.{decode_pane_info, decode_list_panes_response}

decode_pane_info-Consumes : (bytes : List ℕ) → Consumes bytes (decode_pane_info bytes)
unfolding decode_pane_info
decode_pane_info-Consumes bytes = at_least-Answers bytes _ 6 _ λ h.
    found-Answers _ _ (u32_at-found bytes 0 (omega (arith, h))) λ p.
      found-Answers _ _ (u16_at-found bytes 4 (omega (arith, h))) λ n.
        at_least-Answers bytes _ (6 + n + 12) _ λ h.
          bind-Answers _ (λ _. Unit {0}) _ _
            (found-Answers _ _ (slice-found bytes 6 n (omega (arith, h)))
              λ raw. from_utf8-Answers raw)
            λ s _. found-Answers _ _ (u16_at-found bytes (6 + n) (omega (arith, h))) λ c.
              found-Answers _ _ (u16_at-found bytes (6 + n + 2) (omega (arith, h))) λ r.
                found-Answers _ _ (u32_at-found bytes (6 + n + 4) (omega (arith, h))) λ d.
                  found-Answers _ _ (i32_at-found bytes (6 + n + 8) (omega (arith, h))) λ x.
                    at_least-Answers bytes _ (6 + n + 12 + 2) _ λ h.
                      found-Answers _ _ (u16_at-found bytes (6 + n + 12) (omega (arith, h))) λ k.
                        bind-Answers _ (λ _. 6 + n + 12 + 2 + k ≤ length bytes) _ _
                          (text_in-Answers bytes (6 + n + 12 + 2) k) λ t within. within

pub decode_list_panes_response-Answers :
    (bytes : List ℕ) → Answers (decode_list_panes_response bytes)
unfolding decode_list_panes_response
decode_list_panes_response-Answers bytes = at_least-Answers bytes _ 2 _ λ h.
    found-Answers _ _ (u16_at-found bytes 0 (omega (arith, h))) λ n.
      bind-Answers _ (λ q. q.1 ≤ length bytes) _ _
        (decode_each-Answers bytes decode_pane_info decode_pane_info-Consumes n 2 h) λ q _. tt
