-- ===== src/Protocol/Messages/TabList/Safety.antt =====
-- message.rs: the decoders of tabs answer on any bytes, and take no more than there are.
use oakterm.Prelude.{ℕ, ◌+◌, ◌≤◌, List, length, arith}
use oakterm.Protocol.Wire.Safety.{
  Answers, Consumes, bind-Answers, found-Answers, at_least-Answers, u16_at-found, u32_at-found,
  slice-found, from_utf8-Answers, text_in-Answers, decode_each-Answers,
}
use oakterm.Protocol.Messages.TabList.{decode_tab_entry, decode_tab_list}

decode_tab_entry-Consumes : (bytes : List ℕ) → Consumes bytes (decode_tab_entry bytes)
unfolding decode_tab_entry
decode_tab_entry-Consumes bytes = at_least-Answers bytes _ 10 _ λ h.
    found-Answers _ _ (u32_at-found bytes 0 (omega (arith, h))) λ p.
      found-Answers _ _ (u32_at-found bytes 4 (omega (arith, h))) λ f.
        found-Answers _ _ (u16_at-found bytes 8 (omega (arith, h))) λ n.
          bind-Answers _ (λ _. 10 + n ≤ length bytes) _ _ (text_in-Answers bytes 10 n)
            λ t within. within

pub decode_tab_list-Answers : (bytes : List ℕ) → Answers (decode_tab_list bytes)
unfolding decode_tab_list
decode_tab_list-Answers bytes = at_least-Answers bytes _ 6 _ λ h.
    found-Answers _ _ (u32_at-found bytes 0 (omega (arith, h))) λ p.
      found-Answers _ _ (u16_at-found bytes 4 (omega (arith, h))) λ n.
        at_least-Answers bytes _ (6 + n + 6) _ λ h.
          bind-Answers _ (λ _. Unit {0}) _ _
            (found-Answers _ _ (slice-found bytes 6 n (omega (arith, h)))
              λ raw. from_utf8-Answers raw)
            λ s _. found-Answers _ _ (u32_at-found bytes (6 + n) (omega (arith, h))) λ a.
              found-Answers _ _ (u16_at-found bytes (6 + n + 4) (omega (arith, h))) λ k.
                bind-Answers _ (λ q. q.1 ≤ length bytes) _ _
                  (decode_each-Answers bytes decode_tab_entry decode_tab_entry-Consumes k
                    (6 + n + 6) h)
                  λ q _. tt
