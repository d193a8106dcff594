-- ===== src/Protocol/Messages/Results/Safety.antt =====
-- message.rs: the decoders of what the search answers answer on any bytes.
use oakterm.Prelude.{ℕ, zero, suc, ◌+◌, List, arith}
use oakterm.Protocol.Wire.Safety.{
  Answers, bind-Answers, found-Answers, at_least-Answers, u16_at-found, u32_at-found, i64_at-found,
  bool_at-found,
}
use oakterm.Protocol.Messages.Results.{
  decode_prompt_position, decode_matches, decode_search_results,
}

pub decode_prompt_position-Answers : (bytes : List ℕ) → Answers (decode_prompt_position bytes)
unfolding decode_prompt_position
decode_prompt_position-Answers bytes = at_least-Answers bytes _ 13 _ λ h.
    found-Answers _ _ (i64_at-found bytes 4 (omega (arith, h))) λ z.
      found-Answers _ _ (bool_at-found bytes 12 (omega (arith, h)))
        λ f. found-Answers _ _ (u32_at-found bytes 0 (omega (arith, h))) λ p. tt

decode_matches-Answers :
    (count : ℕ) (bytes : List ℕ) (o : ℕ) → Answers (decode_matches count bytes o)
unfolding decode_matches
decode_matches-Answers zero bytes o = tt
decode_matches-Answers (suc count) bytes o = at_least-Answers bytes _ (o + 7) _ λ h.
    found-Answers _ _ (u16_at-found bytes o (omega (arith, h))) λ r.
      found-Answers _ _ (u16_at-found bytes (o + 2) (omega (arith, h))) λ s.
        found-Answers _ _ (u16_at-found bytes (o + 4) (omega (arith, h))) λ t.
          found-Answers _ _ (bool_at-found bytes (o + 6) (omega (arith, h))) λ a.
            bind-Answers _ (λ _. Unit {0}) _ _ (decode_matches-Answers count bytes (o + 7))
              λ ms _. tt

pub decode_search_results-Answers : (bytes : List ℕ) → Answers (decode_search_results bytes)
unfolding decode_search_results
decode_search_results-Answers bytes = at_least-Answers bytes _ 23 _ λ h.
    found-Answers _ _ (u32_at-found bytes 0 (omega (arith, h))) λ p.
      found-Answers _ _ (u32_at-found bytes 4 (omega (arith, h))) λ t.
        found-Answers _ _ (u32_at-found bytes 8 (omega (arith, h))) λ r.
          found-Answers _ _ (i64_at-found bytes 12 (omega (arith, h))) λ z.
            found-Answers _ _ (bool_at-found bytes 20 (omega (arith, h))) λ c.
              found-Answers _ _ (u16_at-found bytes 21 (omega (arith, h))) λ n.
                bind-Answers _ (λ _. Unit {0}) _ _ (decode_matches-Answers n bytes 23) λ ms _. tt
