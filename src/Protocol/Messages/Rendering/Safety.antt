-- ===== src/Protocol/Messages/Rendering/Safety.antt =====
-- render.rs, message.rs: the decoders of rows answer on any bytes, and take no more than there are.
use oakterm.Prelude.{ℕ, ◌+◌, ◌≤◌, List, length, ltb, arith, Bool-cases, inl, inr}
use oakterm.Protocol.Wire.Safety.{
  Answers, Consumes, bind-Answers, found-Answers, at_least-Answers, byte_at-found, u16_at-found,
  u32_at-found, u64_at-found, i64_at-found, bool_at-found, slice-found, decode_each-Answers,
}
use oakterm.Protocol.Messages.Rendering.{
  decode_wire_cell, decode_dirty_row, decode_render_update, decode_scrollback_data,
}

decode_wire_cell-Consumes : (bytes : List ℕ) → Consumes bytes (decode_wire_cell bytes)
unfolding decode_wire_cell
decode_wire_cell-Consumes bytes = at_least-Answers bytes _ 16 _ λ h.
    found-Answers _ _ (u32_at-found bytes 0 (omega (arith, h))) λ p.
      found-Answers _ _ (u16_at-found bytes 12 (omega (arith, h))) λ f.
        found-Answers _ _ (u16_at-found bytes 14 (omega (arith, h))) λ n.
          at_least-Answers bytes _ (16 + n) _ λ h.
            found-Answers _ _ (byte_at-found bytes 4 (omega (arith, h))) λ b4.
              found-Answers _ _ (byte_at-found bytes 5 (omega (arith, h))) λ b5.
                found-Answers _ _ (byte_at-found bytes 6 (omega (arith, h))) λ b6.
                  found-Answers _ _ (byte_at-found bytes 7 (omega (arith, h))) λ b7.
                    found-Answers _ _ (byte_at-found bytes 8 (omega (arith, h))) λ b8.
                      found-Answers _ _ (byte_at-found bytes 9 (omega (arith, h))) λ b9.
                        found-Answers _ _ (byte_at-found bytes 10 (omega (arith, h))) λ b10.
                          found-Answers _ _ (byte_at-found bytes 11 (omega (arith, h)))
                            λ b11. found-Answers _ _ (slice-found bytes 16 n h) λ s. h

decode_dirty_row-Consumes : (bytes : List ℕ) → Consumes bytes (decode_dirty_row bytes)
unfolding decode_dirty_row
decode_dirty_row-Consumes bytes = at_least-Answers bytes _ 4 _ λ h.
    found-Answers _ _ (u16_at-found bytes 0 (omega (arith, h))) λ p.
      found-Answers _ _ (u16_at-found bytes 2 (omega (arith, h))) λ n.
        bind-Answers _ (λ q. q.1 ≤ length bytes) _ _
          (decode_each-Answers bytes decode_wire_cell decode_wire_cell-Consumes n 4 h)
          λ q _. at_least-Answers bytes _ (q.1 + 3) _ λ h.
            found-Answers _ _ (byte_at-found bytes q.1 (omega (arith, h))) λ b.
              found-Answers _ _ (u16_at-found bytes (q.1 + 1) (omega (arith, h))) λ k.
                at_least-Answers bytes _ (q.1 + 3 + k) _
                  λ h. found-Answers _ _ (slice-found bytes (q.1 + 3) k h) λ s. h

pub decode_render_update-Answers : (bytes : List ℕ) → Answers (decode_render_update bytes)
unfolding decode_render_update
decode_render_update-Answers bytes = at_least-Answers bytes _ 35 _ λ h.
    found-Answers _ _ (u32_at-found bytes 0 (omega (arith, h))) λ b0.
      found-Answers _ _ (u64_at-found bytes 4 (omega (arith, h))) λ b4.
        found-Answers _ _ (u16_at-found bytes 12 (omega (arith, h))) λ b12.
          found-Answers _ _ (u16_at-found bytes 14 (omega (arith, h))) λ b14.
            found-Answers _ _ (byte_at-found bytes 16 (omega (arith, h))) λ b16.
              found-Answers _ _ (bool_at-found bytes 17 (omega (arith, h))) λ b17.
                found-Answers _ _ (byte_at-found bytes 18 (omega (arith, h))) λ b18.
                  found-Answers _ _ (byte_at-found bytes 19 (omega (arith, h))) λ b19.
                    found-Answers _ _ (byte_at-found bytes 20 (omega (arith, h))) λ b20.
                      found-Answers _ _ (bool_at-found bytes 21 (omega (arith, h))) λ b21.
                        found-Answers _ _ (bool_at-found bytes 22 (omega (arith, h))) λ b22.
                          found-Answers _ _ (byte_at-found bytes 23 (omega (arith, h))) λ b23.
                            found-Answers _ _ (byte_at-found bytes 24 (omega (arith, h))) λ b24.
                              found-Answers _ _ (u64_at-found bytes 25 (omega (arith, h))) λ b25.
                                found-Answers _ _ (u16_at-found bytes 33 (omega (arith, h))) λ n.
                                  bind-Answers _ (λ q. q.1 ≤ length bytes) _ _
                                    (decode_each-Answers bytes decode_dirty_row
                                      decode_dirty_row-Consumes n 35 h)
                                    λ q _. tt

pub decode_scrollback_data-Answers : (bytes : List ℕ) → Answers (decode_scrollback_data bytes)
unfolding decode_scrollback_data
decode_scrollback_data-Answers bytes = at_least-Answers bytes _ 29 _ λ h.
    found-Answers _ _ (u32_at-found bytes 0 (omega (arith, h))) λ b0.
      found-Answers _ _ (i64_at-found bytes 4 (omega (arith, h))) λ b4.
        found-Answers _ _ (bool_at-found bytes 12 (omega (arith, h))) λ b12.
          found-Answers _ _ (u32_at-found bytes 13 (omega (arith, h))) λ b13.
            found-Answers _ _ (u64_at-found bytes 17 (omega (arith, h))) λ b17.
              found-Answers _ _ (u32_at-found bytes 25 (omega (arith, h))) λ n.
                elim (Bool-cases (ltb 10000 n)) [
                  | inl many ↦ rw many tt
                  | inr few ↦ rw few (
                      bind-Answers _ (λ q. q.1 ≤ length bytes) _ _
                        (decode_each-Answers bytes decode_dirty_row decode_dirty_row-Consumes n 29
                          h)
                        λ q _. tt)
                ]
