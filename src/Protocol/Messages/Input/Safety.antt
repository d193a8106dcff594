-- ===== src/Protocol/Messages/Input/Safety.antt =====
-- crates/oakterm-protocol/src/input.rs: the decoders answer on any bytes.
use oakterm.Prelude.{ℕ, List, arith}
use oakterm.Protocol.Wire.Safety.{
  Answers, found-Answers, at_least-Answers, byte_at-found, u16_at-found, u32_at-found,
}
use oakterm.Protocol.Messages.Input.{decode_resize, decode_mouse_input, decode_detach}

pub decode_resize-Answers : (bytes : List ℕ) → Answers (decode_resize bytes)
unfolding decode_resize
decode_resize-Answers bytes = at_least-Answers bytes _ 12 _ λ h.
    found-Answers _ _ (u32_at-found bytes 0 (omega (arith, h))) λ pane_id.
      found-Answers _ _ (u16_at-found bytes 4 (omega (arith, h))) λ cols.
        found-Answers _ _ (u16_at-found bytes 6 (omega (arith, h))) λ rows.
          found-Answers _ _ (u16_at-found bytes 8 (omega (arith, h))) λ pixel_width.
            found-Answers _ _ (u16_at-found bytes 10 (omega (arith, h))) λ pixel_height. tt

pub decode_mouse_input-Answers : (bytes : List ℕ) → Answers (decode_mouse_input bytes)
unfolding decode_mouse_input
decode_mouse_input-Answers bytes = at_least-Answers bytes _ 11 _ λ h.
    found-Answers _ _ (u32_at-found bytes 0 (omega (arith, h))) λ pane_id.
      found-Answers _ _ (byte_at-found bytes 4 (omega (arith, h))) λ event_type.
        found-Answers _ _ (u16_at-found bytes 5 (omega (arith, h))) λ x.
          found-Answers _ _ (u16_at-found bytes 7 (omega (arith, h))) λ y.
            found-Answers _ _ (byte_at-found bytes 9 (omega (arith, h))) λ modifiers.
              found-Answers _ _ (byte_at-found bytes 10 (omega (arith, h))) λ button. tt

pub decode_detach-Answers : (bytes : List ℕ) → Answers (decode_detach bytes)
unfolding decode_detach
decode_detach-Answers bytes = tt
