-- ===== src/Protocol/Messages/Splits/Safety.antt =====
-- message.rs: the decoders answer on any bytes.
use oakterm.Prelude.{ℕ, ◌+◌, ◌≤◌, List, length, arith}
use oakterm.Protocol.Wire.Safety.{
  Answers, bind-Answers, found-Answers, at_least-Answers, byte_at-found, u32_at-found, i16_at-found,
  decode_str-Answers,
}
use oakterm.Protocol.Wire.Enums.Answers.{split_direction_of-Answers}
use oakterm.Protocol.Messages.Splits.{
  decode_split_pane, decode_split_pane_response, decode_resize_pane, decode_swap_pane,
  decode_swap_pane_response, decode_get_layout_tree,
}

pub decode_split_pane-Answers : (bytes : List ℕ) → Answers (decode_split_pane bytes)
unfolding decode_split_pane
decode_split_pane-Answers bytes = at_least-Answers bytes _ 5 _ λ h.
    found-Answers _ _ (u32_at-found bytes 0 (omega (arith, h))) λ pane_id.
      bind-Answers _ (λ _. Unit {0}) _ _
        (found-Answers _ _ (byte_at-found bytes 4 (omega (arith, h)))
          λ b. split_direction_of-Answers b)
        λ direction _.
          bind-Answers _ (λ q. 5 + q.1 ≤ length bytes) _ _ (decode_str-Answers bytes 5)
            λ command _.
              bind-Answers _ (λ q. 5 + command.1 + q.1 ≤ length bytes) _ _
                (decode_str-Answers bytes (5 + command.1)) λ cwd _. tt

pub decode_split_pane_response-Answers :
    (bytes : List ℕ) → Answers (decode_split_pane_response bytes)
unfolding decode_split_pane_response
decode_split_pane_response-Answers bytes =
    at_least-Answers bytes _ 4 _
      λ h. found-Answers _ _ (u32_at-found bytes 0 (omega (arith, h))) λ new_pane_id. tt

pub decode_resize_pane-Answers : (bytes : List ℕ) → Answers (decode_resize_pane bytes)
unfolding decode_resize_pane
decode_resize_pane-Answers bytes = at_least-Answers bytes _ 10 _ λ h.
    found-Answers _ _ (u32_at-found bytes 0 (omega (arith, h))) λ pane_id.
      found-Answers _ _ (u32_at-found bytes 4 (omega (arith, h)))
        λ neighbor_pane_id. found-Answers _ _ (i16_at-found bytes 8 (omega (arith, h))) λ delta. tt

pub decode_swap_pane-Answers : (bytes : List ℕ) → Answers (decode_swap_pane bytes)
unfolding decode_swap_pane
decode_swap_pane-Answers bytes = at_least-Answers bytes _ 8 _ λ h.
    found-Answers _ _ (u32_at-found bytes 0 (omega (arith, h)))
      λ pane_id_a. found-Answers _ _ (u32_at-found bytes 4 (omega (arith, h))) λ pane_id_b. tt

pub decode_swap_pane_response-Answers : (bytes : List ℕ) → Answers (decode_swap_pane_response bytes)
unfolding decode_swap_pane_response
decode_swap_pane_response-Answers bytes = tt

pub decode_get_layout_tree-Answers : (bytes : List ℕ) → Answers (decode_get_layout_tree bytes)
unfolding decode_get_layout_tree
decode_get_layout_tree-Answers bytes = at_least-Answers bytes _ 8 _ λ h.
    found-Answers _ _ (u32_at-found bytes 0 (omega (arith, h)))
      λ workspace_id. found-Answers _ _ (u32_at-found bytes 4 (omega (arith, h))) λ tab_id. tt
