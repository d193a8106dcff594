-- ===== src/Protocol/Messages/Results.antt =====
-- message.rs: what the daemon answers to a search.
pub mod RoundTrip
pub mod Safety
use oakterm.Prelude.{
  zero, suc, Option, none, some, if◌then◌else◌, ◌==◌, ℕ, ◌+◌, ◌≤◌, ◌<◌, ◌≡◌, refl, sym, ◌∙◌, Bool,
  false, List, [], ◌∷◌, ◌++◌, ltb, length, arith,
}
use oakterm.Prelude.Integers.{ℤ, pos, IsSigned}
use oakterm.Protocol.Bytes.{to_le, from_le-two, from_le-four}
use oakterm.Protocol.Delivery.{receive, receive-new, receive-encoded}
use oakterm.Protocol.Frame.{
  Frame, IoResult, ErrorKind, ok, err, ◌>>=◌, byte_at, u16_at, u32_at, new,
}
use oakterm.Protocol.Kinds.{msg_prompt_position, msg_search_results}
use oakterm.Protocol.Wire.{
  u16_len, u32_len, slice, from_utf8, text_in, encode_each, decode_each, Text, at_least, encode_str,
  decode_str, u64_at, i16_at, i32_at, i64_at, i16_le, i32_le, i64_le, bool_byte, bool_at,
}
use oakterm.Protocol.Wire.Laws.{IsText, from_le-eight, i16-back, i32-back, i64-back, bool-back}
use oakterm.Protocol.Wire.Offsets.{
  encode_str-ok, decode_str-then, decode_str-last, encode_str-second, decode_str-second,
}
use oakterm.Protocol.Wire.Safety.{
  AnswersWith, Answers, bind-Answers, found-Answers, at_least-Answers, byte_at-found, u16_at-found,
  u32_at-found, u64_at-found, i16_at-found, i32_at-found, i64_at-found, bool_at-found,
  decode_str-Answers,
}

pub record PromptPosition : Type 0 where
  pub pane_id : ℕ
  pub offset : Option ℤ

abbrev offset_bytes : Option ℤ → List ℕ
offset_bytes (some v) = i64_le v ++ 1 ∷ []
offset_bytes none = i64_le (pos 0) ++ 0 ∷ []

unfoldable pub encode_prompt_position : PromptPosition → List ℕ
encode_prompt_position m = to_le 4 m.pane_id ++ offset_bytes m.offset

unfoldable pub decode_prompt_position : List ℕ → IoResult PromptPosition
decode_prompt_position bytes = at_least 13 bytes (
    i64_at bytes 4 >>= λ raw_offset. bool_at bytes 12 >>= λ found. u32_at bytes 0 >>= λ pane_id.
    ok (record { pane_id = pane_id; offset = if found then some raw_offset else none }))

unfoldable pub frame_prompt_position : PromptPosition → ℕ → IoResult Frame
frame_prompt_position m serial = new msg_prompt_position serial (encode_prompt_position m)

pub record VisibleMatch : Type 0 where
  pub row : ℕ
  pub col_start : ℕ
  pub col_end : ℕ
  pub is_active : Bool

pub record SearchResults : Type 0 where
  pub pane_id : ℕ
  pub total_matches : ℕ
  pub active_index : Option ℕ
  pub active_row_offset : ℤ
  pub capped : Bool
  pub visible_matches : List VisibleMatch

abbrev no_index : ℕ
no_index = 4294967295

-- `active_index.unwrap_or(u32::MAX)`
abbrev index_or_max : Option ℕ → ℕ
index_or_max none = no_index
index_or_max (some i) = i

abbrev index_of_raw : ℕ → Option ℕ
index_of_raw raw = if raw == no_index then none else some raw

abbrev match_bytes : VisibleMatch → List ℕ
match_bytes m =
    to_le 2 m.row ++ to_le 2 m.col_start ++ to_le 2 m.col_end ++ bool_byte m.is_active ∷ []

abbrev matches_bytes : List VisibleMatch → List ℕ
matches_bytes [] = []
matches_bytes (m ∷ ms) = match_bytes m ++ matches_bytes ms

unfoldable pub encode_search_results : SearchResults → IoResult (List ℕ)
encode_search_results m = u16_len m.visible_matches >>= λ count. ok (
    to_le 4 m.pane_id
    ++ to_le 4 m.total_matches
    ++ to_le 4 (index_or_max m.active_index)
    ++ i64_le m.active_row_offset
    ++ bool_byte m.capped ∷ to_le 2 count
    ++ matches_bytes m.visible_matches)

unfoldable pub decode_matches : ℕ → List ℕ → ℕ → IoResult (List VisibleMatch)
decode_matches zero bytes offset = ok []
decode_matches (suc count) bytes offset = at_least (offset + 7) bytes (
    u16_at bytes offset >>= λ row. u16_at bytes (offset + 2) >>= λ col_start.
    u16_at bytes (offset + 4) >>= λ col_end. bool_at bytes (offset + 6) >>= λ is_active.
    decode_matches count bytes (offset + 7) >>= λ rest.
    ok (
      record { row = row; col_start = col_start; col_end = col_end; is_active = is_active } ∷ rest))

unfoldable pub decode_search_results : List ℕ → IoResult SearchResults
decode_search_results bytes = at_least 23 bytes (
    u32_at bytes 0 >>= λ pane_id. u32_at bytes 4 >>= λ total_matches.
    u32_at bytes 8 >>= λ raw_active. i64_at bytes 12 >>= λ active_row_offset.
    bool_at bytes 20 >>= λ capped. u16_at bytes 21 >>= λ match_count.
    decode_matches match_count bytes 23 >>= λ visible_matches. ok (record {
      pane_id = pane_id;
      total_matches = total_matches;
      active_index = index_of_raw raw_active;
      active_row_offset = active_row_offset;
      capped = capped;
      visible_matches = visible_matches;
    }))

unfoldable pub frame_search_results : SearchResults → ℕ → IoResult Frame
frame_search_results m serial = encode_search_results m >>= new msg_search_results serial
