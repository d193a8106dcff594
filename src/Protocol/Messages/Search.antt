-- ===== src/Protocol/Messages/Search.antt =====
-- message.rs: the requests of the search.
pub mod RoundTrip
pub mod Safety
use oakterm.Prelude.{
  ℕ, ◌+◌, ◌≤◌, ◌<◌, ◌≡◌, refl, sym, ◌∙◌, Bool, false, List, [], ◌∷◌, ◌++◌, ltb, length, arith,
}
use oakterm.Prelude.Integers.{ℤ, IsSigned}
use oakterm.Protocol.Bytes.{to_le, from_le-two, from_le-four}
use oakterm.Protocol.Delivery.{receive, receive-new, receive-encoded}
use oakterm.Protocol.Frame.{Frame, IoResult, ok, ◌>>=◌, byte_at, u16_at, u32_at, new}
use oakterm.Protocol.Wire.{
  Text, at_least, encode_str, decode_str, u64_at, i16_at, i32_at, i64_at, i16_le, i32_le, i64_le,
  bool_byte, bool_at,
}
use oakterm.Protocol.Wire.Laws.{IsText, from_le-eight, i16-back, i32-back, i64-back, bool-back}
use oakterm.Protocol.Wire.Offsets.{
  encode_str-ok, decode_str-then, decode_str-last, encode_str-second, decode_str-second,
}
use oakterm.Protocol.Wire.Safety.{
  AnswersWith, Answers, bind-Answers, found-Answers, at_least-Answers, byte_at-found, u16_at-found,
  u32_at-found, u64_at-found, i16_at-found, i32_at-found, i64_at-found, bool_at-found,
  decode_str-Answers,
}
use oakterm.Protocol.Wire.Enums.{
  SearchDirection, search_direction_code, search_direction_of, search_direction_of-code,
}
use oakterm.Protocol.Wire.Enums.Answers.{search_direction_of-Answers}

pub record FindPrompt : Type 0 where
  pub pane_id : ℕ
  pub from_offset : ℤ
  pub direction : SearchDirection

unfoldable pub encode_find_prompt : FindPrompt → List ℕ
encode_find_prompt m =
    to_le 4 m.pane_id ++ i64_le m.from_offset ++ search_direction_code m.direction ∷ []

unfoldable pub decode_find_prompt : List ℕ → IoResult FindPrompt
decode_find_prompt bytes = at_least 13 bytes (
    u32_at bytes 0 >>= λ pane_id. i64_at bytes 4 >>= λ from_offset.
    byte_at bytes 12 >>= search_direction_of >>= λ direction.
    ok (record { pane_id = pane_id; from_offset = from_offset; direction = direction }))

pub record SearchScrollback : Type 0 where
  pub pane_id : ℕ
  pub flags : ℕ
  pub query : Text

unfoldable pub encode_search_scrollback : SearchScrollback → IoResult (List ℕ)
encode_search_scrollback m = encode_str (to_le 4 m.pane_id ++ m.flags ∷ []) m.query

unfoldable pub decode_search_scrollback : List ℕ → IoResult SearchScrollback
decode_search_scrollback bytes = at_least 5 bytes (
    u32_at bytes 0 >>= λ pane_id. byte_at bytes 4 >>= λ flags. decode_str bytes 5 >>= λ query.
    ok (record { pane_id = pane_id; flags = flags; query = query.0 }))

pub record SearchNav : Type 0 where
  pub pane_id : ℕ

unfoldable pub encode_search_nav : SearchNav → List ℕ
encode_search_nav m = to_le 4 m.pane_id

unfoldable pub decode_search_nav : List ℕ → IoResult SearchNav
decode_search_nav bytes =
    at_least 4 bytes (u32_at bytes 0 >>= λ pane_id. ok (record { pane_id = pane_id }))
