-- ===== src/Protocol/Messages/Search/RoundTrip.antt =====
-- message.rs: what was sent is what is decoded.
use oakterm.Prelude.{◌<◌, ◌≡◌, refl, false, [], ◌∷◌, ◌++◌, ltb, length, arith}
use oakterm.Prelude.Integers.{IsSigned}
use oakterm.Protocol.Bytes.{to_le, from_le-four}
use oakterm.Protocol.Frame.{ok, ◌>>=◌}
use oakterm.Protocol.Wire.{at_least}
use oakterm.Protocol.Wire.Laws.{IsText, i64-back}
use oakterm.Protocol.Wire.Offsets.{encode_str-ok, decode_str-last}
use oakterm.Protocol.Wire.Enums.{search_direction_of-code}
use oakterm.Protocol.Messages.Search.{
  FindPrompt, encode_find_prompt, decode_find_prompt, SearchScrollback, encode_search_scrollback,
  decode_search_scrollback, SearchNav, encode_search_nav, decode_search_nav,
}

pub record FitsFindPrompt (m : FindPrompt) : Type 0 where
  pub pane_id : m.pane_id < 4294967296
  pub from_offset : IsSigned 9223372036854775808 m.from_offset

pub decode_find_prompt-encode_find_prompt :
    (m : FindPrompt) → FitsFindPrompt m → decode_find_prompt (encode_find_prompt m) ≡ ok m
unfolding encode_find_prompt decode_find_prompt
decode_find_prompt-encode_find_prompt m h =
    rw
      (
        from_le-four m.pane_id h.pane_id,
        i64-back m.from_offset h.from_offset,
        search_direction_of-code m.direction,
      )
      refl

pub record FitsSearchScrollback (m : SearchScrollback) : Type 0 where
  pub pane_id : m.pane_id < 4294967296
  pub query : IsText m.query

pub decode_search_scrollback-encode_search_scrollback :
    (m : SearchScrollback)
    → FitsSearchScrollback m
    → (encode_search_scrollback m >>= decode_search_scrollback) ≡ ok m
unfolding encode_search_scrollback decode_search_scrollback
decode_search_scrollback-encode_search_scrollback m h =
    let pre = to_le 4 m.pane_id ++ m.flags ∷ [] in
    let size : ltb (length (pre ++ (to_le 2 (length m.query) ++ m.query))) 5 ≡ false =
      ground arith in
    rw
      (
        encode_str-ok pre m.query h.query,
        at_least,
        size,
        from_le-four m.pane_id h.pane_id,
        decode_str-last pre m.query h.query,
      )
      refl

pub record FitsSearchNav (m : SearchNav) : Type 0 where
  pub pane_id : m.pane_id < 4294967296

pub decode_search_nav-encode_search_nav :
    (m : SearchNav) → FitsSearchNav m → decode_search_nav (encode_search_nav m) ≡ ok m
unfolding encode_search_nav decode_search_nav
decode_search_nav-encode_search_nav m h = rw (from_le-four m.pane_id h.pane_id) refl
