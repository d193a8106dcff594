-- ===== src/Protocol/Messages/Results/RoundTrip.antt =====
-- message.rs: what was answered to a search is what is decoded.
use oakterm.Prelude.{
  Option, none, some, ◌==◌, ℕ, ◌+◌, ◌*◌, ◌<◌, ◌≡◌, refl, ap, ◌∙◌, false, List, [], ◌∷◌, ◌++◌, ltb,
  length, drop, arith,
}
use oakterm.Prelude.Integers.{ℤ, IsSigned}
use oakterm.Prelude.Totals.{All}
use oakterm.Protocol.Bytes.{to_le, from_le, from_le-two, from_le-four}
use oakterm.Protocol.Delivery.{receive, receive-new, receive-encoded}
use oakterm.Protocol.Frame.{ok, ◌>>=◌, u16_at}
use oakterm.Protocol.Kinds.{msg_prompt_position, msg_search_results}
use oakterm.Protocol.Wire.{at_least, i64_le, bool_byte}
use oakterm.Protocol.Wire.Laws.{i64-back, bool-back}
use oakterm.Protocol.Wire.Offsets.{drop-sum}
use oakterm.Protocol.Wire.Behind.{
  byte_at-behind, u16_at-behind, u16_at-here, ltb-behind, u16_len-ok,
}
use oakterm.Protocol.Messages.Results.{
  PromptPosition, encode_prompt_position, decode_prompt_position, frame_prompt_position,
  VisibleMatch, SearchResults, matches_bytes, match_bytes, index_or_max, index_of_raw,
  decode_matches, encode_search_results, decode_search_results, frame_search_results,
}

abbrev IsOffset : Option ℤ → Type 0
IsOffset none = Unit {0}
IsOffset (some z) = IsSigned 9223372036854775808 z

-- `u32::MAX` stands for no index.
abbrev IsIndex : Option ℕ → Type 0
IsIndex none = Unit {0}
IsIndex (some i) = i < 4294967295

pub record FitsPromptPosition (m : PromptPosition) : Type 0 where
  pub pane_id : m.pane_id < 4294967296
  pub offset : IsOffset m.offset

position-back :
    (pane_id : ℕ) (offset : Option ℤ)
    → FitsPromptPosition (record { pane_id = pane_id; offset = offset })
    → decode_prompt_position
        (encode_prompt_position (record { pane_id = pane_id; offset = offset }))
      ≡ ok (record { pane_id = pane_id; offset = offset })
unfolding encode_prompt_position decode_prompt_position
position-back pane_id none h = rw (from_le-four pane_id h.pane_id) refl
position-back pane_id (some z) h = rw (from_le-four pane_id h.pane_id, i64-back z h.offset) refl

-- The size of the encoding does not depend on whether a prompt was found.
length-encode_prompt_position :
    (pane_id : ℕ) (offset : Option ℤ)
    → length (encode_prompt_position (record { pane_id = pane_id; offset = offset })) ≡ 13
unfolding encode_prompt_position
length-encode_prompt_position pane_id none = refl
length-encode_prompt_position pane_id (some z) = refl

pub record FitsVisibleMatch (m : VisibleMatch) : Type 0 where
  pub row : m.row < 65536
  pub col_start : m.col_start < 65536
  pub col_end : m.col_end < 65536

decode_matches-bytes :
    (ms : List VisibleMatch) (bytes : List ℕ) (o : ℕ)
    → All FitsVisibleMatch ms
    → drop o bytes ≡ matches_bytes ms
    → decode_matches (length ms) bytes o ≡ ok ms
unfolding decode_matches
decode_matches-bytes [] bytes o h e = refl
decode_matches-bytes (m ∷ ms) bytes o h e =
    let ys = match_bytes m ++ matches_bytes ms in
    let next : drop (o + 7) bytes ≡ matches_bytes ms = drop-sum o 7 bytes ∙ ap (drop 7) e in
    let back : u16_at ys 0 ≡ ok m.row = rw (from_le-two m.row h.0.row) refl in
    rw
      (
        at_least,
        ltb-behind bytes o ys e 7 (omega arith) (omega arith),
        u16_at-here bytes o ys e,
        from_le-two m.row h.0.row,
        u16_at-behind bytes o ys e 2,
        from_le-two m.col_start h.0.col_start,
        u16_at-behind bytes o ys e 4,
        from_le-two m.col_end h.0.col_end,
        byte_at-behind bytes o ys e 6,
        bool-back m.is_active,
        decode_matches-bytes ms bytes (o + 7) h.1 next,
      )
      refl

pub record FitsSearchResults (m : SearchResults) : Type 0 where
  pub pane_id : m.pane_id < 4294967296
  pub total_matches : m.total_matches < 4294967296
  pub active_index : IsIndex m.active_index
  pub active_row_offset : IsSigned 9223372036854775808 m.active_row_offset
  pub count : length m.visible_matches < 65536
  pub visible_matches : All FitsVisibleMatch m.visible_matches

index-back : (o : Option ℕ) → IsIndex o → index_of_raw (from_le (to_le 4 (index_or_max o))) ≡ o
index-back none h = refl
index-back (some i) h =
    let e : (i == 4294967295) ≡ false = ground (arith, h) in
    rw (from_le-four i (omega (arith, h)), e) refl

length-matches_bytes : (ms : List VisibleMatch) → length (matches_bytes ms) ≡ 7 * length ms
length-matches_bytes [] = refl
length-matches_bytes (m ∷ ms) = omega (arith, length-matches_bytes ms)

module _ (m : SearchResults) (h : FitsSearchResults m) where
  abbrev search_results_sent : List ℕ
  search_results_sent =
      to_le 4 m.pane_id
      ++ to_le 4 m.total_matches
      ++ to_le 4 (index_or_max m.active_index)
      ++ i64_le m.active_row_offset
      ++ bool_byte m.capped ∷ to_le 2 (length m.visible_matches)
      ++ matches_bytes m.visible_matches

  encode_search_results-sent : encode_search_results m ≡ ok search_results_sent
  unfolding encode_search_results
  encode_search_results-sent = rw (u16_len-ok m.visible_matches h.count) refl

  decode_search_results-sent : decode_search_results search_results_sent ≡ ok m
  unfolding decode_search_results
  decode_search_results-sent =
      let fixed : ltb (length search_results_sent) 23 ≡ false = ground arith in
      rw
        (
          at_least,
          fixed,
          from_le-four m.pane_id h.pane_id,
          from_le-four m.total_matches h.total_matches,
          i64-back m.active_row_offset h.active_row_offset,
          bool-back m.capped,
          from_le-two (length m.visible_matches) h.count,
          decode_matches-bytes m.visible_matches search_results_sent 23 h.visible_matches refl,
          index-back m.active_index h.active_index,
        )
        refl

-- The position of a prompt, found or not, and the results of a search are what the receiver
-- decodes, if the fields and the number of matches fit their types and the active index is not the
-- largest `u32`, which stands for none.
pub receive-results :
    (a : PromptPosition) (b : SearchResults) (serial : ℕ)
    → serial < 4294967296
    → FitsPromptPosition a
    → FitsSearchResults b
    → ((frame_prompt_position a serial >>= receive decode_prompt_position) ≡ ok a)
      × ((frame_search_results b serial >>= receive decode_search_results) ≡ ok b)
unfolding frame_prompt_position frame_search_results
receive-results a b serial numbered ha hb = (
  receive-new decode_prompt_position msg_prompt_position serial (encode_prompt_position a)
        (omega arith) numbered (omega (arith, length-encode_prompt_position a.pane_id a.offset))
      ∙ position-back a.pane_id a.offset ha,
  receive-encoded decode_search_results msg_search_results serial (search_results_sent b hb)
        (omega arith) numbered (omega (arith, length-matches_bytes b.visible_matches, hb.count))
        (encode_search_results b) (encode_search_results-sent b hb)
      ∙ rw (encode_search_results-sent b hb) (decode_search_results-sent b hb),
)
