-- ===== src/Protocol/Messages/Panes/RoundTrip.antt =====
-- message.rs: a list of panes that was sent is what is decoded.
use oakterm.Prelude.{
  append_assoc, append-nil, ℕ, ◌+◌, ◌≤◌, ◌<◌, ◌≡◌, refl, sym, ap, ◌∙◌, false, List, [], ◌++◌, ltb,
  length, drop, length-append, arith,
}
use oakterm.Prelude.Integers.{IsSigned}
use oakterm.Prelude.Totals.{All, All-all}
use oakterm.Protocol.Bytes.{to_le, from_le-two, from_le-four}
use oakterm.Protocol.Delivery.{receive, receive-encoded}
use oakterm.Protocol.Frame.{ok, ◌>>=◌, max_payload}
use oakterm.Protocol.Kinds.{msg_list_panes_response}
use oakterm.Protocol.Wire.{at_least, i32_le, from_utf8}
use oakterm.Protocol.Wire.Laws.{IsText, i32-back}
use oakterm.Protocol.Wire.Offsets.{text_in-front, slice-front}
use oakterm.Protocol.Wire.Behind.{
  u16_at-behind, u32_at-behind, i32_at-behind, u16_at-here, text_in-behind, ltb-behind, u16_len-ok,
  drop-past,
}
use oakterm.Protocol.Wire.Sequences.{Carried, wires, encode_each-wires, decode_each-wires}
use oakterm.Protocol.Messages.Panes.{
  PaneInfo, encode_pane_info, decode_pane_info, ListPanesResponse, encode_list_panes_response,
  decode_list_panes_response, frame_list_panes_response,
}

pub record FitsPaneInfo (m : PaneInfo) : Type 0 where
  pub pane_id : m.pane_id < 4294967296
  pub title : IsText m.title
  pub cols : m.cols < 65536
  pub rows : m.rows < 65536
  pub pid : m.pid < 4294967296
  pub exit_code : IsSigned 2147483648 m.exit_code
  pub cwd : IsText m.cwd

-- The bytes of fixed size between the texts, with the length of the second text.
abbrev pane_info_numbers : PaneInfo → List ℕ
pane_info_numbers m =
    to_le 2 m.cols
    ++ to_le 2 m.rows
    ++ to_le 4 m.pid
    ++ i32_le m.exit_code
    ++ to_le 2 (length m.cwd)

abbrev pub pane_info_sent : PaneInfo → List ℕ
pane_info_sent m =
    to_le 4 m.pane_id ++ to_le 2 (length m.title) ++ (m.title ++ (pane_info_numbers m ++ m.cwd))

module _ (m : PaneInfo) (h : FitsPaneInfo m) where
  encode_pane_info-sent : encode_pane_info m ≡ ok (pane_info_sent m)
  unfolding encode_pane_info
  encode_pane_info-sent = rw (u16_len-ok m.title h.title.size, u16_len-ok m.cwd h.cwd.size) refl

  decode_pane_info-sent :
      (rest : List ℕ)
      → decode_pane_info (pane_info_sent m ++ rest) ≡ ok (m, length (pane_info_sent m))
  unfolding decode_pane_info
  decode_pane_info-sent rest =
      let n = length m.title in
      let pre = to_le 4 m.pane_id ++ to_le 2 n in
      let ys = pane_info_numbers m ++ (m.cwd ++ rest) in
      let bytes = pre ++ (m.title ++ ys) in
      let same : pane_info_sent m ++ rest ≡ bytes =
        ap (λ b. pre ++ b)
          (append_assoc m.title (pane_info_numbers m ++ m.cwd) rest
            ∙ ap (λ b. m.title ++ b) (append_assoc (pane_info_numbers m) m.cwd rest)) in
      let behind : drop (6 + n) bytes ≡ ys = drop-past pre m.title ys in
      let six : ltb (length bytes) 6 ≡ false = ground arith in
      let fourteen : 6 + n + 12 + 2 ≡ 6 + n + 14 = omega arith in
      let size : 6 + n + 14 + length m.cwd ≡ length (pane_info_sent m) =
        omega (arith, length-append m.title (pane_info_numbers m ++ m.cwd)) in
      ap decode_pane_info same
      ∙ rw
          (
            at_least,
            six,
            from_le-four m.pane_id h.pane_id,
            from_le-two n h.title.size,
            ltb-behind bytes (6 + n) ys behind 12 (omega arith) (omega arith),
            slice-front pre m.title ys,
            from_utf8,
            h.title.utf8,
            u16_at-here bytes (6 + n) ys behind,
            from_le-two m.cols h.cols,
            u16_at-behind bytes (6 + n) ys behind 2,
            from_le-two m.rows h.rows,
            u32_at-behind bytes (6 + n) ys behind 4,
            from_le-four m.pid h.pid,
            i32_at-behind bytes (6 + n) ys behind 8,
            i32-back m.exit_code h.exit_code,
            fourteen,
            ltb-behind bytes (6 + n) ys behind 14 (omega arith) (omega arith),
            u16_at-behind bytes (6 + n) ys behind 12,
            from_le-two (length m.cwd) h.cwd.size,
            text_in-behind bytes (6 + n) ys behind 14 (length m.cwd) (omega arith),
            text_in-front (pane_info_numbers m) m.cwd rest h.cwd.utf8,
          )
          (ap (λ k. ok (m, k)) size)

  pane_info-Carried : Carried encode_pane_info decode_pane_info pane_info_sent m
  pane_info-Carried = record { written = encode_pane_info-sent; taken = decode_pane_info-sent }

infos-Carried :
    (ms : List PaneInfo)
    → All FitsPaneInfo ms
    → All (Carried encode_pane_info decode_pane_info pane_info_sent) ms
infos-Carried ms h = All-all ms pane_info-Carried h

-- A list of panes is what the receiver decodes, if the fields of the panes fit their types, there
-- are fewer than 65,536 panes, and the list fits a frame.
pub receive-list_panes_response :
    (m : ListPanesResponse) (serial : ℕ)
    → serial < 4294967296
    → length m.panes < 65536
    → All FitsPaneInfo m.panes
    → 2 + length (wires pane_info_sent m.panes) ≤ max_payload
    → (frame_list_panes_response m serial >>= receive decode_list_panes_response) ≡ ok m
unfolding frame_list_panes_response encode_list_panes_response decode_list_panes_response
receive-list_panes_response m serial numbered few h fits =
    let pre = to_le 2 (length m.panes) in
    let listed = wires pane_info_sent m.panes in
    let bytes = pre ++ listed in
    let two : ltb (length bytes) 2 ≡ false = ground arith in
    let carried = infos-Carried m.panes h in
    let sent : encode_list_panes_response m ≡ ok bytes =
      rw
        (
          u16_len-ok m.panes few,
          encode_each-wires encode_pane_info decode_pane_info pane_info_sent m.panes carried,
        )
        refl in
    let all =
      decode_each-wires encode_pane_info decode_pane_info pane_info_sent m.panes bytes 2 [] carried
        (omega arith) (sym (append-nil listed)) in
    receive-encoded decode_list_panes_response msg_list_panes_response serial bytes (omega arith)
      numbered (omega (arith, fits)) (encode_list_panes_response m) sent
    ∙ rw (sent, at_least, two, from_le-two (length m.panes) few, all) refl
