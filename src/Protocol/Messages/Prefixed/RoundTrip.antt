-- ===== src/Protocol/Messages/Prefixed/RoundTrip.antt =====
-- message.rs, input.rs: what was sent with lengths in front is what is decoded.
use oakterm.Prelude.{
  ℕ, ◌+◌, ◌≤◌, ◌<◌, ◌≡◌, refl, ◌∙◌, true, false, List, ◌++◌, ltb, length, drop, length-append,
  arith,
}
use oakterm.Protocol.Bytes.{to_le, from_le-two, from_le-four}
use oakterm.Protocol.Delivery.{receive, receive-encoded}
use oakterm.Protocol.Frame.{ok, ◌>>=◌, max_payload}
use oakterm.Protocol.Utf8.{is_utf8}
use oakterm.Protocol.Kinds.{msg_key_input, msg_yank_response}
use oakterm.Protocol.Wire.{at_least, from_utf8}
use oakterm.Protocol.Wire.Laws.{IsText}
use oakterm.Protocol.Wire.Offsets.{slice-front}
use oakterm.Protocol.Wire.Behind.{
  u16_at-here, text_in-behind, ltb-behind, text_in-last, u16_len-ok, u32_len-ok, take-all,
  drop-past,
}
use oakterm.Protocol.Messages.Prefixed.{
  CreatePane, encode_create_pane, decode_create_pane, YankResponse, encode_yank_response,
  decode_yank_response, frame_yank_response, KeyInput, encode_key_input, decode_key_input,
  frame_key_input,
}

pub record FitsCreatePane (m : CreatePane) : Type 0 where
  pub command : IsText m.command
  pub cwd : IsText m.cwd

module _ (m : CreatePane) (h : FitsCreatePane m) where
  abbrev create_pane_sent : List ℕ
  create_pane_sent = to_le 2 (length m.command) ++ (m.command ++ (to_le 2 (length m.cwd) ++ m.cwd))

  encode_create_pane-sent : encode_create_pane m ≡ ok create_pane_sent
  unfolding encode_create_pane
  encode_create_pane-sent =
      rw (u16_len-ok m.command h.command.size, u16_len-ok m.cwd h.cwd.size) refl

  decode_create_pane-sent : decode_create_pane create_pane_sent ≡ ok m
  unfolding decode_create_pane
  decode_create_pane-sent =
      let lc = length m.command in
      let pre = to_le 2 lc in
      let tail = to_le 2 (length m.cwd) ++ m.cwd in
      let bytes = pre ++ (m.command ++ tail) in
      let behind : drop (2 + lc) bytes ≡ tail = drop-past pre m.command tail in
      let four : ltb (length bytes) 4 ≡ false = ground (arith, length-append m.command tail) in
      rw
        (
          at_least,
          four,
          from_le-two lc h.command.size,
          ltb-behind bytes (2 + lc) tail behind 2 (omega arith) (omega arith),
          slice-front pre m.command tail,
          from_utf8,
          h.command.utf8,
          u16_at-here bytes (2 + lc) tail behind,
          from_le-two (length m.cwd) h.cwd.size,
          text_in-behind bytes (2 + lc) tail behind 2 (length m.cwd) (omega arith),
          text_in-last (to_le 2 (length m.cwd)) m.cwd h.cwd.utf8,
        )
        refl

  pub decode_create_pane-encode_create_pane : (encode_create_pane m >>= decode_create_pane) ≡ ok m
  decode_create_pane-encode_create_pane = rw encode_create_pane-sent decode_create_pane-sent

pub record FitsYankResponse (m : YankResponse) : Type 0 where
  pub size : 4 + length m.text ≤ max_payload
  pub utf8 : is_utf8 m.text ≡ true

pub decode_yank_response-encode_yank_response :
    (m : YankResponse)
    → FitsYankResponse m
    → (encode_yank_response m >>= decode_yank_response) ≡ ok m
unfolding encode_yank_response decode_yank_response
decode_yank_response-encode_yank_response m h =
    let bytes = to_le 4 (length m.text) ++ m.text in
    let four : ltb (length bytes) 4 ≡ false = ground arith in
    let all : ltb (length bytes) (4 + length m.text) ≡ false = ground arith in
    rw
      (
        u32_len-ok m.text (omega (arith, h.size)),
        at_least,
        four,
        from_le-four (length m.text) (omega (arith, h.size)),
        all,
        take-all m.text,
        h.utf8,
      )
      refl

pub record FitsKeyInput (m : KeyInput) : Type 0 where
  pub pane_id : m.pane_id < 4294967296
  pub key_data : length m.key_data < 65536

pub decode_key_input-encode_key_input :
    (m : KeyInput) → FitsKeyInput m → (encode_key_input m >>= decode_key_input) ≡ ok m
unfolding encode_key_input decode_key_input
decode_key_input-encode_key_input m h =
    let pre = to_le 4 m.pane_id ++ to_le 2 (length m.key_data) in
    let bytes = pre ++ m.key_data in
    let six : ltb (length bytes) 6 ≡ false = ground arith in
    let all : ltb (length bytes) (6 + length m.key_data) ≡ false = ground arith in
    rw
      (
        u16_len-ok m.key_data h.key_data,
        at_least,
        six,
        from_le-four m.pane_id h.pane_id,
        from_le-two (length m.key_data) h.key_data,
        all,
        take-all m.key_data,
      )
      refl

pub frame_yank_response-received :
    (m : YankResponse) (serial : ℕ)
    → serial < 4294967296
    → FitsYankResponse m
    → (frame_yank_response m serial >>= receive decode_yank_response) ≡ ok m
unfolding frame_yank_response encode_yank_response
frame_yank_response-received m serial numbered h =
    let sent : encode_yank_response m ≡ ok (to_le 4 (length m.text) ++ m.text) =
      rw (u32_len-ok m.text (omega (arith, h.size))) refl in
    receive-encoded decode_yank_response msg_yank_response serial
      (to_le 4 (length m.text) ++ m.text) (omega arith) numbered (omega (arith, h.size))
      (encode_yank_response m) sent
    ∙ decode_yank_response-encode_yank_response m h

pub frame_key_input-received :
    (m : KeyInput) → FitsKeyInput m → (frame_key_input m >>= receive decode_key_input) ≡ ok m
unfolding frame_key_input encode_key_input
frame_key_input-received m h =
    let payload = to_le 4 m.pane_id ++ to_le 2 (length m.key_data) ++ m.key_data in
    let sent : encode_key_input m ≡ ok payload = rw (u16_len-ok m.key_data h.key_data) refl in
    receive-encoded decode_key_input msg_key_input 0 payload (omega arith) (omega arith)
      (omega (arith, h.key_data)) (encode_key_input m) sent
    ∙ decode_key_input-encode_key_input m h
