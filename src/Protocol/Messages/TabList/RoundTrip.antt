-- ===== src/Protocol/Messages/TabList/RoundTrip.antt =====
-- message.rs: a list of tabs that was sent is what is decoded.
use oakterm.Prelude.{
  append-nil, ℕ, ◌+◌, ◌≤◌, ◌<◌, ◌≡◌, refl, sym, ap, ◌∙◌, false, List, [], ◌++◌, ltb, length, drop,
  length-append, arith,
}
use oakterm.Prelude.Totals.{All, All-all}
use oakterm.Protocol.Bytes.{to_le, from_le-two, from_le-four}
use oakterm.Protocol.Delivery.{receive, receive-encoded}
use oakterm.Protocol.Frame.{ok, ◌>>=◌, max_payload}
use oakterm.Protocol.Kinds.{msg_tab_list}
use oakterm.Protocol.Wire.{at_least, from_utf8}
use oakterm.Protocol.Wire.Laws.{IsText}
use oakterm.Protocol.Wire.Offsets.{text_in-front, slice-front, drop-sum}
use oakterm.Protocol.Wire.Behind.{u16_at-behind, u32_at-here, ltb-behind, u16_len-ok, drop-past}
use oakterm.Protocol.Wire.Sequences.{Carried, wires, encode_each-wires, decode_each-wires}
use oakterm.Protocol.Messages.TabList.{
  TabEntry, encode_tab_entry, decode_tab_entry, TabList, encode_tab_list, decode_tab_list,
  frame_tab_list,
}

pub record FitsTabEntry (m : TabEntry) : Type 0 where
  pub tab_id : m.tab_id < 4294967296
  pub focused_pane : m.focused_pane < 4294967296
  pub name : IsText m.name

abbrev pub tab_entry_sent : TabEntry → List ℕ
tab_entry_sent m = to_le 4 m.tab_id ++ to_le 4 m.focused_pane ++ to_le 2 (length m.name) ++ m.name

tab_entry-Carried :
    (m : TabEntry) → FitsTabEntry m → Carried encode_tab_entry decode_tab_entry tab_entry_sent m
unfolding encode_tab_entry decode_tab_entry
tab_entry-Carried m h = record {
  written = rw (u16_len-ok m.name h.name.size) refl;
  taken = λ rest.
      let pre = to_le 4 m.tab_id ++ to_le 4 m.focused_pane ++ to_le 2 (length m.name) in
      let ten : ltb (length (pre ++ (m.name ++ rest))) 10 ≡ false = ground arith in
      let size : 10 + length m.name ≡ length (tab_entry_sent m) = omega arith in
      rw
        (
          at_least,
          ten,
          from_le-four m.tab_id h.tab_id,
          from_le-four m.focused_pane h.focused_pane,
          from_le-two (length m.name) h.name.size,
          text_in-front pre m.name rest h.name.utf8,
        )
        (ap (λ k. ok (m, k)) size);
}

pub record FitsTabList (m : TabList) : Type 0 where
  pub workspace_id : m.workspace_id < 4294967296
  pub workspace_name : IsText m.workspace_name
  pub active_tab : m.active_tab < 4294967296
  pub count : length m.tabs < 65536
  pub tabs : All FitsTabEntry m.tabs

entries-Carried :
    (ms : List TabEntry)
    → All FitsTabEntry ms
    → All (Carried encode_tab_entry decode_tab_entry tab_entry_sent) ms
entries-Carried ms h = All-all ms tab_entry-Carried h

module _ (m : TabList) (h : FitsTabList m) where
  abbrev counted : List ℕ
  counted = to_le 4 m.active_tab ++ to_le 2 (length m.tabs)

  abbrev behind_name : List ℕ
  behind_name = counted ++ wires tab_entry_sent m.tabs

  abbrev pub tab_list_sent : List ℕ
  tab_list_sent =
      to_le 4 m.workspace_id
      ++ to_le 2 (length m.workspace_name)
      ++ (m.workspace_name ++ behind_name)

  encode_tab_list-sent : encode_tab_list m ≡ ok tab_list_sent
  unfolding encode_tab_list
  encode_tab_list-sent =
      rw
        (
          u16_len-ok m.workspace_name h.workspace_name.size,
          u16_len-ok m.tabs h.count,
          encode_each-wires encode_tab_entry decode_tab_entry tab_entry_sent m.tabs
              (entries-Carried m.tabs h.tabs),
        )
        refl

  decode_tab_list-sent : decode_tab_list tab_list_sent ≡ ok m
  unfolding decode_tab_list
  decode_tab_list-sent =
      let n = length m.workspace_name in
      let pre = to_le 4 m.workspace_id ++ to_le 2 n in
      let bytes = pre ++ (m.workspace_name ++ behind_name) in
      let behind : drop (6 + n) bytes ≡ behind_name = drop-past pre m.workspace_name behind_name in
      let six : ltb (length bytes) 6 ≡ false = ground arith in
      let listed : drop (6 + n + 6) bytes ≡ wires tab_entry_sent m.tabs ++ [] =
        drop-sum (6 + n) 6 bytes
        ∙ ap (drop 6) behind
        ∙ sym (append-nil (wires tab_entry_sent m.tabs)) in
      let within : 6 + n + 6 ≤ length bytes =
        omega (arith, length-append m.workspace_name behind_name) in
      let all =
        decode_each-wires encode_tab_entry decode_tab_entry tab_entry_sent m.tabs bytes (6 + n + 6)
          [] (entries-Carried m.tabs h.tabs) within listed in
      rw
        (
          at_least,
          six,
          from_le-four m.workspace_id h.workspace_id,
          from_le-two n h.workspace_name.size,
          ltb-behind bytes (6 + n) behind_name behind 6 (omega arith) (omega arith),
          slice-front pre m.workspace_name behind_name,
          from_utf8,
          h.workspace_name.utf8,
          u32_at-here bytes (6 + n) behind_name behind,
          from_le-four m.active_tab h.active_tab,
          u16_at-behind bytes (6 + n) behind_name behind 4,
          from_le-two (length m.tabs) h.count,
          all,
        )
        refl

  -- The list of tabs is what the receiver decodes, if it fits a frame.
  pub receive-tab_list :
      (serial : ℕ)
      → serial < 4294967296
      → length tab_list_sent ≤ max_payload
      → (frame_tab_list m serial >>= receive decode_tab_list) ≡ ok m
  unfolding frame_tab_list
  receive-tab_list serial numbered fits =
      receive-encoded decode_tab_list msg_tab_list serial tab_list_sent (omega arith) numbered fits
        (encode_tab_list m) encode_tab_list-sent
      ∙ rw encode_tab_list-sent decode_tab_list-sent
