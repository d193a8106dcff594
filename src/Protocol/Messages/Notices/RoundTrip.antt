-- ===== src/Protocol/Messages/Notices/RoundTrip.antt =====
-- message.rs, render.rs: what was sent is what is decoded.
use oakterm.Prelude.{◌<◌, ◌≡◌, refl, ◌∙◌, false, ◌++◌, ltb, length, arith}
use oakterm.Prelude.Integers.{IsSigned}
use oakterm.Protocol.Bytes.{to_le, from_le-four}
use oakterm.Protocol.Delivery.{receive, receive-new, receive-encoded}
use oakterm.Protocol.Frame.{ok, ◌>>=◌}
use oakterm.Protocol.Kinds.{msg_title_changed, msg_pane_exited, msg_bell}
use oakterm.Protocol.Wire.{at_least}
use oakterm.Protocol.Wire.Laws.{IsText, from_le-eight, i32-back}
use oakterm.Protocol.Wire.Offsets.{encode_str-ok, decode_str-last}
use oakterm.Protocol.Messages.Notices.{
  TitleChanged, encode_title_changed, decode_title_changed, frame_title_changed, PaneExited,
  encode_pane_exited, decode_pane_exited, frame_pane_exited, Bell, encode_bell, decode_bell,
  frame_bell, DirtyNotify, encode_dirty_notify, decode_dirty_notify, GetRenderUpdate,
  encode_get_render_update, decode_get_render_update,
}

pub record FitsTitleChanged (m : TitleChanged) : Type 0 where
  pub pane_id : m.pane_id < 4294967296
  pub title : IsText m.title

pub decode_title_changed-encode_title_changed :
    (m : TitleChanged)
    → FitsTitleChanged m
    → (encode_title_changed m >>= decode_title_changed) ≡ ok m
unfolding encode_title_changed decode_title_changed
decode_title_changed-encode_title_changed m h =
    let pre = to_le 4 m.pane_id in
    let size : ltb (length (pre ++ (to_le 2 (length m.title) ++ m.title))) 4 ≡ false =
      ground arith in
    rw
      (
        encode_str-ok pre m.title h.title,
        at_least,
        size,
        from_le-four m.pane_id h.pane_id,
        decode_str-last pre m.title h.title,
      )
      refl

pub frame_title_changed-received :
    (m : TitleChanged)
    → FitsTitleChanged m
    → (frame_title_changed m >>= receive decode_title_changed) ≡ ok m
unfolding frame_title_changed encode_title_changed
frame_title_changed-received m h =
    let pre = to_le 4 m.pane_id in
    receive-encoded decode_title_changed msg_title_changed 0
      (pre ++ (to_le 2 (length m.title) ++ m.title)) (omega arith) (omega arith)
      (omega (arith, h.title.size)) (encode_title_changed m) (encode_str-ok pre m.title h.title)
    ∙ decode_title_changed-encode_title_changed m h

pub record FitsPaneExited (m : PaneExited) : Type 0 where
  pub pane_id : m.pane_id < 4294967296
  pub exit_code : IsSigned 2147483648 m.exit_code

pub decode_pane_exited-encode_pane_exited :
    (m : PaneExited) → FitsPaneExited m → decode_pane_exited (encode_pane_exited m) ≡ ok m
unfolding encode_pane_exited decode_pane_exited
decode_pane_exited-encode_pane_exited m h =
    rw (from_le-four m.pane_id h.pane_id, i32-back m.exit_code h.exit_code) refl

pub frame_pane_exited-received :
    (m : PaneExited)
    → FitsPaneExited m
    → (frame_pane_exited m >>= receive decode_pane_exited) ≡ ok m
unfolding frame_pane_exited encode_pane_exited
frame_pane_exited-received m h =
    receive-new decode_pane_exited msg_pane_exited 0 (encode_pane_exited m) (omega arith)
      (omega arith) (omega arith)
    ∙ decode_pane_exited-encode_pane_exited m h

pub record FitsBell (m : Bell) : Type 0 where
  pub pane_id : m.pane_id < 4294967296

pub decode_bell-encode_bell : (m : Bell) → FitsBell m → decode_bell (encode_bell m) ≡ ok m
unfolding encode_bell decode_bell
decode_bell-encode_bell m h = rw (from_le-four m.pane_id h.pane_id) refl

pub frame_bell-received : (m : Bell) → FitsBell m → (frame_bell m >>= receive decode_bell) ≡ ok m
unfolding frame_bell encode_bell
frame_bell-received m h =
    receive-new decode_bell msg_bell 0 (encode_bell m) (omega arith) (omega arith) (omega arith)
    ∙ decode_bell-encode_bell m h

pub record FitsDirtyNotify (m : DirtyNotify) : Type 0 where
  pub pane_id : m.pane_id < 4294967296

pub decode_dirty_notify-encode_dirty_notify :
    (m : DirtyNotify) → FitsDirtyNotify m → decode_dirty_notify (encode_dirty_notify m) ≡ ok m
unfolding encode_dirty_notify decode_dirty_notify
decode_dirty_notify-encode_dirty_notify m h = rw (from_le-four m.pane_id h.pane_id) refl

pub record FitsGetRenderUpdate (m : GetRenderUpdate) : Type 0 where
  pub pane_id : m.pane_id < 4294967296
  pub since_seqno : m.since_seqno < 18446744073709551616

pub decode_get_render_update-encode_get_render_update :
    (m : GetRenderUpdate)
    → FitsGetRenderUpdate m
    → decode_get_render_update (encode_get_render_update m) ≡ ok m
unfolding encode_get_render_update decode_get_render_update
decode_get_render_update-encode_get_render_update m h =
    rw (from_le-four m.pane_id h.pane_id, from_le-eight m.since_seqno h.since_seqno) refl
