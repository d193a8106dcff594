-- ===== src/Protocol/Wire/Enums.antt =====
-- message.rs: the enums of the wire, `as u8`, and `TryFrom`.
pub mod Answers
use oakterm.Prelude.{ℕ, ◌≡◌, refl, ◌==◌, if◌then◌else◌}
use oakterm.Protocol.Frame.{IoResult, ok, err, ErrorKind}

pub data ClientType : Type 0 where
  gui control third_party : ClientType

abbrev pub client_type_code : ClientType → ℕ
client_type_code ClientType.gui = 0
client_type_code ClientType.control = 1
client_type_code ClientType.third_party = 2

abbrev pub client_type_of : ℕ → IoResult ClientType
client_type_of v =
    if v == 0
    then ok ClientType.gui
    else if v == 1
    then ok ClientType.control
    else if v == 2
    then ok ClientType.third_party
    else err ErrorKind.invalid_data

pub client_type_of-code : (x : ClientType) → client_type_of (client_type_code x) ≡ ok x
client_type_of-code ClientType.gui = refl
client_type_of-code ClientType.control = refl
client_type_of-code ClientType.third_party = refl

pub data HandshakeStatus : Type 0 where
  accepted version_mismatch auth_rejected server_full : HandshakeStatus

abbrev pub handshake_status_code : HandshakeStatus → ℕ
handshake_status_code HandshakeStatus.accepted = 0
handshake_status_code HandshakeStatus.version_mismatch = 1
handshake_status_code HandshakeStatus.auth_rejected = 2
handshake_status_code HandshakeStatus.server_full = 3

abbrev pub handshake_status_of : ℕ → IoResult HandshakeStatus
handshake_status_of v =
    if v == 0
    then ok HandshakeStatus.accepted
    else if v == 1
    then ok HandshakeStatus.version_mismatch
    else if v == 2
    then ok HandshakeStatus.auth_rejected
    else if v == 3
    then ok HandshakeStatus.server_full
    else err ErrorKind.invalid_data

pub handshake_status_of-code :
    (x : HandshakeStatus) → handshake_status_of (handshake_status_code x) ≡ ok x
handshake_status_of-code HandshakeStatus.accepted = refl
handshake_status_of-code HandshakeStatus.version_mismatch = refl
handshake_status_of-code HandshakeStatus.auth_rejected = refl
handshake_status_of-code HandshakeStatus.server_full = refl

pub data ErrorCode : Type 0 where
  unknown_pane invalid_message malformed_payload internal_error pane_exited permission_denied
        layout_rejected unknown_tab unknown_workspace :
      ErrorCode

abbrev pub error_code_code : ErrorCode → ℕ
error_code_code ErrorCode.unknown_pane = 1
error_code_code ErrorCode.invalid_message = 2
error_code_code ErrorCode.malformed_payload = 3
error_code_code ErrorCode.internal_error = 4
error_code_code ErrorCode.pane_exited = 5
error_code_code ErrorCode.permission_denied = 6
error_code_code ErrorCode.layout_rejected = 7
error_code_code ErrorCode.unknown_tab = 8
error_code_code ErrorCode.unknown_workspace = 9

abbrev pub error_code_of : ℕ → IoResult ErrorCode
error_code_of v =
    if v == 1
    then ok ErrorCode.unknown_pane
    else if v == 2
    then ok ErrorCode.invalid_message
    else if v == 3
    then ok ErrorCode.malformed_payload
    else if v == 4
    then ok ErrorCode.internal_error
    else if v == 5
    then ok ErrorCode.pane_exited
    else if v == 6
    then ok ErrorCode.permission_denied
    else if v == 7
    then ok ErrorCode.layout_rejected
    else if v == 8
    then ok ErrorCode.unknown_tab
    else if v == 9
    then ok ErrorCode.unknown_workspace
    else err ErrorKind.invalid_data

pub error_code_of-code : (x : ErrorCode) → error_code_of (error_code_code x) ≡ ok x
error_code_of-code ErrorCode.unknown_pane = refl
error_code_of-code ErrorCode.invalid_message = refl
error_code_of-code ErrorCode.malformed_payload = refl
error_code_of-code ErrorCode.internal_error = refl
error_code_of-code ErrorCode.pane_exited = refl
error_code_of-code ErrorCode.permission_denied = refl
error_code_of-code ErrorCode.layout_rejected = refl
error_code_of-code ErrorCode.unknown_tab = refl
error_code_of-code ErrorCode.unknown_workspace = refl

pub data ShutdownReason : Type 0 where
  clean crash upgrade : ShutdownReason

abbrev pub shutdown_reason_code : ShutdownReason → ℕ
shutdown_reason_code ShutdownReason.clean = 0
shutdown_reason_code ShutdownReason.crash = 1
shutdown_reason_code ShutdownReason.upgrade = 2

abbrev pub shutdown_reason_of : ℕ → IoResult ShutdownReason
shutdown_reason_of v =
    if v == 0
    then ok ShutdownReason.clean
    else if v == 1
    then ok ShutdownReason.crash
    else if v == 2
    then ok ShutdownReason.upgrade
    else err ErrorKind.invalid_data

pub shutdown_reason_of-code :
    (x : ShutdownReason) → shutdown_reason_of (shutdown_reason_code x) ≡ ok x
shutdown_reason_of-code ShutdownReason.clean = refl
shutdown_reason_of-code ShutdownReason.crash = refl
shutdown_reason_of-code ShutdownReason.upgrade = refl

pub data RequestShutdownReason : Type 0 where
  quit upgrade : RequestShutdownReason

abbrev pub request_shutdown_reason_code : RequestShutdownReason → ℕ
request_shutdown_reason_code RequestShutdownReason.quit = 0
request_shutdown_reason_code RequestShutdownReason.upgrade = 1

abbrev pub request_shutdown_reason_of : ℕ → IoResult RequestShutdownReason
request_shutdown_reason_of v =
    if v == 0
    then ok RequestShutdownReason.quit
    else if v == 1
    then ok RequestShutdownReason.upgrade
    else err ErrorKind.invalid_data

pub request_shutdown_reason_of-code :
    (x : RequestShutdownReason) → request_shutdown_reason_of (request_shutdown_reason_code x) ≡ ok x
request_shutdown_reason_of-code RequestShutdownReason.quit = refl
request_shutdown_reason_of-code RequestShutdownReason.upgrade = refl

pub data ShutdownAckStatus : Type 0 where
  accepted save_failed : ShutdownAckStatus

abbrev pub shutdown_ack_status_code : ShutdownAckStatus → ℕ
shutdown_ack_status_code ShutdownAckStatus.accepted = 0
shutdown_ack_status_code ShutdownAckStatus.save_failed = 1

abbrev pub shutdown_ack_status_of : ℕ → IoResult ShutdownAckStatus
shutdown_ack_status_of v =
    if v == 0
    then ok ShutdownAckStatus.accepted
    else if v == 1
    then ok ShutdownAckStatus.save_failed
    else err ErrorKind.invalid_data

pub shutdown_ack_status_of-code :
    (x : ShutdownAckStatus) → shutdown_ack_status_of (shutdown_ack_status_code x) ≡ ok x
shutdown_ack_status_of-code ShutdownAckStatus.accepted = refl
shutdown_ack_status_of-code ShutdownAckStatus.save_failed = refl

pub data SearchDirection : Type 0 where
  older newer : SearchDirection

abbrev pub search_direction_code : SearchDirection → ℕ
search_direction_code SearchDirection.older = 255
search_direction_code SearchDirection.newer = 1

abbrev pub search_direction_of : ℕ → IoResult SearchDirection
search_direction_of v =
    if v == 255
    then ok SearchDirection.older
    else if v == 1
    then ok SearchDirection.newer
    else err ErrorKind.invalid_data

pub search_direction_of-code :
    (x : SearchDirection) → search_direction_of (search_direction_code x) ≡ ok x
search_direction_of-code SearchDirection.older = refl
search_direction_of-code SearchDirection.newer = refl

pub data CopySelectionType : Type 0 where
  character line block : CopySelectionType

abbrev pub copy_selection_type_code : CopySelectionType → ℕ
copy_selection_type_code CopySelectionType.character = 0
copy_selection_type_code CopySelectionType.line = 1
copy_selection_type_code CopySelectionType.block = 2

abbrev pub copy_selection_type_of : ℕ → IoResult CopySelectionType
copy_selection_type_of v =
    if v == 0
    then ok CopySelectionType.character
    else if v == 1
    then ok CopySelectionType.line
    else if v == 2
    then ok CopySelectionType.block
    else err ErrorKind.invalid_data

pub copy_selection_type_of-code :
    (x : CopySelectionType) → copy_selection_type_of (copy_selection_type_code x) ≡ ok x
copy_selection_type_of-code CopySelectionType.character = refl
copy_selection_type_of-code CopySelectionType.line = refl
copy_selection_type_of-code CopySelectionType.block = refl

pub data SplitDirection : Type 0 where
  horizontal vertical : SplitDirection

abbrev pub split_direction_code : SplitDirection → ℕ
split_direction_code SplitDirection.horizontal = 0
split_direction_code SplitDirection.vertical = 1

abbrev pub split_direction_of : ℕ → IoResult SplitDirection
split_direction_of v =
    if v == 0
    then ok SplitDirection.horizontal
    else if v == 1
    then ok SplitDirection.vertical
    else err ErrorKind.invalid_data

pub split_direction_of-code :
    (x : SplitDirection) → split_direction_of (split_direction_code x) ≡ ok x
split_direction_of-code SplitDirection.horizontal = refl
split_direction_of-code SplitDirection.vertical = refl

-- `RequestShutdownReason::broadcast_reason`
abbrev pub broadcast_reason : RequestShutdownReason → ShutdownReason
broadcast_reason RequestShutdownReason.quit = ShutdownReason.clean
broadcast_reason RequestShutdownReason.upgrade = ShutdownReason.upgrade
