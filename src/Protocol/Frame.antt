-- ===== src/Protocol/Frame.antt =====
-- crates/oakterm-protocol/src/frame.rs: the frame, its encoding, and the two decoders. An
-- `io::Error` is its kind; the texts are left out.
pub mod Header
pub mod RoundTrip
pub mod Codec
use oakterm.Prelude.{
  ℕ, ◌+◌, ◌%◌, ◌^◌, Bool, true, false, not, ◌&&◌, Option, none, some, List, [], ◌∷◌, ◌++◌,
  if◌then◌else◌, ◌==◌, ltb, length, get_elem?, take, drop,
}
use oakterm.Protocol.Bytes.{to_le, from_le}

abbrev pub magic : List ℕ
magic = 79 ∷ 84 ∷ []

abbrev pub max_payload : ℕ
max_payload = 16777216

abbrev pub header_size : ℕ
header_size = 13

pub record Frame : Type 0 where
  pub flags : ℕ
  pub msg_type : ℕ
  pub serial : ℕ
  pub payload : List ℕ

pub data ErrorKind : Type 0 where
  invalid_input invalid_data unexpected_eof : ErrorKind

-- `panicked` is an index out of range.
pub data IoResult (A : Type 0) : Type 0 where
  ok : A → IoResult A
  err : ErrorKind → IoResult A
  panicked : IoResult A

infixl 5 ◌>>=◌
abbrev pub ◌>>=◌ : {A B : Type 0} → IoResult A → (A → IoResult B) → IoResult B
ok a >>= k = k a
err e >>= k = err e
panicked >>= k = panicked

unfoldable pub new : ℕ → ℕ → List ℕ → IoResult Frame
new msg_type serial payload =
    if ltb max_payload (length payload)
    then err ErrorKind.invalid_input
    else ok (record { flags = 0; msg_type = msg_type; serial = serial; payload = payload })

-- `payload.len() as u32` wraps.
unfoldable pub encode_to_vec : Frame → List ℕ
encode_to_vec f =
    magic
    ++ f.flags ∷ to_le 2 f.msg_type
    ++ to_le 4 f.serial
    ++ to_le 4 (length f.payload % 2 ^ 32)
    ++ f.payload

-- `data[i]`
abbrev pub byte_at : List ℕ → ℕ → IoResult ℕ
byte_at bytes i = elim (get_elem? bytes i) [ none ↦ panicked | some b ↦ ok b ]

abbrev pub u16_at : List ℕ → ℕ → IoResult ℕ
u16_at bytes i = byte_at bytes i >>= λ a. byte_at bytes (i + 1) >>= λ b. ok (from_le (a ∷ b ∷ []))

abbrev pub u32_at : List ℕ → ℕ → IoResult ℕ
u32_at bytes i = byte_at bytes i >>= λ a. byte_at bytes (i + 1) >>= λ b.
    byte_at bytes (i + 2) >>= λ c. byte_at bytes (i + 3) >>= λ d. ok (from_le (a ∷ b ∷ c ∷ d ∷ []))

-- `data[0..2] == MAGIC`, on at least two bytes.
abbrev pub has_magic : List ℕ → Bool
has_magic (a ∷ b ∷ _) = (a == 79) && (b == 84)
has_magic _ = false

-- The fields of the header before the length, with the payload given.
abbrev pub frame_of : List ℕ → List ℕ → IoResult Frame
frame_of header payload = byte_at header 2 >>= λ flags. u16_at header 3 >>= λ msg_type.
    u32_at header 5 >>= λ serial.
    ok (record { flags = flags; msg_type = msg_type; serial = serial; payload = payload })

unfoldable pub decode_from_slice : List ℕ → IoResult (Frame × ℕ)
decode_from_slice bytes =
    if ltb (length bytes) header_size
    then err ErrorKind.unexpected_eof
    else if not (has_magic bytes)
    then err ErrorKind.invalid_data
    else (byte_at bytes 2 >>= λ flags. u16_at bytes 3 >>= λ msg_type. u32_at bytes 5 >>= λ serial.
        u32_at bytes 9 >>= λ payload_length.
        if ltb max_payload payload_length
        then err ErrorKind.invalid_data
        else if ltb (length bytes) (header_size + payload_length)
        then err ErrorKind.unexpected_eof
        else ok (
          record {
            flags = flags;
            msg_type = msg_type;
            serial = serial;
            payload = take payload_length (drop header_size bytes);
          },
          header_size + payload_length,
        ))

-- The two `split_to` calls of the codec, and the frame that they give.
abbrev pub split_frame : List ℕ → ℕ → List ℕ × IoResult (Option Frame)
split_frame src payload_length =
    let header_bytes = take header_size src in
    let behind = drop header_size src in
    (
      drop payload_length behind,
      frame_of header_bytes (take payload_length behind) >>= λ f. ok (some f),
    )

-- The buffer with its length field read.
abbrev pub decode_sized : List ℕ → IoResult ℕ → List ℕ × IoResult (Option Frame)
decode_sized src (ok payload_length) =
    if ltb max_payload payload_length
    then ([], err ErrorKind.invalid_data)
    else if ltb (length src) (header_size + payload_length)
    then (src, ok none)
    else split_frame src payload_length
decode_sized src (err e) = (src, err e)
decode_sized src panicked = (src, panicked)

-- `FrameCodec`'s `decode`: what stays in the buffer, and the result.
unfoldable pub decode : List ℕ → List ℕ × IoResult (Option Frame)
decode src =
    if ltb (length src) header_size
    then (src, ok none)
    else if not (has_magic src)
    then ([], err ErrorKind.invalid_data)
    else decode_sized src (u32_at src 9)

-- `FrameCodec`'s `encode`: the buffer written to, and the result.
unfoldable pub encode : Frame → List ℕ → List ℕ × IoResult (Unit {0})
encode f dst = if ltb max_payload (length f.payload) then (dst, err ErrorKind.invalid_input) else (
  dst
      ++ magic
      ++ f.flags ∷ to_le 2 f.msg_type
      ++ to_le 4 f.serial
      ++ to_le 4 (length f.payload % 2 ^ 32)
      ++ f.payload,
  ok tt,
)
