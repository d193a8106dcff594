-- ===== src/Protocol/Wire.antt =====
-- crates/oakterm-protocol/src/message.rs: the parts that the messages share. A `String` is the list
-- of its UTF-8 bytes, and `data[a..b]` and `data[i]` panic out of range.
pub mod Laws
pub mod Enums
pub mod Offsets
pub mod Behind
pub mod Sequences
pub mod Safety
use oakterm.Prelude.{
  ℕ, zero, suc, ◌+◌, ◌^◌, Bool, true, false, not, List, [], ◌∷◌, ◌++◌, if◌then◌else◌, ◌==◌, ltb,
  length, take, drop,
}
use oakterm.Prelude.Integers.{ℤ, to_twos, of_twos}
use oakterm.Protocol.Bytes.{to_le, from_le}
use oakterm.Protocol.Frame.{IoResult, ok, err, panicked, ErrorKind, ◌>>=◌, byte_at, u16_at, u32_at}
use oakterm.Protocol.Utf8.{is_utf8}

abbrev pub Text : Type 0
Text = List ℕ

abbrev pub u64_at : List ℕ → ℕ → IoResult ℕ
u64_at bytes i = byte_at bytes i >>= λ a. byte_at bytes (i + 1) >>= λ b.
    byte_at bytes (i + 2) >>= λ c. byte_at bytes (i + 3) >>= λ d. byte_at bytes (i + 4) >>= λ e.
    byte_at bytes (i + 5) >>= λ g. byte_at bytes (i + 6) >>= λ h.
    byte_at bytes (i + 7) >>= λ j. ok (from_le (a ∷ b ∷ c ∷ d ∷ e ∷ g ∷ h ∷ j ∷ []))

abbrev pub i16_at : List ℕ → ℕ → IoResult ℤ
i16_at bytes i = u16_at bytes i >>= λ n. ok (of_twos 32768 n)

abbrev pub i32_at : List ℕ → ℕ → IoResult ℤ
i32_at bytes i = u32_at bytes i >>= λ n. ok (of_twos 2147483648 n)

abbrev pub i64_at : List ℕ → ℕ → IoResult ℤ
i64_at bytes i = u64_at bytes i >>= λ n. ok (of_twos 9223372036854775808 n)

abbrev pub i16_le : ℤ → List ℕ
i16_le z = to_le 2 (to_twos 32768 z)

abbrev pub i32_le : ℤ → List ℕ
i32_le z = to_le 4 (to_twos 2147483648 z)

abbrev pub i64_le : ℤ → List ℕ
i64_le z = to_le 8 (to_twos 9223372036854775808 z)

-- `u8::from(b)`, and `data[i] != 0`.
abbrev pub bool_byte : Bool → ℕ
bool_byte true = 1
bool_byte false = 0

abbrev pub bool_at : List ℕ → ℕ → IoResult Bool
bool_at bytes i = byte_at bytes i >>= λ b. ok (not (b == 0))

-- `data[start..end]` and `&data[start..]`
abbrev pub slice : List ℕ → ℕ → ℕ → IoResult (List ℕ)
slice bytes start size =
    if ltb (length bytes) (start + size) then panicked else ok (take size (drop start bytes))

abbrev pub slice_from : List ℕ → ℕ → IoResult (List ℕ)
slice_from bytes start = if ltb (length bytes) start then panicked else ok (drop start bytes)

abbrev pub from_utf8 : List ℕ → IoResult Text
from_utf8 bytes = if is_utf8 bytes then ok bytes else err ErrorKind.invalid_data

-- `if data.len() < size { return Err(..) }`
abbrev pub at_least : {A : Type 0} → ℕ → List ℕ → IoResult A → IoResult A
at_least size bytes result =
    if ltb (length bytes) size then err ErrorKind.unexpected_eof else result

-- `len().try_into()` to a `u16` or `u32`, with the error for a longer one.
abbrev pub u16_len : {A : Type 0} → List A → IoResult ℕ
u16_len xs = if ltb (length xs) 65536 then ok (length xs) else err ErrorKind.invalid_input

abbrev pub u32_len : {A : Type 0} → List A → IoResult ℕ
u32_len xs = if ltb (length xs) 4294967296 then ok (length xs) else err ErrorKind.invalid_input

unfoldable pub encode_str : List ℕ → Text → IoResult (List ℕ)
encode_str buf s = u16_len s >>= λ len. ok (buf ++ (to_le 2 len ++ s))

-- The guard of the bytes of a text, and the text.
abbrev pub text_in : List ℕ → ℕ → ℕ → IoResult Text
text_in bytes start len = at_least (start + len) bytes (slice bytes start len >>= from_utf8)

-- The text and the bytes consumed.
unfoldable pub decode_str : List ℕ → ℕ → IoResult (Text × ℕ)
decode_str bytes offset =
    at_least (offset + 2) bytes
      (u16_at bytes offset >>= λ len. text_in bytes (offset + 2) len >>= λ s. ok (s, 2 + len))

-- `for x in xs { buf.extend_from_slice(&x.encode()?) }`
unfoldable pub encode_each : {A : Type 0} → (A → IoResult (List ℕ)) → List A → IoResult (List ℕ)
encode_each encode [] = ok []
encode_each encode (x ∷ xs) =
    encode x >>= λ bytes. encode_each encode xs >>= λ rest. ok (bytes ++ rest)

-- `for _ in 0..count { let (x, consumed) = decode(&data[offset..])?; .. }`: the values, and the
-- offset reached.
unfoldable pub decode_each :
    {A : Type 0} → (List ℕ → IoResult (A × ℕ)) → ℕ → List ℕ → ℕ → IoResult (List A × ℕ)
decode_each decode zero bytes offset = ok ([], offset)
decode_each decode (suc count) bytes offset = slice_from bytes offset >>= λ behind.
    decode behind >>= λ r.
    decode_each decode count bytes (offset + r.1) >>= λ q. ok (r.0 ∷ q.0, q.1)
