-- ===== src/Protocol/Examples.antt =====
-- A frame of two bytes of payload, and the theorems about frames at it.
mod Lists
mod Decoders
mod Infrastructure
mod PaneMessages
mod CopyModeMessages
mod SplitMessages
mod TabMessages
mod InputMessages
use oakterm.Prelude.{ℕ, ◌<◌, ◌≡◌, List, [], ◌∷◌, ◌++◌, take, length, none, arith}
use oakterm.Prelude.Totals.{All}
use oakterm.Protocol.Frame.{Frame, ok, encode_to_vec, decode_from_slice, decode}
use oakterm.Protocol.Frame.RoundTrip as RoundTrip
use oakterm.Protocol.Frame.RoundTrip.{IsSized, Reads}
use oakterm.Protocol.Frame.Codec as Codec
use oakterm.Protocol.Frame.Codec.{Agrees, Takes, write_all}

abbrev ping : Frame
ping = record { flags = 1; msg_type = 300; serial = 70000; payload = 7 ∷ 255 ∷ [] }

ping-IsSized : IsSized ping
ping-IsSized = record { msg_type = omega arith; serial = omega arith; payload = omega arith }

decode_from_slice-encode_to_vec_example :
    decode_from_slice (encode_to_vec ping ++ 9 ∷ []) ≡ ok (ping, length (encode_to_vec ping))
decode_from_slice-encode_to_vec_example =
    RoundTrip.decode_from_slice-encode_to_vec ping ping-IsSized (9 ∷ [])

-- A header that announces no payload, and one byte of the next frame.
abbrev received : List ℕ
received = 79 ∷ 84 ∷ 0 ∷ 1 ∷ 0 ∷ 2 ∷ 0 ∷ 0 ∷ 0 ∷ 0 ∷ 0 ∷ 0 ∷ 0 ∷ 79 ∷ []

received-AreBytes : All (λ b. b < 256) received
received-AreBytes = omega arith

decode_from_slice-Reads_example : Reads received (decode_from_slice received)
decode_from_slice-Reads_example = RoundTrip.decode_from_slice-Reads received received-AreBytes

decode-Agrees_example : Agrees received (decode_from_slice received)
decode-Agrees_example = Codec.decode-Agrees received

write_all-Takes_example :
    Takes (write_all (ping ∷ ping ∷ []) [] ++ 79 ∷ []) (ping ∷ ping ∷ []) (79 ∷ [])
write_all-Takes_example =
    Codec.write_all-Takes (ping ∷ ping ∷ []) (79 ∷ []) (ping-IsSized, (ping-IsSized, tt))
