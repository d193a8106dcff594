-- ===== src/Protocol/Frame/Codec.antt =====
-- frame.rs: the codec on a buffer that fills piece by piece, against the decoder of slices.
use oakterm.Prelude.{
  list_laws, ℕ, ◌+◌, ◌-◌, ◌%◌, ◌^◌, ◌<◌, ◌≡◌, refl, ap, sym, subst, ◌∙◌, true, false, none, some,
  List, [], ◌∷◌, ◌++◌, ltb, length, take, drop, arith, inl, inr, Bool-cases, length-append,
  append_assoc, append-nil,
}
use oakterm.Prelude.Totals.{All}
use oakterm.Protocol.Bytes.{to_le, from_le}
use oakterm.Protocol.Frame.{
  Frame, IoResult, ok, err, panicked, ErrorKind, magic, encode_to_vec, decode_from_slice, encode,
  decode, max_payload,
}
use oakterm.Protocol.Frame.Header.{
  decode-whole, drop-whole, take-whole, size_field, frame, waits, refuses, reads, Answer-of,
}
use oakterm.Protocol.Frame.RoundTrip.{
  IsSized, size_field-encode, frame-encode, drop-append, length-take, length-encode_to_vec,
}

-- What the codec answers where the decoder of slices answers the given result: the frame, with its
-- bytes gone from the buffer; a wait for more bytes, with the buffer as it is; or the error, with
-- an empty buffer.
abbrev pub Agrees : List ℕ → IoResult (Frame × ℕ) → Type 0
Agrees src (ok (f, n)) = decode src ≡ (drop n src, ok (some f))
Agrees src (err ErrorKind.unexpected_eof) = decode src ≡ (src, ok none)
Agrees src (err ErrorKind.invalid_data) = decode src ≡ ([], err ErrorKind.invalid_data)
Agrees src (err ErrorKind.invalid_input) = ⊥
Agrees src panicked = ⊥

-- The codec and the decoder of slices agree on every buffer, and neither panics: the codec takes
-- the frame that the other finds, waits where the other reports an early end, and empties the
-- buffer where the other reports invalid data.
pub decode-Agrees : (src : List ℕ) → Agrees src (decode_from_slice src)
decode-Agrees src = elim (Answer-of src) [
  | waits slice codec ↦ rw slice codec
  | refuses slice codec ↦ rw slice codec
  | reads fl t0 t1 s0 s1 s2 s3 l0 l1 l2 l3 rest is _ _ slice codec ↦
      let f = frame fl t0 t1 s0 s1 s2 s3 (take (size_field l0 l1 l2 l3) rest) in
      let left = drop-whole 79 84 fl t0 t1 s0 s1 s2 s3 l0 l1 l2 l3 rest (size_field l0 l1 l2 l3) in
      rw slice (codec ∙ ap (λ x. (x, ok (some f))) (rw is (sym left)))
]

module _ (f : Frame) (h : IsSized f) where
  -- The codec takes an encoded frame from the front of the buffer and leaves the rest.
  pub decode-encode_to_vec :
      (rest : List ℕ) → decode (encode_to_vec f ++ rest) ≡ (rest, ok (some f))
  unfolding encode_to_vec
  decode-encode_to_vec rest =
      let n = from_le (to_le 4 (length f.payload % 2 ^ 32)) in
      let e : n ≡ length f.payload = size_field-encode f h in
      let small : ltb max_payload n ≡ false = ground (arith, e, h.payload) in
      let whole' : ltb (length (f.payload ++ rest)) n ≡ false =
        ground (arith, e, length-append f.payload rest) in
      decode-whole 79 84 f.flags _ _ _ _ _ _ _ _ _ _ (f.payload ++ rest)
      ∙ rw (small, whole', frame-encode f h rest n e, e, drop-append f.payload rest) refl

  -- A frame that fits is written behind what the buffer holds.
  pub encode-fits : (dst : List ℕ) → encode f dst ≡ (dst ++ encode_to_vec f, ok tt)
  unfolding encode encode_to_vec
  encode-fits dst =
      let fits : ltb max_payload (length f.payload) ≡ false = ground (arith, h.payload) in
      rw fits (simp list_laws)

  -- While an encoded frame is still arriving, the codec waits and keeps every byte.
  pub decode-partial :
      (k : ℕ)
      → k < length (encode_to_vec f)
      → decode (take k (encode_to_vec f)) ≡ (take k (encode_to_vec f), ok none)
  unfolding decode encode_to_vec
  decode-partial k less = elim (Bool-cases (ltb k 13)) [
    | inl short ↦
        let early : ltb (length (take k (encode_to_vec f))) 13 ≡ true =
          ground (arith, length-take k (encode_to_vec f) (omega (arith, less)), short) in
        rw early refl
    | inr header ↦
        let j = k - 13 in
        let n = from_le (to_le 4 (length f.payload % 2 ^ 32)) in
        let e : 13 + j ≡ k = ground (arith, header) in
        let size : n ≡ length f.payload = size_field-encode f h in
        let small : ltb max_payload n ≡ false = ground (arith, size, h.payload) in
        let waits_for : j < length f.payload = omega (arith, e, less, length-encode_to_vec f h) in
        let early : ltb (length (take j f.payload)) n ≡ true =
          ground (arith, size, waits_for, length-take j f.payload (omega (arith, waits_for))) in
        let part : List ℕ =
          magic
          ++ f.flags ∷ to_le 2 f.msg_type
          ++ to_le 4 f.serial
          ++ to_le 4 (length f.payload % 2 ^ 32)
          ++ take j f.payload in
        let arrived : take (13 + j) (encode_to_vec f) ≡ part =
          take-whole 79 84 f.flags _ _ _ _ _ _ _ _ _ _ f.payload j in
        let waits' : decode part ≡ (part, ok none) =
          decode-whole 79 84 f.flags _ _ _ _ _ _ _ _ _ _ (take j f.payload)
          ∙ rw (small, early) refl in
        subst (λ m. decode (take m (encode_to_vec f)) ≡ (take m (encode_to_vec f), ok none)) e
          (subst (λ xs. decode xs ≡ (xs, ok none)) (sym arrived) waits')
  ]

-- The frames written one after the other.
abbrev pub write_all : List Frame → List ℕ → List ℕ
write_all [] dst = dst
write_all (f ∷ fs) dst = write_all fs (encode f dst).0

-- The codec takes the frames from the buffer one after the other and leaves the rest.
abbrev pub Takes : List ℕ → List Frame → List ℕ → Type 0
Takes src [] rest = src ≡ rest
Takes src (f ∷ fs) rest = (left : List ℕ) × (decode src ≡ (left, ok (some f))) × Takes left fs rest

abbrev encode_all : List Frame → List ℕ
encode_all [] = []
encode_all (f ∷ fs) = encode_to_vec f ++ encode_all fs

write_all-eq :
    (fs : List Frame) (dst : List ℕ) → All IsSized fs → write_all fs dst ≡ dst ++ encode_all fs
write_all-eq [] dst h = sym (append-nil dst)
write_all-eq (f ∷ fs) dst h = rw (encode-fits f h.0 dst) (
    write_all-eq fs (dst ++ encode_to_vec f) h.1
    ∙ append_assoc dst (encode_to_vec f) (encode_all fs))

Takes-encode_all :
    (fs : List Frame) (rest : List ℕ) → All IsSized fs → Takes (encode_all fs ++ rest) fs rest
Takes-encode_all [] rest h = refl
Takes-encode_all (f ∷ fs) rest h = (
  encode_all fs ++ rest,
  rw (append_assoc (encode_to_vec f) (encode_all fs) rest)
      (decode-encode_to_vec f h.0 (encode_all fs ++ rest)),
  Takes-encode_all fs rest h.1,
)

-- Frames that fit, written one after the other to an empty buffer, are taken from it in the same
-- order, whatever bytes follow, and these stay.
pub write_all-Takes :
    (fs : List Frame) (rest : List ℕ) → All IsSized fs → Takes (write_all fs [] ++ rest) fs rest
write_all-Takes fs rest h = rw (write_all-eq fs [] h) (Takes-encode_all fs rest h)
