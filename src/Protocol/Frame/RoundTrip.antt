-- ===== src/Protocol/Frame/RoundTrip.antt =====
-- frame.rs: what is encoded is decoded, and what is decoded was encoded.
use oakterm.Prelude.{
  ℕ, zero, suc, ◌+◌, ◌%◌, ◌^◌, ◌≤◌, ◌<◌, ◌≡◌, refl, ap, sym, subst, ◌∙◌, false, List, [], ◌∷◌, ◌++◌,
  ltb, length, take, drop, arith, length-append,
}
use oakterm.Protocol.Bytes.{
  IsByte, AreBytes, to_le, from_le, from_le-two, from_le-four, to_le-two, to_le-four,
}
use oakterm.Protocol.Frame.{
  Frame, IoResult, ok, err, panicked, ErrorKind, magic, encode_to_vec, decode_from_slice,
  max_payload,
}
use oakterm.Protocol.Frame.Header.{
  whole, size_field, frame, decode_from_slice-whole, take-whole, waits, refuses, reads, Answer-of,
}

-- The kind and the serial number fit their integer types, and the payload the limit.
pub record IsSized (f : Frame) : Type 0 where
  pub msg_type : f.msg_type < 65536
  pub serial : f.serial < 4294967296
  pub payload : length f.payload ≤ max_payload

-- All that is a byte is one as well.
pub record IsFrame (f : Frame) : Type 0 where
  pub sized : IsSized f
  pub flags : IsByte f.flags
  pub bytes : AreBytes f.payload

module _ {A : Type 0} where
  pub take-append : (xs ys : List A) → take (length xs) (xs ++ ys) ≡ xs
  take-append [] ys = refl
  take-append (x ∷ xs) ys = ap (◌∷◌ x) (take-append xs ys)

  pub drop-append : (xs ys : List A) → drop (length xs) (xs ++ ys) ≡ ys
  drop-append [] ys = refl
  drop-append (x ∷ xs) ys = drop-append xs ys

  pub length-take : (n : ℕ) (xs : List A) → n ≤ length xs → length (take n xs) ≡ n
  length-take zero xs h = refl
  length-take (suc n) [] h = absurd (omega arith)
  length-take (suc n) (x ∷ xs) h = ap suc (length-take n xs (omega arith))

pub AreBytes-take : (n : ℕ) (bs : List ℕ) → AreBytes bs → AreBytes (take n bs)
AreBytes-take zero bs h = tt
AreBytes-take (suc n) [] h = tt
AreBytes-take (suc n) (b ∷ bs) h = (h.0, AreBytes-take n bs h.1)

module _ (f : Frame) (h : IsSized f) where
  pub size_field-encode : from_le (to_le 4 (length f.payload % 2 ^ 32)) ≡ length f.payload
  size_field-encode =
      let e : length f.payload % 2 ^ 32 ≡ length f.payload = omega (arith, h.payload) in
      rw e (from_le-four (length f.payload) (omega (arith, h.payload)))

  pub length-encode_to_vec : length (encode_to_vec f) ≡ 13 + length f.payload
  unfolding encode_to_vec
  length-encode_to_vec = omega arith

  -- The frame that the header's fields and the payload give.
  pub frame-encode :
      (rest : List ℕ) (n : ℕ)
      → n ≡ length f.payload
      → record {
        flags = f.flags;
        msg_type = from_le (to_le 2 f.msg_type);
        serial = from_le (to_le 4 f.serial);
        payload = take n (f.payload ++ rest);
      }
        ≡ f
  frame-encode rest n e =
      rw
        (
          e,
          from_le-two f.msg_type h.msg_type,
          from_le-four f.serial h.serial,
          take-append f.payload rest,
        )
        refl

  -- Every frame is read back from its encoding, whatever bytes follow, with the number of bytes
  -- that the encoding has.
  pub decode_from_slice-encode_to_vec :
      (rest : List ℕ)
      → decode_from_slice (encode_to_vec f ++ rest) ≡ ok (f, length (encode_to_vec f))
  unfolding encode_to_vec
  decode_from_slice-encode_to_vec rest =
      let n = from_le (to_le 4 (length f.payload % 2 ^ 32)) in
      let e : n ≡ length f.payload = size_field-encode in
      let small : ltb max_payload n ≡ false = ground (arith, e, h.payload) in
      let whole' : ltb (length (f.payload ++ rest)) n ≡ false =
        ground (arith, e, length-append f.payload rest) in
      let all : 13 + n ≡ length (encode_to_vec f) = omega (arith, e, length-encode_to_vec) in
      decode_from_slice-whole 79 84 f.flags _ _ _ _ _ _ _ _ _ _ (f.payload ++ rest)
      ∙ rw (small, whole', frame-encode rest n e, all) refl

module _ (fl t0 t1 s0 s1 s2 s3 l0 l1 l2 l3 : ℕ) (rest : List ℕ)
    (small : size_field l0 l1 l2 l3 ≤ max_payload) (there : size_field l0 l1 l2 l3 ≤ length rest)
    (h : AreBytes (whole 79 84 fl t0 t1 s0 s1 s2 s3 l0 l1 l2 l3 rest)) where
  abbrev found : Frame
  found = frame fl t0 t1 s0 s1 s2 s3 (take (size_field l0 l1 l2 l3) rest)

  found-length : length found.payload ≡ size_field l0 l1 l2 l3
  found-length = length-take (size_field l0 l1 l2 l3) rest there

  found-IsFrame : IsFrame found
  found-IsFrame =
      let (_, (_, (flag, (m0, (m1, (n0, (n1, (n2, (n3, (_, (_, (_, (_, bytes))))))))))))) = h in
      record {
        sized = record {
          msg_type = omega (arith, m0, m1);
          serial = omega (arith, n0, n1, n2, n3);
          payload = rw found-length small;
        };
        flags = flag;
        bytes = AreBytes-take (size_field l0 l1 l2 l3) rest bytes;
      }

  encode_to_vec-found :
      encode_to_vec found
      ≡ whole 79 84 fl t0 t1 s0 s1 s2 s3 l0 l1 l2 l3 (take (size_field l0 l1 l2 l3) rest)
  unfolding encode_to_vec
  encode_to_vec-found =
      let (_, (_, (_, (m0, (m1, (n0, (n1, (n2, (n3, (k0, (k1, (k2, (k3, _))))))))))))) = h in
      let size : length found.payload % 2 ^ 32 ≡ size_field l0 l1 l2 l3 =
        ground (arith, found-length, small) in
      let message = from_le (t0 ∷ t1 ∷ []) in
      let number = from_le (s0 ∷ s1 ∷ s2 ∷ s3 ∷ []) in
      let behind = take (size_field l0 l1 l2 l3) rest in
      let joined : List ℕ → List ℕ → List ℕ → List ℕ =
        λ m n l. magic ++ fl ∷ m ++ n ++ l ++ behind in
      ap (λ l. joined (to_le 2 message) (to_le 4 number) l)
        (ap (to_le 4) size ∙ to_le-four l0 l1 l2 l3 k0 k1 k2 k3)
      ∙ ap (λ n. joined (to_le 2 message) n (l0 ∷ l1 ∷ l2 ∷ l3 ∷ []))
          (to_le-four s0 s1 s2 s3 n0 n1 n2 n3)
      ∙ ap (λ m. joined m (s0 ∷ s1 ∷ s2 ∷ s3 ∷ []) (l0 ∷ l1 ∷ l2 ∷ l3 ∷ [])) (to_le-two t0 t1 m0 m1)

-- What a decoder of bytes may answer for a buffer: a frame whose fields fit, with the encoding of
-- that frame at the front of the buffer, or a refusal.
abbrev pub Reads : List ℕ → IoResult (Frame × ℕ) → Type 0
Reads bytes (ok (f, n)) =
    IsFrame f × (n ≡ length (encode_to_vec f)) × (take n bytes ≡ encode_to_vec f)
Reads bytes (err ErrorKind.invalid_input) = ⊥
Reads bytes (err ErrorKind.invalid_data) = Unit {0}
Reads bytes (err ErrorKind.unexpected_eof) = Unit {0}
Reads bytes panicked = ⊥

-- `decode_from_slice` never panics on bytes. It returns only frames whose fields fit their types,
-- together with the length of their encoding, and the bytes that it consumed are that encoding, so
-- no two byte sequences decode to one frame.
pub decode_from_slice-Reads :
    (bytes : List ℕ) → AreBytes bytes → Reads bytes (decode_from_slice bytes)
decode_from_slice-Reads bytes h = elim (Answer-of bytes) [
  | waits slice _ ↦ rw slice tt
  | refuses slice _ ↦ rw slice tt
  | reads fl t0 t1 s0 s1 s2 s3 l0 l1 l2 l3 rest is small there slice _ ↦
      let all : AreBytes (whole 79 84 fl t0 t1 s0 s1 s2 s3 l0 l1 l2 l3 rest) =
        subst AreBytes is h in
      let f = found fl t0 t1 s0 s1 s2 s3 l0 l1 l2 l3 rest small there all in
      let valid = found-IsFrame fl t0 t1 s0 s1 s2 s3 l0 l1 l2 l3 rest small there all in
      let encoded = encode_to_vec-found fl t0 t1 s0 s1 s2 s3 l0 l1 l2 l3 rest small there all in
      let size = found-length fl t0 t1 s0 s1 s2 s3 l0 l1 l2 l3 rest small there all in
      rw (slice, is)
        (
          valid,
          omega (arith, length-encode_to_vec f valid.sized, size),
          take-whole 79 84 fl t0 t1 s0 s1 s2 s3 l0 l1 l2 l3 rest (size_field l0 l1 l2 l3)
              ∙ sym encoded,
        )
]
