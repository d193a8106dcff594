-- ===== src/Protocol/Delivery.antt =====
-- frame.rs with message.rs: a payload that is framed, written, read back and decoded.
use oakterm.Prelude.{
  append-nil, ℕ, ◌≤◌, ◌<◌, ◌≡◌, refl, sym, ap, ◌∙◌, false, List, [], ltb, length, arith,
}
use oakterm.Protocol.Frame.{
  Frame, IoResult, ok, ◌>>=◌, new, max_payload, encode_to_vec, decode_from_slice,
}
use oakterm.Protocol.Frame.RoundTrip.{decode_from_slice-encode_to_vec}

-- What the receiver of a frame's bytes makes of the payload.
abbrev pub receive : {A : Type 0} → (List ℕ → IoResult A) → Frame → IoResult A
receive decode f = decode_from_slice (encode_to_vec f) >>= λ r. decode r.0.payload

module _ {A : Type 0} (decode : List ℕ → IoResult A) (kind serial : ℕ) (payload : List ℕ)
    (small : kind < 65536) (numbered : serial < 4294967296)
    (fits : length payload ≤ max_payload) where
  pub receive-new : (new kind serial payload >>= receive decode) ≡ decode payload
  unfolding new
  receive-new =
      let e : ltb max_payload (length payload) ≡ false = ground (arith, fits) in
      let f : Frame = record { flags = 0; msg_type = kind; serial = serial; payload = payload } in
      let whole =
        ap (λ b. decode_from_slice b) (sym (append-nil (encode_to_vec f)))
        ∙ decode_from_slice-encode_to_vec f
            (record { msg_type = small; serial = numbered; payload = fits }) [] in
      rw (e, whole) refl

  pub receive-encoded :
      (encoded : IoResult (List ℕ))
      → encoded ≡ ok payload
      → (encoded >>= new kind serial >>= receive decode) ≡ (encoded >>= decode)
  receive-encoded encoded e = rw e receive-new
