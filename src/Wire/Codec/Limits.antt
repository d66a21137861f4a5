-- ===== src/Wire/Codec/Limits.antt =====
-- Where the decoder waits, refuses and panics, and the sizes that the encoder reserves.
use libp2p_bittorrent_protoc.Base.{
  ℕ, ◌+◌, ◌-◌, ◌/◌, ◌%◌, ◌^◌, ◌<◌, ◌≡◌, ◌≢◌, sym, ap, ◌∙◌, List, [], ◌∷◌, ◌++◌, none, ok, err, done,
  panic, arith, length, length-append, ltb, if◌then◌else◌,
}
use libp2p_bittorrent_protoc.Crates.BitVec.{BitVec, length-bytes_of}
use libp2p_bittorrent_protoc.Crates.Bytes.{BytesMut}
use libp2p_bittorrent_protoc.Crates.ByteOrder.{ByteOrder}
use libp2p_bittorrent_protoc.Wire.Message.{BitField, as_bytes, bitfield, unexpected_message}
use libp2p_bittorrent_protoc.Wire.Codec.{
  decode, decode_length, decode_payload, decode_have, decode_request, slice,
}
use libp2p_bittorrent_protoc.Wire.Codec.Frames.{handshake_word, decode_frame, be}
use libp2p_bittorrent_protoc.Wire.Codec.RoundTrip.{written}
use libp2p_bittorrent_protoc.Wire.Codec.Arms.{split_front}
use mathlib.Core.List.{append_assoc, append-nil}

module _ {V B : Type 0} ⦃v : BitVec V⦄ ⦃b : BytesMut B⦄ ⦃w : ByteOrder⦄ where
  -- A bit field of exactly four pieces has the length prefix of `Have`. On the bytes that the
  -- encoder wrote for it the decoder never returns the message: it waits for nine bytes and then
  -- answers with an error, and either way the bytes stay in the buffer.
  pub decode-bitfield_of_four :
      (f : BitField V) (src : B) (octets rest : List ℕ)
      → v.len f.inner ≡ 4
      → as_bytes (bitfield f) ≡ ok octets
      → b.bytes src ≡ octets ++ rest
      → decode {V = V} src ≡ (
          if ltb (length rest) 3
          then done (ok none, b.reserve src (9 - length (b.bytes src)))
          else done (err (unexpected_message 5 5), src))
  unfolding as_bytes decode_length decode_have
  decode-bitfield_of_four f src octets rest h o e =
      let size = v.len_lem f.inner in
      let one : length (v.to_bytes f.inner) ≡ 1 =
        ap length (v.to_bytes_lem f.inner)
        ∙ length-bytes_of (v.iter f.inner)
        ∙ ap (λ t. if ltb 0 (t % 8) then t / 8 + 1 else t / 8) (sym size ∙ h) in
      let e' : b.bytes src ≡ w.write_u32 5 ++ ((5 ∷ v.to_bytes f.inner) ++ rest) =
        written rest o e
        ∙ ap
            (λ (t : ℕ). (w.write_u32 ((1 + t % 2 ^ 32) % 2 ^ 32) ++ 5 ∷ v.to_bytes f.inner) ++ rest)
            h
        ∙ append_assoc (w.write_u32 5) (5 ∷ v.to_bytes f.inner) rest in
      let g : b.bytes src ≡ be 5 ++ ((5 ∷ v.to_bytes f.inner) ++ rest) =
        e' ∙ ap (λ t. t ++ ((5 ∷ v.to_bytes f.inner) ++ rest)) (w.write_u32_lem 5 (omega arith)) in
      decode_frame src 5 ((5 ∷ v.to_bytes f.inner) ++ rest) (omega arith) e'
      ∙ rw g (ground (arith, length-append (v.to_bytes f.inner) rest))

  -- A buffer that ends right behind a length prefix other than 0, 1 and 5 makes the decoder
  -- panic, instead of waiting for more bytes.
  pub decode_prefix_panics :
      (src : B) (n : ℕ)
      → n < handshake_word
      → n ≢ 0
      → n ≢ 1
      → n ≢ 5
      → b.bytes src ≡ w.write_u32 n
      → decode {V = V} src ≡ panic
  unfolding decode_length decode_payload
  decode_prefix_panics src n h h0 h1 h5 e =
      let e' = e ∙ sym (append-nil (w.write_u32 n)) in
      let g : b.bytes src ≡ be n = e ∙ w.write_u32_lem n (omega arith) in
      decode_frame src n [] h e' ∙ rw g (ground arith)

  -- So does a whole frame that names a request but is too short to hold its three words.
  pub decode_request_panics :
      (src : B) (n : ℕ) (body rest : List ℕ)
      → n < 13
      → n ≢ 0
      → n ≢ 1
      → n ≢ 5
      → n ≡ length body + 1
      → b.bytes src ≡ (w.write_u32 n ++ 6 ∷ body) ++ rest
      → decode {V = V} src ≡ panic
  unfolding decode_length decode_payload decode_request slice
  decode_request_panics src n body rest h h0 h1 h5 s e =
      let e' = e ∙ append_assoc (w.write_u32 n) (6 ∷ body) rest in
      let g : b.bytes src ≡ be n ++ ((6 ∷ body) ++ rest) =
        e' ∙ ap (λ t. t ++ ((6 ∷ body) ++ rest)) (w.write_u32_lem n (omega arith)) in
      let (f, k) = split_front src (be n ++ 6 ∷ body) rest (4 + n) (omega arith) g in
      decode_frame src n ((6 ∷ body) ++ rest) (omega arith) e'
      ∙ rw g (ground (arith, length-append body rest, f))
