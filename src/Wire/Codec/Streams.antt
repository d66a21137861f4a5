-- ===== src/Wire/Codec/Streams.antt =====
-- Sequences of messages through one buffer, as the codec's test macro sends them.
use mathlib.Core.List.{append_assoc, append-nil}
use libp2p_bittorrent_protoc.Base.{
  ℕ, zero, suc, ◌≡◌, refl, sym, ap, ◌∙◌, List, [], ◌∷◌, ◌++◌, map, Option, some, ok, err, Outcome,
  done, panic, bind, length, All,
}
use libp2p_bittorrent_protoc.Crates.BitVec.{BitVec}
use libp2p_bittorrent_protoc.Crates.Bytes.{BytesMut}
use libp2p_bittorrent_protoc.Crates.ByteOrder.{ByteOrder}
use libp2p_bittorrent_protoc.Wire.Message.{
  PeerMessage, as_bytes, keep_alive, choke, un_choke, interested, not_interested, have, bitfield,
  request, cancel, piece, handshake, port,
}
use libp2p_bittorrent_protoc.Wire.Codec.{decode, encode}
use libp2p_bittorrent_protoc.Wire.Codec.RoundTrip.{IsMessage, decode-as_bytes}

module _ {V : Type 0} ⦃v : BitVec V⦄ ⦃w : ByteOrder⦄ where
  -- Serialising writes to memory and does not fail.
  as_bytes_total : (m : PeerMessage V) → (octets : List ℕ) × (as_bytes m ≡ ok octets)
  unfolding as_bytes
  as_bytes_total keep_alive = (_, refl)
  as_bytes_total choke = (_, refl)
  as_bytes_total un_choke = (_, refl)
  as_bytes_total interested = (_, refl)
  as_bytes_total not_interested = (_, refl)
  as_bytes_total (have i) = (_, refl)
  as_bytes_total (bitfield f) = (_, refl)
  as_bytes_total (request r) = (_, refl)
  as_bytes_total (cancel r) = (_, refl)
  as_bytes_total (piece p) = (_, refl)
  as_bytes_total (handshake h) = (_, refl)
  as_bytes_total (port p) = (_, refl)

  -- the bytes of the messages one after the other
  frames : List (PeerMessage V) → List ℕ
  frames [] = []
  frames (m ∷ ms) = elim (as_bytes m) [ ok octets ↦ octets ++ frames ms | err e ↦ frames ms ]

  frames-cons :
      (m : PeerMessage V) (ms : List (PeerMessage V)) (octets : List ℕ)
      → as_bytes m ≡ ok octets
      → frames (m ∷ ms) ≡ octets ++ frames ms
  unfolding frames
  frames-cons m ms octets e = rw (e, frames)

module _ {V B : Type 0} ⦃v : BitVec V⦄ ⦃b : BytesMut B⦄ ⦃w : ByteOrder⦄ where
  -- every message is encoded to the end of the buffer
  unfoldable pub encode_each : List (PeerMessage V) → B → B
  unfolding encode
  encode_each [] dst = dst
  encode_each (m ∷ ms) dst = encode_each ms (encode m dst).1

  -- `codec.decode(&mut buf).unwrap()`, n times; a message that is not there yet is `none`
  unfoldable pub decode_each : ℕ → B → Outcome (List (Option (PeerMessage V)) × B)
  decode_each zero src = done ([], src)
  decode_each (suc n) src = bind (decode src) λ (r, rest). elim r [
    | err e ↦ panic
    | ok m ↦ bind (decode_each n rest) λ (ms, end). done (m ∷ ms, end)
  ]

  bytes-encode :
      (m : PeerMessage V) (dst : B) (octets : List ℕ)
      → as_bytes m ≡ ok octets
      → b.bytes (encode m dst).1 ≡ b.bytes dst ++ octets
  unfolding encode
  bytes-encode m dst octets e =
      rw e (b.bytes-put _ octets ∙ ap (λ t. t ++ octets) (b.bytes-reserve dst (length octets)))

  -- Encoding appends the frames; where they are decoded again, the same messages come out.
  bytes-encode_each :
      (ms : List (PeerMessage V)) (dst : B)
      → b.bytes (encode_each ms dst) ≡ b.bytes dst ++ frames ms
  unfolding encode_each frames
  bytes-encode_each [] dst = sym (append-nil (b.bytes dst))
  bytes-encode_each (m ∷ ms) dst =
      let (octets, e) = as_bytes_total m in
      bytes-encode_each ms (encode m dst).1
      ∙ ap (λ t. t ++ frames ms) (bytes-encode m dst octets e)
      ∙ append_assoc (b.bytes dst) octets (frames ms)
      ∙ ap (λ t. b.bytes dst ++ t) (sym (frames-cons m ms octets e))

  decode_each-frames :
      (ms : List (PeerMessage V)) (src : B) (rest : List ℕ)
      → All IsMessage ms
      → b.bytes src ≡ frames ms ++ rest
      → (src' : B) × (decode_each (length ms) src ≡ done (map some ms, src'))
        × (b.bytes src' ≡ rest)
  unfolding decode_each frames
  decode_each-frames [] src rest h e = (src, refl, e)
  decode_each-frames (m ∷ ms) src rest h e =
      let (octets, o) = as_bytes_total m in
      let e' : b.bytes src ≡ octets ++ (frames ms ++ rest) =
        e
        ∙ ap (λ t. t ++ rest) (frames-cons m ms octets o)
        ∙ append_assoc octets (frames ms) rest in
      let (mid, d, f) = decode-as_bytes m src octets (frames ms ++ rest) h.0 o e' in
      let (end, d', f') = decode_each-frames ms mid rest h.1 f in (end, rw (d, d'), f')

  -- Messages that are encoded into an empty buffer are decoded from it in the same order, with
  -- no message missing and no byte left over; where the numbers and hashes of each have the widths
  -- of their fields, no bit field has 0 or 4 bits, and none is so long that its length prefix
  -- reaches the first byte of a handshake.
  pub decode_each-encode_each :
      (ms : List (PeerMessage V)) (buf : B)
      → All IsMessage ms
      → b.bytes buf ≡ []
      → (src' : B) × (decode_each (length ms) (encode_each ms buf) ≡ done (map some ms, src'))
        × (b.bytes src' ≡ [])
  decode_each-encode_each ms buf h e =
      decode_each-frames ms (encode_each ms buf) [] h
        (bytes-encode_each ms buf ∙ rw e (sym (append-nil (frames ms))))
