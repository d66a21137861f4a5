-- ===== src/Wire/Codec/Progress.antt =====
-- What one call of `decode` takes from the buffer, on every outcome and for every buffer.
use libp2p_bittorrent_protoc.Base.{
  ℕ, ◌+◌, ◌-◌, ◌≤◌, ◌<◌, ◌≡◌, ap, none, some, ok, err, done, arith, length, take, ltb,
  if◌then◌else◌, ◌%◌, ◌/◌, length-drop,
}
use libp2p_bittorrent_protoc.Crates.BitVec.{BitVec}
use libp2p_bittorrent_protoc.Crates.Bytes.{BytesMut}
use libp2p_bittorrent_protoc.Crates.ByteOrder.{ByteOrder}
use libp2p_bittorrent_protoc.Wire.Message.{PeerMessage, PeerRequest, IoError, request, cancel}
use libp2p_bittorrent_protoc.Wire.Codec.{
  decode, decode_length, decode_payload, decode_have, decode_plain, decode_bitfield,
  decode_handshake, decode_piece, decode_port, decode_request, slice, Decoded,
}

length-rest :
    {B : Type 0} ⦃b : BytesMut B⦄ (src : B) (n : ℕ)
    → n ≤ length (b.bytes src)
    → length (b.bytes (b.split_to src n).1) + n ≡ length (b.bytes src)
length-rest ⦃b⦄ src n h =
    omega (arith, ap length (b.bytes-rest src n h), length-drop n (b.bytes src))

length-advance :
    {B : Type 0} ⦃b : BytesMut B⦄ (src : B) (n : ℕ)
    → n ≤ length (b.bytes src)
    → length (b.bytes (b.advance src n)) + n ≡ length (b.bytes src)
length-advance ⦃b⦄ src n h =
    omega (arith, ap length (b.bytes-advance src n h), length-drop n (b.bytes src))

module _ {V B : Type 0} ⦃v : BitVec V⦄ ⦃b : BytesMut B⦄ ⦃w : ByteOrder⦄ (m : PeerMessage V)
    (src src' : B) where
  plain_progress :
      decode_plain src ≡ done (ok (some m), src') → length (b.bytes src') < length (b.bytes src)
  unfolding decode_plain
  plain_progress h = ground (arith, length-advance src 5)

  have_progress :
      decode_have src ≡ done (ok (some m), src') → length (b.bytes src') < length (b.bytes src)
  unfolding decode_have
  have_progress h = ground (arith, length-rest src 9)

  handshake_progress :
      decode_handshake src ≡ done (ok (some m), src') → length (b.bytes src') < length (b.bytes src)
  unfolding decode_handshake
  handshake_progress h = ground (arith, length-rest src 68)

  request_progress :
      (n : ℕ) (f : PeerRequest → PeerMessage V)
      → 0 < n
      → n ≤ length (b.bytes src)
      → decode_request src n f ≡ done (ok (some m), src')
      → length (b.bytes src') < length (b.bytes src)
  unfolding decode_request
  request_progress n f p q h = ground (arith, length-rest src n)

  piece_progress :
      (n : ℕ)
      → 0 < n
      → n ≤ length (b.bytes src)
      → decode_piece src n ≡ done (ok (some m), src')
      → length (b.bytes src') < length (b.bytes src)
  unfolding decode_piece
  piece_progress n p q h = ground (arith, length-rest src n)

  port_progress :
      (n : ℕ)
      → 0 < n
      → n ≤ length (b.bytes src)
      → decode_port src n ≡ done (ok (some m), src')
      → length (b.bytes src') < length (b.bytes src)
  unfolding decode_port
  port_progress n p q h = ground (arith, length-rest src n)

  bitfield_progress :
      (n : ℕ)
      → decode_bitfield src n ≡ done (ok (some m), src')
      → length (b.bytes src') < length (b.bytes src)
  unfolding decode_bitfield
  bitfield_progress n h =
      let octets = if ltb 0 ((n - 1) % 8) then (n - 1) / 8 + 1 else (n - 1) / 8 in
      ground (arith, length-rest src (octets + 5))

  payload_progress :
      (n : ℕ)
      → decode_payload src n ≡ done (ok (some m), src')
      → length (b.bytes src') < length (b.bytes src)
  unfolding decode_payload
  payload_progress n h = ground (
    arith,
    bitfield_progress n,
    request_progress (4 + n) request,
    request_progress (4 + n) cancel,
    piece_progress (4 + n),
    port_progress (4 + n),
  )

  length_progress :
      (n : ℕ)
      → 4 ≤ length (b.bytes src)
      → decode_length src n ≡ done (ok (some m), src')
      → length (b.bytes src') < length (b.bytes src)
  unfolding decode_length
  length_progress n p h =
      ground (arith, length-advance src 4, plain_progress, have_progress, payload_progress n)

  -- A call that returns a message has taken at least one byte from the buffer.
  pub decode_progress :
      decode src ≡ done (ok (some m), src') → length (b.bytes src') < length (b.bytes src)
  unfolding decode slice
  decode_progress h =
      let word = w.read_u32 (take 4 (b.bytes src)) in
      ground (arith, handshake_progress, length_progress word)

-- A call that waits for more bytes leaves the bytes as they are; one that fails, the buffer.
module _ {V B : Type 0} ⦃v : BitVec V⦄ ⦃b : BytesMut B⦄ ⦃w : ByteOrder⦄ (src src' : B) (n : ℕ) where
  abbrev Kept : Decoded V B → Type 0
  Kept r = r ≡ done (ok none, src') → b.bytes src' ≡ b.bytes src

  plain-Kept : Kept (decode_plain src)
  unfolding decode_plain
  plain-Kept h = ground arith

  have-Kept : Kept (decode_have src)
  unfolding decode_have
  have-Kept h = ground (arith, b.bytes-reserve src (9 - length (b.bytes src)))

  handshake-Kept : Kept (decode_handshake src)
  unfolding decode_handshake
  handshake-Kept h = ground (arith, b.bytes-reserve src (68 - length (b.bytes src)))

  bitfield-Kept : Kept (decode_bitfield src n)
  unfolding decode_bitfield
  bitfield-Kept h =
      let octets = if ltb 0 ((n - 1) % 8) then (n - 1) / 8 + 1 else (n - 1) / 8 in
      ground (arith, b.bytes-reserve src (octets + 5 - length (b.bytes src)))

  payload-Kept : Kept (decode_payload src n)
  unfolding decode_payload decode_request decode_piece decode_port
  payload-Kept h = ground (arith, bitfield-Kept, b.bytes-reserve src (4 + n - length (b.bytes src)))

  length-Kept : Kept (decode_length src n)
  unfolding decode_length
  length-Kept h = ground (arith, plain-Kept, have-Kept, payload-Kept)

module _ {V B : Type 0} ⦃v : BitVec V⦄ ⦃b : BytesMut B⦄ ⦃w : ByteOrder⦄ (src src' : B) where
  -- A call that returns no message yet leaves the bytes of the buffer as they were.
  pub decode_waits : decode {V = V} src ≡ done (ok none, src') → b.bytes src' ≡ b.bytes src
  unfolding decode slice
  decode_waits h =
      let word = w.read_u32 (take 4 (b.bytes src)) in
      ground (arith, handshake-Kept {V = V} src src' 0, length-Kept {V = V} src src' word)

module _ {V B : Type 0} ⦃v : BitVec V⦄ ⦃b : BytesMut B⦄ ⦃w : ByteOrder⦄ (src src' : B) (e : IoError)
    (n : ℕ) where
  abbrev Fails : Decoded V B → Type 0
  Fails r = r ≡ done (err e, src') → src' ≡ src

  plain-Fails : Fails (decode_plain src)
  unfolding decode_plain
  plain-Fails h = ground arith

  have-Fails : Fails (decode_have src)
  unfolding decode_have
  have-Fails h = ground arith

  handshake-Fails : Fails (decode_handshake src)
  unfolding decode_handshake
  handshake-Fails h = ground arith

  payload-Fails : Fails (decode_payload src n)
  unfolding decode_payload decode_request decode_piece decode_port decode_bitfield
  payload-Fails h = ground arith

  length-Fails : Fails (decode_length src n)
  unfolding decode_length
  length-Fails h = ground (arith, plain-Fails, have-Fails, payload-Fails)

module _ {V B : Type 0} ⦃v : BitVec V⦄ ⦃b : BytesMut B⦄ ⦃w : ByteOrder⦄ (src src' : B) where
  -- A call that fails leaves the buffer itself as it was, so the next call meets the same bytes.
  pub decode_fails : (e : IoError) → decode {V = V} src ≡ done (err e, src') → src' ≡ src
  unfolding decode slice
  decode_fails e h =
      let word = w.read_u32 (take 4 (b.bytes src)) in
      ground (arith, handshake-Fails {V = V} src src' e 0, length-Fails {V = V} src src' e word)
