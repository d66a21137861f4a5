-- ===== src/Wire/Codec.antt =====
-- `src/proto/codec.rs`: the frame decoder and encoder over a byte buffer.
pub mod Frames
pub mod Arms
pub mod RoundTrip
pub mod Streams
pub mod Limits
pub mod Progress
pub mod Sizes
use libp2p_bittorrent_protoc.Base.{
  ℕ, ◌+◌, ◌-◌, ◌/◌, ◌%◌, not, ◌&&◌, List, Option, none, some, ltb, leb, ◌==◌, if◌then◌else◌, length,
  take, drop, get_elem?, Result, ok, err, Outcome, done, panic, bind, index, eq_bytes,
}
use libp2p_bittorrent_protoc.Crates.BitVec.{BitVec}
use libp2p_bittorrent_protoc.Crates.Bytes.{BytesMut}
use libp2p_bittorrent_protoc.Crates.ByteOrder.{ByteOrder}
use libp2p_bittorrent_protoc.Hash.{try_from}
use libp2p_bittorrent_protoc.Wire.Message.{
  PeerMessage, PeerRequest, IoError, keep_alive, choke, un_choke, interested, not_interested, have,
  bitfield, request, cancel, piece, handshake, port, unsupported_identifier, unexpected_message,
  empty_bitfield, choke_id, unchoke_id, interested_id, not_interested_id, have_id, bitfield_id,
  request_id, piece_id, cancel_id, port_id, handshake_id, bittorrent_identifier, as_bytes,
}

-- The result of a call, and the buffer that it leaves.
abbrev pub Decoded : Type 0 → Type 0 → Type 0
Decoded V B = Outcome (Result (Option (PeerMessage V)) IoError × B)

-- `&s[lo..hi]`
unfoldable pub slice : List ℕ → ℕ → ℕ → Outcome (List ℕ)
slice s lo hi = if leb lo hi && leb hi (length s) then done (take (hi - lo) (drop lo s)) else panic

-- `&s[lo..]`
unfoldable pub slice_from : List ℕ → ℕ → Outcome (List ℕ)
slice_from s lo = if leb lo (length s) then done (drop lo s) else panic

unfoldable pub unwrap {ℓ κ} : {A : Type ℓ} {E : Type κ} → Result A E → Outcome A
unwrap (ok a) = done a
unwrap (err e) = panic

abbrev append_to :
    {B : Type 0} ⦃b : BytesMut B⦄ → B → Result (List ℕ) IoError → Result (Unit {0}) IoError × B
append_to ⦃b⦄ dst (ok octets) = (ok tt, b.put (b.reserve dst (length octets)) octets)
append_to dst (err e) = (err e, dst)

module _ {V B : Type 0} ⦃v : BitVec V⦄ ⦃b : BytesMut B⦄ ⦃w : ByteOrder⦄ where
  unfoldable pub decode_handshake : B → Decoded V B
  unfolding slice unwrap try_from
  decode_handshake src =
      if ltb (length (b.bytes src)) 68
      then done (ok none, b.reserve src (68 - length (b.bytes src)))
      else bind (slice (b.bytes src) 1 20) λ identifier.
        if not (eq_bytes identifier bittorrent_identifier)
        then done (err unsupported_identifier, src)
        else let (front, rest) = b.split_to src 68 in
          let msg = b.bytes (b.advance front 20) in
          bind (slice msg 0 8) λ reserved. bind (slice msg 8 28) λ info.
            bind (unwrap (try_from info)) λ info_hash. bind (slice msg 28 48) λ id.
              bind (unwrap (try_from id)) λ peer_id. done (
                ok (
                    some (
                      handshake (record {
                        reserved = reserved;
                        info_hash = info_hash;
                        peer_id = peer_id;
                      }))),
                rest,
              )

  -- the arm for length 1
  unfoldable pub decode_plain : B → Decoded V B
  decode_plain src =
      if ltb (length (b.bytes src)) 5
      then done (ok none, src)
      else bind (index (get_elem? (b.bytes src) 4)) λ i.
        if i == choke_id
        then done (ok (some choke), b.advance src 5)
        else if i == unchoke_id
        then done (ok (some un_choke), b.advance src 5)
        else if i == interested_id
        then done (ok (some interested), b.advance src 5)
        else if i == not_interested_id
        then done (ok (some not_interested), b.advance src 5)
        else done (err (unexpected_message 1 i), src)

  -- the arm for length 5
  unfoldable pub decode_have : B → Decoded V B
  unfolding slice
  decode_have src =
      if ltb (length (b.bytes src)) 9
      then done (ok none, b.reserve src (9 - length (b.bytes src)))
      else bind (index (get_elem? (b.bytes src) 4)) λ i.
        if i == have_id
        then (let (msg, rest) = b.split_to src 9 in
            bind (slice (b.bytes msg) 5 9)
              λ field. done (ok (some (have (w.read_u32 field))), rest))
        else done (err (unexpected_message 5 i), src)

  -- here the length is the number of bits and the id
  unfoldable pub decode_bitfield : B → ℕ → Decoded V B
  unfolding slice_from
  decode_bitfield src len =
      let number_of_pieces = len - 1 in
      if number_of_pieces == 0
      then done (err empty_bitfield, src)
      else let rem = number_of_pieces % 8 in
        let bitfield_bytes_len =
          if ltb 0 rem then number_of_pieces / 8 + 1 else number_of_pieces / 8 in
        let msg_bytes_length = bitfield_bytes_len + 5 in
        if ltb (length (b.bytes src)) msg_bytes_length
        then done (ok none, b.reserve src (msg_bytes_length - length (b.bytes src)))
        else let (msg, rest) = b.split_to src msg_bytes_length in
          bind (slice_from (b.bytes msg) 5) λ octets. done (
            ok (
                some (
                  bitfield (record { inner = v.truncate (v.from_bytes octets) number_of_pieces }))),
            rest,
          )

  unfoldable pub decode_request : B → ℕ → (PeerRequest → PeerMessage V) → Decoded V B
  unfolding slice
  decode_request src msg_bytes_length message =
      let (front, rest) = b.split_to src msg_bytes_length in
      let msg = b.bytes front in
      bind (slice msg 5 9) λ i. bind (slice msg 9 13) λ begin. bind (slice msg 13 17) λ len. done (
        ok (
            some (
              message (record {
                index = w.read_u32 i;
                begin = w.read_u32 begin;
                length = w.read_u32 len;
              }))),
        rest,
      )

  unfoldable pub decode_piece : B → ℕ → Decoded V B
  unfolding slice slice_from
  decode_piece src msg_bytes_length =
      let (front, rest) = b.split_to src msg_bytes_length in
      let msg = b.bytes front in
      bind (slice msg 5 9) λ i. bind (slice msg 9 13) λ begin. bind (slice_from msg 13) λ block.
        done (
          ok (
              some
                (piece (record { index = w.read_u32 i; begin = w.read_u32 begin; block = block }))),
          rest,
        )

  -- `read_u16` panics on fewer than two bytes
  unfoldable pub decode_port : B → ℕ → Decoded V B
  unfolding slice_from
  decode_port src msg_bytes_length =
      let (front, rest) = b.split_to src msg_bytes_length in
      bind (slice_from (b.bytes front) 5) λ field.
        if ltb (length field) 2 then panic else done (ok (some (port (w.read_u16 field))), rest)

  -- the arm for every other length; `src[4]` is read with no test of the buffer's length
  unfoldable pub decode_payload : B → ℕ → Decoded V B
  decode_payload src len = bind (index (get_elem? (b.bytes src) 4)) λ i.
      if i == bitfield_id
      then decode_bitfield src len
      else let msg_bytes_length = 4 + len in
        if ltb (length (b.bytes src)) msg_bytes_length
        then done (ok none, b.reserve src (msg_bytes_length - length (b.bytes src)))
        else if i == request_id
        then decode_request src msg_bytes_length request
        else if i == piece_id
        then decode_piece src msg_bytes_length
        else if i == cancel_id
        then decode_request src msg_bytes_length cancel
        else if i == port_id
        then decode_port src msg_bytes_length
        else done (err (unexpected_message 1 i), src)

  unfoldable pub decode_length : B → ℕ → Decoded V B
  decode_length src len =
      if len == 0
      then done (ok (some keep_alive), b.advance src 4)
      else if len == 1
      then decode_plain src
      else if len == 5
      then decode_have src
      else decode_payload src len

  -- `Decoder::decode`
  unfoldable pub decode : B → Decoded V B
  unfolding slice
  decode src =
      if ltb (length (b.bytes src)) 4
      then done (ok none, src)
      else bind (index (get_elem? (b.bytes src) 0)) λ first.
        if first == handshake_id
        then decode_handshake src
        else bind (slice (b.bytes src) 0 4) λ word. decode_length src (w.read_u32 word)

  -- `Encoder::encode`
  unfoldable pub encode : PeerMessage V → B → Result (Unit {0}) IoError × B
  unfolding as_bytes
  encode item dst = append_to dst (as_bytes item)
