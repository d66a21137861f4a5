-- ===== src/Wire/Codec/Sizes.antt =====
-- `PeerMessage::len` against the bytes that are written.
use libp2p_bittorrent_protoc.Base.{
  ℕ, ◌+◌, ◌%◌, ◌^◌, ◌≤◌, ◌<◌, ◌≡◌, ap, List, [], ◌∷◌, ◌++◌, ok, arith, length, length-append,
}
use libp2p_bittorrent_protoc.Crates.BitVec.{BitVec, length-bytes_of}
use libp2p_bittorrent_protoc.Crates.ByteOrder.{ByteOrder}
use libp2p_bittorrent_protoc.Wire.Message.{
  PeerMessage, PeerRequest, as_bytes, len, keep_alive, choke, un_choke, interested, not_interested,
  have, bitfield, request, cancel, piece, handshake, port, request_bytes,
}
use libp2p_bittorrent_protoc.Wire.Codec.Frames.{length-write_u32}
use libp2p_bittorrent_protoc.Wire.Codec.RoundTrip.{IsMessage}

length-request_bytes :
    ⦃w : ByteOrder⦄ (r : PeerRequest)
    → (r.index < 2 ^ 32) × (r.begin < 2 ^ 32) × (r.length < 2 ^ 32)
    → length (request_bytes r) ≡ 12
length-request_bytes ⦃w⦄ r (hi, hb, hl) = omega (
  arith,
  length-append (w.write_u32 r.index) (w.write_u32 r.begin ++ w.write_u32 r.length),
  length-append (w.write_u32 r.begin) (w.write_u32 r.length),
  length-write_u32 r.index hi,
  length-write_u32 r.begin hb,
  length-write_u32 r.length hl,
)

module _ {V : Type 0} ⦃v : BitVec V⦄ ⦃w : ByteOrder⦄ where
  -- The capacity that `as_bytes` reserves holds every byte that it writes.
  pub length-le-len :
      (m : PeerMessage V) (octets : List ℕ)
      → IsMessage m
      → as_bytes m ≡ ok octets
      → length octets ≤ len m
  unfolding as_bytes len
  length-le-len keep_alive octets h o = ground (arith, length-write_u32 0)
  length-le-len choke octets h o =
      ground (arith, length-write_u32 1, length-append (w.write_u32 1) (0 ∷ []))
  length-le-len un_choke octets h o =
      ground (arith, length-write_u32 1, length-append (w.write_u32 1) (1 ∷ []))
  length-le-len interested octets h o =
      ground (arith, length-write_u32 1, length-append (w.write_u32 1) (2 ∷ []))
  length-le-len not_interested octets h o =
      ground (arith, length-write_u32 1, length-append (w.write_u32 1) (3 ∷ []))
  length-le-len (have i) octets h o = ground (
    arith,
    length-write_u32 5,
    length-write_u32 i,
    length-append (w.write_u32 5) (4 ∷ w.write_u32 i),
  )
  length-le-len (bitfield f) octets h o =
      let n = (1 + v.len f.inner % 2 ^ 32) % 2 ^ 32 in
      ground (
        arith,
        length-write_u32 n (omega arith),
        length-append (w.write_u32 n) (5 ∷ v.to_bytes f.inner),
        ap length (v.to_bytes_lem f.inner),
        length-bytes_of (v.iter f.inner),
        v.len_lem f.inner,
      )
  length-le-len (request r) octets h o = ground (
    arith,
    length-write_u32 13,
    length-append (w.write_u32 13) (6 ∷ request_bytes r),
    length-request_bytes r h,
  )
  length-le-len (cancel r) octets h o = ground (
    arith,
    length-write_u32 13,
    length-append (w.write_u32 13) (8 ∷ request_bytes r),
    length-request_bytes r h,
  )
  length-le-len (piece p) octets (hi, hb, h) o =
      let n = (9 + length p.block % 2 ^ 32) % 2 ^ 32 in
      ground (
        arith,
        length-write_u32 n (omega arith),
        length-write_u32 p.index hi,
        length-write_u32 p.begin hb,
        length-append (w.write_u32 n)
            (7 ∷ (w.write_u32 p.index ++ (w.write_u32 p.begin ++ p.block))),
        length-append (w.write_u32 p.index) (w.write_u32 p.begin ++ p.block),
        length-append (w.write_u32 p.begin) p.block,
      )
  length-le-len (handshake g) octets h o = ground (
    arith,
    length-append g.reserved (g.info_hash.hash ++ g.peer_id.hash),
    length-append g.info_hash.hash g.peer_id.hash,
  )
  length-le-len (port n) octets h o = ground (
    arith,
    length-write_u32 3,
    length-append (w.write_u32 3) (9 ∷ w.write_u16 n),
    ap length (w.write_u16_lem n h),
  )
