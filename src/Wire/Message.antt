-- ===== src/Wire/Message.antt =====
-- `src/proto/message.rs` and the wire piece of `src/piece.rs`: the peer messages and their bytes.
use libp2p_bittorrent_protoc.Base.{
  ℕ, ◌+◌, ◌/◌, ◌%◌, ◌^◌, List, [], ◌∷◌, ◌++◌, ltb, if◌then◌else◌, length, Result, ok,
}
use libp2p_bittorrent_protoc.Crates.BitVec.{BitVec}
use libp2p_bittorrent_protoc.Crates.ByteOrder.{ByteOrder}
use libp2p_bittorrent_protoc.Hash.{ShaHash}

-- u32 fields
pub record PeerRequest : Type 0 where
  pub index : ℕ
  pub begin : ℕ
  pub length : ℕ

-- `Bytes` is the slice that it derefs to.
pub record Piece : Type 0 where
  pub index : ℕ
  pub begin : ℕ
  pub block : List ℕ

pub record Handshake : Type 0 where
  pub reserved : List ℕ
  pub info_hash : ShaHash
  pub peer_id : ShaHash

pub record BitField (V : Type 0) : Type 0 where
  pub inner : V

pub data PeerMessage (V : Type 0) : Type 0 where
  keep_alive choke un_choke interested not_interested : PeerMessage V
  have : ℕ → PeerMessage V
  bitfield : BitField V → PeerMessage V
  request : PeerRequest → PeerMessage V
  cancel : PeerRequest → PeerMessage V
  piece : Piece → PeerMessage V
  handshake : Handshake → PeerMessage V
  port : ℕ → PeerMessage V

-- What `io::Error` carries: its kind is `InvalidData` wherever the codec builds one.
pub data IoError : Type 0 where
  unsupported_identifier : IoError
  unexpected_message : ℕ → ℕ → IoError
  empty_bitfield : IoError

abbrev pub choke_id : ℕ
choke_id = 0

abbrev pub unchoke_id : ℕ
unchoke_id = 1

abbrev pub interested_id : ℕ
interested_id = 2

abbrev pub not_interested_id : ℕ
not_interested_id = 3

abbrev pub have_id : ℕ
have_id = 4

abbrev pub bitfield_id : ℕ
bitfield_id = 5

abbrev pub request_id : ℕ
request_id = 6

abbrev pub piece_id : ℕ
piece_id = 7

abbrev pub cancel_id : ℕ
cancel_id = 8

abbrev pub port_id : ℕ
port_id = 9

abbrev pub handshake_id : ℕ
handshake_id = 19

-- "BitTorrent protocol"
abbrev pub bittorrent_identifier : List ℕ
bittorrent_identifier =
    66 ∷ 105 ∷ 116 ∷ 84 ∷ 111 ∷ 114 ∷ 114 ∷ 101 ∷ 110 ∷ 116 ∷ 32 ∷ 112 ∷ 114 ∷ 111 ∷ 116 ∷ 111 ∷ 99
    ∷ 111 ∷ 108 ∷ []

unfoldable pub new_handshake : ShaHash → ShaHash → Handshake
new_handshake info_hash peer_id = record {
  reserved = 0 ∷ 0 ∷ 0 ∷ 0 ∷ 0 ∷ 0 ∷ 0 ∷ 0 ∷ [];
  info_hash = info_hash;
  peer_id = peer_id;
}

abbrev pub request_bytes : ⦃w : ByteOrder⦄ → PeerRequest → List ℕ
request_bytes ⦃w⦄ r = w.write_u32 r.index ++ (w.write_u32 r.begin ++ w.write_u32 r.length)

module _ {V : Type 0} ⦃v : BitVec V⦄ where
  -- `PeerMessage::len`, the bytes to reserve
  unfoldable pub len : PeerMessage V → ℕ
  len keep_alive = 4 + 0
  len choke = 4 + 1
  len un_choke = 4 + 1
  len interested = 4 + 1
  len not_interested = 4 + 1
  len (have index) = 4 + (1 + 4)
  len (bitfield f) =
      let bits = v.len f.inner in 4 + (1 + (if ltb 0 (bits % 8) then bits / 8 + 1 else bits / 8))
  len (request r) = 4 + (1 + 12)
  len (cancel r) = 4 + (1 + 12)
  len (piece p) = 4 + (1 + 8 + length p.block)
  len (handshake h) = 4 + (45 + 19)
  len (port p) = 4 + (1 + 4)

  module _ ⦃w : ByteOrder⦄ where
    -- Writes to a `Vec` do not fail. The sums of the length prefix are taken as u32.
    unfoldable pub as_bytes : PeerMessage V → Result (List ℕ) IoError
    as_bytes keep_alive = ok (w.write_u32 0)
    as_bytes choke = ok (w.write_u32 1 ++ 0 ∷ [])
    as_bytes un_choke = ok (w.write_u32 1 ++ 1 ∷ [])
    as_bytes interested = ok (w.write_u32 1 ++ 2 ∷ [])
    as_bytes not_interested = ok (w.write_u32 1 ++ 3 ∷ [])
    as_bytes (have index) = ok (w.write_u32 5 ++ 4 ∷ w.write_u32 index)
    as_bytes (bitfield f) =
        ok (w.write_u32 ((1 + v.len f.inner % 2 ^ 32) % 2 ^ 32) ++ 5 ∷ v.to_bytes f.inner)
    as_bytes (request r) = ok (w.write_u32 13 ++ 6 ∷ request_bytes r)
    as_bytes (piece p) = ok (
        w.write_u32 ((9 + length p.block % 2 ^ 32) % 2 ^ 32)
        ++ 7 ∷ (w.write_u32 p.index ++ (w.write_u32 p.begin ++ p.block)))
    as_bytes (cancel r) = ok (w.write_u32 13 ++ 8 ∷ request_bytes r)
    as_bytes (port p) = ok (w.write_u32 3 ++ 9 ∷ w.write_u16 p)
    as_bytes (handshake h) =
        ok (0x13 ∷ (bittorrent_identifier ++ (h.reserved ++ (h.info_hash.hash ++ h.peer_id.hash))))
