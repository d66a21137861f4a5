-- ===== src/Disk/Block/Convert.antt =====
-- Blocks to wire messages and back.
use libp2p_bittorrent_protoc.Base.{◌^◌, ◌<◌, ◌≡◌, ◌↔◌, arith, true}
use libp2p_bittorrent_protoc.Wire.Message.{PeerRequest}
use libp2p_bittorrent_protoc.Disk.Block.{
  Block, from_request, into_request, from_piece, into_piece, is_valid_len,
}

-- A request that came over the wire is the same after it was a block's metadata.
pub into_request-from_request :
    (r : PeerRequest)
    → r.index < 2 ^ 32
    → r.begin < 2 ^ 32
    → r.length < 2 ^ 32
    → into_request (from_request r) ≡ r
unfolding into_request from_request
into_request-from_request r hi hb hl = ground arith

-- A block whose position fits u32 comes back from its wire message exactly when its metadata
-- state the length of its data.
pub from_piece-into_piece :
    (b : Block)
    → b.metadata.piece_index < 2 ^ 32
    → b.metadata.block_offset < 2 ^ 32
    → (from_piece (into_piece b) ≡ b) ↔ (is_valid_len b ≡ true)
unfolding from_piece into_piece is_valid_len
from_piece-into_piece b hi hb = ground arith
