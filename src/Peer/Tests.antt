-- ===== src/Peer/Tests.antt =====
-- Concrete peers, buffers, handlers and pools, and the theorems at them.
mod Buffers
mod Handlers
pub mod Pools
use libp2p_bittorrent_protoc.Base.{
  ℕ, ◌≡◌, refl, Bool, true, false, List, [], ◌∷◌, none, some, replicate, length-replicate, arith,
}
use libp2p_bittorrent_protoc.Hash.{ShaHash}
use libp2p_bittorrent_protoc.Wire.Message.{BitField}
use libp2p_bittorrent_protoc.Disk.Block.{BlockMetadata, Block}
use libp2p_bittorrent_protoc.Peer.State.{BitTorrentPeer, no_stats, un_choked, interested}

abbrev pub hash_of : ℕ → ShaHash
hash_of n = record { hash = replicate 20 n }

abbrev pub Field : Type 0
Field = BitField (List Bool)

abbrev pub second_only : Field
second_only = record { inner = false ∷ true ∷ [] }

abbrev pub both : Field
both = record { inner = true ∷ true ∷ [] }

-- a peer that has both pieces, last heard of at second 0
abbrev pub peer_one : BitTorrentPeer (List Bool) ℕ
peer_one = record {
  bittorrent_id = hash_of 9;
  bitfield = some both;
  stats = no_stats;
  remote_choke = un_choked;
  remote_interest = interested;
  client_choke = un_choked;
  client_interest = interested;
  remote_heartbeat = 0;
  client_heartbeat = 0;
}

abbrev pub five : BlockMetadata
five = record { piece_index = 0; block_offset = 0; block_length = 5 }

-- the answer to a request, all of one byte
abbrev pub sevens : BlockMetadata → Block
sevens m = record { metadata = m; block_data = replicate m.block_length 7 }
