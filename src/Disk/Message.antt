-- ===== src/Disk/Message.antt =====
-- `src/disk/message.rs`: the messages to and from the disk manager.
use libp2p_bittorrent_protoc.Base.{ℕ, List}
use libp2p_bittorrent_protoc.Disk.Block.{BlockMetadata, Block, BlockMut}
use libp2p_bittorrent_protoc.Disk.Error.{TorrentError}

-- `M` is `MetaInfo`; a path is its bytes.
pub data DiskMessageIn (M : Type 0) : Type 0 where
  add_torrent : ℕ → M → DiskMessageIn M
  remove_torrent : ℕ → DiskMessageIn M
  move_torrent : ℕ → List ℕ → DiskMessageIn M
  sync_torrent : ℕ → DiskMessageIn M
  read_block : ℕ → BlockMetadata → DiskMessageIn M
  write_block : ℕ → Block → DiskMessageIn M

-- `B` is the buffer of a block.
pub data DiskMessageOut (M B : Type 0) : Type 0 where
  torrent_added : ℕ → DiskMessageOut M B
  torrent_removed : ℕ → M → DiskMessageOut M B
  moved_torrent : ℕ → List ℕ → DiskMessageOut M B
  torrent_synced : ℕ → DiskMessageOut M B
  block_read : ℕ → BlockMut B → DiskMessageOut M B
  piece_written : ℕ → Block → DiskMessageOut M B
  torrent_error : ℕ → TorrentError → DiskMessageOut M B
  read_block_error : ℕ → TorrentError → DiskMessageOut M B
  write_block_error : ℕ → TorrentError → DiskMessageOut M B
