-- ===== src/Disk/Error.antt =====
-- `TorrentError` of `src/disk/error.rs`. The I/O error, the path and the meta info that three of the
-- errors carry are left out.
use libp2p_bittorrent_protoc.Base.{ℕ}
use libp2p_bittorrent_protoc.Hash.{ShaHash}
use libp2p_bittorrent_protoc.Disk.Block.{BlockMetadata}

pub data TorrentError : Type 0 where
  io existing_torrent : TorrentError
  existing_file_size_check : ℕ → ℕ → TorrentError
  bad_block : BlockMetadata → TorrentError
  bad_piece torrent_not_found : ℕ → TorrentError
  mismatched_hashes : ShaHash → ShaHash → TorrentError
