-- ===== src/Behavior/Storage.antt =====
-- The disk manager of `src/disk/manager.rs` as the disk of the behaviour.
use libp2p_bittorrent_protoc.Base.{
  ℕ, List, Result, ok, Poll, pending, ready, Run, returns, panics, exhausted,
}
use libp2p_bittorrent_protoc.Crates.LruCache.{LruCache}
use libp2p_bittorrent_protoc.Hash.{ShaHash}
use libp2p_bittorrent_protoc.Disk.Files.{TorrentFileId}
use libp2p_bittorrent_protoc.Disk.FileSystem.{FileSystem, OpenFile}
use libp2p_bittorrent_protoc.Disk.Manager.{
  FileState, DiskManager, queue_torrent, queue_read, queue_write,
}
use libp2p_bittorrent_protoc.Disk.Manager.Jobs
use libp2p_bittorrent_protoc.Meta.{MetaInfo}
use libp2p_bittorrent_protoc.Behavior.{Disk}

-- the manager's messages are never errors of the file system
abbrev pub as_ok : {D B : Type 0} → Run (D × Poll B) → Run (D × Poll (Result B (Unit {0})))
as_ok panics = panics
as_ok exhausted = exhausted
as_ok (returns (d, pending)) = returns (d, pending)
as_ok (returns (d, ready msg)) = returns (d, ready (ok msg))

-- `fuel` bounds the rounds of one poll.
unfoldable pub managed :
    {F C S E : Type 0}
    → FileSystem F E
    → (List ℕ → ShaHash)
    → ℕ
    → ⦃c : LruCache C TorrentFileId (FileState F)⦄ → ⦃o : OpenFile S F⦄
    → Disk (DiskManager F C S MetaInfo) (List ℕ)
unfolding queue_torrent queue_read queue_write Jobs.poll
managed fs digest fuel = record {
  add_torrent = λ m id meta. queue_torrent id meta m;
  read_block = λ m id block. queue_read id block m;
  write_block = λ m id block. queue_write id block m;
  poll = λ m. as_ok (Jobs.poll fs digest fuel m);
}
