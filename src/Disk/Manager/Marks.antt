-- ===== src/Disk/Manager/Marks.antt =====
-- The marks that `poll_files` of `src/disk/manager.rs` leaves in the cache for the files of a job.
use libp2p_bittorrent_protoc.Base.{◌≡◌, ◌≤◌, List, some, All, nat_eq}
use libp2p_bittorrent_protoc.Base.Map
use libp2p_bittorrent_protoc.Crates.LruCache.{LruCache}
use libp2p_bittorrent_protoc.Disk.Files.{TorrentFileId, FileWindow}
use libp2p_bittorrent_protoc.Disk.Finalize.{BlockFile}
use libp2p_bittorrent_protoc.Disk.Manager.{FileState, busy}
use libp2p_bittorrent_protoc.Disk.Manager.Guards.{IsFree}

module _ (F : Type 0) {C : Type 0} ⦃c : LruCache C TorrentFileId (FileState F)⦄ where
  -- the file is with a job
  abbrev pub IsMarked : C → TorrentFileId → Type 0
  IsMarked cache id = (w : FileWindow) × (c.peek id cache ≡ some (busy w))

  -- what is handed out, and what becomes of the cache
  abbrev pub Hands : C → C → List (FileWindow × BlockFile F) → Type 0
  Hands before after blocks =
      All (λ b. IsFree F before b.1.id × IsMarked after b.1.id) blocks
      × ((j : TorrentFileId) → IsMarked before j → IsMarked after j)

  -- a cache after some entries were taken out, none of them a mark
  record IsTaken (before after : C) : Type 0 where
    pub fewer : c.len after ≤ c.len before
    pub same : c.capacity after ≡ c.capacity before
    pub keeps : (j : TorrentFileId) → IsMarked before j → IsMarked after j
