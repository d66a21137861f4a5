-- ===== src/Disk/Manager.antt =====
-- `src/disk/manager.rs`: the disk manager, its queue and the files that it hands to jobs.
pub mod Jobs
pub mod Guards
pub mod Marks
pub mod Waits
mod Tests
use libp2p_bittorrent_protoc.Base.{
  ℕ, ◌+◌, Bool, true, false, ◌&&◌, List, [], ◌∷◌, Option, none, some, Result, ok, err, Outcome,
  done, panic, bind, Poll, nat_eq, leb, ◌==◌, if◌then◌else◌, length, take, drop, ◌-◌,
}
use libp2p_bittorrent_protoc.Base.Map
use libp2p_bittorrent_protoc.Base.Vec.{push}
use libp2p_bittorrent_protoc.Crates.LruCache.{LruCache}
use libp2p_bittorrent_protoc.Hash.{ShaHash}
use libp2p_bittorrent_protoc.Disk.Block.{BlockMetadata, Block}
use libp2p_bittorrent_protoc.Disk.Error.{TorrentError, io, bad_piece, bad_block, torrent_not_found}
use libp2p_bittorrent_protoc.Disk.Files.{
  TorrentFileId, FileEntry, FileWindow, TorrentFile, files_for_block, is_good_piece,
}
use libp2p_bittorrent_protoc.Disk.FileSystem.{OpenFile}
use libp2p_bittorrent_protoc.Disk.Finalize.{
  BlockFile, BlockJob, BlockRead, BlockWrite, BlockFileRead, BlockFileWrite, BlockResult, finalize,
}
use libp2p_bittorrent_protoc.Disk.Message.{
  DiskMessageIn, add_torrent, sync_torrent, read_block, write_block, DiskMessageOut,
  torrent_removed, torrent_error, read_block_error, write_block_error, piece_written,
}
use libp2p_bittorrent_protoc.Disk.Message
use libp2p_bittorrent_protoc.Disk.Transfer.{new_read, new_write}

pub data FileState (F : Type 0) : Type 0 where
  queued : F → FileWindow → FileState F
  ready : F → FileState F
  busy : FileWindow → FileState F

-- `derive(PartialEq)`
abbrev pub eq_window : FileWindow → FileWindow → Bool
eq_window a b = (a.offset == b.offset) && (a.length == b.length)

-- `F` files, `C` the cache of them, `S` the file system, `M` the meta info. The set of torrents is a
-- map by their identifiers; a torrent's meta info stands beside its files.
pub record DiskManager (F C S M : Type 0) : Type 0 where
  pub active_blocks : List (BlockJob F)
  pub file_cache : C
  pub torrents : List (ℕ × (TorrentFile × M))
  pub file_system : S
  pub queued_events : List (DiskMessageIn M)

-- the files that the loop of `poll_files` has taken from the cache or opened, and whether all are
-- there; or that one could not be opened
pub data Acquired (F : Type 0) : Type 0 where
  collected : List (TorrentFileId × F × FileWindow) → Bool → Acquired F
  failed : Acquired F

module _ {F C S M : Type 0} where
  abbrev pub enqueue : DiskMessageIn M → DiskManager F C S M → DiskManager F C S M
  enqueue msg m = record m { queued_events = push m.queued_events msg }

  unfoldable pub queue_write : ℕ → Block → DiskManager F C S M → DiskManager F C S M
  queue_write torrent_id block m = enqueue (write_block torrent_id block) m

  unfoldable pub queue_read : ℕ → BlockMetadata → DiskManager F C S M → DiskManager F C S M
  queue_read torrent_id metadata m = enqueue (read_block torrent_id metadata) m

  unfoldable pub queue_torrent : ℕ → M → DiskManager F C S M → DiskManager F C S M
  queue_torrent id meta m = enqueue (add_torrent id meta) m

  unfoldable pub queue_sync : ℕ → DiskManager F C S M → DiskManager F C S M
  queue_sync id m = enqueue (sync_torrent id) m

  unfoldable pub remove_torrent :
      {B : Type 0} → ℕ → DiskManager F C S M → DiskManager F C S M × DiskMessageOut M B
  remove_torrent id m = elim (Map.get id m.torrents) [
    | some (file, meta) ↦
        (record m { torrents = Map.remove id m.torrents }, torrent_removed id meta)
    | none ↦ (m, torrent_error id (torrent_not_found id))
  ]

  -- whether the block is a piece of the torrent
  unfoldable pub knows_piece : (List ℕ → ShaHash) → ℕ → Block → DiskManager F C S M → Bool
  unfolding is_good_piece
  knows_piece digest id block m = elim (Map.get id m.torrents) [
    | some (torrent, meta) ↦ is_good_piece digest block torrent
    | none ↦ false
  ]

module _ {F C S : Type 0} ⦃c : LruCache C TorrentFileId (FileState F)⦄ ⦃o : OpenFile S F⦄ where
  -- the loop of `poll_files`
  unfoldable pub acquire :
      List (FileEntry × FileWindow)
      → C
      → S
      → List (TorrentFileId × F × FileWindow)
      → Bool
      → C × S × Acquired F
  acquire [] cache fs queued_files all_ready = (cache, fs, collected queued_files all_ready)
  acquire ((file, window) ∷ files) cache fs queued_files all_ready =
      let (cache', found) = c.remove file.id cache in
      elim found [
        | some (FileState.ready fs_file) ↦
            acquire files cache' fs (push queued_files (file.id, fs_file, window)) all_ready
        | some (queued fs_file queued_window) ↦
            acquire files cache' fs (push queued_files (file.id, fs_file, window))
              (all_ready && eq_window window queued_window)
        | some (busy piece) ↦
            acquire files (c.insert file.id (busy piece) cache') fs queued_files false
        | none ↦
            let (fs', opened) = o.poll_open_file fs file in
            elim opened [
              | Poll.ready (ok fs_file) ↦
                  acquire files cache' fs' (push queued_files (file.id, fs_file, window)) all_ready
              | Poll.ready (err _) ↦ (cache', fs', failed)
              | Poll.pending ↦ (cache', fs', collected queued_files false)
            ]
      ]

module _ {F C : Type 0} ⦃c : LruCache C TorrentFileId (FileState F)⦄ where
  -- the two loops that put the files back, or leave a mark that they are taken
  unfoldable pub mark_busy : List (TorrentFileId × F × FileWindow) → C → C
  mark_busy [] cache = cache
  mark_busy ((id, file, window) ∷ files) cache = mark_busy files (c.insert id (busy window) cache)

  unfoldable pub put_back : List (TorrentFileId × F × FileWindow) → C → C
  put_back [] cache = cache
  put_back ((id, file, window) ∷ files) cache =
      put_back files (c.insert id (queued file window) cache)

  unfoldable pub store_files : List (BlockFile F) → C → C
  store_files [] cache = cache
  store_files (file ∷ files) cache =
      store_files files (c.insert file.id (FileState.ready file.inner) cache)

abbrev pub block_files :
    {F : Type 0} → List (TorrentFileId × F × FileWindow) → List (FileWindow × BlockFile F)
block_files [] = []
block_files ((id, file, window) ∷ files) =
    (window, record { id = id; inner = file }) ∷ block_files files

abbrev is_empty : {A : Type 0} → List A → Bool
is_empty [] = true
is_empty (x ∷ xs) = false

module _ {F C S M : Type 0} ⦃c : LruCache C TorrentFileId (FileState F)⦄ where
  -- what follows the loop
  unfoldable pub settle :
      DiskManager F C S M
      → C × S × Acquired F
      → DiskManager F C S M × Poll (Result (List (FileWindow × BlockFile F)) TorrentError)
  unfolding mark_busy put_back
  settle m (cache, fs, failed) =
      (record m { file_cache = cache; file_system = fs }, Poll.ready (err io))
  settle m (cache, fs, collected queued_files true) = (
    record m { file_cache = mark_busy queued_files cache; file_system = fs },
    Poll.ready (ok (block_files queued_files)),
  )
  settle m (cache, fs, collected queued_files false) =
      (record m { file_cache = put_back queued_files cache; file_system = fs }, Poll.pending)

module _ {F C S M : Type 0} ⦃c : LruCache C TorrentFileId (FileState F)⦄ ⦃o : OpenFile S F⦄ where
  -- The assertion that a block has a file is a panic.
  unfoldable pub poll_files :
      ℕ
      → BlockMetadata
      → DiskManager F C S M
      → Outcome (DiskManager F C S M × Poll (Result (List (FileWindow × BlockFile F)) TorrentError))
  unfolding files_for_block acquire settle
  poll_files id meta m = elim (Map.get id m.torrents) [
    | none ↦ done (m, Poll.ready (err (torrent_not_found id)))
    | some (torrent, info) ↦ elim (files_for_block meta torrent) [
      | panic ↦ panic
      | done (err e) ↦ done (m, Poll.ready (err e))
      | done (ok []) ↦ panic
      | done (ok (file ∷ files)) ↦
          done (settle m (acquire (file ∷ files) m.file_cache m.file_system [] true))
    ]
  ]
