-- ===== src/Disk/Manager/Jobs.antt =====
-- `src/disk/manager.rs`: the jobs that the disk manager makes of its queue, and its poll.
use libp2p_bittorrent_protoc.Base.{
  ℕ, zero, suc, ◌+◌, ◌-◌, not, ◌&&◌, List, [], ◌∷◌, Option, none, some, Result, ok, err, Outcome,
  done, panic, bind, Poll, pending, ready, Run, returns, panics, exhausted, nat_eq, leb,
  if◌then◌else◌, length, take, drop,
}
use libp2p_bittorrent_protoc.Base.Map
use libp2p_bittorrent_protoc.Base.Vec.{push, swap_remove}
use libp2p_bittorrent_protoc.Crates.LruCache.{LruCache}
use libp2p_bittorrent_protoc.Hash.{ShaHash}
use libp2p_bittorrent_protoc.Disk.Block.{BlockMetadata, Block}
use libp2p_bittorrent_protoc.Disk.Error.{TorrentError, existing_torrent, bad_piece, bad_block}
use libp2p_bittorrent_protoc.Disk.Files.{TorrentFileId, FileWindow, TorrentFile}
use libp2p_bittorrent_protoc.Disk.FileSystem.{FileSystem, OpenFile}
use libp2p_bittorrent_protoc.Disk.Finalize.{
  BlockFile, BlockJob, BlockRead, BlockWrite, BlockFileRead, BlockFileWrite, BlockResult, finalize,
}
use libp2p_bittorrent_protoc.Disk.Message.{
  DiskMessageIn, add_torrent, remove_torrent, move_torrent, sync_torrent, read_block, write_block,
  DiskMessageOut, torrent_added, torrent_error, read_block_error, write_block_error, piece_written,
}
use libp2p_bittorrent_protoc.Disk.Transfer.{new_read, new_write, poll_job}
use libp2p_bittorrent_protoc.Disk.Manager.{
  FileState, DiskManager, queue_write, queue_read, knows_piece, poll_files, store_files,
}
use libp2p_bittorrent_protoc.Disk.Manager
use libp2p_bittorrent_protoc.Disk.Files
use libp2p_bittorrent_protoc.Meta.{MetaInfo}

-- `&block[from..to]`
abbrev pub slice : List ℕ → ℕ → ℕ → Outcome (List ℕ)
slice block from to =
    if leb from to && leb to (length block)
    then done (take (to - from) (drop from block))
    else panic

module _ {F : Type 0} where
  -- The loop that cuts a block for several files, from an offset on. As in the source, a fragment
  -- ends at the length of its window.
  unfoldable pub fragments :
      List ℕ → ℕ → List (FileWindow × BlockFile F) → Outcome (List (BlockFileWrite F))
  unfolding new_write
  fragments block fragment_offset [] = done []
  fragments block fragment_offset ((window, file) ∷ files) =
      bind (slice block fragment_offset window.length) (λ fragment.
        bind (fragments block (fragment_offset + window.length) files)
          (λ rest. done (new_write file fragment window ∷ rest)))

  unfoldable pub write_job : ℕ → Block → List (FileWindow × BlockFile F) → Outcome (BlockJob F)
  unfolding fragments new_write
  write_job id block ((window, file) ∷ []) =
      done
        (BlockJob.write (BlockWrite.single block.metadata (new_write file block.block_data window)))
  write_job id block files =
      bind (fragments block.block_data 0 files)
        (λ blocks. done (BlockJob.write (BlockWrite.overlap id block.metadata blocks)))

  abbrev pub new_reads : List (FileWindow × BlockFile F) → List (BlockFileRead F)
  unfolding new_read
  new_reads [] = []
  new_reads ((window, file) ∷ files) = new_read file window ∷ new_reads files

  unfoldable pub read_job : ℕ → BlockMetadata → List (FileWindow × BlockFile F) → BlockJob F
  unfolding new_read
  read_job id meta ((window, file) ∷ []) =
      BlockJob.read (BlockRead.single meta (new_read file window))
  read_job id meta files = BlockJob.read (BlockRead.overlap id meta (new_reads files))

module _ {F C S M : Type 0} ⦃c : LruCache C TorrentFileId (FileState F)⦄ ⦃o : OpenFile S F⦄ where
  unfoldable pub poll_create_block_write :
      (List ℕ → ShaHash)
      → ℕ
      → Block
      → DiskManager F C S M
      → Outcome (DiskManager F C S M × Poll (Result (BlockJob F) TorrentError))
  unfolding knows_piece poll_files write_job queue_write
  poll_create_block_write digest id block m =
      if not (knows_piece digest id block m)
      then done (m, ready (err (bad_piece block.metadata.piece_index)))
      else bind (poll_files id block.metadata m) (λ polled. elim polled.1 [
        | ready (ok files) ↦
            bind (write_job id block files) (λ job. done (polled.0, ready (ok job)))
        | ready (err e) ↦ done (polled.0, ready (err e))
        | pending ↦ done (queue_write id block polled.0, pending)
      ])

  unfoldable pub poll_create_block_read :
      ℕ
      → BlockMetadata
      → DiskManager F C S M
      → Outcome (DiskManager F C S M × Poll (Result (BlockJob F) TorrentError))
  unfolding poll_files read_job queue_read
  poll_create_block_read id meta m = bind (poll_files id meta m) (λ polled. elim polled.1 [
    | ready (ok files) ↦ done (polled.0, ready (ok (read_job id meta files)))
    | ready (err e) ↦ done (polled.0, ready (err e))
    | pending ↦ done (queue_read id meta polled.0, pending)
  ])

-- the message that a result becomes, without the files
unfoldable pub message_of : {F M : Type 0} → BlockResult F → DiskMessageOut M (List ℕ)
message_of (BlockResult.read torrent files (ok block)) =
    DiskMessageOut.block_read torrent
      (record { metadata = block.metadata; block_data = block.block_data })
message_of (BlockResult.read torrent files (err meta)) = read_block_error torrent (bad_block meta)
message_of (BlockResult.write torrent files (ok block)) = piece_written torrent block
message_of (BlockResult.write torrent files (err meta)) =
    write_block_error torrent (bad_piece meta.piece_index)

abbrev pub result_files : {F : Type 0} → BlockResult F → List (BlockFile F)
result_files (BlockResult.read torrent files result) = files
result_files (BlockResult.write torrent files result) = files

module _ {F C S M : Type 0} ⦃c : LruCache C TorrentFileId (FileState F)⦄ where
  unfoldable pub finalize_block :
      BlockJob F → DiskManager F C S M → DiskManager F C S M × DiskMessageOut M (List ℕ)
  unfolding finalize store_files message_of
  finalize_block job m =
      let result = finalize job in
      (record m { file_cache = store_files (result_files result) m.file_cache }, message_of result)

-- What the loop over the queue ends with: a message, a wait for files, or an empty queue.
pub data Drained (M : Type 0) : Type 0 where
  message : DiskMessageOut M (List ℕ) → Drained M
  waits empty : Drained M

module _ {F C S E : Type 0} (fs : FileSystem F E) (digest : List ℕ → ShaHash)
    ⦃c : LruCache C TorrentFileId (FileState F)⦄ ⦃o : OpenFile S F⦄ where
  -- The loop over the active blocks, for the positions below `n`, from the last on.
  unfoldable pub poll_blocks :
      ℕ
      → DiskManager F C S MetaInfo
      → Outcome (DiskManager F C S MetaInfo × Option (DiskMessageOut MetaInfo (List ℕ)))
  unfolding poll_job finalize_block
  poll_blocks zero m = done (m, none)
  poll_blocks (suc n) m = elim (swap_remove m.active_blocks n) [
    | none ↦ panic
    | some (block, others) ↦ elim (poll_job fs block) [
      | panic ↦ panic
      | done (block', ready result) ↦
          let (m', msg) = finalize_block block' (record m { active_blocks = others }) in
          done (m', some msg)
      | done (block', pending) ↦ poll_blocks n (record m { active_blocks = push others block' })
    ]
  ]

  -- The loop over the queue, which it takes apart.
  unfoldable pub drain :
      List (DiskMessageIn MetaInfo)
      → DiskManager F C S MetaInfo
      → Outcome (DiskManager F C S MetaInfo × Drained MetaInfo)
  unfolding Files.new Manager.remove_torrent poll_create_block_read poll_create_block_write
  drain [] m = done (record m { queued_events = [] }, empty)
  drain (add_torrent id meta ∷ msgs) m = done (
      if Map.contains_key id m.torrents
      then (record m { queued_events = msgs }, message (torrent_error id existing_torrent))
      else (
        record m {
          queued_events = msgs;
          torrents =
              Map.insert id
                (Files.new id meta.info.pieces meta.info.piece_length meta.info.content, meta)
                m.torrents;
        },
        message (torrent_added id),
      ))
  drain (remove_torrent id ∷ msgs) m =
      let (m', msg) = Manager.remove_torrent id (record m { queued_events = msgs }) in
      done (m', message msg)
  drain (sync_torrent id ∷ msgs) m = drain msgs (record m { queued_events = msgs })
  drain (move_torrent id dir ∷ msgs) m = drain msgs (record m { queued_events = msgs })
  drain (read_block id metadata ∷ msgs) m =
      elim (poll_create_block_read id metadata (record m { queued_events = msgs })) [
        | panic ↦ panic
        | done (m', pending) ↦ done (m', waits)
        | done (m', ready (err e)) ↦ done (m', message (read_block_error id e))
        | done (m', ready (ok job)) ↦
            drain msgs (record m' { active_blocks = push m'.active_blocks job })
      ]
  drain (write_block id block ∷ msgs) m =
      elim (poll_create_block_write digest id block (record m { queued_events = msgs })) [
        | panic ↦ panic
        | done (m', pending) ↦ done (m', waits)
        | done (m', ready (err e)) ↦ done (m', message (write_block_error id e))
        | done (m', ready (ok job)) ↦
            drain msgs (record m' { active_blocks = push m'.active_blocks job })
      ]

  -- The poll, on fuel: while blocks are active and none is ready, it goes round.
  unfoldable pub poll :
      ℕ
      → DiskManager F C S MetaInfo
      → Run (DiskManager F C S MetaInfo × Poll (DiskMessageOut MetaInfo (List ℕ)))
  unfolding poll_blocks drain
  poll zero m = exhausted
  poll (suc fuel) m = elim (poll_blocks (length m.active_blocks) m) [
    | panic ↦ panics
    | done (m', some msg) ↦ returns (m', ready msg)
    | done (m', none) ↦ elim (drain m'.queued_events m') [
      | panic ↦ panics
      | done (m'', message msg) ↦ returns (m'', ready msg)
      | done (m'', waits) ↦ returns (m'', pending)
      | done (m'', empty) ↦ elim m''.active_blocks [
        | [] ↦ returns (m'', pending)
        | block ∷ blocks ↦ poll fuel m''
      ]
    ]
  ]
