-- ===== src/Disk/Manager/Waits.antt =====
-- Work of the disk manager that has to wait for files goes back to its queue.
use libp2p_bittorrent_protoc.Base.{
  ℕ, ◌≡◌, refl, ap, inl, inr, true, false, Bool-cases, List, [], ◌∷◌, ◌++◌, Option-cases, Result,
  ok, err, done, Outcome-cases, Poll, pending, ready, arith, nat_eq,
}
use libp2p_bittorrent_protoc.Base.Map
use libp2p_bittorrent_protoc.Base.Vec.{push}
use libp2p_bittorrent_protoc.Crates.LruCache.{LruCache}
use libp2p_bittorrent_protoc.Hash.{ShaHash}
use libp2p_bittorrent_protoc.Disk.Block.{BlockMetadata, Block}
use libp2p_bittorrent_protoc.Disk.Error.{TorrentError}
use libp2p_bittorrent_protoc.Disk.Files.{TorrentFileId, FileWindow, files_for_block}
use libp2p_bittorrent_protoc.Disk.FileSystem.{FileSystem, OpenFile}
use libp2p_bittorrent_protoc.Disk.Finalize.{BlockFile}
use libp2p_bittorrent_protoc.Disk.Message.{
  DiskMessageIn, add_torrent, remove_torrent, move_torrent, sync_torrent, read_block, write_block,
}
use libp2p_bittorrent_protoc.Disk.Manager.{
  FileState, DiskManager, Acquired, collected, failed, acquire, settle, poll_files, knows_piece,
  queue_read, queue_write,
}
use libp2p_bittorrent_protoc.Disk.Manager.Jobs.{
  waits, poll_create_block_read, poll_create_block_write, write_job, drain,
}
use libp2p_bittorrent_protoc.Meta.{MetaInfo}

module _ {F C S M : Type 0} ⦃c : LruCache C TorrentFileId (FileState F)⦄ ⦃o : OpenFile S F⦄ where
  settle-queued_events :
      (m : DiskManager F C S M) (r : C × S × Acquired F)
      → (settle m r).0.queued_events ≡ m.queued_events
  unfolding settle
  settle-queued_events m (cache, fs, failed) = refl
  settle-queued_events m (cache, fs, collected q true) = refl
  settle-queued_events m (cache, fs, collected q false) = refl

  poll_files-queued_events :
      (id : ℕ) (meta : BlockMetadata) (m m' : DiskManager F C S M)
      (answer : Poll (Result (List (FileWindow × BlockFile F)) TorrentError))
      → poll_files id meta m ≡ done (m', answer)
      → m'.queued_events ≡ m.queued_events
  unfolding poll_files
  poll_files-queued_events id meta m m' answer h = elim (Option-cases (Map.get id m.torrents)) [
    | inl n ↦ ground arith
    | inr ((torrent, info), n) ↦ elim (Outcome-cases (files_for_block meta torrent)) [
      | inl z ↦ absurd (ground arith)
      | inr (err e, z) ↦ ground arith
      | inr (ok [], z) ↦ absurd (ground arith)
      | inr (ok (file ∷ files), z) ↦ ground (
        arith,
        settle-queued_events m (acquire (file ∷ files) m.file_cache m.file_system [] true),
      )
    ]
  ]

  read-pending :
      (id : ℕ) (meta : BlockMetadata) (m m' : DiskManager F C S M)
      → poll_create_block_read id meta m ≡ done (m', pending)
      → m'.queued_events ≡ push m.queued_events (read_block id meta)
  unfolding poll_create_block_read queue_read
  read-pending id meta m m' h = elim (Outcome-cases (poll_files id meta m)) [
    | inl z ↦ absurd (ground arith)
    | inr ((k, pending), z) ↦ ground (arith, poll_files-queued_events id meta m k pending z)
    | inr ((k, ready (ok files)), z) ↦ absurd (ground arith)
    | inr ((k, ready (err e)), z) ↦ absurd (ground arith)
  ]

  write-pending :
      (digest : List ℕ → ShaHash) (id : ℕ) (block : Block) (m m' : DiskManager F C S M)
      → poll_create_block_write digest id block m ≡ done (m', pending)
      → m'.queued_events ≡ push m.queued_events (write_block id block)
  unfolding poll_create_block_write queue_write
  write-pending digest id block m m' h = elim (Bool-cases (knows_piece digest id block m)) [
    | inr n ↦ absurd (ground arith)
    | inl y ↦ elim (Outcome-cases (poll_files id block.metadata m)) [
      | inl z ↦ absurd (ground arith)
      | inr ((k, pending), z) ↦
          ground (arith, poll_files-queued_events id block.metadata m k pending z)
      | inr ((k, ready (ok files)), z) ↦ elim (Outcome-cases (write_job id block files)) [
        | inl x ↦ absurd (ground arith)
        | inr (job, x) ↦ absurd (ground arith)
      ]
      | inr ((k, ready (err e)), z) ↦ absurd (ground arith)
    ]
  ]

-- one message of the queue, behind those that followed it
pub record IsRequeued {M : Type 0} (msgs left : List (DiskMessageIn M)) : Type 0 where
  pub front : List (DiskMessageIn M)
  pub msg : DiskMessageIn M
  pub back : List (DiskMessageIn M)
  pub found : msgs ≡ front ++ (msg ∷ back)
  pub requeued : left ≡ push back msg

later :
    {M : Type 0} (first : DiskMessageIn M) (msgs left : List (DiskMessageIn M))
    → IsRequeued msgs left
    → IsRequeued (first ∷ msgs) left
later first msgs left r = record {
  front = first ∷ r.front;
  msg = r.msg;
  back = r.back;
  found = ap (λ l. first ∷ l) r.found;
  requeued = r.requeued;
}

module _ {F C S E : Type 0} (fs : FileSystem F E) (digest : List ℕ → ShaHash)
    ⦃c : LruCache C TorrentFileId (FileState F)⦄ ⦃o : OpenFile S F⦄ where
  -- Where the loop over the queue stops to wait for files, the message that waits for them is not
  -- lost: it stands at the end of the queue, behind all that had followed it.
  pub drain-waits :
      (msgs : List (DiskMessageIn MetaInfo)) (m m' : DiskManager F C S MetaInfo)
      → drain fs digest msgs m ≡ done (m', waits)
      → IsRequeued msgs m'.queued_events
  unfolding drain
  drain-waits [] m m' h = absurd (ground arith)
  drain-waits (add_torrent id meta ∷ msgs) m m' h =
      elim (Bool-cases (Map.contains_key id m.torrents)) [
        | inl y ↦ absurd (ground arith)
        | inr y ↦ absurd (ground arith)
      ]
  drain-waits (remove_torrent id ∷ msgs) m m' h = absurd (ground arith)
  drain-waits (sync_torrent id ∷ msgs) m m' h =
      later (sync_torrent id) msgs _ (drain-waits msgs (record m { queued_events = msgs }) m' h)
  drain-waits (move_torrent id dir ∷ msgs) m m' h =
      later (move_torrent id dir) msgs _ (drain-waits msgs (record m { queued_events = msgs }) m' h)
  drain-waits (read_block id meta ∷ msgs) m m' h =
      elim (Outcome-cases (poll_create_block_read id meta (record m { queued_events = msgs }))) [
        | inl z ↦ absurd (ground arith)
        | inr ((k, pending), z) ↦ record {
          front = [];
          msg = read_block id meta;
          back = msgs;
          found = refl;
          requeued = ground (arith, read-pending id meta (record m { queued_events = msgs }) k z);
        }
        | inr ((k, ready (err e)), z) ↦ absurd (ground arith)
        | inr ((k, ready (ok job)), z) ↦ later (read_block id meta) msgs _ (
            drain-waits msgs (record k { active_blocks = push k.active_blocks job }) m'
              (ground arith))
      ]
  drain-waits (write_block id block ∷ msgs) m m' h =
      elim (Outcome-cases
        (poll_create_block_write digest id block (record m { queued_events = msgs }))) [
          | inl z ↦ absurd (ground arith)
          | inr ((k, pending), z) ↦ record {
            front = [];
            msg = write_block id block;
            back = msgs;
            found = refl;
            requeued =
                ground
                  (arith, write-pending digest id block (record m { queued_events = msgs }) k z);
          }
          | inr ((k, ready (err e)), z) ↦ absurd (ground arith)
          | inr ((k, ready (ok job)), z) ↦ later (write_block id block) msgs _ (
              drain-waits msgs (record k { active_blocks = push k.active_blocks job }) m'
                (ground arith))
        ]
