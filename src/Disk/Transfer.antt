-- ===== src/Disk/Transfer.antt =====
-- `src/disk/block.rs`: the transfers of a block to and from a file, one poll at a time.
pub mod Written
use libp2p_bittorrent_protoc.Base.{
  Poll, pending, ready, ℕ, ◌+◌, Bool, true, false, List, [], ◌∷◌, Result, ok, err, Outcome, done,
  panic, bind, ltb, if◌then◌else◌,
}
use libp2p_bittorrent_protoc.Wire.Codec.{slice}
use libp2p_bittorrent_protoc.Disk.Files.{FileWindow}
use libp2p_bittorrent_protoc.Disk.FileSystem.{FileSystem}
use libp2p_bittorrent_protoc.Disk.Finalize.{
  BlockFile, BlockFileRead, BlockFileWrite, BlockState, BlockJob, BlockRead, BlockWrite, seek,
  process,
}
use libp2p_bittorrent_protoc.Disk.Finalize

module _ {F : Type 0} where
  unfoldable pub new_write : BlockFile F → List ℕ → FileWindow → BlockFileWrite F
  new_write file block file_window = record {
    file = file;
    written = 0;
    block = block;
    file_window = file_window;
    state = seek;
  }

  unfoldable pub new_read : BlockFile F → FileWindow → BlockFileRead F
  new_read file file_window = record {
    file = file;
    block = [];
    file_window = file_window;
    read = 0;
    state = seek;
  }

module _ {F E : Type 0} where
  -- what both arms do with the answer of a write; the state that a pending one leaves is the first
  -- argument
  unfoldable pub after_write :
      BlockState
      → BlockFileWrite F
      → Poll (Result ℕ E)
      → BlockFileWrite F × Poll (Result (Unit {0}) E)
  after_write state w pending = (record w { state = state }, pending)
  after_write state w (ready (err e)) = (w, ready (err e))
  after_write state w (ready (ok n)) =
      if ltb (w.written + n) w.file_window.length
      then (record w { written = w.written + n }, pending)
      else (record w { written = w.written + n; state = Finalize.ready }, ready (ok tt))

  unfoldable pub after_read :
      BlockState
      → BlockFileRead F
      → Poll (Result ℕ E)
      → BlockFileRead F × Poll (Result (Unit {0}) E)
  after_read state r pending = (record r { state = state }, pending)
  after_read state r (ready (err e)) = (r, ready (err e))
  after_read state r (ready (ok n)) =
      if ltb (r.read + n) r.file_window.length
      then (record r { read = r.read + n }, pending)
      else (record r { read = r.read + n; state = Finalize.ready }, ready (ok tt))

module _ {F E : Type 0} (fs : FileSystem F E) where
  -- the write itself, of `block[written..length]`
  unfoldable pub write_some :
      BlockState → BlockFileWrite F → Outcome (BlockFileWrite F × Poll (Result (Unit {0}) E))
  unfolding slice after_write
  write_some state w = bind (slice w.block w.written w.file_window.length) (λ octets.
      let (inner, answer) = fs.poll_write_block w.file.inner octets in
      done (after_write state (record w { file = record w.file { inner = inner } }) answer))

  -- the seek before it; its error is passed on by `?`
  unfoldable pub write_sought :
      BlockFileWrite F → Poll (Result ℕ E) → Outcome (BlockFileWrite F × Poll (Result (Unit {0}) E))
  unfolding write_some
  write_sought w pending = done (w, pending)
  write_sought w (ready (err e)) = done (w, ready (err e))
  write_sought w (ready (ok at)) = write_some process w

  -- `BlockFileWrite::poll`
  unfoldable pub poll_write :
      BlockFileWrite F → Outcome (BlockFileWrite F × Poll (Result (Unit {0}) E))
  unfolding write_some write_sought
  poll_write w = elim w.state [
    | Finalize.ready ↦ done (w, ready (ok tt))
    | seek ↦
        let (inner, answer) = fs.poll_seek w.file.inner w.file_window.offset in
        write_sought (record w { file = record w.file { inner = inner } }) answer
    | process ↦ write_some process w
  ]

  unfoldable pub read_some :
      BlockState → BlockFileRead F → BlockFileRead F × Poll (Result (Unit {0}) E)
  unfolding after_read
  read_some state r =
      let (inner, block, answer) = fs.poll_read_block r.file.inner r.block in
      after_read state (record r { file = record r.file { inner = inner }; block = block }) answer

  -- here an error of the seek counts as an answer
  unfoldable pub read_sought :
      BlockFileRead F → Poll (Result ℕ E) → BlockFileRead F × Poll (Result (Unit {0}) E)
  unfolding read_some
  read_sought r pending = (r, pending)
  read_sought r (ready at) = read_some process r

  -- `BlockFileRead::poll`
  unfoldable pub poll_read : BlockFileRead F → BlockFileRead F × Poll (Result (Unit {0}) E)
  unfolding read_some read_sought
  poll_read r = elim r.state [
    | Finalize.ready ↦ (r, ready (ok tt))
    | seek ↦
        let (inner, answer) = fs.poll_seek r.file.inner r.file_window.offset in
        read_sought (record r { file = record r.file { inner = inner } }) answer
    | process ↦ read_some process r
  ]

-- `is_pending`
unfoldable pub is_pending : {A : Type 0} → Poll A → Bool
is_pending pending = true
is_pending (ready a) = false

module _ {F E : Type 0} (fs : FileSystem F E) where
  -- The loops of `BlockJob::poll`: every file is polled, and an error counts as an answer.
  unfoldable pub poll_reads : List (BlockFileRead F) → List (BlockFileRead F) × Bool
  unfolding poll_read is_pending
  poll_reads [] = ([], true)
  poll_reads (block ∷ blocks) =
      let (block', answer) = poll_read fs block in
      let (blocks', ready_after) = poll_reads blocks in
      (block' ∷ blocks', if is_pending answer then false else ready_after)

  unfoldable pub poll_writes : List (BlockFileWrite F) → Outcome (List (BlockFileWrite F) × Bool)
  unfolding poll_write is_pending
  poll_writes [] = done ([], true)
  poll_writes (block ∷ blocks) =
      let later = poll_writes blocks in
      bind (poll_write fs block) (λ polled.
        bind later
          (λ rest. done (polled.0 ∷ rest.0, if is_pending polled.1 then false else rest.1)))

  unfoldable pub ready_if : Bool → Poll (Result (Unit {0}) E)
  ready_if true = ready (ok tt)
  ready_if false = pending

  -- `BlockJob::poll`
  unfoldable pub poll_job : BlockJob F → Outcome (BlockJob F × Poll (Result (Unit {0}) E))
  unfolding poll_reads poll_writes ready_if
  poll_job (BlockJob.read (BlockRead.single metadata block)) =
      let (block', answer) = poll_read fs block in
      done (BlockJob.read (BlockRead.single metadata block'), answer)
  poll_job (BlockJob.read (BlockRead.overlap torrent metadata blocks)) =
      let (blocks', all_ready) = poll_reads blocks in
      done (BlockJob.read (BlockRead.overlap torrent metadata blocks'), ready_if all_ready)
  poll_job (BlockJob.write (BlockWrite.single metadata block)) =
      bind (poll_write fs block)
        (λ polled. done (BlockJob.write (BlockWrite.single metadata polled.0), polled.1))
  poll_job (BlockJob.write (BlockWrite.overlap torrent metadata blocks)) =
      bind (poll_writes blocks) (λ polled.
        done (BlockJob.write (BlockWrite.overlap torrent metadata polled.0), ready_if polled.1))
