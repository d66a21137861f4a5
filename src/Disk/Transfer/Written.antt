-- ===== src/Disk/Transfer/Written.antt =====
-- How far a block is written, through any number of polls.
use libp2p_bittorrent_protoc.Base.{
  Poll, pending, ready, ℕ, ◌+◌, ◌-◌, ◌≤◌, ◌<◌, ◌≡◌, ◌≢◌, refl, true, false, List, Result, ok, err,
  done, arith, ltb, leb, length, take, drop, ◌&&◌,
}
use libp2p_bittorrent_protoc.Wire.Codec.{slice}
use libp2p_bittorrent_protoc.Disk.FileSystem.{FileSystem}
use libp2p_bittorrent_protoc.Disk.Finalize.{BlockFileWrite, BlockState, seek, process}
use libp2p_bittorrent_protoc.Disk.Finalize
use libp2p_bittorrent_protoc.Disk.Transfer.{after_write, write_some, write_sought, poll_write}

-- a write that is done is complete, and no other is ahead of its window
abbrev pub IsUpTo : BlockState → ℕ → ℕ → Type 0
IsUpTo seek n len = n ≤ len
IsUpTo process n len = n ≤ len
IsUpTo Finalize.ready n len = n ≡ len

-- The bytes of the window are there, and are written up to its end at most.
pub record IsInWindow {F : Type 0} (w : BlockFileWrite F) : Type 0 where
  pub enough : w.file_window.length ≤ length w.block
  pub up_to : IsUpTo w.state w.written w.file_window.length

-- only a transfer that is done answers that it is
abbrev pub IsTrue : {E : Type 0} → Poll (Result (Unit {0}) E) → BlockState → Type 0
IsTrue pending state = state ≢ Finalize.ready
IsTrue (ready (ok x)) state = state ≡ Finalize.ready
IsTrue (ready (err e)) state = state ≢ Finalize.ready

-- a write takes no more bytes than it is given
abbrev pub TakesAtMost : {F E : Type 0} → ℕ → F × Poll (Result ℕ E) → Type 0
TakesAtMost n (inner, pending) = Unit {0}
TakesAtMost n (inner, ready (err e)) = Unit {0}
TakesAtMost n (inner, ready (ok k)) = k ≤ n

-- the bytes of the window that are left to write
abbrev pub rest_of : {F : Type 0} → BlockFileWrite F → ℕ → List ℕ
rest_of w written = take (w.file_window.length - written) (drop written w.block)

-- the transfer with its file and its count
abbrev pub moved_to : {F : Type 0} → BlockFileWrite F → F → ℕ → BlockFileWrite F
moved_to w inner written = record w { file = record w.file { inner = inner }; written = written }

module _ {F E : Type 0} (fs : FileSystem F E) where
  -- the answer of a call, and what it says of the transfer
  abbrev pub WritesOn : BlockFileWrite F → Type 0
  WritesOn w =
      (w' : BlockFileWrite F) × (answer : Poll (Result (Unit {0}) E)) × (poll_write fs w
        ≡ done (w', answer))
      × IsInWindow w'
      × IsTrue answer w'.state

  -- A write that is cut short in the poll that sought its place seeks back: the poll after it puts
  -- the bytes that are left to the start of the window, over those that were written, and answers
  -- that the write is done, where its seek and its write are answered at once and nothing is left.
  pub poll_write-poll_write :
      (w : BlockFileWrite F) (f1 f2 f3 f4 : F) (at at' n k : ℕ)
      → w.state ≡ seek
      → w.file_window.length ≤ length w.block
      → w.written + n < w.file_window.length
      → w.file_window.length ≤ w.written + n + k
      → fs.poll_seek w.file.inner w.file_window.offset ≡ (f1, ready (ok at))
      → fs.poll_write_block f1 (rest_of w w.written) ≡ (f2, ready (ok n))
      → fs.poll_seek f2 w.file_window.offset ≡ (f3, ready (ok at'))
      → fs.poll_write_block f3 (rest_of w (w.written + n)) ≡ (f4, ready (ok k))
      → (poll_write fs w ≡ done (moved_to w f2 (w.written + n), pending))
        × (poll_write fs (moved_to w f2 (w.written + n))
            ≡ done (
              record (moved_to w f4 (w.written + n + k)) { state = Finalize.ready },
              ready (ok tt),
            ))
  unfolding poll_write write_sought write_some slice after_write
  poll_write-poll_write w f1 f2 f3 f4 at at' n k s l p q a b c d =
      let fits : (leb w.written w.file_window.length && leb w.file_window.length (length w.block))
          ≡ true =
        ground arith in
      let fits' : (leb (w.written + n) w.file_window.length
            && leb w.file_window.length (length w.block))
          ≡ true =
        ground arith in
      let short : ltb (w.written + n) w.file_window.length ≡ true = ground arith in
      let full : ltb (w.written + n + k) w.file_window.length ≡ false = ground arith in
      (rw (s, a, fits, b, short) refl, rw (s, c, fits', d, full) refl)
