-- ===== src/Peer/Handler/Finish.antt =====
-- What `poll` does with a piece that is complete.
use libp2p_bittorrent_protoc.Base.{
  ℕ, ◌<◌, ◌≡◌, refl, ap, ◌∙◌, true, List, none, some, ok, arith, length, if◌then◌else◌, Eq, ◌==◌,
  lt→ltb,
}
use libp2p_bittorrent_protoc.Crates.BitVec.{BitVec}
use libp2p_bittorrent_protoc.Crates.Rng.{Rng}
use libp2p_bittorrent_protoc.Disk.Block.{new_metadata}
use libp2p_bittorrent_protoc.Peer.State.Laws.{get-write}
use libp2p_bittorrent_protoc.Peer.Buffer.{PieceBuffer, is_full_piece}
use libp2p_bittorrent_protoc.Peer.Buffer.Data.{IsCorrect, Placed, try_finalize_piece-ok}
use libp2p_bittorrent_protoc.Peer.Handler.{
  TorrentPieceHandler, piece_finished, has_piece, set_piece,
}
use libp2p_bittorrent_protoc.Peer.Handler.Sound.{IsSound, IsStaffed}
use libp2p_bittorrent_protoc.Peer.Handler.Events.{poll}

module _ {P V I : Type 0} ⦃v : BitVec V⦄ where
  -- Setting a piece that the torrent has changes that piece only.
  pub has_piece-set_piece :
      (i j : ℕ) (h : TorrentPieceHandler P V I)
      → i < v.len h.bitfield.inner
      → has_piece j (set_piece i h).0 ≡ (if i == j then true else has_piece j h)
  unfolding has_piece set_piece
  has_piece-set_piece i j h l =
      ground (arith, get-write h.bitfield.inner i j true, lt→ltb i (v.len h.bitfield.inner) l)

  emptied :
      (i : ℕ) (k : TorrentPieceHandler P V I)
      → k.piece_buffer ≡ none
      → (set_piece i k).0.piece_buffer ≡ none
  unfolding set_piece
  emptied i k z = ground arith

module _ {P V I R : Type 0} ⦃e : Eq P⦄ ⦃v : BitVec V⦄ ⦃r : Rng R⦄ where
  -- Polled with a full buffer of blocks of the right lengths, the handler gives out the whole piece
  -- with every block's bytes at the block's offset, drops the buffer, and owns that piece and no
  -- other new one.
  pub poll-piece_finished :
      (rnd : R) (h : TorrentPieceHandler P V I) (b : PieceBuffer P)
      → IsSound h
      → h.piece_buffer ≡ some b
      → is_full_piece b ≡ true
      → IsCorrect b.blocks
      → b.piece_index < v.len h.bitfield.inner
      → (whole : List ℕ) × ((poll rnd h).1
          ≡ piece_finished (
              ok (record {
                metadata = new_metadata b.piece_index 0 b.piece_length;
                block_data = whole;
              })))
        × (length whole ≡ b.piece_length)
        × Placed whole b.blocks
        × ((poll rnd h).0.piece_buffer ≡ none)
        × ((j : ℕ)
            → has_piece j (poll rnd h).0 ≡ (if b.piece_index == j then true else has_piece j h))
  unfolding poll new_metadata has_piece
  poll-piece_finished rnd h b s n f c l =
      let t : IsStaffed _ b = rw n at s.buffer in
      let (whole, q, len, placed) = try_finalize_piece-ok b t.tracked f c in
      let h' = record h { piece_buffer = none } in
      let polled : poll rnd h ≡ (
        (set_piece b.piece_index h').0,
        piece_finished (
            ok (record {
              metadata = new_metadata b.piece_index 0 b.piece_length;
              block_data = whole;
            })),
      ) =
        ground arith in
      (
        whole,
        ap (λ p. p.1) polled,
        len,
        placed,
        ap (λ p. p.0.piece_buffer) polled ∙ emptied b.piece_index h' refl,
        λ j. ap (λ p. has_piece j p.0) polled ∙ has_piece-set_piece b.piece_index j h' l,
      )
