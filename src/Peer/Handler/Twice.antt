-- ===== src/Peer/Handler/Twice.antt =====
-- A remote that unchokes the client while it owes a block: `src/peer/piece.rs`.
use libp2p_bittorrent_protoc.Base.{◌+◌, ◌≡◌, refl, true, false, List, [], ◌∷◌, some, arith, Eq}
use libp2p_bittorrent_protoc.Base.Map.{get}
use libp2p_bittorrent_protoc.Base.Vec.{hit, push, pop}
use libp2p_bittorrent_protoc.Crates.BitVec.{BitVec}
use libp2p_bittorrent_protoc.Crates.Rng.{Rng}
use libp2p_bittorrent_protoc.Disk.Block.{BlockMetadata, metadata_eq}
use libp2p_bittorrent_protoc.Peer.State.{BitTorrentPeer, un_choked, remote_can_seed_piece}
use libp2p_bittorrent_protoc.Peer.Buffer.{PieceBuffer, next, is_full_piece}
use libp2p_bittorrent_protoc.Peer.Buffer.Tracked.{occurrences}
use libp2p_bittorrent_protoc.Peer.Buffer.Overwrite.{next_forgets}
use libp2p_bittorrent_protoc.Peer.Handler.{TorrentPieceHandler}
use libp2p_bittorrent_protoc.Peer.Handler.Events.{set_choke_on_remote, get_peer, poll}

pop-push {ℓ} : {A : Type ℓ} (xs : List A) (x : A) → pop (push xs x) ≡ some (xs, x)
pop-push [] x = refl
pop-push (y ∷ xs) x = ground (arith, pop-push xs x)

module _ {P V I R : Type 0} ⦃e : Eq P⦄ ⦃v : BitVec V⦄ ⦃r : Rng R⦄ where
  -- A known peer that can seed the piece in the buffer and owes a block of it unchokes the client
  -- again, and then the handler is polled, a block being missing and the piece not full: the block
  -- that the peer owed is then in one place less, and every other block in as many as before.
  pub poll-set_choke_on_remote :
      (rnd : R) (id : P) (peer : BitTorrentPeer V I) (b : PieceBuffer P)
      (missing : List BlockMetadata) (block old m : BlockMetadata) (h : TorrentPieceHandler P V I)
      → get id h.peers ≡ some peer
      → h.piece_buffer ≡ some b
      → is_full_piece b ≡ false
      → remote_can_seed_piece b.piece_index (record peer { remote_choke = un_choked }) ≡ true
      → get id b.pending_blocks ≡ some old
      → pop b.missing_blocks ≡ some (missing, block)
      → (c : PieceBuffer P) × ((poll rnd (set_choke_on_remote id un_choked h).0).0.piece_buffer
          ≡ some c)
        × (occurrences m c + hit old m ≡ occurrences m b)
  unfolding set_choke_on_remote get_peer poll is_full_piece
  poll-set_choke_on_remote rnd id peer b missing block old m h g n f s o q =
      let b' = record b { peers = push b.peers id } in
      let chosen : (set_choke_on_remote id un_choked h).0.piece_buffer ≡ some b' = ground arith in
      (
        (next b').0,
        ground arith,
        next_forgets b' b.peers id missing block old m (pop-push b.peers id) q o,
      )
