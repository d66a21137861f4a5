-- ===== src/Peer/Pool/Trade.antt =====
-- Blocks that remotes ask for, in a pool of `src/peer/torrent.rs`.
use libp2p_bittorrent_protoc.Base.{
  ℕ, ◌≡◌, refl, inl, inr, List, [], ◌∷◌, none, some, ok, arith, Option-cases, Bool-cases, Eq, All,
  ◌==◌,
}
use libp2p_bittorrent_protoc.Base.Vec.{position}
use libp2p_bittorrent_protoc.Crates.BitVec.{BitVec}
use libp2p_bittorrent_protoc.Disk.Block.{BlockMetadata}
use libp2p_bittorrent_protoc.Peer.Handler.Events.{insert_block_seed, remove_pending_seed_by_request}
use libp2p_bittorrent_protoc.Peer.Handler.Seeds.{remove-insert_block_seed}
use libp2p_bittorrent_protoc.Peer.Torrent.{Torrent, can_seed_piece_to, on_handler}
use libp2p_bittorrent_protoc.Peer.Pool.{TorrentPool, first_mut, at_first}
use libp2p_bittorrent_protoc.Peer.Pool.Requests.{on_piece_request, on_cancel_request, queue_block}

module _ {P V I : Type 0} where
  -- no block that is read in the torrent has the request id
  abbrev pub IsFreshAt : ℕ → ℕ × Torrent P V I → Type 0
  IsFreshAt r q = position (λ s. r == s.1) q.1.piece_handler.pending_seed_blocks ≡ none

  cancel-fresh :
      (r : ℕ) (t : Torrent P V I)
      → position (λ s. r == s.1) t.piece_handler.pending_seed_blocks ≡ none
      → on_handler (remove_pending_seed_by_request r) t ≡ (t, none)
  unfolding on_handler remove_pending_seed_by_request
  cancel-fresh r t f = rw (on_handler, remove_pending_seed_by_request, f) refl

  undone :
      (p : P) (block : BlockMetadata) (r : ℕ) (t : Torrent P V I)
      → position (λ s. r == s.1) t.piece_handler.pending_seed_blocks ≡ none
      → on_handler
          (remove_pending_seed_by_request r)
          (record t { piece_handler = insert_block_seed p block r t.piece_handler })
        ≡ (t, some (p, block))
  unfolding on_handler
  undone p block r t g = rw (on_handler, remove-insert_block_seed p block r t.piece_handler g) refl

module _ {P V I : Type 0} ⦃e : Eq P⦄ ⦃v : BitVec V⦄ where
  -- the torrents as the request leaves them, and what a cancel makes of these
  queue-cancel :
      (p : P) (block : BlockMetadata) (r id : ℕ) (m : List (ℕ × Torrent P V I))
      → All (IsFreshAt r) m
      → (first_mut (queue_block p block r) m).1 ≡ some (id, tt)
      → first_mut
          (on_handler (remove_pending_seed_by_request r))
          (first_mut (queue_block p block r) m).0
        ≡ (m, some (id, (p, block)))
  unfolding first_mut queue_block
  queue-cancel p block r id [] f h = cc
  queue-cancel p block r id ((k, t) ∷ m) f h =
      elim (Bool-cases (can_seed_piece_to p block.piece_index t)) [
        | inl y ↦
            let t' = record t { piece_handler = insert_block_seed p block r t.piece_handler } in
            let c : on_handler (remove_pending_seed_by_request r) t' ≡ (t, some (p, block)) =
              undone p block r t f.0 in
            ground arith
        | inr y ↦ let c = cancel-fresh r t f.0 in ground (arith, queue-cancel p block r id m f.1)
      ]

  -- A request for a block under a fresh id that is granted and then cancelled leaves the pool as
  -- it was, and the cancel names the peer and the block.
  pub on_cancel_request-on_piece_request :
      (p : P) (block block' : BlockMetadata) (r id : ℕ) (pool : TorrentPool P V I)
      → All (IsFreshAt r) pool.torrents
      → (on_piece_request p block r pool).1 ≡ ok (id, block')
      → on_cancel_request r (on_piece_request p block r pool).0 ≡ (pool, some (p, block))
  unfolding on_piece_request on_cancel_request at_first
  on_cancel_request-on_piece_request p block block' r id pool f h =
      elim (Option-cases (first_mut (queue_block p block r) pool.torrents).1) [
        | inl n ↦ absurd (ground arith)
        | inr ((k, u), n) ↦ let q = queue-cancel p block r k pool.torrents f n in ground arith
      ]
