-- ===== src/Peer/Pool/Served.antt =====
-- Blocks that remotes ask for and that the disk has read, in a pool of `src/peer/torrent.rs`.
use libp2p_bittorrent_protoc.Base.{
  ℕ, ◌≡◌, ◌≤◌, refl, inl, inr, true, List, [], ◌∷◌, none, some, ok, arith, Option-cases, Bool-cases,
  Eq, nat_eq, All, ◌==◌, ◌∙◌, sym, ap, length, false,
}
use libp2p_bittorrent_protoc.Base.Map.{keys}
use libp2p_bittorrent_protoc.Base.Map
use libp2p_bittorrent_protoc.Base.Vec.{position, push, count}
use libp2p_bittorrent_protoc.Crates.BitVec.{BitVec}
use libp2p_bittorrent_protoc.Disk.Block.{BlockMetadata, eq_metadata, eq_metadata_iff}
use libp2p_bittorrent_protoc.Peer.Handler.{TorrentPieceHandler}
use libp2p_bittorrent_protoc.Peer.Handler.Events.{
  insert_block_seed, clear_pending_seed_block, entry_at,
}
use libp2p_bittorrent_protoc.Peer.Handler.Seeds.{position-push, remove_at-push, get_elem?-push}
use libp2p_bittorrent_protoc.Peer.Torrent.{Torrent, can_seed_piece_to, on_handler}
use libp2p_bittorrent_protoc.Peer.Pool.{TorrentPool, first_mut, at_first, get, update}
use libp2p_bittorrent_protoc.Peer.Pool.Requests.{on_piece_request, on_block_read, queue_block}

module _ {P V I : Type 0} where
  -- the torrent stands under its identifier, and reads no such block yet
  abbrev pub IsUnread : BlockMetadata → ℕ × Torrent P V I → Type 0
  IsUnread block q =
      (q.0 ≡ q.1.id)
      × (position (λ s. eq_metadata s.2 block) q.1.piece_handler.pending_seed_blocks ≡ none)

  clear-insert :
      (p : P) (block : BlockMetadata) (r : ℕ) (h : TorrentPieceHandler P V I)
      → position (λ s. eq_metadata s.2 block) h.pending_seed_blocks ≡ none
      → clear_pending_seed_block block (insert_block_seed p block r h) ≡ (h, some (p, r))
  unfolding clear_pending_seed_block insert_block_seed entry_at
  clear-insert p block r h fresh =
      let l = h.pending_seed_blocks in
      let same : eq_metadata block block ≡ true = (eq_metadata_iff block block).1 refl in
      let found : position (λ q. eq_metadata q.2 block) (push l (p, r, block)) ≡ some (length l) =
        position-push (λ q. eq_metadata q.2 block) l (p, r, block) ∙ rw (fresh, same) refl in
      rw
        (
          clear_pending_seed_block,
          insert_block_seed,
          found,
          remove_at-push l (p, r, block),
          get_elem?-push l (p, r, block),
        )
        refl

module _ {P V I : Type 0} ⦃e : Eq P⦄ ⦃v : BitVec V⦄ where
  skip :
      (p : P) (block : BlockMetadata) (r k : ℕ) (t : Torrent P V I) (m : List (ℕ × Torrent P V I))
      → can_seed_piece_to p block.piece_index t ≡ false
      → first_mut (queue_block p block r) ((k, t) ∷ m) ≡ (
        (k, t) ∷ (first_mut (queue_block p block r) m).0,
        (first_mut (queue_block p block r) m).1,
      )
  unfolding first_mut queue_block
  skip p block r k t m h = ground arith

  -- a torrent that takes the request is in the pool
  count-taker :
      (p : P) (block : BlockMetadata) (r id : ℕ) (m : List (ℕ × Torrent P V I))
      → All (IsUnread block) m
      → (first_mut (queue_block p block r) m).1 ≡ some (id, tt)
      → 1 ≤ count id (keys m)
  unfolding first_mut queue_block
  count-taker p block r id [] f h = absurd (ground arith)
  count-taker p block r id ((k, t) ∷ m) f h =
      elim (Bool-cases (can_seed_piece_to p block.piece_index t)) [
        | inl y ↦ ground (arith, f.0.0)
        | inr y ↦ ground (arith, count-taker p block r id m f.1)
      ]

  -- the torrents as the request leaves them, and the one that the read finds
  queue-read :
      (p : P) (block : BlockMetadata) (r id : ℕ) (m : List (ℕ × Torrent P V I))
      → All (IsUnread block) m
      → ((n : ℕ) → count n (keys m) ≤ 1)
      → (first_mut (queue_block p block r) m).1 ≡ some (id, tt)
      → (t t' : Torrent P V I) × (Map.get id (first_mut (queue_block p block r) m).0 ≡ some t')
        × (on_handler (clear_pending_seed_block block) t' ≡ (t, some (p, r)))
        × (Map.insert id t (first_mut (queue_block p block r) m).0 ≡ m)
  unfolding first_mut queue_block on_handler Map.get Map.insert
  queue-read p block r id [] f d h = absurd (ground arith)
  queue-read p block r id ((k, t) ∷ m) f d h =
      elim (Bool-cases (can_seed_piece_to p block.piece_index t)) [
        | inl y ↦
            let t' = record t { piece_handler = insert_block_seed p block r t.piece_handler } in
            let c = clear-insert p block r t.piece_handler f.0.1 in
            (t, t', ground arith, rw (on_handler, c) refl, ground arith)
        | inr y ↦
            let later = ap (λ q. q.1) (skip p block r k t m y) in
            let front = ap (λ q. q.0) (skip p block r k t m y) in
            let taken : (first_mut (queue_block p block r) m).1 ≡ some (id, tt) = sym later ∙ h in
            let (u, u', g, c, i) = queue-read p block r id m f.1 (λ n. ground (arith, d n)) taken in
            let other : (k == id) ≡ false =
              ground (arith, d id, count-taker p block r id m f.1 taken) in
            (
              u,
              u',
              ap (Map.get id) front ∙ rw other g,
              c,
              ap (Map.insert id u) front ∙ rw other (ap (λ l. (k, t) ∷ l) i),
            )
      ]

  -- A request for a block that is granted is matched with the block once it is read, to the peer
  -- and the request that asked for it, and the pool is then what it was before the request: where
  -- the torrents stand under distinct identifiers and none reads that block yet.
  pub on_block_read-on_piece_request :
      (p : P) (block block' : BlockMetadata) (r id : ℕ) (pool : TorrentPool P V I)
      → All (IsUnread block) pool.torrents
      → ((n : ℕ) → count n (keys pool.torrents) ≤ 1)
      → (on_piece_request p block r pool).1 ≡ ok (id, block')
      → on_block_read id block' (on_piece_request p block r pool).0 ≡ (pool, some (p, r))
  unfolding on_piece_request on_block_read at_first get update
  on_block_read-on_piece_request p block block' r id pool f d h =
      elim (Option-cases (first_mut (queue_block p block r) pool.torrents).1) [
        | inl n ↦ absurd (ground arith)
        | inr ((k, u), n) ↦
            let (t, t', g, c, i) = queue-read p block r k pool.torrents f d n in ground arith
      ]
