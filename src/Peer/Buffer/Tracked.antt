-- ===== src/Peer/Buffer/Tracked.antt =====
-- The invariant of a piece buffer, and that its operations keep it.
use libp2p_bittorrent_protoc.Base.{
  ℕ, ◌+◌, ◌≤◌, ◌≡◌, refl, inl, inr, List, none, some, arith, length, Eq, same, same_iff,
  Option-cases,
}
use libp2p_bittorrent_protoc.Base.Map.{get, insert, remove, values, keys}
use libp2p_bittorrent_protoc.Base.Map.Counts.{
  get_of_count, count-keys-remove, count-values-remove, length-values-remove, count-keys-insert,
  count-values-insert, length-values-insert,
}
use libp2p_bittorrent_protoc.Base.Vec.{
  count, push, pop, position, count-push, count-pop, length-push, length-pop, count-remove_at,
}
use libp2p_bittorrent_protoc.Disk.Block.{BlockMetadata, metadata_eq}
use libp2p_bittorrent_protoc.Peer.Buffer.{PieceBuffer, layout, new, next, remove_peer}
use libp2p_bittorrent_protoc.Peer.Buffer.Blocks.{metas, Ascends}

module _ {P : Type 0} ⦃e : Eq P⦄ where
  -- how often a block is missing, waited for or stored
  abbrev pub occurrences : BlockMetadata → PieceBuffer P → ℕ
  occurrences m b =
      count m b.missing_blocks + count m (values b.pending_blocks) + count m (metas b.blocks)

  -- how often a peer is idle or waited for
  abbrev pub roles : P → PieceBuffer P → ℕ
  roles p b = count p b.peers + count p (keys b.pending_blocks)

  -- No peer has two roles; every block of the piece is in exactly one place; the blocks that
  -- arrived are filed in order.
  pub record IsTracked (b : PieceBuffer P) : Type 0 where
    pub once : (p : P) → roles p b ≤ 1
    pub whole :
        (m : BlockMetadata) → occurrences m b ≡ count m (layout b.piece_index b.piece_length)
    pub sizes :
        length b.missing_blocks + length (values b.pending_blocks) + length b.blocks
        ≡ b.total_blocks
    pub total : b.total_blocks ≡ length (layout b.piece_index b.piece_length)
    pub filed : Ascends 0 b.blocks

  -- A new buffer satisfies the invariant when no peer is listed twice.
  pub new-IsTracked :
      (i len id : ℕ) (peers : List P)
      → ((p : P) → count p peers ≤ 1)
      → IsTracked (new i len id peers)
  unfolding new
  new-IsTracked i len id peers h = record {
    once = λ p. omega (arith, h p);
    whole = λ m. omega arith;
    sizes = omega arith;
    total = refl;
    filed = tt;
  }

  next_pending_free :
      (b : PieceBuffer P) (peers : List P) (peer : P)
      → IsTracked b
      → pop b.peers ≡ some (peers, peer)
      → get peer b.pending_blocks ≡ none
  next_pending_free b peers peer t h =
      get_of_count peer b.pending_blocks
        (ground (arith, t.once peer, count-pop peer b.peers peers peer h, same_iff peer peer))

  -- the buffer after `next` has sent a request
  abbrev pub sent : PieceBuffer P → List P → P → List BlockMetadata → BlockMetadata → PieceBuffer P
  sent b peers peer missing block = record b {
    peers = peers;
    missing_blocks = missing;
    pending_blocks = insert peer block b.pending_blocks;
  }

  sent-IsTracked :
      (b : PieceBuffer P) (peers : List P) (peer : P) (missing : List BlockMetadata)
      (block : BlockMetadata)
      → IsTracked b
      → pop b.peers ≡ some (peers, peer)
      → pop b.missing_blocks ≡ some (missing, block)
      → IsTracked (sent b peers peer missing block)
  sent-IsTracked b peers peer missing block t p q =
      let free = next_pending_free b peers peer t p in
      record {
        once = λ x. omega (
          arith,
          t.once x,
          count-pop x b.peers peers peer p,
          count-keys-insert peer x block b.pending_blocks free,
        );
        whole = λ m. omega (
          arith,
          t.whole m,
          count-pop m b.missing_blocks missing block q,
          count-values-insert peer block m b.pending_blocks free,
        );
        sizes = omega (
          arith,
          t.sizes,
          length-pop b.missing_blocks missing block q,
          length-values-insert peer block b.pending_blocks free,
        );
        total = t.total;
        filed = t.filed;
      }

  idle-IsTracked :
      (b : PieceBuffer P) (peers : List P) (peer : P)
      → IsTracked b
      → pop b.peers ≡ some (peers, peer)
      → IsTracked (record b { peers = push peers peer })
  idle-IsTracked b peers peer t p = record {
    once = λ x. omega (arith, t.once x, count-pop x b.peers peers peer p, count-push x peers peer);
    whole = t.whole;
    sizes = t.sizes;
    total = t.total;
    filed = t.filed;
  }

  -- a block that is waited for goes back to the missing ones
  pub released :
      (b : PieceBuffer P) (peer : P) (peers : List P) (m : BlockMetadata)
      → IsTracked b
      → get peer b.pending_blocks ≡ some m
      → ((x : P) → count x peers + count x (keys (remove peer b.pending_blocks)) ≤ 1)
      → IsTracked (record b {
        peers = peers;
        pending_blocks = remove peer b.pending_blocks;
        missing_blocks = push b.missing_blocks m;
      })
  released b peer peers m t q h =
      let single : count peer (keys b.pending_blocks) ≤ 1 = omega (arith, t.once peer) in
      record {
        once = h;
        whole = λ x. omega (
          arith,
          t.whole x,
          count-push x b.missing_blocks m,
          count-values-remove peer m x b.pending_blocks single q,
        );
        sizes = omega (
          arith,
          t.sizes,
          length-push b.missing_blocks m,
          length-values-remove peer m b.pending_blocks single q,
        );
        total = t.total;
        filed = t.filed;
      }

  -- Requesting a block keeps the invariant.
  pub next-IsTracked : (b : PieceBuffer P) → IsTracked b → IsTracked (next b).0
  unfolding next
  next-IsTracked b t = elim (Option-cases (pop b.peers)) [
    | inl p ↦ rw (p, next) t
    | inr ((peers, peer), p) ↦ elim (Option-cases (pop b.missing_blocks)) [
      | inl q ↦ rw (p, q, next) (idle-IsTracked b peers peer t p)
      | inr ((missing, block), q) ↦
          rw (p, q, next) (sent-IsTracked b peers peer missing block t p q)
    ]
  ]

  -- A peer that leaves takes no block with it.
  pub remove_peer-IsTracked :
      (peer : P) (b : PieceBuffer P) → IsTracked b → IsTracked (remove_peer peer b).0
  unfolding remove_peer
  remove_peer-IsTracked peer b t = elim (Option-cases (position (λ x. same x peer) b.peers)) [
    | inr (i, p) ↦
        rw (p, remove_peer)
          (record {
            once = λ x. omega (arith, t.once x, count-remove_at x peer b.peers i p);
            whole = t.whole;
            sizes = t.sizes;
            total = t.total;
            filed = t.filed;
          })
    | inl p ↦ elim (Option-cases (get peer b.pending_blocks)) [
      | inl q ↦ rw (p, q, remove_peer) t
      | inr (m, q) ↦
          rw (p, q, remove_peer)
            (released b peer b.peers m t q
              (λ x. ground (arith, t.once x, count-keys-remove peer x b.pending_blocks)))
    ]
  ]
