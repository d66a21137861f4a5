-- ===== src/Peer/Handler/Sound.antt =====
-- The invariant of a torrent's handler: its buffer is tracked, and asks only peers of the torrent.
use libp2p_bittorrent_protoc.Base.{
  ◌+◌, ◌≤◌, ◌<◌, ◌≡◌, refl, inl, inr, List, [], ◌∷◌, Option, none, some, arith, Option-cases,
  Bool-cases, if◌then◌else◌, Eq, same, same_iff, same_refl,
}
use libp2p_bittorrent_protoc.Base.Map
use libp2p_bittorrent_protoc.Base.Map.{keys, get, values}
use libp2p_bittorrent_protoc.Base.Map.Counts.{
  count_of_get, get_of_count, count-keys-remove, count-keys-insert,
}
use libp2p_bittorrent_protoc.Base.Vec.{
  count, push, pop, position, count-push, count-pop, count-remove_at, position-none,
}
use libp2p_bittorrent_protoc.Disk.Block.{Block, eq_metadata}
use libp2p_bittorrent_protoc.Peer.Buffer.{PieceBuffer, next, add_block}
use libp2p_bittorrent_protoc.Peer.Buffer
use libp2p_bittorrent_protoc.Peer.Buffer.Tracked.{IsTracked, roles}
use libp2p_bittorrent_protoc.Peer.Handler.{TorrentPieceHandler}

module _ {P : Type 0} ⦃e : Eq P⦄ where
  -- A peer that leaves has no role any more; the others keep theirs.
  pub roles-remove_peer :
      (peer q : P) (b : PieceBuffer P)
      → IsTracked b
      → roles q (Buffer.remove_peer peer b).0 ≡ (if same peer q then 0 else roles q b)
  unfolding Buffer.remove_peer
  roles-remove_peer peer q b t = elim (Option-cases (position (λ x. same x peer) b.peers)) [
    | inr (i, p) ↦
        rw (p, Buffer.remove_peer)
          (ground (arith, t.once q, count-remove_at q peer b.peers i p, same_iff peer q))
    | inl p ↦ elim (Option-cases (get peer b.pending_blocks)) [
      | inl g ↦
          rw (p, g, Buffer.remove_peer)
            (ground (
              arith,
              same_iff peer q,
              position-none peer b.peers p,
              count_of_get peer b.pending_blocks g,
            ))
      | inr (m, g) ↦
          rw (p, g, Buffer.remove_peer)
            (ground (
              arith,
              same_iff peer q,
              position-none peer b.peers p,
              count-keys-remove peer q b.pending_blocks,
            ))
    ]
  ]

  -- A request moves a peer from the idle ones to those that owe a block.
  pub roles-next : (q : P) (b : PieceBuffer P) → IsTracked b → roles q (next b).0 ≡ roles q b
  unfolding next
  roles-next q b t = elim (Option-cases (pop b.peers)) [
    | inl p ↦ rw (p, next) refl
    | inr ((peers, peer), p) ↦
        let taken = count-pop q b.peers peers peer p in
        elim (Option-cases (pop b.missing_blocks)) [
          | inl m ↦ rw (p, m, next) (omega (arith, taken, count-push q peers peer))
          | inr ((missing, block), m) ↦
              let free : get peer b.pending_blocks ≡ none = get_of_count peer b.pending_blocks (
                ground (arith, t.once peer, count-pop peer b.peers peers peer p, same_refl peer)) in
              rw (p, m, next)
                (omega (arith, taken, count-keys-insert peer q block b.pending_blocks free))
        ]
  ]

  pub present :
      {A : Type 0} (k : P) (a : A) (m : List (P × A)) → get k m ≡ some a → 0 < count k (keys m)
  unfolding get
  present k a [] h = cc
  present k a ((j, w) ∷ m) h = ground (arith, present k a m)

  -- An answer makes its peer idle again.
  pub roles-add_block :
      (peer q : P) (block : Block) (b : PieceBuffer P)
      → IsTracked b
      → roles q (add_block peer block b).0 ≡ roles q b
  unfolding add_block
  roles-add_block peer q block b t = elim (Option-cases (get peer b.pending_blocks)) [
    | inl g ↦ rw (g, add_block) refl
    | inr (m, g) ↦
        let moved : count q (push b.peers peer) + count q (keys (Map.remove peer b.pending_blocks))
            ≡ roles q b =
          ground (
            arith,
            t.once q,
            same_iff peer q,
            count-push q b.peers peer,
            present peer m b.pending_blocks g,
            count-keys-remove peer q b.pending_blocks,
          ) in
        elim (Bool-cases (eq_metadata block.metadata m)) [
          | inl s ↦ rw (g, s, add_block) moved
          | inr s ↦ rw (g, s, add_block) moved
        ]
  ]

  pub count-keys-replace :
      {A : Type 0} (k j : P) (a old : A) (m : List (P × A))
      → get k m ≡ some old
      → count j (keys (Map.insert k a m)) ≡ count j (keys m)
  unfolding get Map.insert
  count-keys-replace k j a old [] h = cc
  count-keys-replace k j a old ((i, w) ∷ m) h =
      ground (arith, same_iff i k, same_iff i j, same_iff k j, count-keys-replace k j a old m)

module _ {P : Type 0} ⦃e : Eq P⦄ where
  -- a buffer among the peers of a torrent
  pub record IsStaffed (ids : List P) (b : PieceBuffer P) : Type 0 where
    pub tracked : IsTracked b
    pub members : (p : P) → roles p b ≤ count p ids

  abbrev pub BufferSound : List P → Option (PieceBuffer P) → Type 0
  BufferSound ids none = Unit {0}
  BufferSound ids (some b) = IsStaffed ids b

  -- Every peer is known once, and the buffer is tracked and employs only peers that are known.
  pub record IsSound {V I : Type 0} (h : TorrentPieceHandler P V I) : Type 0 where
    pub single : (p : P) → count p (keys h.peers) ≤ 1
    pub buffer : BufferSound (keys h.peers) h.piece_buffer
