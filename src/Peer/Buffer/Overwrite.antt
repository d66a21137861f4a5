-- ===== src/Peer/Buffer/Overwrite.antt =====
-- A request to a peer that still owes a block: the map of pending blocks has one entry for a peer.
use libp2p_bittorrent_protoc.Base.{◌+◌, ◌≡◌, List, some, arith, Eq}
use libp2p_bittorrent_protoc.Base.Map.{get}
use libp2p_bittorrent_protoc.Base.Map.Counts.{count-values-replace}
use libp2p_bittorrent_protoc.Base.Vec.{hit, pop, count-pop}
use libp2p_bittorrent_protoc.Disk.Block.{BlockMetadata, metadata_eq}
use libp2p_bittorrent_protoc.Peer.Buffer.{PieceBuffer, next}
use libp2p_bittorrent_protoc.Peer.Buffer.Tracked.{occurrences}

module _ {P : Type 0} ⦃e : Eq P⦄ where
  -- Where the next idle peer still owes a block, `next` forgets that block: it is neither missing
  -- nor waited for nor stored any more, while every other block keeps its place.
  pub next_forgets :
      (b : PieceBuffer P) (peers : List P) (peer : P) (missing : List BlockMetadata)
      (block old m : BlockMetadata)
      → pop b.peers ≡ some (peers, peer)
      → pop b.missing_blocks ≡ some (missing, block)
      → get peer b.pending_blocks ≡ some old
      → occurrences m (next b).0 + hit old m ≡ occurrences m b
  unfolding next
  next_forgets b peers peer missing block old m p q h =
      rw (p, q, next)
        (omega (
          arith,
          count-pop m b.missing_blocks missing block q,
          count-values-replace peer block old m b.pending_blocks h,
        ))
