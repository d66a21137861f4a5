-- ===== src/Peer/Handler/Runs.antt =====
-- Whole histories of a torrent's handler of `src/peer/piece.rs`, and what `poll` does in them.
use libp2p_bittorrent_protoc.Base.{ℕ, arith, Eq}
use libp2p_bittorrent_protoc.Crates.BitVec.{BitVec}
use libp2p_bittorrent_protoc.Crates.Rng.{Rng}
use libp2p_bittorrent_protoc.Disk.Block.{Block}
use libp2p_bittorrent_protoc.Wire.Message.{BitField}
use libp2p_bittorrent_protoc.Peer.State.{BitTorrentPeer, choked, un_choked}
use libp2p_bittorrent_protoc.Peer.Handler.{TorrentPieceHandler, PieceSelection, new}
use libp2p_bittorrent_protoc.Peer.Handler.Sound.{IsSound}
use libp2p_bittorrent_protoc.Peer.Handler.Steps.{remove_peer-IsSound, add_block-IsSound}
use libp2p_bittorrent_protoc.Peer.Handler.Events.{
  insert_peer, remove_peer, add_block, set_choke_on_remote, set_peer_piece, poll,
}
use libp2p_bittorrent_protoc.Peer.Handler.Keeps.{
  IsIdle, insert_peer-IsSound, un_choke-IsSound, choke-IsSound, set_peer_piece-IsSound,
  poll-IsSound,
}

module _ {P V I : Type 0} (R : Type 0) ⦃e : Eq P⦄ ⦃v : BitVec V⦄ ⦃r : Rng R⦄ where
  -- What can happen to a handler. A peer that unchokes must have no role in the buffer.
  pub data HandlerStep : TorrentPieceHandler P V I → TorrentPieceHandler P V I → Type 0 where
    joins :
        (h : TorrentPieceHandler P V I) (id : P) (peer : BitTorrentPeer V I)
        → HandlerStep h (insert_peer id peer h).0
    leaves : (h : TorrentPieceHandler P V I) (id : P) → HandlerStep h (remove_peer id h).0
    chokes :
        (h : TorrentPieceHandler P V I) (id : P) → HandlerStep h (set_choke_on_remote id choked h).0
    un_chokes :
        (h : TorrentPieceHandler P V I) (id : P)
        → IsIdle id h.piece_buffer
        → HandlerStep h (set_choke_on_remote id un_choked h).0
    has : (h : TorrentPieceHandler P V I) (id : P) (i : ℕ) → HandlerStep h (set_peer_piece id i h).0
    answers :
        (h : TorrentPieceHandler P V I) (id : P) (block : Block)
        → HandlerStep h (add_block id block h).0
    polled : (h : TorrentPieceHandler P V I) (rnd : R) → HandlerStep h (poll rnd h).0

  HandlerStep-IsSound : {h k : TorrentPieceHandler P V I} → HandlerStep h k → IsSound h → IsSound k
  HandlerStep-IsSound (joins h id peer) s = insert_peer-IsSound id peer h s
  HandlerStep-IsSound (leaves h id) s = remove_peer-IsSound id h s
  HandlerStep-IsSound (chokes h id) s = choke-IsSound id h s
  HandlerStep-IsSound (un_chokes h id z) s = un_choke-IsSound id h z s
  HandlerStep-IsSound (has h id i) s = set_peer_piece-IsSound id i h s
  HandlerStep-IsSound (answers h id block) s = add_block-IsSound id block h s
  HandlerStep-IsSound (polled h rnd) s = poll-IsSound rnd h s

  pub data HandlerReach (h : TorrentPieceHandler P V I) : TorrentPieceHandler P V I → Type 0 where
    start : HandlerReach h h
    and_then :
        {k l : TorrentPieceHandler P V I} → HandlerReach h k → HandlerStep k l → HandlerReach h l

  -- After any sequence of arrivals, departures, chokes, unchokes, haves, answers and polls, in which
  -- only a peer without a role in the buffer unchokes, a peer is known once, the buffer holds every block of its piece
  -- in exactly one place, and it employs only peers of the torrent, each in one role.
  pub HandlerReach-IsSound :
      (id : ℕ) (s : PieceSelection) (f : BitField V) (len last : ℕ) (h : TorrentPieceHandler P V I)
      → HandlerReach (new id s f len last) h
      → IsSound h
  unfolding new
  HandlerReach-IsSound id s f len last h start = record { single = λ p. omega arith; buffer = tt }
  HandlerReach-IsSound id s f len last h (and_then {k = k} q t) =
      HandlerStep-IsSound t (HandlerReach-IsSound id s f len last k q)
