-- ===== src/Behavior/Laws.antt =====
-- The behaviour as a whole: blocks that are served, pieces that are announced, handshakes, peers that
-- leave, and peers that fall silent.
use libp2p_bittorrent_protoc.Base.{
  ℕ, zero, suc, ◌%◌, ◌^◌, ◌≡◌, ◌-◌, ◌≤◌, refl, ap, ◌∙◌, true, false, List, [], ◌∷◌, ◌++◌, map, none,
  some, ok, err, done, exhausted, Eq, nat_eq, same, same_refl, arith, All, if◌then◌else◌,
  append_nil, append_assoc, ◌<◌,
}
use libp2p_bittorrent_protoc.Base.Map
use libp2p_bittorrent_protoc.Base.Map.{keys, contains_key-insert, get-insert}
use libp2p_bittorrent_protoc.Base.Sets
use libp2p_bittorrent_protoc.Base.Vec.{count}
use libp2p_bittorrent_protoc.Crates.BitVec.{BitVec}
use libp2p_bittorrent_protoc.Crates.Bytes.{BytesMut}
use libp2p_bittorrent_protoc.Crates.Instant.{Instant}
use libp2p_bittorrent_protoc.Crates.Rng.{Rng}
use libp2p_bittorrent_protoc.Hash.{ShaHash}
use libp2p_bittorrent_protoc.Wire.Message.{PeerRequest}
use libp2p_bittorrent_protoc.Disk.Block.{
  BlockMetadata, BlockMut, Block, from_request, mut_into_piece,
}
use libp2p_bittorrent_protoc.Disk.Message.{block_read, piece_written}
use libp2p_bittorrent_protoc.Peer.State.{BitTorrentPeer, is_client_timeout, is_remote_timeout}
use libp2p_bittorrent_protoc.Peer.Handler.{TorrentPieceHandler, set_piece, has_piece}
use libp2p_bittorrent_protoc.Peer.Handler.Finish.{has_piece-set_piece}
use libp2p_bittorrent_protoc.Peer.Torrent.{Torrent, is_active, timeout, heartbeats, on_handler}
use libp2p_bittorrent_protoc.Peer.Torrent
use libp2p_bittorrent_protoc.Peer.Pool.{TorrentPool, get, update}
use libp2p_bittorrent_protoc.Peer.Pool.Requests.{
  on_piece_request, on_block_read, poll_torrents, is_ready,
}
use libp2p_bittorrent_protoc.Peer.Pool.Requests
use libp2p_bittorrent_protoc.Peer.Pool.Members.{holders, remove_peer-holders}
use libp2p_bittorrent_protoc.Peer.Pool.Served.{IsUnread, on_block_read-on_piece_request}
use libp2p_bittorrent_protoc.Connection.Events.{BitTorrentHandlerIn, BitTorrentHandlerEvent}
use libp2p_bittorrent_protoc.Behavior.Events.{send_event}
use libp2p_bittorrent_protoc.Behavior.{
  BitTorrent, Disk, send, handshake_known_peer, inject_disconnected,
}
use libp2p_bittorrent_protoc.Behavior.Nodes.{inject_node_event, block_requested}
use libp2p_bittorrent_protoc.Behavior.Polls.{
  on_remote_timeout, on_disk_message, send_have, poll_pool, poll, next_action,
}

module _ {P V I A D B : Type 0} ⦃e : Eq P⦄ ⦃v : BitVec V⦄ ⦃w : BytesMut B⦄ ⦃k : Disk D B⦄ where
  -- A block that a remote asks for and may have is read from the disk, and sent to that remote under
  -- the id of its request once it is read; the torrents are then what they were before the request.
  -- The torrents stand under distinct identifiers, and none reads that block yet.
  pub on_disk_message-inject_node_event :
      (E X : Type 0) (now now' : I) (p : P) (request : PeerRequest) (r id : ℕ)
      (block' : BlockMetadata) (read : BlockMut B) (b b' : BitTorrent P V I A D B)
      → All (IsUnread (from_request request)) b.torrents.torrents
      → ((n : ℕ) → count n (keys b.torrents.torrents) ≤ 1)
      → (on_piece_request p (from_request request) r b.torrents).1 ≡ ok (id, block')
      → read.metadata ≡ block'
      → inject_node_event {E = E} {X = X} now now' p
          (BitTorrentHandlerEvent.get_piece_req request r)
          b
        ≡ done b'
      → (b'.disk_manager ≡ k.read_block b.disk_manager id block')
        × (on_disk_message (block_read id read) b' ≡ (
          send p
              (BitTorrentHandlerIn.get_piece_res (mut_into_piece read) r)
              (record b' { torrents = b.torrents }),
          none,
        ))
  unfolding inject_node_event block_requested on_disk_message
  on_disk_message-inject_node_event E X now now' p request r id block' read b b' unread distinct
        granted m h =
      let back =
        on_block_read-on_piece_request p (from_request request) block' r id b.torrents unread
          distinct granted in
      (ground arith, ground arith)

contains-remove :
    {P : Type 0} ⦃e : Eq P⦄ (p : P) (l : List P) → Sets.contains p (Sets.remove p l) ≡ false
unfolding Sets.contains Sets.remove
contains-remove p [] = refl
contains-remove p (x ∷ l) = ground (arith, contains-remove p l)

module _ {P V I A D B : Type 0} ⦃e : Eq P⦄ where
  -- A peer that has left is not connected, and takes part in one torrent less, if it took part in any;
  -- every other peer takes part in what it did.
  pub inject_disconnected_lem :
      (p : P) (b : BitTorrent P V I A D B)
      → (Sets.contains p (inject_disconnected p b).connected_peers ≡ false)
        × ((q : P)
            → holders q (inject_disconnected p b).torrents.torrents ≡ (
                if same p q
                then holders q b.torrents.torrents - 1
                else holders q b.torrents.torrents))
  unfolding inject_disconnected
  inject_disconnected_lem p b =
      (contains-remove p b.connected_peers, λ q. remove_peer-holders p q b.torrents)

  -- A handshake that is begun with a peer is the only one: until the peer is connected, another one is
  -- refused and changes nothing.
  pub handshake_known_peer_twice :
      (p : P) (hash other : ShaHash) (b : BitTorrent P V I A D B)
      → (handshake_known_peer p hash b).1 ≡ ok tt
      → handshake_known_peer p other (handshake_known_peer p hash b).0
        ≡ ((handshake_known_peer p hash b).0, err (p, other))
  unfolding handshake_known_peer
  handshake_known_peer_twice p hash other b h =
      ground (arith, contains_key-insert p p hash b.pending_handshakes, same_refl p)

module _ {P V I A D B : Type 0} where
  send_have_lem :
      (index : ℕ) (peers : List P) (b : BitTorrent P V I A D B)
      → send_have index peers b ≡ record b {
        queued_events =
            b.queued_events ++ map (λ p. send_event p (BitTorrentHandlerIn.have index)) peers;
      }
  unfolding send_have
  send_have_lem index [] b = ap (λ l. record b { queued_events = l }) (append_nil b.queued_events)
  send_have_lem index (p ∷ peers) b =
      send_have_lem index peers (send p (BitTorrentHandlerIn.have index) b)
      ∙ ap (λ l. record b { queued_events = l })
          (append_assoc b.queued_events (send_event p (BitTorrentHandlerIn.have index) ∷ [])
            (map (λ q. send_event q (BitTorrentHandlerIn.have index)) peers))

module _ {P V I : Type 0} ⦃v : BitVec V⦄ where
  set_piece-peers : (n : ℕ) (h : TorrentPieceHandler P V I) → (set_piece n h).0.peers ≡ h.peers
  unfolding set_piece
  set_piece-peers n h = ground arith

module _ {P V I A D B : Type 0} ⦃e : Eq P⦄ ⦃v : BitVec V⦄ ⦃w : BytesMut B⦄ where
  piece_written_lem :
      (id : ℕ) (block : Block) (t : Torrent P V I) (b : BitTorrent P V I A D B)
      → get id b.torrents ≡ some t
      → (on_disk_message (piece_written id block) b).0 ≡ record b {
        torrents =
            update id
              (record t {
                piece_handler = (set_piece block.metadata.piece_index t.piece_handler).0;
              })
              b.torrents;
        queued_events =
            b.queued_events
            ++ map
                (λ p. send_event p (BitTorrentHandlerIn.have (block.metadata.piece_index % 2 ^ 32)))
                (keys t.piece_handler.peers);
      }
  unfolding on_disk_message on_handler
  piece_written_lem id block t b found =
      let h' = (set_piece block.metadata.piece_index t.piece_handler).0 in
      let b' = record b { torrents = update id (record t { piece_handler = h' }) b.torrents } in
      let index = block.metadata.piece_index % 2 ^ 32 in
      rw (on_disk_message, found)
        (send_have_lem index (keys h'.peers) b'
          ∙ ap
              (λ l. record b' {
                queued_events =
                    b.queued_events
                    ++ map (λ p. send_event p (BitTorrentHandlerIn.have index)) (keys l);
              })
              (set_piece-peers block.metadata.piece_index t.piece_handler))

  -- Once a piece of a torrent of the pool is written, the client owns it, and every peer of the
  -- torrent is told so once, behind all that was queued before.
  pub on_disk_message-piece_written :
      (id : ℕ) (block : Block) (t : Torrent P V I) (b : BitTorrent P V I A D B)
      → get id b.torrents ≡ some t
      → block.metadata.piece_index < v.len t.piece_handler.bitfield.inner
      → ((on_disk_message (piece_written id block) b).0.queued_events
          ≡ b.queued_events
            ++ map
                (λ p. send_event p (BitTorrentHandlerIn.have (block.metadata.piece_index % 2 ^ 32)))
                (keys t.piece_handler.peers))
        × (t' : Torrent P V I) × (get id (on_disk_message (piece_written id block) b).0.torrents
            ≡ some t')
        × (has_piece block.metadata.piece_index t'.piece_handler ≡ true)
  unfolding get update
  on_disk_message-piece_written id block t b found bound =
      let i = block.metadata.piece_index in
      let t' = record t { piece_handler = (set_piece i t.piece_handler).0 } in
      let e = piece_written_lem id block t b found in
      (
        ap (λ c. c.queued_events) e,
        t',
        ap (λ c. Map.get id c.torrents.torrents) e
            ∙ ground (arith, get-insert id id t' b.torrents.torrents),
        ground (arith, has_piece-set_piece i i t.piece_handler bound),
      )

module _ {P V I R : Type 0} ⦃e : Eq P⦄ ⦃v : BitVec V⦄ ⦃i : Instant I⦄ ⦃r : Rng R⦄ where
  -- the poll of a torrent stops at a silent peer and changes nothing
  torrent-silent :
      (rnd : R) (now clock : I) (t : Torrent P V I) (p : P) (peer : BitTorrentPeer V I)
      (peers : List (P × BitTorrentPeer V I))
      → t.piece_handler.peers ≡ (p, peer) ∷ peers
      → is_client_timeout now peer ≡ false
      → is_remote_timeout now peer ≡ true
      → Torrent.poll rnd now clock t ≡ (t, timeout t.id p)
  unfolding Torrent.poll heartbeats
  torrent-silent rnd now clock t p peer peers c d f =
      let q : heartbeats now clock t.id t.piece_handler.peers
          ≡ (t.piece_handler.peers, some (timeout t.id p)) =
        rw c (ground arith) in
      ground arith

  pool-silent :
      (rnd : ℕ → R) (now : I) (clock : ℕ → I) (n : ℕ) (t : Torrent P V I)
      (m : List (ℕ × Torrent P V I)) (p : P) (pool : TorrentPool P V I)
      → pool.torrents ≡ (n, t) ∷ m
      → is_active t ≡ true
      → Torrent.poll (rnd n) now (clock n) t ≡ (t, timeout t.id p)
      → Requests.poll rnd now clock pool ≡ (pool, timeout t.id p)
  unfolding Requests.poll poll_torrents is_ready
  pool-silent rnd now clock n t m p pool a b q =
      let z : poll_torrents rnd now clock pool.torrents ≡ (pool.torrents, timeout t.id p) =
        rw a (ground arith) in
      rw z refl

module _ {P V I A D B R : Type 0} ⦃e : Eq P⦄ ⦃v : BitVec V⦄ ⦃i : Instant I⦄ ⦃r : Rng R⦄
    ⦃w : BytesMut B⦄ ⦃k : Disk D B⦄ where
  poll_pool-silent :
      (fuel : ℕ) (rnd : ℕ → ℕ → R) (now : I) (clock : ℕ → ℕ → I) (n : ℕ) (p : P)
      (b : BitTorrent P V I A D B)
      → ((j : ℕ) → Requests.poll (rnd j) now (clock j) b.torrents ≡ (b.torrents, timeout n p))
      → poll_pool fuel rnd now clock b ≡ exhausted
  unfolding poll_pool on_remote_timeout
  poll_pool-silent zero rnd now clock n p b h = refl
  poll_pool-silent (suc fuel) rnd now clock n p b h =
      ground (arith, h fuel, poll_pool-silent fuel rnd now clock n p b h)

  -- A remote that has been silent for too long stops the behaviour: while the first peer of the first
  -- torrent, an active one, has timed out and needs no keep-alive itself, a poll with an empty queue
  -- does not return, however many rounds its loops are given.
  pub poll-is_remote_timeout :
      (fuel : ℕ) (rnd : ℕ → ℕ → R) (now : I) (clock : ℕ → ℕ → I) (n : ℕ) (t : Torrent P V I)
      (m : List (ℕ × Torrent P V I)) (p : P) (peer : BitTorrentPeer V I)
      (peers : List (P × BitTorrentPeer V I)) (b : BitTorrent P V I A D B)
      → b.queued_events ≡ []
      → b.torrents.torrents ≡ (n, t) ∷ m
      → is_active t ≡ true
      → t.piece_handler.peers ≡ (p, peer) ∷ peers
      → is_client_timeout now peer ≡ false
      → is_remote_timeout now peer ≡ true
      → poll fuel rnd now clock b ≡ exhausted
  unfolding poll next_action
  poll-is_remote_timeout fuel rnd now clock n t m p peer peers b q a c d f g =
      let silent = poll_pool-silent fuel rnd now clock t.id p b (λ j.
        pool-silent (rnd j) now (clock j) n t m p b.torrents a c
          (torrent-silent (rnd j n) now (clock j n) t p peer peers d f g)) in
      ground arith
