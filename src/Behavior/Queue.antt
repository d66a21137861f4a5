-- ===== src/Behavior/Queue.antt =====
-- The queue of the behaviour: it grows at its end, and what it tells connections.
use mathlib.Core.Path.{subst}
use libp2p_bittorrent_protoc.Base.{
  ℕ, ◌≡◌, refl, Bool, true, false, List, [], ◌∷◌, ◌++◌, Option, none, some, Result, ok, err,
  Outcome, done, panic, Eq, nat_eq, append_nil, append_assoc,
}
use libp2p_bittorrent_protoc.Crates.BitVec.{BitVec}
use libp2p_bittorrent_protoc.Wire.Message.{BitField, Handshake}
use libp2p_bittorrent_protoc.Disk.Block.{BlockMetadata, from_request, from_piece}
use libp2p_bittorrent_protoc.Peer.State.{ChokeType, InterestType}
use libp2p_bittorrent_protoc.Peer.Buffer.{BlockErr}
use libp2p_bittorrent_protoc.Peer.Pool.{
  TorrentPool, HandshakeError, is_remote_interesting, on_handshake_request, on_handshake_response,
}
use libp2p_bittorrent_protoc.Peer.Pool.Requests.{
  on_piece_request, set_peer_bitfield, on_bitfield_request, on_block_response, on_cancel_request,
  on_choke_by_remote, on_interest_by_remote, on_remote_have, on_keep_alive_by_remote,
}
use libp2p_bittorrent_protoc.Connection.Events.{BitTorrentHandlerEvent}
use libp2p_bittorrent_protoc.Behavior.Events.{NetworkBehaviourAction}
use libp2p_bittorrent_protoc.Behavior.{BitTorrent, Disk, enqueue}
use libp2p_bittorrent_protoc.Behavior.Nodes.{
  inject_node_event, handshake_requested, handshake_responded, bitfield_requested, tell_interest,
  bitfield_responded, block_requested, block_responded, cancelled, choke_received,
  interest_received, have_received, keep_alive_received,
}

module _ {P V I A D B : Type 0} where
  -- The queue has only grown at its end, and the peers known are the same.
  pub record IsLater (b b' : BitTorrent P V I A D B) : Type 0 where
    pub added : List (NetworkBehaviourAction P V I B)
    pub grown : b'.queued_events ≡ b.queued_events ++ added
    pub connected : b'.connected_peers ≡ b.connected_peers
    pub known : b'.known_peers ≡ b.known_peers
    pub pending : b'.pending_handshakes ≡ b.pending_handshakes

module _ {P V I A D B : Type 0} where
  stay :
      (b : BitTorrent P V I A D B) (pool : TorrentPool P V I)
      → IsLater b (record b { torrents = pool })
  stay b pool = record {
    added = [];
    grown = append_nil b.queued_events;
    connected = refl;
    known = refl;
    pending = refl;
  }

  one :
      (b : BitTorrent P V I A D B) (pool : TorrentPool P V I) (a : NetworkBehaviourAction P V I B)
      → IsLater b (enqueue a (record b { torrents = pool }))
  one b pool a = record {
    added = a ∷ [];
    grown = refl;
    connected = refl;
    known = refl;
    pending = refl;
  }

  two :
      (b : BitTorrent P V I A D B) (pool : TorrentPool P V I) (a c : NetworkBehaviourAction P V I B)
      → IsLater b (enqueue c (enqueue a (record b { torrents = pool })))
  two b pool a c = record {
    added = a ∷ c ∷ [];
    grown = append_assoc b.queued_events (a ∷ []) (c ∷ []);
    connected = refl;
    known = refl;
    pending = refl;
  }

module _ {P V I A D B : Type 0} ⦃e : Eq P⦄ ⦃v : BitVec V⦄ ⦃k : Disk D B⦄ where
  -- the result of an arm, where it does not panic
  Ends : BitTorrent P V I A D B → Outcome (BitTorrent P V I A D B) → Type 0
  Ends b panic = Unit
  Ends b (done b') = IsLater b b'

  tell_interest-Ends :
      (peer_id : P) (user_data : ℕ) (pool : TorrentPool P V I) (o : Outcome Bool)
      (b : BitTorrent P V I A D B)
      → Ends b (tell_interest peer_id user_data pool o b)
  unfolding tell_interest Ends
  tell_interest-Ends peer_id user_data pool panic b = tt
  tell_interest-Ends peer_id user_data pool (done true) b = two b _ _ _
  tell_interest-Ends peer_id user_data pool (done false) b = stay b pool

  bitfield_responded-Ends :
      (peer_id : P) (user_data : ℕ) (r : TorrentPool P V I × Bool) (b : BitTorrent P V I A D B)
      → Ends b (bitfield_responded peer_id user_data r b)
  unfolding bitfield_responded Ends
  bitfield_responded-Ends peer_id user_data (pool, true) b =
      tell_interest-Ends peer_id user_data pool (is_remote_interesting user_data peer_id pool) b
  bitfield_responded-Ends peer_id user_data (pool, false) b = one b pool _

  block_requested-IsLater :
      (r : TorrentPool P V I × Result (ℕ × BlockMetadata) (P × BlockMetadata × ℕ))
      (b : BitTorrent P V I A D B)
      → IsLater b (block_requested r b)
  unfolding block_requested
  block_requested-IsLater (pool, ok (id, block)) b = record {
    added = [];
    grown = append_nil b.queued_events;
    connected = refl;
    known = refl;
    pending = refl;
  }
  block_requested-IsLater (pool, err (p, block, r)) b = two b pool _ _

module _ {P V I A D B : Type 0} where
  handshake_requested-IsLater :
      (p : P) (n : ℕ) (r : TorrentPool P V I × Result Handshake (HandshakeError P))
      (b : BitTorrent P V I A D B)
      → IsLater b (handshake_requested p n r b)
  unfolding handshake_requested
  handshake_requested-IsLater p n (pool, ok h) b = one b pool _
  handshake_requested-IsLater p n (pool, err x) b = two b pool _ _

  handshake_responded-IsLater :
      (p : P) (n : ℕ) (r : TorrentPool P V I × Result (P × BitField V) (HandshakeError P))
      (b : BitTorrent P V I A D B)
      → IsLater b (handshake_responded p n r b)
  unfolding handshake_responded
  handshake_responded-IsLater p n (pool, ok (h, f)) b = two b pool _ _
  handshake_responded-IsLater p n (pool, err x) b = one b pool _

  bitfield_requested-IsLater :
      (p : P) (n : ℕ) (r : TorrentPool P V I × Option (BitField V)) (b : BitTorrent P V I A D B)
      → IsLater b (bitfield_requested p n r b)
  unfolding bitfield_requested
  bitfield_requested-IsLater p n (pool, some f) b = one b pool _
  bitfield_requested-IsLater p n (pool, none) b = one b pool _

  block_responded-IsLater :
      (p : P) (n : ℕ) (r : TorrentPool P V I × Result BlockMetadata (BlockErr P))
      (b : BitTorrent P V I A D B)
      → IsLater b (block_responded p n r b)
  unfolding block_responded
  block_responded-IsLater p n (pool, ok m) b = one b pool _
  block_responded-IsLater p n (pool, err x) b = one b pool _

  cancelled-IsLater :
      (p : P) (m : BlockMetadata) (r : TorrentPool P V I × Option (P × BlockMetadata))
      (b : BitTorrent P V I A D B)
      → IsLater b (cancelled p m r b)
  unfolding cancelled
  cancelled-IsLater p m (pool, some x) b = one b pool _
  cancelled-IsLater p m (pool, none) b = one b pool _

  choke_received-IsLater :
      (p : P) (c : ChokeType) (r : TorrentPool P V I × Option (ℕ × ChokeType))
      (b : BitTorrent P V I A D B)
      → IsLater b (choke_received p c r b)
  unfolding choke_received
  choke_received-IsLater p c (pool, some (id, old)) b = one b pool _
  choke_received-IsLater p c (pool, none) b = one b pool _

  interest_received-IsLater :
      (r : TorrentPool P V I × Result (InterestType × P) P) (b : BitTorrent P V I A D B)
      → IsLater b (interest_received r b)
  unfolding interest_received
  interest_received-IsLater (pool, ok x) b = one b pool _
  interest_received-IsLater (pool, err p) b = one b pool _

  have_received-IsLater :
      (p : P) (index : ℕ) (r : TorrentPool P V I × Option Bool) (b : BitTorrent P V I A D B)
      → IsLater b (have_received p index r b)
  unfolding have_received
  have_received-IsLater p index (pool, some true) b = one b pool _
  have_received-IsLater p index (pool, some false) b = one b pool _
  have_received-IsLater p index (pool, none) b = one b pool _

  keep_alive_received-IsLater :
      (p : P) (t : I) (r : TorrentPool P V I × Result (ℕ × I) P) (b : BitTorrent P V I A D B)
      → IsLater b (keep_alive_received p t r b)
  unfolding keep_alive_received
  keep_alive_received-IsLater p t (pool, ok (id, old)) b = one b pool _
  keep_alive_received-IsLater p t (pool, err q) b = one b pool _

module _ {P V I A D B E X : Type 0} ⦃e : Eq P⦄ ⦃v : BitVec V⦄ ⦃k : Disk D B⦄ where
  inject_node_event-Ends :
      (now now' : I) (p : P) (event : BitTorrentHandlerEvent V ℕ I E X) (b : BitTorrent P V I A D B)
      → Ends b (inject_node_event now now' p event b)
  unfolding inject_node_event Ends
  inject_node_event-Ends now now' p (BitTorrentHandlerEvent.handshake_req h n) b =
      handshake_requested-IsLater p n (on_handshake_request now now' p h b.torrents) b
  inject_node_event-Ends now now' p (BitTorrentHandlerEvent.handshake_res h n) b =
      handshake_responded-IsLater p n (on_handshake_response now now' p n h b.torrents) b
  inject_node_event-Ends now now' p (BitTorrentHandlerEvent.bitfield_req f n) b =
      bitfield_requested-IsLater p n (on_bitfield_request p f b.torrents) b
  inject_node_event-Ends now now' p (BitTorrentHandlerEvent.bitfield_res f n) b =
      bitfield_responded-Ends p n (set_peer_bitfield p n f b.torrents) b
  inject_node_event-Ends now now' p (BitTorrentHandlerEvent.get_piece_req r n) b =
      block_requested-IsLater (on_piece_request p (from_request r) n b.torrents) b
  inject_node_event-Ends now now' p (BitTorrentHandlerEvent.get_piece_res x n) b =
      block_responded-IsLater p n (on_block_response n p (from_piece x) b.torrents) b
  inject_node_event-Ends now now' p (BitTorrentHandlerEvent.cancel_piece r n) b =
      cancelled-IsLater p (from_request r) (on_cancel_request n b.torrents) b
  inject_node_event-Ends now now' p (BitTorrentHandlerEvent.choke c) b =
      choke_received-IsLater p c (on_choke_by_remote p c b.torrents) b
  inject_node_event-Ends now now' p (BitTorrentHandlerEvent.interest c) b =
      interest_received-IsLater (on_interest_by_remote p c b.torrents) b
  inject_node_event-Ends now now' p (BitTorrentHandlerEvent.have n) b =
      have_received-IsLater p n (on_remote_have p n b.torrents) b
  inject_node_event-Ends now now' p (BitTorrentHandlerEvent.keep_alive t) b =
      keep_alive_received-IsLater p t (on_keep_alive_by_remote p t b.torrents) b
  inject_node_event-Ends now now' p (BitTorrentHandlerEvent.torrent_err x u) b = stay b b.torrents

  -- An event of a connection leaves everything that is queued where it is and queues what it has to
  -- tell behind it; it changes neither the connected peers, nor the known ones, nor the handshakes
  -- that are pending.
  pub inject_node_event-IsLater :
      (now now' : I) (p : P) (event : BitTorrentHandlerEvent V ℕ I E X)
      (b b' : BitTorrent P V I A D B)
      → inject_node_event now now' p event b ≡ done b'
      → IsLater b b'
  unfolding Ends
  inject_node_event-IsLater now now' p event b b' h =
      subst (Ends b) h (inject_node_event-Ends now now' p event b)
