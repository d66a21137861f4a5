-- ===== src/Peer/Torrent/Laws.antt =====
-- What one torrent of `src/peer/torrent.rs` seeds, and what its poll reports.
use libp2p_bittorrent_protoc.Base.{
  ℕ, ◌≤◌, ◌≡◌, ◌⊎◌, ◌≢◌, ◌↔◌, refl, inl, inr, true, false, List, [], ◌∷◌, Option, none, some, ok,
  err, arith, Option-cases, Bool-cases, Eq, same, same_iff, same_refl, All,
}
use libp2p_bittorrent_protoc.Base.Map.{get, insert, keys}
use libp2p_bittorrent_protoc.Base.Vec.{position, count}
use libp2p_bittorrent_protoc.Crates.BitVec.{BitVec}
use libp2p_bittorrent_protoc.Crates.Instant.{Instant}
use libp2p_bittorrent_protoc.Crates.Rng.{Rng}
use libp2p_bittorrent_protoc.Peer.State.{
  BitTorrentPeer, un_choked, interested, is_client_timeout, is_remote_timeout, remote_can_leech,
  is_remote_unchoked_on_client, is_remote_interested,
}
use libp2p_bittorrent_protoc.Peer.Handler.{
  TorrentPieceHandler, TorrentPieceHandlerState, waiting_peers, leech_block, piece_finished,
  endgame, has_piece,
}
use libp2p_bittorrent_protoc.Peer.Handler.Events.{get_peer, update_peer, is_ready_to_seed_block}
use libp2p_bittorrent_protoc.Peer.Handler.Events
use libp2p_bittorrent_protoc.Peer.Handler
use libp2p_bittorrent_protoc.Peer.Handler.Sound.{present}
use libp2p_bittorrent_protoc.Peer.Torrent.{
  Torrent, TorrentPoolState, unimplemented, keep_alive, timeout, heartbeats, can_seed_piece_to,
  poll, pool_state,
}

module _ {P V I : Type 0} ⦃e : Eq P⦄ ⦃v : BitVec V⦄ where
  -- A block is read for a peer exactly when the torrent knows the peer and owns the piece, the
  -- client has unchoked the peer, the peer is interested, and no other block is being read for it.
  pub can_seed_piece_to_iff :
      (id : P) (i : ℕ) (t : Torrent P V I)
      → (can_seed_piece_to id i t ≡ true) ↔ (
          (peer : BitTorrentPeer V I) × (get id t.piece_handler.peers ≡ some peer)
          × (has_piece i t.piece_handler ≡ true)
          × (peer.client_choke ≡ un_choked)
          × (peer.remote_interest ≡ interested)
          × (position (λ q. same q.0 id) t.piece_handler.pending_seed_blocks ≡ none))
  unfolding can_seed_piece_to get_peer remote_can_leech is_remote_unchoked_on_client
      is_remote_interested is_ready_to_seed_block
  can_seed_piece_to_iff id i t = elim (Option-cases (get id t.piece_handler.peers)) [
    | inl n ↦ ground arith
    | inr (peer, n) ↦
        (λ h. (peer, n, ground arith, ground arith, ground arith, ground arith), λ w. ground arith)
  ]

-- what the loop over the peers may answer
abbrev pub IsAlarm : {P : Type 0} → ℕ → Option (TorrentPoolState P) → Type 0
IsAlarm {P} id o = (p : P) × ((o ≡ some (keep_alive id p)) ⊎ (o ≡ some (timeout id p)))

-- The loop leaves a quiet torrent alone, and answers where a peer has timed out.
module _ {P V I : Type 0} ⦃i : Instant I⦄ where
  abbrev pub IsQuiet : I → P × BitTorrentPeer V I → Type 0
  IsQuiet now q = (is_client_timeout now q.1 ≡ false) × (is_remote_timeout now q.1 ≡ false)

  heartbeats-IsQuiet :
      (now clock : I) (id : ℕ) (peers : List (P × BitTorrentPeer V I))
      → (heartbeats now clock id peers).1 ≡ none
      → All (IsQuiet now) peers
  unfolding heartbeats
  heartbeats-IsQuiet now clock id [] h = tt
  heartbeats-IsQuiet now clock id ((p, peer) ∷ peers) h =
      ((ground arith, ground arith), heartbeats-IsQuiet now clock id peers (ground arith))

  quiet-heartbeats :
      (now clock : I) (id : ℕ) (peers : List (P × BitTorrentPeer V I))
      → All (IsQuiet now) peers
      → (heartbeats now clock id peers).1 ≡ none
  unfolding heartbeats
  quiet-heartbeats now clock id [] h = refl
  quiet-heartbeats now clock id ((p, peer) ∷ peers) h =
      ground (arith, quiet-heartbeats now clock id peers h.1, h.0)

  heartbeats-IsAlarm :
      (now clock : I) (id : ℕ) (peers : List (P × BitTorrentPeer V I)) (s : TorrentPoolState P)
      → (heartbeats now clock id peers).1 ≡ some s
      → IsAlarm id (some s)
  unfolding heartbeats
  heartbeats-IsAlarm now clock id [] s h = cc
  heartbeats-IsAlarm now clock id ((p, peer) ∷ peers) s h =
      elim (Bool-cases (is_client_timeout now peer)) [
        | inl y ↦ (p, inl (ground arith))
        | inr n ↦ elim (Bool-cases (is_remote_timeout now peer)) [
          | inl y ↦ (p, inr (ground arith))
          | inr m ↦ heartbeats-IsAlarm now clock id peers s (ground arith)
        ]
      ]

module _ {P V I : Type 0} ⦃e : Eq P⦄ ⦃i : Instant I⦄ where
  heartbeats-keep_alive :
      (now clock : I) (id k : ℕ) (p : P) (peers : List (P × BitTorrentPeer V I))
      → ((q : P) → count q (keys peers) ≤ 1)
      → (heartbeats now clock id peers).1 ≡ some (keep_alive k p)
      → (old : BitTorrentPeer V I) × (get p peers ≡ some old)
        × (is_client_timeout now old ≡ true)
        × ((heartbeats now clock id peers).0
            ≡ insert p (record old { client_heartbeat = clock }) peers)
  unfolding heartbeats get insert
  heartbeats-keep_alive now clock id k p [] d h = cc
  heartbeats-keep_alive now clock id k p ((q, peer) ∷ peers) d h =
      elim (Bool-cases (is_client_timeout now peer)) [
        | inl y ↦
            let s : q ≡ p = ground arith in
            (peer, ground (arith, same_iff q p), y, ground (arith, same_iff q p))
        | inr n ↦ elim (Bool-cases (is_remote_timeout now peer)) [
          | inl y ↦ absurd (ground arith)
          | inr m ↦
              let (old, g, t, r) =
                heartbeats-keep_alive now clock id k p peers (λ x. ground (arith, d x))
                  (ground arith) in
              let apart : same q p ≡ false =
                ground (arith, d q, same_iff q p, same_refl q, present p old peers g) in
              (old, ground arith, t, ground arith)
        ]
      ]

  heartbeats-timeout :
      (now clock : I) (id k : ℕ) (p : P) (peers : List (P × BitTorrentPeer V I))
      → ((q : P) → count q (keys peers) ≤ 1)
      → (heartbeats now clock id peers).1 ≡ some (timeout k p)
      → (old : BitTorrentPeer V I) × (get p peers ≡ some old)
        × (is_client_timeout now old ≡ false)
        × (is_remote_timeout now old ≡ true)
        × ((heartbeats now clock id peers).0 ≡ peers)
  unfolding heartbeats get insert
  heartbeats-timeout now clock id k p [] d h = cc
  heartbeats-timeout now clock id k p ((q, peer) ∷ peers) d h =
      elim (Bool-cases (is_client_timeout now peer)) [
        | inl y ↦ absurd (ground arith)
        | inr n ↦ elim (Bool-cases (is_remote_timeout now peer)) [
          | inl y ↦
              let s : q ≡ p = ground arith in
              (peer, ground (arith, same_iff q p), n, y, ground arith)
          | inr m ↦
              let (old, g, t, u, r) =
                heartbeats-timeout now clock id k p peers (λ x. ground (arith, d x))
                  (ground arith) in
              let apart : same q p ≡ false =
                ground (arith, d q, same_iff q p, same_refl q, present p old peers g) in
              (old, ground arith, t, u, ground arith)
        ]
      ]

pool_state-ne-IsAlarm :
    {P : Type 0} (id : ℕ) (s : TorrentPieceHandlerState P)
    → ¬ IsAlarm {P = P} id (some (pool_state id s))
unfolding pool_state
pool_state-ne-IsAlarm id waiting_peers (p, w) = ground arith
pool_state-ne-IsAlarm id (leech_block none) (p, w) = ground arith
pool_state-ne-IsAlarm id (leech_block (some b)) (p, w) = ground arith
pool_state-ne-IsAlarm id (piece_finished (ok b)) (p, w) = ground arith
pool_state-ne-IsAlarm id (piece_finished (err x)) (p, w) = ground arith
pool_state-ne-IsAlarm id Handler.finished (p, w) = ground arith
pool_state-ne-IsAlarm id endgame (p, w) = ground arith
pool_state-ne-IsAlarm id Handler.seed (p, w) = ground arith

pool_state-ne-keep :
    {P : Type 0} (id : ℕ) (s : TorrentPieceHandlerState P) (k : ℕ) (p : P)
    → pool_state id s ≢ keep_alive k p
unfolding pool_state
pool_state-ne-keep id s k p = ground arith

pool_state-ne-timeout :
    {P : Type 0} (id : ℕ) (s : TorrentPieceHandlerState P) (k : ℕ) (p : P)
    → pool_state id s ≢ timeout k p
unfolding pool_state
pool_state-ne-timeout id s k p = ground arith

pool_state_endgame :
    {P : Type 0} (id : ℕ) (s : TorrentPieceHandlerState P)
    → pool_state id s ≡ unimplemented
    → s ≡ endgame
unfolding pool_state
pool_state_endgame id s h = ground arith

module _ {P V I R : Type 0} ⦃e : Eq P⦄ ⦃v : BitVec V⦄ ⦃i : Instant I⦄ ⦃r : Rng R⦄ where
  poll-ne-endgame : (rnd : R) (h : TorrentPieceHandler P V I) → (Events.poll rnd h).1 ≢ endgame
  unfolding Events.poll
  poll-ne-endgame rnd h = ground arith

  -- No poll of a torrent panics: the handler never reports the end game, which is not implemented.
  pub poll-ne-unimplemented :
      (rnd : R) (now clock : I) (t : Torrent P V I) → (poll rnd now clock t).1 ≢ unimplemented
  unfolding poll
  poll-ne-unimplemented rnd now clock t q =
      elim (Option-cases (heartbeats now clock t.id t.piece_handler.peers).1) [
        | inl n ↦
            poll-ne-endgame rnd t.piece_handler
              (pool_state_endgame t.id (Events.poll rnd t.piece_handler).1 (ground arith))
        | inr (s, n) ↦
            let (p, a) = heartbeats-IsAlarm now clock t.id t.piece_handler.peers s n in ground arith
      ]

  -- A poll raises an alarm, to keep a connection alive or that a peer is silent, exactly when
  -- some peer has timed out one way or the other.
  pub poll-IsAlarm_iff :
      (rnd : R) (now clock : I) (t : Torrent P V I)
      → IsAlarm t.id (some (poll rnd now clock t).1) ↔ (¬ All (IsQuiet now) t.piece_handler.peers)
  unfolding poll
  poll-IsAlarm_iff rnd now clock t =
      let peers = t.piece_handler.peers in
      elim (Option-cases (heartbeats now clock t.id peers).1) [
        | inl n ↦
            let quiet = heartbeats-IsQuiet now clock t.id peers n in
            let s : (poll rnd now clock t).1 ≡ pool_state t.id (Events.poll rnd t.piece_handler).1 =
              ground arith in
            (
              λ a.
                  absurd
                    (pool_state-ne-IsAlarm t.id (Events.poll rnd t.piece_handler).1 (rw s at a)),
              λ q. absurd (q quiet),
            )
        | inr (s, n) ↦
            let a : (poll rnd now clock t).1 ≡ s = ground arith in
            (
              λ _ all_quiet. let m = quiet-heartbeats now clock t.id peers all_quiet in cc,
              λ _. rw a (heartbeats-IsAlarm now clock t.id peers s n),
            )
      ]

  -- Where a poll asks for a keep-alive to a peer, that peer had not been written to for over two
  -- minutes, its heartbeat is set to the clock, and nothing else of the torrent changes.
  pub poll-keep_alive :
      (rnd : R) (now clock : I) (k : ℕ) (p : P) (t : Torrent P V I)
      → ((q : P) → count q (keys t.piece_handler.peers) ≤ 1)
      → (poll rnd now clock t).1 ≡ keep_alive k p
      → (old : BitTorrentPeer V I) × (get p t.piece_handler.peers ≡ some old)
        × (is_client_timeout now old ≡ true)
        × ((poll rnd now clock t).0 ≡ record t {
          piece_handler = update_peer p (record old { client_heartbeat = clock }) t.piece_handler;
        })
  unfolding poll update_peer
  poll-keep_alive rnd now clock k p t d h =
      let peers = t.piece_handler.peers in
      elim (Option-cases (heartbeats now clock t.id peers).1) [
        | inl n ↦
            absurd (pool_state-ne-keep t.id (Events.poll rnd t.piece_handler).1 k p (ground arith))
        | inr (s, n) ↦
            let (old, g, c, q) = heartbeats-keep_alive now clock t.id k p peers d (ground arith) in
            (old, g, c, ground arith)
      ]

  -- Where a poll reports that a peer timed out, that peer had not been heard for over two minutes
  -- while its own connection was kept alive, and the torrent does not change.
  pub poll-timeout :
      (rnd : R) (now clock : I) (k : ℕ) (p : P) (t : Torrent P V I)
      → ((q : P) → count q (keys t.piece_handler.peers) ≤ 1)
      → (poll rnd now clock t).1 ≡ timeout k p
      → (old : BitTorrentPeer V I) × (get p t.piece_handler.peers ≡ some old)
        × (is_client_timeout now old ≡ false)
        × (is_remote_timeout now old ≡ true)
        × ((poll rnd now clock t).0 ≡ t)
  unfolding poll
  poll-timeout rnd now clock k p t d h =
      let peers = t.piece_handler.peers in
      elim (Option-cases (heartbeats now clock t.id peers).1) [
        | inl n ↦
            absurd
              (pool_state-ne-timeout t.id (Events.poll rnd t.piece_handler).1 k p (ground arith))
        | inr (s, n) ↦
            let (old, g, c, u, q) = heartbeats-timeout now clock t.id k p peers d (ground arith) in
            (old, g, c, u, ground arith)
      ]
