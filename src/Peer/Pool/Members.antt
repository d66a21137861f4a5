-- ===== src/Peer/Pool/Members.antt =====
-- Which peers take part in the torrents of a pool of `src/peer/torrent.rs`.
use libp2p_bittorrent_protoc.Base.{
  ℕ, suc, ◌+◌, ◌-◌, ◌≡◌, ◌≢◌, ◌⊎◌, ◌↔◌, refl, inl, inr, true, false, List, [], ◌∷◌, none, some, ok,
  err, arith, Option-cases, Bool-cases, if◌then◌else◌, Eq, nat_eq, same, same_iff,
}
use libp2p_bittorrent_protoc.Base.Map
use libp2p_bittorrent_protoc.Base.Map.{contains_key-insert, contains_key-remove, contains_key-get}
use libp2p_bittorrent_protoc.Base.Vec.{hit}
use libp2p_bittorrent_protoc.Crates.BitVec.{BitVec}
use libp2p_bittorrent_protoc.Hash.{ShaHash, eq_hash}
use libp2p_bittorrent_protoc.Wire.Message.{Handshake, new_handshake}
use libp2p_bittorrent_protoc.Peer.State.{BitTorrentPeer, new_peer}
use libp2p_bittorrent_protoc.Peer.Handler.Events.{insert_peer, get_peer}
use libp2p_bittorrent_protoc.Peer.Handler.Events
use libp2p_bittorrent_protoc.Peer.Torrent.{
  Torrent, TorrentState, active, paused, contains_peer, on_handler, is_active, state_is_active,
}
use libp2p_bittorrent_protoc.Peer.Torrent
use libp2p_bittorrent_protoc.Peer.Pool.{
  TorrentPool, HandshakeError, invalid_peer, info_hash_mismatch, has_info_hash, first_mut, at_first,
  associated, is_associated, accept_peer, on_handshake_request,
}
use libp2p_bittorrent_protoc.Peer.Pool.Requests.{remove_peer}

module _ {P V I : Type 0} ⦃e : Eq P⦄ where
  -- in how many torrents a peer takes part
  abbrev pub holders : P → List (ℕ × Torrent P V I) → ℕ
  holders p [] = 0
  holders p ((id, t) ∷ m) = if contains_peer p t then suc (holders p m) else holders p m

  associated-holders :
      (p : P) (m : List (ℕ × Torrent P V I)) → (associated p m ≡ false) ↔ (holders p m ≡ 0)
  unfolding associated
  associated-holders p [] = ground arith
  associated-holders p ((id, t) ∷ m) = ground (arith, associated-holders p m)

  -- one torrent, left by the peer
  left-contains_peer :
      (p q : P) (t : Torrent P V I)
      → contains_peer q (Torrent.remove_peer p t).0
        ≡ (if same p q then false else contains_peer q t)
  unfolding Torrent.remove_peer contains_peer on_handler Events.remove_peer get_peer
  left-contains_peer p q t =
      let peers = t.piece_handler.peers in
      elim (Option-cases (Map.get p peers)) [
        | inl n ↦ ground (arith, contains_key-get p peers, same_iff p q)
        | inr (peer, n) ↦ ground (arith, contains_key-remove p q peers)
      ]

  left-answer :
      (p : P) (t : Torrent P V I)
      → ((Torrent.remove_peer p t).1 ≡ none) ↔ (contains_peer p t ≡ false)
  unfolding Torrent.remove_peer contains_peer on_handler Events.remove_peer get_peer
  left-answer p t =
      let peers = t.piece_handler.peers in
      elim (Option-cases (Map.get p peers)) [
        | inl n ↦ ground (arith, contains_key-get p peers)
        | inr (peer, n) ↦ ground (arith, contains_key-get p peers)
      ]

  left-holders :
      (p q : P) (m : List (ℕ × Torrent P V I))
      → holders q (first_mut (Torrent.remove_peer p) m).0
        ≡ (if same p q then holders q m - 1 else holders q m)
  unfolding first_mut
  left-holders p q [] = ground arith
  left-holders p q ((id, t) ∷ m) = elim (Option-cases (Torrent.remove_peer p t).1) [
    | inl n ↦
        ground (arith, left-answer p t, left-contains_peer p q t, left-holders p q m, same_iff p q)
    | inr (peer, n) ↦ ground (arith, left-answer p t, left-contains_peer p q t, same_iff p q)
  ]

  -- A peer that is removed is in one torrent less, if it was in any; the others stay.
  pub remove_peer-holders :
      (p q : P) (pool : TorrentPool P V I)
      → holders q (remove_peer p pool).0.torrents
        ≡ (if same p q then holders q pool.torrents - 1 else holders q pool.torrents)
  unfolding remove_peer at_first
  remove_peer-holders p q pool = left-holders p q pool.torrents

module _ {P V I : Type 0} ⦃e : Eq P⦄ ⦃v : BitVec V⦄ where
  accept-contains_peer :
      (p q : P) (peer : BitTorrentPeer V I) (x : ShaHash) (t : Torrent P V I)
      → contains_peer q (accept_peer p peer x t).0 ≡ (
          if eq_hash t.info_hash x
          then (if same p q then true else contains_peer q t)
          else contains_peer q t)
  unfolding accept_peer contains_peer on_handler insert_peer
  accept-contains_peer p q peer x t =
      ground (arith, contains_key-insert p q peer t.piece_handler.peers)

  accept-answer :
      (p : P) (peer : BitTorrentPeer V I) (x : ShaHash) (t : Torrent P V I)
      → (accept_peer p peer x t).1 ≡ (if eq_hash t.info_hash x then some tt else none)
  unfolding accept_peer
  accept-answer p peer x t = ground arith

  accept-holders :
      (p q : P) (peer : BitTorrentPeer V I) (x : ShaHash) (m : List (ℕ × Torrent P V I))
      → associated p m ≡ false
      → holders q (first_mut (accept_peer p peer x) m).0
        ≡ (if has_info_hash x m then holders q m + hit p q else holders q m)
  unfolding first_mut associated has_info_hash
  accept-holders p q peer x [] h = refl
  accept-holders p q peer x ((id, t) ∷ m) h = elim (Bool-cases (eq_hash t.info_hash x)) [
    | inl y ↦
        ground (arith, accept-answer p peer x t, accept-contains_peer p q peer x t, same_iff p q)
    | inr y ↦ ground (
      arith,
      accept-answer p peer x t,
      accept-contains_peer p q peer x t,
      accept-holders p q peer x m,
    )
  ]

  accept-found :
      (p : P) (peer : BitTorrentPeer V I) (x : ShaHash) (m : List (ℕ × Torrent P V I))
      → ((first_mut (accept_peer p peer x) m).1 ≡ none) ↔ (has_info_hash x m ≡ false)
  unfolding first_mut has_info_hash
  accept-found p peer x [] = ground arith
  accept-found p peer x ((id, t) ∷ m) =
      ground (arith, accept-answer p peer x t, accept-found p peer x m)

  -- A handshake that a remote opens is answered with the torrent's info hash and the client's own
  -- hash, and the peer then takes part in exactly one torrent and no other peer's torrents change;
  -- or it is refused, the pool as it was, because the peer takes part in a torrent already or no
  -- torrent has the info hash.
  pub on_handshake_request_lem :
      (now now' : I) (p : P) (handshake : Handshake) (pool : TorrentPool P V I)
      → (((on_handshake_request now now' p handshake pool).1
            ≡ ok (new_handshake handshake.info_hash pool.local_peer_hash))
          × (has_info_hash handshake.info_hash pool.torrents ≡ true)
          × (holders p pool.torrents ≡ 0)
          × ((q : P)
              → holders q (on_handshake_request now now' p handshake pool).0.torrents
                ≡ holders q pool.torrents + hit p q))
        ⊎ ((error : HandshakeError P) × (on_handshake_request now now' p handshake pool
              ≡ (pool, err error))
            × ((holders p pool.torrents ≢ 0)
                ⊎ (has_info_hash handshake.info_hash pool.torrents ≡ false)))
  unfolding on_handshake_request is_associated at_first new_handshake
  on_handshake_request_lem now now' p handshake pool =
      let m = pool.torrents in
      let x = handshake.info_hash in
      let peer : BitTorrentPeer V I = new_peer handshake.peer_id now now' in
      elim (Bool-cases (associated p m)) [
        | inl y ↦
            inr (invalid_peer p none, ground arith, inl (ground (arith, associated-holders p m)))
        | inr y ↦ elim (Option-cases (first_mut (accept_peer p peer x) m).1) [
          | inl n ↦
              inr (info_hash_mismatch p none, ground arith, inr ((accept-found p peer x m).0 n))
          | inr (a, n) ↦ inl (
            ground arith,
            ground (arith, accept-found p peer x m),
            (associated-holders p m).0 y,
            λ q. ground (arith, accept-found p peer x m, accept-holders p q peer x m y),
          )
        ]
      ]
