-- ===== src/Peer/Pool/Candidates.antt =====
-- Which peers a pool of `src/peer/torrent.rs` proposes for a torrent, and how it splits its torrents.
use libp2p_bittorrent_protoc.Base.{
  ℕ, ◌≡◌, ◌≢◌, ◌∙◌, refl, inl, inr, Bool, true, false, not, List, [], ◌∷◌, ◌++◌, none, some, ok,
  arith, Bool-cases, if◌then◌else◌, Eq, nat_eq, same_iff, filter, flat_map,
}
use libp2p_bittorrent_protoc.Base.Map.{values, keys, contains_key, contains_key-insert}
use libp2p_bittorrent_protoc.Base.Sets.{contains}
use libp2p_bittorrent_protoc.Crates.BitVec.{BitVec}
use libp2p_bittorrent_protoc.Hash.{ShaHash, eq_hash, eq_hash_iff}
use libp2p_bittorrent_protoc.Wire.Message.{Handshake}
use libp2p_bittorrent_protoc.Peer.State.{BitTorrentPeer, new_peer}
use libp2p_bittorrent_protoc.Peer.Handler.Events.{insert_peer}
use libp2p_bittorrent_protoc.Peer.Torrent.{Torrent, contains_peer, on_handler}
use libp2p_bittorrent_protoc.Peer.Pool.{
  TorrentPool, first_mut, at_first, associated, is_associated, accept_peer, on_handshake_request,
}
use libp2p_bittorrent_protoc.Peer.Pool.Queries.{
  is_seed_only, iter, iter_peer_ids, iter_candidate_peer_ids, iter_leeching, iter_complete_seeds,
}
use mathlib.Core.List.{Perm, perm_middle}
use mathlib.Core.List.Perm

module _ {P : Type 0} ⦃e : Eq P⦄ where
  contains-append :
      (p : P) (xs ys : List P)
      → contains p (xs ++ ys) ≡ (if contains p xs then true else contains p ys)
  unfolding contains
  contains-append p [] ys = refl
  contains-append p (x ∷ xs) ys = ground (arith, contains-append p xs ys)

module _ {P V I : Type 0} ⦃e : Eq P⦄ where
  contains-keys :
      (p : P) (m : List (P × BitTorrentPeer V I)) → contains p (keys m) ≡ contains_key p m
  unfolding contains contains_key
  contains-keys p [] = refl
  contains-keys p ((q, peer) ∷ m) = ground (arith, contains-keys p m)

  -- the peers that are proposed for the torrents of an info hash
  abbrev candidates : ShaHash → List (ℕ × Torrent P V I) → List P
  candidates x m = flat_map iter_peer_ids (filter (λ t. not (eq_hash t.info_hash x)) (values m))

  -- a torrent more
  candidates-cons :
      (p : P) (y : ShaHash) (id : ℕ) (t : Torrent P V I) (m : List (ℕ × Torrent P V I))
      → contains p (candidates y ((id, t) ∷ m)) ≡ (
          if eq_hash t.info_hash y
          then contains p (candidates y m)
          else if contains_peer p t
          then true
          else contains p (candidates y m))
  unfolding iter_peer_ids contains_peer
  candidates-cons p y id t m = elim (Bool-cases (eq_hash t.info_hash y)) [
    | inl h ↦ rw (h) refl
    | inr h ↦
        rw
          (
            h,
            contains-append p (keys t.piece_handler.peers) (candidates y m),
            contains-keys p t.piece_handler.peers,
          )
          refl
  ]

  associated-cons :
      (p : P) (id : ℕ) (t : Torrent P V I) (m : List (ℕ × Torrent P V I))
      → associated p ((id, t) ∷ m) ≡ false
      → (contains_peer p t ≡ false) × (associated p m ≡ false)
  unfolding associated
  associated-cons p id t m h = ground arith

  associated-candidates :
      (p : P) (y : ShaHash) (m : List (ℕ × Torrent P V I))
      → associated p m ≡ false
      → contains p (candidates y m) ≡ false
  unfolding associated contains
  associated-candidates p y [] h = refl
  associated-candidates p y ((id, t) ∷ m) h =
      ground (arith, candidates-cons p y id t m, associated-candidates p y m)

module _ {P V I : Type 0} ⦃e : Eq P⦄ ⦃v : BitVec V⦄ where
  accept-none :
      (p : P) (peer : BitTorrentPeer V I) (x : ShaHash) (t : Torrent P V I)
      → eq_hash t.info_hash x ≡ false
      → accept_peer p peer x t ≡ (t, none)
  unfolding accept_peer
  accept-none p peer x t h = rw (accept_peer, h) refl

  accept-some :
      (p : P) (peer : BitTorrentPeer V I) (x : ShaHash) (t : Torrent P V I)
      → eq_hash t.info_hash x ≡ true
      → ((accept_peer p peer x t).1 ≡ some tt)
        × ((accept_peer p peer x t).0.info_hash ≡ t.info_hash)
        × (contains_peer p (accept_peer p peer x t).0 ≡ true)
  unfolding accept_peer on_handler insert_peer contains_peer
  accept-some p peer x t h = (
    rw (h) refl,
    rw (h) refl,
    rw (h, contains_key-insert p p peer t.piece_handler.peers) ground (arith, same_iff p p),
  )

  none_found :
      (p : P) (peer : BitTorrentPeer V I) (x : ShaHash)
      → (first_mut (accept_peer p peer x) []).1 ≡ none
  unfolding first_mut
  none_found p peer x = refl

  accept-first :
      (p : P) (peer : BitTorrentPeer V I) (x : ShaHash) (id : ℕ) (t : Torrent P V I)
      (m : List (ℕ × Torrent P V I))
      → eq_hash t.info_hash x ≡ true
      → (first_mut (accept_peer p peer x) ((id, t) ∷ m)).0 ≡ (id, (accept_peer p peer x t).0) ∷ m
  unfolding first_mut
  accept-first p peer x id t m h = ground (arith, accept-some p peer x t h)

  accept-later :
      (p : P) (peer : BitTorrentPeer V I) (x : ShaHash) (id : ℕ) (t : Torrent P V I)
      (m : List (ℕ × Torrent P V I))
      → eq_hash t.info_hash x ≡ false
      → first_mut (accept_peer p peer x) ((id, t) ∷ m)
        ≡ ((id, t) ∷ (first_mut (accept_peer p peer x) m).0, (first_mut (accept_peer p peer x) m).1)
  unfolding first_mut
  accept-later p peer x id t m h = ground (arith, accept-none p peer x t h)

  -- the peer in the torrent that took it
  accept-candidates :
      (p : P) (peer : BitTorrentPeer V I) (x y : ShaHash) (m : List (ℕ × Torrent P V I))
      → associated p m ≡ false
      → (first_mut (accept_peer p peer x) m).1 ≢ none
      → contains p (candidates y (first_mut (accept_peer p peer x) m).0) ≡ not (eq_hash x y)
  accept-candidates p peer x y [] h n = absurd (n (none_found p peer x))
  accept-candidates p peer x y ((id, t) ∷ m) h n = elim (Bool-cases (eq_hash t.info_hash x)) [
    | inl k ↦
        let (found, kept, present) = accept-some p peer x t k in
        let asked : (accept_peer p peer x t).0.info_hash ≡ x =
          kept ∙ (eq_hash_iff t.info_hash x).0 k in
        rw
          (
            accept-first p peer x id t m k,
            candidates-cons p y id (accept_peer p peer x t).0 m,
            asked,
            present,
            associated-candidates p y m (associated-cons p id t m h).1,
          )
          ground arith
    | inr k ↦
        let later = accept-later p peer x id t m k in
        rw
          (
            later,
            candidates-cons p y id t (first_mut (accept_peer p peer x) m).0,
            accept-candidates p peer x y m (associated-cons p id t m h).1 (λ q. n (rw (later) q)),
            (associated-cons p id t m h).0,
          )
          ground arith
  ]

  accepted_torrents :
      (now now' : I) (p : P) (handshake : Handshake) (pool : TorrentPool P V I) (answer : Handshake)
      → (on_handshake_request now now' p handshake pool).1 ≡ ok answer
      → let accept =
          accept_peer {V = V} p (new_peer handshake.peer_id now now') handshake.info_hash in
        (associated p pool.torrents ≡ false)
        × ((first_mut accept pool.torrents).1 ≢ none)
        × ((on_handshake_request now now' p handshake pool).0.torrents
            ≡ (first_mut accept pool.torrents).0)
  unfolding on_handshake_request is_associated at_first
  accepted_torrents now now' p handshake pool answer h = ground arith

  -- The remote whose handshake is accepted is a candidate for the torrents of every info hash but the
  -- one it asked for.
  pub on_handshake_request-iter_candidate_peer_ids :
      (now now' : I) (p : P) (handshake : Handshake) (y : ShaHash) (pool : TorrentPool P V I)
      (answer : Handshake)
      → (on_handshake_request now now' p handshake pool).1 ≡ ok answer
      → contains p (iter_candidate_peer_ids y (on_handshake_request now now' p handshake pool).0)
        ≡ not (eq_hash handshake.info_hash y)
  unfolding iter_candidate_peer_ids
  on_handshake_request-iter_candidate_peer_ids now now' p handshake y pool answer h =
      let (free, found, same_torrents) = accepted_torrents now now' p handshake pool answer h in
      rw (same_torrents) (
        accept-candidates p (new_peer handshake.peer_id now now') handshake.info_hash y
          pool.torrents free found)

-- the two parts of a list
split-Perm :
    {A : Type 0} (f : A → Bool) (xs : List A) → Perm (filter (λ x. not (f x)) xs ++ filter f xs) xs
split-Perm f [] = Perm.refl []
split-Perm f (x ∷ xs) = elim (Bool-cases (f x)) [
  | inl h ↦ rw (h) (
      Perm.trans (perm_middle (filter (λ x. not (f x)) xs) (filter f xs))
        (Perm.cons x (split-Perm f xs)))
  | inr h ↦ rw (h) (Perm.cons x (split-Perm f xs))
]

module _ {P V I : Type 0} where
  -- The torrents that leech and those that the client has all of are the torrents of the pool, each
  -- counted once.
  pub iter_leeching-iter_complete_seeds :
      (pool : TorrentPool P V I) → Perm (iter_leeching pool ++ iter_complete_seeds pool) (iter pool)
  unfolding iter_leeching iter_complete_seeds iter
  iter_leeching-iter_complete_seeds pool =
      split-Perm (λ t. is_seed_only t.seed_leech) (values pool.torrents)
