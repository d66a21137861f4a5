-- ===== src/Peer/Handler/Keeps.antt =====
-- The operations of `src/peer/piece.rs` that add peers or start pieces keep the handler's invariant.
use libp2p_bittorrent_protoc.Base.{
  ℕ, ◌≤◌, ◌≡◌, inl, inr, not, List, Option, none, some, Result, ok, err, arith, Option-cases,
  Bool-cases, if◌then◌else◌, Eq, ltb,
}
use libp2p_bittorrent_protoc.Base.Map
use libp2p_bittorrent_protoc.Base.Map.{keys, get}
use libp2p_bittorrent_protoc.Base.Map.Counts.{count_of_get}
use libp2p_bittorrent_protoc.Base.Vec.{count, push}
use libp2p_bittorrent_protoc.Crates.BitVec.{BitVec}
use libp2p_bittorrent_protoc.Crates.Rng.{Rng}
use libp2p_bittorrent_protoc.Disk.Block.{Block}
use libp2p_bittorrent_protoc.Peer.State.{
  BitTorrentPeer, choked, un_choked, remote_can_seed_piece, has_bitfield, add_piece,
}
use libp2p_bittorrent_protoc.Peer.Buffer.{PieceBuffer, next, is_full_piece, try_finalize_piece}
use libp2p_bittorrent_protoc.Peer.Buffer
use libp2p_bittorrent_protoc.Peer.Buffer.Tracked.{roles, new-IsTracked}
use libp2p_bittorrent_protoc.Peer.Handler.{
  TorrentPieceHandler, TorrentPieceHandlerState, piece_finished, set_piece, next_piece_buffer,
  buffer_for,
}
use libp2p_bittorrent_protoc.Peer.Handler.Select.{next_piece_buffer-some}
use libp2p_bittorrent_protoc.Peer.Handler.Sound.{IsSound, IsStaffed, BufferSound}
use libp2p_bittorrent_protoc.Peer.Handler.Steps.{
  staffed-remove_peer, staffed-more, IsStaffed-push, IsStaffed-next, insert-single, insert-grows,
  insert-there, get_of_contains, update_peer-IsSound,
}
use libp2p_bittorrent_protoc.Peer.Handler.Events.{
  insert_peer, set_choke_on_remote, set_peer_piece, poll, get_peer,
}

-- no role in the buffer, where there is one
abbrev pub IsIdle : {P : Type 0} ⦃e : Eq P⦄ → P → Option (PieceBuffer P) → Type 0
IsIdle id none = Unit {0}
IsIdle id (some b) = roles id b ≡ 0

module _ {P V I : Type 0} ⦃e : Eq P⦄ ⦃v : BitVec V⦄ where
  staffed-insert :
      (id : P) (peer : BitTorrentPeer V I) (m : List (P × BitTorrentPeer V I))
      (o : Option (PieceBuffer P))
      → BufferSound (keys m) o
      → BufferSound (keys (Map.insert id peer m)) (elim o [
        | none ↦ none
        | some b ↦
            if remote_can_seed_piece b.piece_index peer
            then (if not (Map.contains_key id m)
                then some (record b { peers = push b.peers id })
                else some b)
            else some b
      ])
  staffed-insert id peer m none s = tt
  staffed-insert id peer m (some b) s =
      let kept =
        staffed-more (keys m) (keys (Map.insert id peer m)) (some b) (insert-grows id peer m) s in
      elim (Bool-cases (remote_can_seed_piece b.piece_index peer)) [
        | inr n ↦ rw n kept
        | inl y ↦ elim (Bool-cases (Map.contains_key id m)) [
          | inl known ↦ rw (y, known) kept
          | inr fresh ↦
              let absent = count_of_get id m (get_of_contains id m fresh) in
              rw (y, fresh)
                (IsStaffed-push id (keys m) (keys (Map.insert id peer m)) b
                  (omega (arith, absent, s.members id)) (insert-there id peer m)
                  (insert-grows id peer m) s)
        ]
      ]

  pub insert_peer-IsSound :
      (id : P) (peer : BitTorrentPeer V I) (h : TorrentPieceHandler P V I)
      → IsSound h
      → IsSound (insert_peer id peer h).0
  unfolding insert_peer
  insert_peer-IsSound id peer h s = record {
    single = insert-single id peer h.peers s.single;
    buffer = staffed-insert id peer h.peers h.piece_buffer s.buffer;
  }

  staffed-un_choke :
      (id : P) (peer : BitTorrentPeer V I) (m : List (P × BitTorrentPeer V I))
      (o : Option (PieceBuffer P))
      → IsIdle id o
      → BufferSound (keys m) o
      → BufferSound (keys (Map.insert id peer m)) (elim o [
        | none ↦ none
        | some b ↦
            if remote_can_seed_piece b.piece_index peer
            then some (record b { peers = push b.peers id })
            else some b
      ])
  staffed-un_choke id peer m none z s = tt
  staffed-un_choke id peer m (some b) z s =
      elim (Bool-cases (remote_can_seed_piece b.piece_index peer)) [
        | inr n ↦ rw n (
            staffed-more (keys m) (keys (Map.insert id peer m)) (some b) (insert-grows id peer m) s)
        | inl y ↦ rw y (
            IsStaffed-push id (keys m) (keys (Map.insert id peer m)) b z (insert-there id peer m)
              (insert-grows id peer m) s)
      ]

  pub un_choke-IsSound :
      (id : P) (h : TorrentPieceHandler P V I)
      → IsIdle id h.piece_buffer
      → IsSound h
      → IsSound (set_choke_on_remote id un_choked h).0
  unfolding set_choke_on_remote get_peer
  un_choke-IsSound id h z s = elim (Option-cases (get id h.peers)) [
    | inl n ↦ rw (n, set_choke_on_remote, get_peer) s
    | inr (old, g) ↦
        rw (g, set_choke_on_remote, get_peer)
          (record {
            single = insert-single id _ h.peers s.single;
            buffer = staffed-un_choke id _ h.peers h.piece_buffer z s.buffer;
          })
  ]

  pub choke-IsSound :
      (id : P) (h : TorrentPieceHandler P V I)
      → IsSound h
      → IsSound (set_choke_on_remote id choked h).0
  unfolding set_choke_on_remote get_peer
  choke-IsSound id h s = elim (Option-cases (get id h.peers)) [
    | inl n ↦ rw (n, set_choke_on_remote, get_peer) s
    | inr (old, g) ↦
        let peer = record old { remote_choke = choked } in
        rw (g, set_choke_on_remote, get_peer)
          (record {
            single = insert-single id peer h.peers s.single;
            buffer =
                staffed-remove_peer id (keys h.peers) (keys (Map.insert id peer h.peers))
                  h.piece_buffer (λ p. ground (arith, insert-grows id peer h.peers p)) s.buffer;
          })
  ]

  pub set_peer_piece-IsSound :
      (id : P) (i : ℕ) (h : TorrentPieceHandler P V I)
      → IsSound h
      → IsSound (set_peer_piece id i h).0
  unfolding set_peer_piece get_peer
  set_peer_piece-IsSound id i h s = elim (Option-cases (get id h.peers)) [
    | inl n ↦ rw (n, set_peer_piece, get_peer) s
    | inr (old, g) ↦ elim (Bool-cases (has_bitfield old)) [
      | inl y ↦ rw (g, y, set_peer_piece, get_peer) (update_peer-IsSound id (add_piece i old).0 h s)
      | inr n ↦ elim (Bool-cases (ltb i (v.len h.bitfield.inner))) [
        | inl y ↦ rw (g, n, y, set_peer_piece, get_peer) (update_peer-IsSound id _ h s)
        | inr y ↦ rw (g, n, y, set_peer_piece, get_peer) s
      ]
    ]
  ]

  pub set_piece-IsSound :
      (i : ℕ) (h : TorrentPieceHandler P V I) → IsSound h → IsSound (set_piece i h).0
  unfolding set_piece
  set_piece-IsSound i h s = elim (Bool-cases (ltb i (v.len h.bitfield.inner))) [
    | inl y ↦ rw (y, set_piece) (record { single = s.single; buffer = s.buffer })
    | inr y ↦ rw (y, set_piece) s
  ]

module _ {P V I R : Type 0} ⦃e : Eq P⦄ ⦃v : BitVec V⦄ ⦃r : Rng R⦄ where
  chosen-IsStaffed :
      (rnd : R) (h : TorrentPieceHandler P V I) (b : PieceBuffer P)
      → ((p : P) → count p (keys h.peers) ≤ 1)
      → next_piece_buffer rnd h ≡ some b
      → IsStaffed (keys h.peers) b
  unfolding buffer_for Buffer.new
  chosen-IsStaffed rnd h b s n =
      let (i, _, _, _, q) = next_piece_buffer-some rnd h b n in
      rw q
        (record { tracked = new-IsTracked i _ h.id (keys h.peers) s; members = λ p. omega arith })

  pub poll-IsSound : (rnd : R) (h : TorrentPieceHandler P V I) → IsSound h → IsSound (poll rnd h).0
  unfolding poll
  poll-IsSound rnd h s = elim (Option-cases h.piece_buffer) [
    | inr (b, n) ↦
        let t : IsStaffed (keys h.peers) b = rw n at s.buffer in
        elim (Bool-cases (is_full_piece b)) [
          | inr y ↦
              rw (n, y, poll)
                (record { single = s.single; buffer = IsStaffed-next (keys h.peers) b t })
          | inl y ↦ rw (n, y, poll) (finished_sound b (try_finalize_piece b))
        ]
    | inl n ↦ elim (Bool-cases h.finished) [
      | inl y ↦ rw (n, y, poll) (record { single = s.single; buffer = rw n tt })
      | inr y ↦ elim (Bool-cases (v.all h.bitfield.inner)) [
        | inl a ↦ rw (n, y, a, poll) (record { single = s.single; buffer = rw n tt })
        | inr a ↦ elim (Option-cases (next_piece_buffer rnd h)) [
          | inl q ↦ let e : (poll rnd h).0 ≡ h = ground arith in rw e s
          | inr (b, q) ↦
              let e : (poll rnd h).0 ≡ record h { piece_buffer = some (next b).0 } = ground arith in
              rw e (record {
                single = s.single;
                buffer = IsStaffed-next (keys h.peers) b (chosen-IsStaffed rnd h b s.single q);
              })
        ]
      ]
    ]
  ]
    where
      finished_sound :
          (b : PieceBuffer P) (f : Result Block Buffer.TorrentError)
          → IsSound
              (elim f as (λ _. TorrentPieceHandler P V I × TorrentPieceHandlerState P) [
                | ok block ↦ (
                  (set_piece block.metadata.piece_index (record h { piece_buffer = none })).0,
                  piece_finished (ok block),
                )
                | err x ↦ (record h { piece_buffer = none }, piece_finished (err x))
              ]).0
      finished_sound b (ok block) =
          set_piece-IsSound block.metadata.piece_index (record h { piece_buffer = none })
            (record { single = s.single; buffer = tt })
      finished_sound b (err x) = record { single = s.single; buffer = tt }
