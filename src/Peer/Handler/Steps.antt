-- ===== src/Peer/Handler/Steps.antt =====
-- Everything that happens to a torrent's handler keeps its invariant.
use libp2p_bittorrent_protoc.Base.{
  ◌≤◌, ◌<◌, ◌≡◌, refl, inl, inr, false, List, [], ◌∷◌, Option, none, some, arith, Option-cases,
  if◌then◌else◌, Eq, same, same_iff, same_refl,
}
use libp2p_bittorrent_protoc.Base.Map
use libp2p_bittorrent_protoc.Base.Map.{keys, get, values, get-insert}
use libp2p_bittorrent_protoc.Base.Map.Counts.{count_of_get, count-keys-remove, count-keys-insert}
use libp2p_bittorrent_protoc.Base.Vec.{count, push, count-push}
use libp2p_bittorrent_protoc.Disk.Block.{Block}
use libp2p_bittorrent_protoc.Peer.State.{BitTorrentPeer}
use libp2p_bittorrent_protoc.Peer.Buffer.{PieceBuffer, next, is_full_piece, try_finalize_piece}
use libp2p_bittorrent_protoc.Peer.Buffer
use libp2p_bittorrent_protoc.Peer.Buffer.Tracked.{roles, remove_peer-IsTracked, next-IsTracked}
use libp2p_bittorrent_protoc.Peer.Buffer.Accept.{add_block-IsTracked}
use libp2p_bittorrent_protoc.Peer.Buffer.Runs.{joined}
use libp2p_bittorrent_protoc.Peer.Handler.{TorrentPieceHandler}
use libp2p_bittorrent_protoc.Peer.Handler.Sound.{
  IsSound, IsStaffed, BufferSound, roles-remove_peer, roles-next, roles-add_block,
  count-keys-replace,
}
use libp2p_bittorrent_protoc.Peer.Handler.Events.{remove_peer, add_block, update_peer, get_peer}

module _ {P : Type 0} ⦃e : Eq P⦄ where
  abbrev pub Distinct : List P → Type 0
  Distinct ids = (p : P) → count p ids ≤ 1

  -- the buffer without a peer, among the other peers
  pub staffed-remove_peer :
      (peer : P) (ids rest : List P) (o : Option (PieceBuffer P))
      → ((p : P) → (if same peer p then 0 else count p ids) ≤ count p rest)
      → BufferSound ids o
      → BufferSound rest (elim o [ none ↦ none | some b ↦ some (Buffer.remove_peer peer b).0 ])
  staffed-remove_peer peer ids rest none c s = tt
  staffed-remove_peer peer ids rest (some b) c s = record {
    tracked = remove_peer-IsTracked peer b s.tracked;
    members = λ p. ground (arith, c p, s.members p, roles-remove_peer peer p b s.tracked);
  }

  pub staffed-more :
      (ids more : List P) (o : Option (PieceBuffer P))
      → ((p : P) → count p ids ≤ count p more)
      → BufferSound ids o
      → BufferSound more o
  staffed-more ids more none c s = tt
  staffed-more ids more (some b) c s = record {
    tracked = s.tracked;
    members = λ p. omega (arith, c p, s.members p);
  }

  -- a peer that joins, known but idle
  pub IsStaffed-push :
      (peer : P) (ids more : List P) (b : PieceBuffer P)
      → roles peer b ≡ 0
      → 0 < count peer more
      → ((p : P) → count p ids ≤ count p more)
      → IsStaffed ids b
      → IsStaffed more (record b { peers = push b.peers peer })
  IsStaffed-push peer ids more b z k c s = record {
    tracked = joined b peer s.tracked z;
    members = λ p. ground (arith, c p, s.members p, same_iff peer p, count-push p b.peers peer);
  }

  pub IsStaffed-next :
      (ids : List P) (b : PieceBuffer P) → IsStaffed ids b → IsStaffed ids (next b).0
  IsStaffed-next ids b s = record {
    tracked = next-IsTracked b s.tracked;
    members = λ p. omega (arith, s.members p, roles-next p b s.tracked);
  }

  module _ {V I : Type 0} where
    pub insert-single :
        (id : P) (peer : BitTorrentPeer V I) (m : List (P × BitTorrentPeer V I))
        → ((p : P) → count p (keys m) ≤ 1)
        → (p : P) → count p (keys (Map.insert id peer m)) ≤ 1
    insert-single id peer m s p = elim (Option-cases (get id m)) [
      | inl n ↦
          ground (arith, s p, count-keys-insert id p peer m n, count_of_get id m n, same_iff id p)
      | inr (old, g) ↦ omega (arith, s p, count-keys-replace id p peer old m g)
    ]

    pub insert-grows :
        (id : P) (peer : BitTorrentPeer V I) (m : List (P × BitTorrentPeer V I)) (p : P)
        → count p (keys m) ≤ count p (keys (Map.insert id peer m))
    insert-grows id peer m p = elim (Option-cases (get id m)) [
      | inl n ↦ omega (arith, count-keys-insert id p peer m n)
      | inr (old, g) ↦ omega (arith, count-keys-replace id p peer old m g)
    ]

    pub insert-there :
        (id : P) (peer : BitTorrentPeer V I) (m : List (P × BitTorrentPeer V I))
        → 0 < count id (keys (Map.insert id peer m))
    unfolding Map.insert
    insert-there id peer [] = ground (arith, same_refl id)
    insert-there id peer ((i, w) ∷ m) = ground (arith, same_refl id, insert-there id peer m)

    pub get_of_contains :
        (id : P) (m : List (P × BitTorrentPeer V I))
        → Map.contains_key id m ≡ false
        → get id m ≡ none
    unfolding Map.contains_key get
    get_of_contains id [] h = refl
    get_of_contains id ((i, w) ∷ m) h = ground (arith, get_of_contains id m)

    pub update_peer-IsSound :
        (id : P) (peer : BitTorrentPeer V I) (h : TorrentPieceHandler P V I)
        → IsSound h
        → IsSound (update_peer id peer h)
    unfolding update_peer
    update_peer-IsSound id peer h s = record {
      single = insert-single id peer h.peers s.single;
      buffer =
          staffed-more (keys h.peers) (keys (Map.insert id peer h.peers)) h.piece_buffer
            (insert-grows id peer h.peers) s.buffer;
    }

    pub remove_peer-IsSound :
        (id : P) (h : TorrentPieceHandler P V I) → IsSound h → IsSound (remove_peer id h).0
    unfolding remove_peer get_peer
    remove_peer-IsSound id h s = elim (Option-cases (get id h.peers)) [
      | inl n ↦ rw (n, remove_peer, get_peer) s
      | inr (old, g) ↦
          rw (g, remove_peer, get_peer)
            (record {
              single = λ p. ground (arith, s.single p, count-keys-remove id p h.peers);
              buffer =
                  staffed-remove_peer id (keys h.peers) (keys (Map.remove id h.peers))
                    h.piece_buffer (λ p. ground (arith, count-keys-remove id p h.peers)) s.buffer;
            })
    ]

    pub add_block-IsSound :
        (id : P) (block : Block) (h : TorrentPieceHandler P V I)
        → IsSound h
        → IsSound (add_block id block h).0
    unfolding add_block
    add_block-IsSound id block h s = elim (Option-cases h.piece_buffer) [
      | inl n ↦ rw (n, add_block) s
      | inr (b, n) ↦
          let t : IsStaffed (keys h.peers) b = rw n at s.buffer in
          rw (n, add_block)
            (record {
              single = s.single;
              buffer = record {
                tracked = add_block-IsTracked id block b t.tracked;
                members = λ p. omega (arith, t.members p, roles-add_block id p block b t.tracked);
              };
            })
    ]
