-- ===== src/Peer/Handler/Select.antt =====
-- Which piece is chosen next, and that the two strategies of `src/peer/piece.rs` choose alike.
use libp2p_bittorrent_protoc.Base.{
  ℕ, zero, suc, ◌+◌, ◌<◌, ◌≡◌, ◌≢◌, refl, sym, ap, ◌∙◌, inl, inr, Bool, true, false, not, ◌&&◌,
  List, [], ◌∷◌, Option, none, some, arith, length, All, get_elem?, Option-cases, Bool-cases,
  if◌then◌else◌, ◌==◌, nat_eq,
}
use libp2p_bittorrent_protoc.Base.Map.{keys}
use libp2p_bittorrent_protoc.Base.Vec.{count}
use libp2p_bittorrent_protoc.Crates.BitVec.{BitVec}
use libp2p_bittorrent_protoc.Crates.Rng.{Rng}
use libp2p_bittorrent_protoc.Peer.State.{BitTorrentPeer, remote_can_seed_piece}
use libp2p_bittorrent_protoc.Peer.Buffer.{PieceBuffer}
use libp2p_bittorrent_protoc.Peer.Handler.{
  TorrentPieceHandler, PieceSelection, random, rarest, collect_seeders, is_current, missing_from,
  missing_piece_indices, buffer_for, first_piece, rarest_piece, any_can_seed, next_random_piece,
  next_least_common_piece, next_piece_buffer,
}

-- the piece that is being downloaded
abbrev pub current_piece : {P V I : Type 0} → TorrentPieceHandler P V I → Option ℕ
current_piece h = elim h.piece_buffer [ none ↦ none | some b ↦ some b.piece_index ]

missing_from_sound :
    (i : ℕ) (current : Option ℕ) (bits : List Bool) (j : ℕ)
    → 0 < count j (missing_from i current bits)
    → (k : ℕ) × (j ≡ i + k) × (get_elem? bits k ≡ some false) × (is_current current j ≡ false)
unfolding missing_from
missing_from_sound i current [] j h = absurd (omega arith)
missing_from_sound i current (bit ∷ bits) j h =
    elim (Bool-cases (not bit && not (is_current current i))) [
      | inl t ↦ elim (Bool-cases (i == j)) [
        | inl q ↦ (0, ground arith, ground arith, ground arith)
        | inr q ↦
            let (k, p, g, c) = missing_from_sound (i + 1) current bits j (ground arith) in
            (suc k, omega arith, g, c)
      ]
      | inr t ↦
          let (k, p, g, c) = missing_from_sound (i + 1) current bits j (ground arith) in
          (suc k, omega arith, g, c)
    ]

missing_from_complete :
    (i : ℕ) (current : Option ℕ) (bits : List Bool) (k : ℕ)
    → get_elem? bits k ≡ some false
    → is_current current (i + k) ≡ false
    → 0 < count (i + k) (missing_from i current bits)
unfolding missing_from
missing_from_complete i current [] k g c = cc
missing_from_complete i current (bit ∷ bits) zero g c =
    let e : i + 0 ≡ i = omega arith in
    let c' : is_current current i ≡ false = rw e at c in rw e (ground arith)
missing_from_complete i current (bit ∷ bits) (suc k) g c =
    let e : i + suc k ≡ i + 1 + k = omega arith in
    let ih = missing_from_complete (i + 1) current bits k g (rw e at c) in rw e (ground arith)

module _ {P V I : Type 0} ⦃v : BitVec V⦄ where
  -- every peer can seed the piece
  abbrev pub EveryCanSeed : ℕ → List (P × BitTorrentPeer V I) → Type 0
  EveryCanSeed i = All (λ q. remote_can_seed_piece i q.1 ≡ true)

  pub collect_seeders_sound :
      (i : ℕ) (peers : List (P × BitTorrentPeer V I)) (ids : List P)
      → collect_seeders i peers ≡ some ids
      → (ids ≡ keys peers) × EveryCanSeed i peers
  unfolding collect_seeders
  collect_seeders_sound i [] ids h = (ground arith, tt)
  collect_seeders_sound i ((p, peer) ∷ peers) ids h =
      elim (Option-cases (collect_seeders i peers)) [
        | inl n ↦ absurd (ground arith)
        | inr (rest, s) ↦
            let (a, b) = collect_seeders_sound i peers rest s in (ground arith, (ground arith, b))
      ]

  collect_seeders_complete :
      (i : ℕ) (peers : List (P × BitTorrentPeer V I))
      → EveryCanSeed i peers
      → collect_seeders i peers ≡ some (keys peers)
  unfolding collect_seeders
  collect_seeders_complete i [] a = refl
  collect_seeders_complete i ((p, peer) ∷ peers) a =
      ground (arith, collect_seeders_complete i peers a.1, a.0)

  length-collect_seeders :
      (i : ℕ) (peers : List (P × BitTorrentPeer V I)) (ids : List P)
      → collect_seeders i peers ≡ some ids
      → length ids ≡ length peers
  length-collect_seeders i peers ids h =
      ap length (collect_seeders_sound i peers ids h).0 ∙ length-keys peers
    where
      length-keys : (l : List (P × BitTorrentPeer V I)) → length (keys l) ≡ length l
      length-keys [] = refl
      length-keys (x ∷ l) = ap suc (length-keys l)

  first_piece_sound :
      (h : TorrentPieceHandler P V I) (l : List ℕ) (b : PieceBuffer P)
      → first_piece h l ≡ some b
      → (i : ℕ) × (0 < count i l) × EveryCanSeed i h.peers × (b ≡ buffer_for h i (keys h.peers))
  unfolding first_piece
  first_piece_sound h [] b e = cc
  first_piece_sound h (i ∷ l) b e = elim (Option-cases (collect_seeders i h.peers)) [
    | inl n ↦ let (j, c, a, s) = first_piece_sound h l b (ground arith) in (j, ground arith, a, s)
    | inr (ids, s) ↦
        let (k, a) = collect_seeders_sound i h.peers ids s in (i, ground arith, a, ground arith)
  ]

  first_piece-none :
      (h : TorrentPieceHandler P V I) (l : List ℕ) (i : ℕ)
      → first_piece h l ≡ none
      → 0 < count i l
      → ¬ EveryCanSeed i h.peers
  unfolding first_piece
  first_piece-none h [] i e c = absurd (omega arith)
  first_piece-none h (j ∷ l) i e c = elim (Option-cases (collect_seeders j h.peers)) [
    | inr (ids, s) ↦ absurd (ground arith)
    | inl n ↦ elim (Bool-cases (j == i)) [
      | inl q ↦ λ a.
          let same_piece : j ≡ i = ground arith in
          absurd (ground (arith, collect_seeders_complete i h.peers a))
      | inr q ↦ first_piece-none h l i (ground arith) (ground arith)
    ]
  ]

  -- The loop for the rarest piece never replaces its first candidate.
  rarest_piece_kept :
      (h : TorrentPieceHandler P V I) (l : List ℕ) (i : ℕ) (ids : List P)
      → length ids ≡ length h.peers
      → length ids ≢ 1
      → rarest_piece h l (some (i, ids)) ≡ some (buffer_for h i ids)
  unfolding rarest_piece
  rarest_piece_kept h [] i ids e n = refl
  rarest_piece_kept h (j ∷ l) i ids e n = elim (Option-cases (collect_seeders j h.peers)) [
    | inl q ↦ ground (arith, rarest_piece_kept h l i ids e n)
    | inr (found, q) ↦
        ground (arith, rarest_piece_kept h l i ids e n, length-collect_seeders j h.peers found q)
  ]

  rarest_piece_first :
      (h : TorrentPieceHandler P V I) (l : List ℕ) → rarest_piece h l none ≡ first_piece h l
  unfolding rarest_piece first_piece
  rarest_piece_first h [] = refl
  rarest_piece_first h (j ∷ l) = elim (Option-cases (collect_seeders j h.peers)) [
    | inl q ↦ ground (arith, rarest_piece_first h l)
    | inr (found, q) ↦ ground (
      arith,
      length-collect_seeders j h.peers found q,
      rarest_piece_kept h l j found (length-collect_seeders j h.peers found q),
    )
  ]

module _ {P V I R : Type 0} ⦃v : BitVec V⦄ ⦃r : Rng R⦄ where
  -- The strategy for rare pieces compares no rarities: where some peer can seed, it picks the
  -- piece that the random strategy picks with the same shuffle, and nothing otherwise.
  pub next_least_common-next_random :
      (rnd : R) (h : TorrentPieceHandler P V I)
      → next_least_common_piece rnd h
        ≡ (if any_can_seed h.peers then next_random_piece rnd h else none)
  unfolding next_least_common_piece next_random_piece
  next_least_common-next_random rnd h = elim (Bool-cases (any_can_seed h.peers)) [
    | inl t ↦ ground (arith, rarest_piece_first h (r.shuffle rnd (missing_piece_indices h)))
    | inr t ↦ ground arith
  ]

  -- Whichever the strategy, a chosen piece is missing, is not the one in the buffer, can be seeded
  -- by every peer of the torrent, and is given a new buffer with all of them.
  pub next_piece_buffer-some :
      (rnd : R) (h : TorrentPieceHandler P V I) (b : PieceBuffer P)
      → next_piece_buffer rnd h ≡ some b
      → (i : ℕ) × (v.get h.bitfield.inner i ≡ some false)
        × (is_current (current_piece h) i ≡ false)
        × EveryCanSeed i h.peers
        × (b ≡ buffer_for h i (keys h.peers))
  unfolding next_piece_buffer next_random_piece missing_piece_indices
  next_piece_buffer-some rnd h b e =
      let l = missing_from 0 (current_piece h) (v.iter h.bitfield.inner) in
      let (i, c, a, s) =
        first_piece_sound h (r.shuffle rnd l) b (chosen h.selection_strategy refl) in
      let (k, p, g, d) =
        missing_from_sound 0 (current_piece h) (v.iter h.bitfield.inner) i
          (omega (arith, c, r.count-shuffle rnd i l)) in
      let z : i ≡ k = omega (arith, p) in
      let seen : get_elem? (v.iter h.bitfield.inner) i ≡ some false = rw z g in
      (i, v.get_lem h.bitfield.inner i ∙ seen, d, a, s)
    where
      chosen : (s : PieceSelection) → h.selection_strategy ≡ s → next_random_piece rnd h ≡ some b
      chosen random q = ground arith
      chosen rarest q = ground (arith, next_least_common-next_random rnd h)

  -- The random strategy gives up only where each missing piece has a peer that cannot seed it.
  pub next_random_piece-none :
      (rnd : R) (h : TorrentPieceHandler P V I) (i : ℕ)
      → next_random_piece rnd h ≡ none
      → v.get h.bitfield.inner i ≡ some false
      → is_current (current_piece h) i ≡ false
      → ¬ EveryCanSeed i h.peers
  unfolding next_random_piece missing_piece_indices
  next_random_piece-none rnd h i e g c =
      let l = missing_from 0 (current_piece h) (v.iter h.bitfield.inner) in
      let z : 0 + i ≡ i = omega arith in
      let found =
        missing_from_complete 0 (current_piece h) (v.iter h.bitfield.inner) i
          (sym (v.get_lem h.bitfield.inner i) ∙ g) (rw z c) in
      first_piece-none h (r.shuffle rnd l) i e
        (omega (arith, r.count-shuffle rnd i l, rw z at found))
