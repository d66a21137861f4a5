-- ===== src/Peer/Pool/Admission.antt =====
-- Which torrents and which peers a pool of `src/peer/torrent.rs` takes in, and which it drops.
use libp2p_bittorrent_protoc.Base.{
  ℕ, suc, ◌+◌, ◌≤◌, ◌<◌, ◌≡◌, ◌⊎◌, refl, inl, inr, true, false, List, [], ◌∷◌, none, some, ok, err,
  arith, Bool-cases, if◌then◌else◌, nat_eq, same, All, ltb,
}
use libp2p_bittorrent_protoc.Base.Map
use libp2p_bittorrent_protoc.Base.Map.{keys, get-insert}
use libp2p_bittorrent_protoc.Crates.BitVec.{BitVec}
use libp2p_bittorrent_protoc.Hash.{ShaHash, eq_hash, eq_hash_iff}
use libp2p_bittorrent_protoc.Peer.Handler
use libp2p_bittorrent_protoc.Peer.Torrent.{
  Torrent, TorrentState, active, paused, contains_peer, on_handler, is_active, state_is_active,
}
use libp2p_bittorrent_protoc.Peer.Torrent
use libp2p_bittorrent_protoc.Peer.Pool.{
  TorrentPool, TorrentConfig, has_info_hash, count_active, add_torrent, get,
}

module _ {P V I : Type 0} where
  -- how many torrents have the hash
  abbrev pub count_hash : ShaHash → List (ℕ × Torrent P V I) → ℕ
  count_hash x [] = 0
  count_hash x ((id, t) ∷ m) =
      if eq_hash t.info_hash x then suc (count_hash x m) else count_hash x m

  -- Identifiers are handed out once, each torrent is filed under its own, and no two torrents have
  -- one info hash.
  pub record IsAdmitted (pool : TorrentPool P V I) : Type 0 where
    pub fresh : All (λ q. q.0 < pool.next_unique_torrent) pool.torrents
    pub filed : All (λ q. q.1.id ≡ q.0) pool.torrents
    pub unique : (x : ShaHash) → count_hash x pool.torrents ≤ 1

  has_info_hash-count :
      (x : ShaHash) (m : List (ℕ × Torrent P V I)) → has_info_hash x m ≡ false → count_hash x m ≡ 0
  unfolding has_info_hash
  has_info_hash-count x [] h = refl
  has_info_hash-count x ((id, t) ∷ m) h = ground (arith, has_info_hash-count x m)

  fresh-get : (n : ℕ) (m : List (ℕ × Torrent P V I)) → All (λ q. q.0 < n) m → Map.get n m ≡ none
  unfolding Map.get
  fresh-get n [] a = refl
  fresh-get n ((id, t) ∷ m) a = ground (arith, fresh-get n m a.1, a.0)

  insert-All :
      (p : ℕ × Torrent P V I → Type 0) (n : ℕ) (t : Torrent P V I) (m : List (ℕ × Torrent P V I))
      → Map.get n m ≡ none
      → p (n, t)
      → All p m
      → All p (Map.insert n t m)
  unfolding Map.get Map.insert
  insert-All p n t [] g h a = (h, tt)
  insert-All p n t ((id, u) ∷ m) g h a = elim (Bool-cases (same id n)) [
    | inl y ↦ absurd (ground arith)
    | inr y ↦ rw y (a.0, insert-All p n t m (ground arith) h a.1)
  ]

  fresh-weaken :
      (n : ℕ) (m : List (ℕ × Torrent P V I)) → All (λ q. q.0 < n) m → All (λ q. q.0 < n + 1) m
  fresh-weaken n [] a = tt
  fresh-weaken n ((id, t) ∷ m) a = (omega (arith, a.0), fresh-weaken n m a.1)

  count_hash-insert :
      (x : ShaHash) (n : ℕ) (t : Torrent P V I) (m : List (ℕ × Torrent P V I))
      → Map.get n m ≡ none
      → count_hash x (Map.insert n t m) ≡ count_hash x m + (if eq_hash t.info_hash x then 1 else 0)
  unfolding Map.get Map.insert
  count_hash-insert x n t [] g = ground arith
  count_hash-insert x n t ((id, u) ∷ m) g = ground (arith, count_hash-insert x n t m)

module _ {P V I : Type 0} ⦃v : BitVec V⦄ where
  -- A torrent is taken in under a new identifier, with the state that its configuration asks for,
  -- also where the answer says that it is paused because the limit of active torrents is reached.
  -- It is refused, with its info hash, exactly where the pool has that info hash.
  pub add_torrent_lem :
      (now : I) (config : TorrentConfig V) (pool : TorrentPool P V I)
      → IsAdmitted pool
      → IsAdmitted (add_torrent now config pool).0
        × (((has_info_hash config.info_hash pool.torrents ≡ true)
              × (add_torrent now config pool ≡ (pool, err config.info_hash)))
            ⊎ ((t : Torrent P V I) × (state : TorrentState) × ((add_torrent now config pool).1
                  ≡ ok (pool.next_unique_torrent, state))
                × (get pool.next_unique_torrent pool ≡ none)
                × (get pool.next_unique_torrent (add_torrent now config pool).0 ≡ some t)
                × (t.info_hash ≡ config.info_hash)
                × (t.state ≡ config.state)
                × (state ≡ (
                    if state_is_active config.state
                    then (if ltb (count_active pool.torrents) pool.max_active_torrents
                        then active
                        else paused)
                    else config.state))))
  unfolding add_torrent get Torrent.new
  add_torrent_lem now config pool a =
      let n = pool.next_unique_torrent in
      let m = pool.torrents in
      let g = fresh-get n m a.fresh in
      elim (Bool-cases (has_info_hash config.info_hash m)) [
        | inl y ↦ (rw (y, add_torrent) a, inl (y, ground arith))
        | inr y ↦
            let t : Torrent P V I =
              Torrent.new n config.info_hash
                (Handler.new n pool.initial_piece_selection_strategy config.bitfield
                  config.piece_length config.last_piece_length)
                config.seed_leech config.state now in
            let got : Map.get n (Map.insert n t m) ≡ some t = ground (arith, get-insert n n t m) in
            (
              rw (y, add_torrent)
                  (record {
                    fresh =
                        insert-All (λ q. q.0 < n + 1) n t m g (omega arith)
                          (fresh-weaken n m a.fresh);
                    filed = insert-All (λ q. q.1.id ≡ q.0) n t m g refl a.filed;
                    unique = λ x. ground (
                      arith,
                      a.unique x,
                      count_hash-insert x n t m g,
                      eq_hash_iff config.info_hash x,
                      has_info_hash-count config.info_hash m y,
                    );
                  }),
              inr (t, _, rw (y, add_torrent) refl, g, rw (y, add_torrent) got, refl, refl, refl),
            )
      ]
