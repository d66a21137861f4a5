-- ===== src/Peer/Handler/Seeds.antt =====
-- The queue of blocks of `src/peer/piece.rs` that are read for remotes.
use libp2p_bittorrent_protoc.Base.{
  ℕ, ◌≡◌, refl, ap, ◌∙◌, inl, inr, Bool, not, ◌&&◌, List, [], ◌∷◌, none, some, arith, length,
  get_elem?, Option-cases, Bool-cases, if◌then◌else◌, Eq, same, ◌==◌, ==_refl,
}
use libp2p_bittorrent_protoc.Base.Vec.{push, position, remove_at}
use libp2p_bittorrent_protoc.Disk.Block.{BlockMetadata}
use libp2p_bittorrent_protoc.Peer.Handler.{TorrentPieceHandler}
use libp2p_bittorrent_protoc.Peer.Handler.Events.{
  insert_block_seed, remove_pending_seed_by_request, is_ready_to_seed_block, entry_at,
}

module _ {ℓ} {A : Type ℓ} (test : A → Bool) where
  pub position-push :
      (xs : List A) (x : A)
      → position test (push xs x) ≡ elim (position test xs) [
        | none ↦ if test x then some (length xs) else none
        | some i ↦ some i
      ]
  position-push [] x = elim (Bool-cases (test x)) [ inl t ↦ rw t refl | inr t ↦ rw t refl ]
  position-push (y ∷ xs) x = elim (Bool-cases (test y)) [
    | inl t ↦ rw t refl
    | inr t ↦ elim (Option-cases (position test xs)) [
      | inl n ↦ ground (arith, position-push xs x)
      | inr (i, n) ↦ ground (arith, position-push xs x)
    ]
  ]

pub remove_at-push {ℓ} : {A : Type ℓ} (xs : List A) (x : A) → remove_at (push xs x) (length xs) ≡ xs
remove_at-push [] x = refl
remove_at-push (y ∷ xs) x = ap (λ l. y ∷ l) (remove_at-push xs x)

pub get_elem?-push {ℓ} :
    {A : Type ℓ} (xs : List A) (x : A) → get_elem? (push xs x) (length xs) ≡ some x
get_elem?-push [] x = refl
get_elem?-push (y ∷ xs) x = get_elem?-push xs x

module _ {P V I : Type 0} where
  -- A block that was queued under a fresh request id is found by that id, with its peer, and the
  -- queue is then what it was before.
  pub remove-insert_block_seed :
      (id : P) (block : BlockMetadata) (request_id : ℕ) (h : TorrentPieceHandler P V I)
      → position (λ q. request_id == q.1) h.pending_seed_blocks ≡ none
      → remove_pending_seed_by_request request_id (insert_block_seed id block request_id h)
        ≡ (h, some (id, block))
  unfolding remove_pending_seed_by_request insert_block_seed entry_at
  remove-insert_block_seed id block request_id h fresh =
      let l = h.pending_seed_blocks in
      let found : position (λ q. request_id == q.1) (push l (id, request_id, block))
          ≡ some (length l) =
        position-push (λ q. request_id == q.1) l (id, request_id, block)
        ∙ rw (fresh, ==_refl request_id) refl in
      rw
        (
          remove_pending_seed_by_request,
          insert_block_seed,
          found,
          remove_at-push l (id, request_id, block),
          get_elem?-push l (id, request_id, block),
        )
        refl

module _ {P V I : Type 0} ⦃e : Eq P⦄ where
  -- A queued block makes its peer, and no other, wait.
  pub is_ready-insert_block_seed :
      (id q : P) (block : BlockMetadata) (request_id : ℕ) (h : TorrentPieceHandler P V I)
      → is_ready_to_seed_block q (insert_block_seed id block request_id h)
        ≡ (not (same id q) && is_ready_to_seed_block q h)
  unfolding is_ready_to_seed_block insert_block_seed
  is_ready-insert_block_seed id q block request_id h =
      let l = h.pending_seed_blocks in
      let p = position-push (λ s. same s.0 q) l (id, request_id, block) in
      elim (Option-cases (position (λ s. same s.0 q) l)) [
        | inl n ↦ elim (Bool-cases (same id q)) [
          | inl s ↦ rw (is_ready_to_seed_block, insert_block_seed, p, n, s) refl
          | inr s ↦ rw (is_ready_to_seed_block, insert_block_seed, p, n, s) refl
        ]
        | inr (i, n) ↦ elim (Bool-cases (same id q)) [
          | inl s ↦ rw (is_ready_to_seed_block, insert_block_seed, p, n, s) refl
          | inr s ↦ rw (is_ready_to_seed_block, insert_block_seed, p, n, s) refl
        ]
      ]
