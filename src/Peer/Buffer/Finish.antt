-- ===== src/Peer/Buffer/Finish.antt =====
-- The finished piece: which blocks a full buffer holds, and the bytes that they make up.
use libp2p_bittorrent_protoc.Base.{
  ℕ, ◌+◌, ◌≤◌, ◌≡◌, refl, ap, inl, inr, List, [], ◌∷◌, arith, length, Eq, Bool-cases, true,
}
use libp2p_bittorrent_protoc.Base.Map.{values}
use libp2p_bittorrent_protoc.Base.Vec.{count}
use libp2p_bittorrent_protoc.Disk.Block.{
  BlockMetadata, Block, eq_metadata, metadata_eq, eq_metadata_iff,
}
use libp2p_bittorrent_protoc.Peer.Buffer.{PieceBuffer, layout, is_full_piece}
use libp2p_bittorrent_protoc.Peer.Buffer.Layout.{Tiles, layout-Tiles, count-before}
use libp2p_bittorrent_protoc.Peer.Buffer.Blocks.{metas, Ascends}
use libp2p_bittorrent_protoc.Peer.Buffer.Tracked.{IsTracked}

le-offset :
    (low : ℕ) (m : BlockMetadata) (bs : List (ℕ × Block))
    → Ascends low bs
    → 1 ≤ count m (metas bs)
    → low ≤ m.block_offset
le-offset low m [] a h = absurd (omega arith)
le-offset low m ((k, b) ∷ bs) a h =
    ground (arith, eq_metadata_iff b.metadata m, le-offset (k + 1) m bs a.2)

-- Ordered blocks that are those of the layout, each as often, are the layout.
metas_of_counts :
    (i low from to : ℕ) (bs : List (ℕ × Block)) (ms : List BlockMetadata)
    → Ascends low bs
    → Tiles i from to ms
    → ((m : BlockMetadata) → count m (metas bs) ≡ count m ms)
    → metas bs ≡ ms
metas_of_counts i low from to [] [] a t h = refl
metas_of_counts i low from to [] (x ∷ ms) a t h = absurd (ground (arith, h x, eq_metadata_iff x x))
metas_of_counts i low from to ((k, b) ∷ bs) [] a t h =
    absurd (ground (arith, h b.metadata, eq_metadata_iff b.metadata b.metadata))
metas_of_counts i low from to ((k, b) ∷ bs) (x ∷ ms) a t h =
    elim (Bool-cases (eq_metadata b.metadata x)) [
      | inl same_head ↦
          let e : b.metadata ≡ x = (eq_metadata_iff b.metadata x).0 same_head in
          let tails =
            metas_of_counts i (k + 1) (from + x.block_length) to bs ms a.2 t.4
              (λ m. ground (arith, h m, e)) in
          cc (e, tails)
      | inr other ↦ absurd (
          ground (
            arith,
            h x,
            h b.metadata,
            eq_metadata_iff x x,
            eq_metadata_iff x b.metadata,
            eq_metadata_iff b.metadata b.metadata,
            le-offset (k + 1) x bs a.2,
            count-before i (from + x.block_length) to b.metadata ms t.4,
          ))
    ]

nil_of_length {ℓ} : {A : Type ℓ} (xs : List A) → length xs ≡ 0 → xs ≡ []
nil_of_length [] h = refl
nil_of_length (x ∷ xs) h = absurd (omega arith)

module _ {P : Type 0} ⦃e : Eq P⦄ where
  -- A buffer that counts as full holds exactly the blocks of the piece, in their order, and
  -- nothing is missing or waited for.
  pub full_piece_blocks :
      (b : PieceBuffer P)
      → IsTracked b
      → is_full_piece b ≡ true
      → (metas b.blocks ≡ layout b.piece_index b.piece_length)
        × (b.missing_blocks ≡ [])
        × (values b.pending_blocks ≡ [])
  unfolding is_full_piece
  full_piece_blocks b t h =
      let missing = nil_of_length b.missing_blocks (ground (arith, t.sizes)) in
      let waiting = nil_of_length (values b.pending_blocks) (ground (arith, t.sizes)) in
      (
        metas_of_counts b.piece_index 0 0 b.piece_length b.blocks _ t.filed
            (layout-Tiles b.piece_index b.piece_length)
            (λ m. omega (arith, t.whole m, ap (count m) missing, ap (count m) waiting)),
        missing,
        waiting,
      )
