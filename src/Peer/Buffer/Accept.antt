-- ===== src/Peer/Buffer/Accept.antt =====
-- `add_block` keeps the invariant: an answer moves its block to the stored ones, or back.
use libp2p_bittorrent_protoc.Base.{
  ◌+◌, ◌≤◌, ◌≡◌, refl, sym, ap, ◌∙◌, inl, inr, none, some, arith, Eq, same_iff, Option-cases,
  Bool-cases,
}
use libp2p_bittorrent_protoc.Base.Map.{get, remove, keys}
use libp2p_bittorrent_protoc.Base.Map.Counts.{
  get_of_count, count-keys-remove, count-values-remove, length-values-remove,
}
use libp2p_bittorrent_protoc.Base.Vec.{count, push, count-push}
use libp2p_bittorrent_protoc.Disk.Block.{
  BlockMetadata, Block, eq_metadata, metadata_eq, eq_metadata_iff,
}
use libp2p_bittorrent_protoc.Peer.Buffer.{PieceBuffer, layout, add_block, insert_block}
use libp2p_bittorrent_protoc.Peer.Buffer.Layout.{layout-Tiles, count-le-one, eq_of_offset}
use libp2p_bittorrent_protoc.Peer.Buffer.Blocks.{
  metas, find_block, find_block_sound, insert_block-Ascends, count-insert_block,
  length-insert_block,
}
use libp2p_bittorrent_protoc.Peer.Buffer.Tracked.{IsTracked, released}

module _ {P : Type 0} ⦃e : Eq P⦄ where
  -- A block that is still waited for cannot be stored already.
  not_stored :
      (b : PieceBuffer P) (peer : P) (m : BlockMetadata)
      → IsTracked b
      → get peer b.pending_blocks ≡ some m
      → find_block m.block_offset b.blocks ≡ none
  not_stored b peer m t h = elim (Option-cases (find_block m.block_offset b.blocks)) [
    | inl p ↦ p
    | inr (c, p) ↦
        let (offset, stored) = find_block_sound 0 m.block_offset c b.blocks t.filed p in
        let tiles = layout-Tiles b.piece_index b.piece_length in
        let waiting =
          count-values-remove peer m m b.pending_blocks (omega (arith, t.once peer)) h in
        let self = eq_metadata_iff m m in
        let one =
          count-le-one b.piece_index 0 b.piece_length m (layout b.piece_index b.piece_length)
            tiles in
        let equal : c.metadata ≡ m =
          eq_of_offset b.piece_index 0 b.piece_length c.metadata m
            (layout b.piece_index b.piece_length) tiles (omega (arith, t.whole c.metadata))
            (ground (arith, t.whole m)) offset in
        let twice : 1 ≤ count m (metas b.blocks) = rw equal at stored in
        absurd (ground (arith, t.whole m))
  ]

  -- The peer that answered is idle again, and waited for no more.
  roles_after :
      (b : PieceBuffer P) (peer x : P) (m : BlockMetadata)
      → IsTracked b
      → get peer b.pending_blocks ≡ some m
      → count x (push b.peers peer) + count x (keys (remove peer b.pending_blocks)) ≤ 1
  roles_after b peer x m t h = ground (
    arith,
    t.once x,
    same_iff peer x,
    get_of_count peer b.pending_blocks,
    count-push x b.peers peer,
    count-keys-remove peer x b.pending_blocks,
  )

  stored-IsTracked :
      (b : PieceBuffer P) (peer : P) (block : Block)
      → IsTracked b
      → get peer b.pending_blocks ≡ some block.metadata
      → IsTracked (record b {
        pending_blocks = remove peer b.pending_blocks;
        blocks = insert_block block.metadata.block_offset block b.blocks;
        peers = push b.peers peer;
      })
  stored-IsTracked b peer block t h =
      let m = block.metadata in
      let free = not_stored b peer m t h in
      let single : count peer (keys b.pending_blocks) ≤ 1 = omega (arith, t.once peer) in
      record {
        once = λ x. roles_after b peer x m t h;
        whole = λ x. omega (
          arith,
          t.whole x,
          count-values-remove peer m x b.pending_blocks single h,
          count-insert_block m.block_offset block x b.blocks free,
        );
        sizes = omega (
          arith,
          t.sizes,
          length-values-remove peer m b.pending_blocks single h,
          length-insert_block m.block_offset block b.blocks free,
        );
        total = t.total;
        filed = insert_block-Ascends 0 m.block_offset block b.blocks (omega arith) refl t.filed;
      }

  -- An answer keeps the invariant: the block that was asked for is stored, any other answer
  -- makes the block missing again, and an answer that nobody asked for changes nothing.
  pub add_block-IsTracked :
      (peer : P) (block : Block) (b : PieceBuffer P)
      → IsTracked b
      → IsTracked (add_block peer block b).0
  unfolding add_block
  add_block-IsTracked peer block b t = elim (Option-cases (get peer b.pending_blocks)) [
    | inl p ↦ rw (p, add_block) t
    | inr (m, p) ↦ elim (Bool-cases (eq_metadata block.metadata m)) [
      | inl q ↦
          let h : get peer b.pending_blocks ≡ some block.metadata =
            p ∙ ap some (sym ((eq_metadata_iff block.metadata m).0 q)) in
          rw (p, q, add_block) (stored-IsTracked b peer block t h)
      | inr q ↦
          rw (p, q, add_block)
            (released b peer (push b.peers peer) m t p (λ x. roles_after b peer x m t p))
    ]
  ]
