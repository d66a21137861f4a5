-- ===== src/Peer/Buffer/Data.antt =====
-- The bytes of a finished piece: each block's bytes stand at the block's offset.
use mathlib.Core.List.{append_assoc, append-nil}
use libp2p_bittorrent_protoc.Base.{
  ℕ, ◌+◌, ◌≡◌, refl, sym, ap, ◌∙◌, List, [], ◌∷◌, ◌++◌, ok, err, arith, length, length-append, take,
  drop, take-append, drop-append, Eq, true, false,
}
use libp2p_bittorrent_protoc.Base.Map.{values}
use libp2p_bittorrent_protoc.Disk.Block.{Block, is_correct_len, new_metadata}
use libp2p_bittorrent_protoc.Peer.Buffer.{
  PieceBuffer, bad_piece, is_full_piece, gather, try_finalize_piece, insert_block,
}
use libp2p_bittorrent_protoc.Peer.Buffer.Layout.{Tiles, layout-Tiles}
use libp2p_bittorrent_protoc.Peer.Buffer.Blocks.{metas, Ascends}
use libp2p_bittorrent_protoc.Peer.Buffer.Tracked.{IsTracked}
use libp2p_bittorrent_protoc.Peer.Buffer.Finish.{full_piece_blocks}

-- Every stored block has as many bytes as its metadata state.
abbrev pub IsCorrect : List (ℕ × Block) → Type 0
IsCorrect [] = Unit {0}
IsCorrect ((k, b) ∷ m) = (is_correct_len b ≡ true) × IsCorrect m

-- The bytes of every block stand in `whole` from the block's key on.
abbrev pub Placed : List ℕ → List (ℕ × Block) → Type 0
Placed whole [] = Unit {0}
Placed whole ((k, b) ∷ m) =
    (take (length b.block_data) (drop k whole) ≡ b.block_data) × Placed whole m

pub insert_block-IsCorrect :
    (k : ℕ) (c : Block) (m : List (ℕ × Block))
    → is_correct_len c ≡ true
    → IsCorrect m
    → IsCorrect (insert_block k c m)
unfolding insert_block
insert_block-IsCorrect k c [] h a = (h, tt)
insert_block-IsCorrect k c ((j, d) ∷ m) h a = ground (arith, insert_block-IsCorrect k c m)

contents : List (ℕ × Block) → List ℕ
contents [] = []
contents ((k, b) ∷ m) = b.block_data ++ contents m

gather-ok :
    (i : ℕ) (m : List (ℕ × Block)) (buffer : List ℕ)
    → IsCorrect m
    → gather i (values m) buffer ≡ ok (buffer ++ contents m)
unfolding gather contents
gather-ok i [] buffer h = ap ok (sym (append-nil buffer))
gather-ok i ((k, b) ∷ m) buffer h =
    rw (h.0, gather)
      (gather-ok i m (buffer ++ b.block_data) h.1
        ∙ ap ok (append_assoc buffer b.block_data (contents m)))

length-contents :
    (i low from to : ℕ) (m : List (ℕ × Block))
    → Tiles i from to (metas m)
    → IsCorrect m
    → from + length (contents m) ≡ to
unfolding contents is_correct_len
length-contents i low from to [] t h = omega arith
length-contents i low from to ((k, b) ∷ m) t h = ground (
  arith,
  length-append b.block_data (contents m),
  length-contents i low (from + b.metadata.block_length) to m t.4 h.1,
)

contents-Placed :
    (i low from to : ℕ) (front : List ℕ) (m : List (ℕ × Block))
    → length front ≡ from
    → Ascends low m
    → Tiles i from to (metas m)
    → IsCorrect m
    → Placed (front ++ contents m) m
unfolding contents is_correct_len
contents-Placed i low from to front [] l a t h = tt
contents-Placed i low from to front ((k, b) ∷ m) l a t h =
    let d = b.block_data in
    let here : drop k (front ++ (d ++ contents m)) ≡ d ++ contents m =
      drop-append k front (d ++ contents m) (omega arith) in
    let rest =
      contents-Placed i (k + 1) (from + b.metadata.block_length) to (front ++ d) m
        (ground (arith, length-append front d)) a.2 t.4 h.1 in
    (
      ap (take (length d)) here ∙ take-append (length d) d (contents m) refl,
      rw (append_assoc front d (contents m)) at rest,
    )

module _ {P : Type 0} ⦃e : Eq P⦄ where
  -- A full buffer whose blocks have the lengths that they claim becomes one block: it is the
  -- whole piece, has the length of the piece, and holds the bytes of every block that arrived at
  -- that block's offset.
  pub try_finalize_piece-ok :
      (b : PieceBuffer P)
      → IsTracked b
      → is_full_piece b ≡ true
      → IsCorrect b.blocks
      → (whole : List ℕ) × (try_finalize_piece b
          ≡ ok (record {
            metadata = new_metadata b.piece_index 0 b.piece_length;
            block_data = whole;
          }))
        × (length whole ≡ b.piece_length)
        × Placed whole b.blocks
  unfolding try_finalize_piece
  try_finalize_piece-ok b t f h =
      let tiles : Tiles b.piece_index 0 b.piece_length (metas b.blocks) =
        rw (full_piece_blocks b t f).0 (layout-Tiles b.piece_index b.piece_length) in
      (
        contents b.blocks,
        rw (gather-ok b.piece_index b.blocks [] h, try_finalize_piece),
        omega (arith, length-contents b.piece_index 0 0 b.piece_length b.blocks tiles h),
        contents-Placed b.piece_index 0 0 b.piece_length [] b.blocks refl t.filed tiles h,
      )

gather_err :
    (i : ℕ) (xs ys : List Block) (c : Block) (buffer : List ℕ)
    → is_correct_len c ≡ false
    → gather i (xs ++ (c ∷ ys)) buffer ≡ err (bad_piece i)
unfolding gather
gather_err i [] ys c buffer h = rw h
gather_err i (x ∷ xs) ys c buffer h =
    ground (arith, gather_err i xs ys c (buffer ++ x.block_data) h)

-- One block whose bytes are not as many as it claims spoils the piece, wherever it stands.
pub try_finalize_piece-err :
    {P : Type 0} (b : PieceBuffer P) (xs ys : List Block) (c : Block)
    → values b.blocks ≡ xs ++ (c ∷ ys)
    → is_correct_len c ≡ false
    → try_finalize_piece b ≡ err (bad_piece b.piece_index)
unfolding try_finalize_piece
try_finalize_piece-err b xs ys c s h =
    rw (s, gather_err b.piece_index xs ys c [] h, try_finalize_piece)
