-- ===== src/Peer/Buffer/Layout.antt =====
-- The blocks into which a piece is cut: they follow one another from its first byte to its last.
use libp2p_bittorrent_protoc.Base.{
  ℕ, zero, suc, ◌+◌, ◌*◌, ◌/◌, ◌%◌, ◌≤◌, ◌<◌, ◌≡◌, refl, inl, inr, List, [], ◌∷◌, ◌++◌, arith, ltb,
  Bool-cases,
}
use libp2p_bittorrent_protoc.Base.Vec.{count}
use libp2p_bittorrent_protoc.Disk.Block.{BlockMetadata, metadata_eq, new_metadata, eq_metadata_iff}
use libp2p_bittorrent_protoc.Peer.Buffer.{block_size, full_blocks, layout}

-- The blocks cover `from` to `to` with no gap and no overlap, none of them empty or too large.
abbrev pub Tiles : ℕ → ℕ → ℕ → List BlockMetadata → Type 0
Tiles i from to [] = from ≡ to
Tiles i from to (m ∷ ms) =
    (m.piece_index ≡ i)
    × (m.block_offset ≡ from)
    × (0 < m.block_length)
    × (m.block_length ≤ block_size)
    × Tiles i (from + m.block_length) to ms

Tiles-append :
    (i a b c : ℕ) (xs ys : List BlockMetadata)
    → Tiles i a b xs
    → Tiles i b c ys
    → Tiles i a c (xs ++ ys)
Tiles-append i a b c [] ys h k = rw h k
Tiles-append i a b c (x ∷ xs) ys (hp, ho, hl, hb, h) k =
    (hp, ho, hl, hb, Tiles-append i (a + x.block_length) b c xs ys h k)

Tiles-from : (i a b c : ℕ) (xs : List BlockMetadata) → a ≡ b → Tiles i a c xs → Tiles i b c xs
Tiles-from i a b c xs e h = rw (← e) h

full_blocks-Tiles :
    (i index n : ℕ)
    → Tiles i (index * block_size) ((index + n) * block_size) (full_blocks i index n)
unfolding full_blocks
full_blocks-Tiles i index zero = omega arith
full_blocks-Tiles i index (suc n) =
    let h : Tiles i ((index + 1) * block_size) ((index + suc n) * block_size)
        (full_blocks i (index + 1) n) =
      let e : (index + 1 + n) * block_size ≡ (index + suc n) * block_size = omega arith in
      rw e at (full_blocks-Tiles i (index + 1) n) in
    (refl, refl, omega arith, omega arith, Tiles-from i _ _ _ _ (omega arith) h)

-- The blocks of a piece cover it from its first byte to its last, in order, with no gap and no
-- overlap; each belongs to the piece, is not empty and has at most 16 KiB.
pub layout-Tiles : (i len : ℕ) → Tiles i 0 len (layout i len)
unfolding layout
layout-Tiles i len = elim (Bool-cases (ltb 0 (len % block_size))) [
  | inl more ↦ rw more (
      Tiles-append i 0 (len / block_size * block_size) len (full_blocks i 0 (len / block_size)) _
        (Tiles_to i 0 _ _ _ (omega arith) (full_blocks-Tiles i 0 (len / block_size)))
        (unfold new_metadata in (refl, omega arith, ground arith, omega arith, omega arith)))
  | inr whole ↦
      rw whole (Tiles_to i 0 _ _ _ (ground arith) (full_blocks-Tiles i 0 (len / block_size)))
]
  where
    Tiles_to : (i a b c : ℕ) (xs : List BlockMetadata) → b ≡ c → Tiles i a b xs → Tiles i a c xs
    Tiles_to i a b c xs e h = rw (← e) h

-- No block starts before the first byte that is covered.
pub count-before :
    (i from to : ℕ) (m : BlockMetadata) (ms : List BlockMetadata)
    → Tiles i from to ms
    → m.block_offset < from
    → count m ms ≡ 0
count-before i from to m [] h k = refl
count-before i from to m (x ∷ ms) h k =
    ground (arith, eq_metadata_iff x m, count-before i (from + x.block_length) to m ms h.4)

pub count-le-one :
    (i from to : ℕ) (m : BlockMetadata) (ms : List BlockMetadata)
    → Tiles i from to ms
    → count m ms ≤ 1
count-le-one i from to m [] h = omega arith
count-le-one i from to m (x ∷ ms) h = ground (
  arith,
  eq_metadata_iff x m,
  count-before i (from + x.block_length) to m ms h.4,
  count-le-one i (from + x.block_length) to m ms h.4,
)

-- Two blocks of a piece that start at the same byte are the same block.
pub eq_of_offset :
    (i from to : ℕ) (a b : BlockMetadata) (ms : List BlockMetadata)
    → Tiles i from to ms
    → 1 ≤ count a ms
    → 1 ≤ count b ms
    → a.block_offset ≡ b.block_offset
    → a ≡ b
eq_of_offset i from to a b [] h p q e = absurd (omega arith)
eq_of_offset i from to a b (x ∷ ms) h p q e =
    let later = λ (m : BlockMetadata). count-before i (from + x.block_length) to m ms h.4 in
    ground (
      arith,
      eq_metadata_iff x a,
      eq_metadata_iff x b,
      later a,
      later b,
      eq_of_offset i (from + x.block_length) to a b ms h.4,
    )
