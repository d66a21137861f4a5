-- ===== src/Peer/Buffer/Blocks.antt =====
-- The map of the blocks that have arrived, ordered by their offsets.
use libp2p_bittorrent_protoc.Base.{
  ℕ, suc, ◌+◌, ◌≤◌, ◌≡◌, refl, List, [], ◌∷◌, Option, none, some, arith, ◌==◌, if◌then◌else◌,
  length,
}
use libp2p_bittorrent_protoc.Base.Vec.{count, hit}
use libp2p_bittorrent_protoc.Disk.Block.{BlockMetadata, Block, metadata_eq, eq_metadata_iff}
use libp2p_bittorrent_protoc.Peer.Buffer.{insert_block}

abbrev pub metas : List (ℕ × Block) → List BlockMetadata
metas [] = []
metas ((k, b) ∷ m) = b.metadata ∷ metas m

-- Each block is filed under its own offset, and the keys ascend from `low` on.
abbrev pub Ascends : ℕ → List (ℕ × Block) → Type 0
Ascends low [] = Unit {0}
Ascends low ((k, b) ∷ m) = (low ≤ k) × (k ≡ b.metadata.block_offset) × Ascends (k + 1) m

pub find_block : ℕ → List (ℕ × Block) → Option Block
find_block k [] = none
find_block k ((j, b) ∷ m) = if j == k then some b else find_block k m

pub find_block_sound :
    (low k : ℕ) (b : Block) (m : List (ℕ × Block))
    → Ascends low m
    → find_block k m ≡ some b
    → (b.metadata.block_offset ≡ k) × (1 ≤ count b.metadata (metas m))
unfolding find_block
find_block_sound low k b [] h e = cc
find_block_sound low k b ((j, c) ∷ m) h e =
    ground (arith, find_block_sound (j + 1) k b m h.2, eq_metadata_iff c.metadata b.metadata)

pub insert_block-Ascends :
    (low k : ℕ) (b : Block) (m : List (ℕ × Block))
    → low ≤ k
    → k ≡ b.metadata.block_offset
    → Ascends low m
    → Ascends low (insert_block k b m)
unfolding insert_block
insert_block-Ascends low k b [] h e a = (h, e, tt)
insert_block-Ascends low k b ((j, c) ∷ m) h e a = ground (arith, insert_block-Ascends (j + 1) k b m)

pub count-insert_block :
    (k : ℕ) (b : Block) (a : BlockMetadata) (m : List (ℕ × Block))
    → find_block k m ≡ none
    → count a (metas (insert_block k b m)) ≡ count a (metas m) + hit b.metadata a
unfolding insert_block find_block
count-insert_block k b a [] h = ground arith
count-insert_block k b a ((j, c) ∷ m) h = ground (arith, count-insert_block k b a m)

pub length-insert_block :
    (k : ℕ) (b : Block) (m : List (ℕ × Block))
    → find_block k m ≡ none
    → length (insert_block k b m) ≡ suc (length m)
unfolding insert_block find_block
length-insert_block k b [] h = refl
length-insert_block k b ((j, c) ∷ m) h = ground (arith, length-insert_block k b m)
