-- ===== src/Peer/Tests/Buffers.antt =====
-- The theorems on piece buffers and on single peers at concrete values.
use libp2p_bittorrent_protoc.Base.{
  ℕ, ◌≤◌, ◌≡◌, refl, true, false, List, [], ◌∷◌, some, ok, arith, length, length-replicate, nat_eq,
}
use libp2p_bittorrent_protoc.Base.Map.{get, values, insert, remove}
use libp2p_bittorrent_protoc.Base.Vec.{count}
use libp2p_bittorrent_protoc.Crates.Instances.{list_bit_vec}
use libp2p_bittorrent_protoc.Disk.Block.{Block, is_correct_len, new_metadata, metadata_eq}
use libp2p_bittorrent_protoc.Peer.State.{add_piece}
use libp2p_bittorrent_protoc.Peer.Buffer.{
  PieceBuffer, layout, new, next, is_full_piece, try_finalize_piece, add_block, insert_block,
}
use libp2p_bittorrent_protoc.Peer.Buffer.Blocks.{metas}
use libp2p_bittorrent_protoc.Peer.Buffer.Tracked.{IsTracked}
use libp2p_bittorrent_protoc.Peer.Buffer.Finish.{full_piece_blocks}
use libp2p_bittorrent_protoc.Peer.Buffer.Data.{Placed}
use libp2p_bittorrent_protoc.Peer.Buffer.Runs.{
  Reach, here, and_then, asks, answers, Reach-IsTracked, IsHonest, rounds, rounds_finish,
}
use libp2p_bittorrent_protoc.Peer.Tests.{peer_one, five, sevens}

-- one block of five bytes, and two peers
abbrev fresh : PieceBuffer ℕ
fresh = record {
  torrent_id = 0;
  missing_blocks = five ∷ [];
  pending_blocks = [];
  piece_index = 0;
  blocks = [];
  peers = 1 ∷ 2 ∷ [];
  piece_length = 5;
  total_blocks = 1;
  last_block_size = 5;
}

-- the same, its block stored
abbrev full : PieceBuffer ℕ
full = record fresh { missing_blocks = []; blocks = (0, sevens five) ∷ [] }

two_peers : (p : ℕ) → count p (1 ∷ 2 ∷ []) ≤ 1
two_peers p = ground arith

-- peer 2 is asked, and answers
abbrev start : PieceBuffer ℕ
unfolding new
start = new 0 5 0 (1 ∷ 2 ∷ [])

answered : PieceBuffer ℕ
unfolding add_block next start
answered = (add_block 2 (sevens five) (next start).0).0

reached : Reach (new 0 5 0 (1 ∷ 2 ∷ [])) answered
unfolding answered start
reached = and_then (and_then here (asks (new 0 5 0 (1 ∷ 2 ∷ [])))) (answers _ 2 (sevens five))

Reach-IsTracked_example : IsTracked answered
Reach-IsTracked_example = Reach-IsTracked 0 5 0 (1 ∷ 2 ∷ []) answered two_peers reached

answered_lem : answered ≡ full
unfolding answered get insert remove insert_block
answered_lem = refl

full-IsTracked : IsTracked full
full-IsTracked = rw (← answered_lem) (Reach-IsTracked 0 5 0 (1 ∷ 2 ∷ []) answered two_peers reached)

full_is_full : is_full_piece full ≡ true
unfolding is_full_piece
full_is_full = refl

full_piece_blocks_example :
    (metas full.blocks ≡ layout 0 5)
    × (full.missing_blocks ≡ [])
    × (values full.pending_blocks ≡ [])
full_piece_blocks_example = full_piece_blocks full full-IsTracked full_is_full

sevens-IsHonest : IsHonest sevens
unfolding is_correct_len
sevens-IsHonest m = (refl, ground (arith, length-replicate {A = ℕ} m.block_length 7))

rounds_finish_example :
    let b = rounds {P = ℕ} sevens (length (layout 0 5)) (new 0 5 0 (1 ∷ 2 ∷ [])) in
    (is_full_piece b ≡ true)
    × ((whole : List ℕ) × (try_finalize_piece b
          ≡ ok (record { metadata = new_metadata 0 0 5; block_data = whole }))
        × (length whole ≡ 5)
        × Placed whole b.blocks)
rounds_finish_example =
    rounds_finish sevens sevens-IsHonest 0 5 0 (1 ∷ 2 ∷ []) two_peers (omega arith)

-- a block that claims five bytes and has one
abbrev short : Block
short = record { metadata = five; block_data = 7 ∷ [] }

abbrev spoilt : PieceBuffer ℕ
spoilt = record full { blocks = (0, short) ∷ [] }

short_is_short : is_correct_len short ≡ false
unfolding is_correct_len
short_is_short = refl

adds : (add_piece 1 peer_one).1 ≡ some true
unfolding add_piece
adds = refl
