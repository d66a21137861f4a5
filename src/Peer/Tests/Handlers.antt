-- ===== src/Peer/Tests/Handlers.antt =====
-- The theorems on a torrent's handler at a concrete one: two pieces of five bytes, the first missing.
use libp2p_bittorrent_protoc.Base.{
  ℕ, ◌+◌, ◌<◌, ◌≡◌, refl, Bool, true, false, List, [], ◌∷◌, none, some, ok, arith, length, nat_eq,
  if◌then◌else◌, ◌==◌,
}
use libp2p_bittorrent_protoc.Base.Map
use libp2p_bittorrent_protoc.Base.Map.{get, keys}
use libp2p_bittorrent_protoc.Crates.Instances.{list_bit_vec, no_shuffle}
use libp2p_bittorrent_protoc.Disk.Block.{metadata_eq, new_metadata, is_correct_len}
use libp2p_bittorrent_protoc.Peer.State.{un_choked, remote_can_seed_piece}
use libp2p_bittorrent_protoc.Peer.Buffer.{PieceBuffer, is_full_piece}
use libp2p_bittorrent_protoc.Peer.Buffer
use libp2p_bittorrent_protoc.Peer.Buffer.Data.{IsCorrect, Placed}
use libp2p_bittorrent_protoc.Peer.Buffer.Tracked.{occurrences}
use libp2p_bittorrent_protoc.Peer.Handler.{
  TorrentPieceHandler, random, rarest, piece_finished, new, has_piece, is_current, buffer_for,
  next_piece_buffer, next_random_piece, next_least_common_piece, any_can_seed,
}
use libp2p_bittorrent_protoc.Peer.Handler.Events.{insert_peer, add_block, poll, set_choke_on_remote}
use libp2p_bittorrent_protoc.Peer.Handler.Select.{
  EveryCanSeed, current_piece, next_piece_buffer-some, next_least_common-next_random,
}
use libp2p_bittorrent_protoc.Peer.Handler.Sound.{IsSound}
use libp2p_bittorrent_protoc.Peer.Handler.Runs.{
  HandlerReach, start, and_then, joins, polled, answers, HandlerReach-IsSound,
}
use libp2p_bittorrent_protoc.Base.Vec.{hit}
use libp2p_bittorrent_protoc.Peer.Handler.Twice.{poll-set_choke_on_remote}
use libp2p_bittorrent_protoc.Peer.Handler.Finish.{poll-piece_finished}
use libp2p_bittorrent_protoc.Peer.Tests.{peer_one, second_only, five, sevens}

abbrev Handler : Type 0
Handler = TorrentPieceHandler ℕ (List Bool) ℕ

idle_handler : Handler
unfolding insert_peer new
idle_handler = (insert_peer 1 peer_one (new 0 random second_only 5 5)).0

leeching_handler : Handler
unfolding poll idle_handler
leeching_handler = (poll tt idle_handler).0

full_handler : Handler
unfolding add_block leeching_handler
full_handler = (add_block 1 (sevens five) leeching_handler).0

reached : HandlerReach (Unit {0}) (new 0 random second_only 5 5) full_handler
unfolding idle_handler leeching_handler full_handler
reached =
    and_then (and_then (and_then start (joins _ 1 peer_one)) (polled _ tt))
      (answers _ 1 (sevens five))

HandlerReach-IsSound_example : IsSound full_handler
HandlerReach-IsSound_example =
    HandlerReach-IsSound (Unit {0}) 0 random second_only 5 5 full_handler reached

abbrev full : PieceBuffer ℕ
full = record {
  torrent_id = 0;
  missing_blocks = [];
  pending_blocks = [];
  piece_index = 0;
  blocks = (0, sevens five) ∷ [];
  peers = 1 ∷ [];
  piece_length = 5;
  total_blocks = 1;
  last_block_size = 5;
}

full_there : full_handler.piece_buffer ≡ some full
unfolding full_handler get Map.insert Map.remove Map.contains_key next_piece_buffer
    remote_can_seed_piece Buffer.add_block Buffer.next Buffer.new Buffer.insert_block
full_there = refl

full_is_full : is_full_piece full ≡ true
unfolding is_full_piece
full_is_full = refl

full-IsCorrect : IsCorrect full.blocks
unfolding is_correct_len
full-IsCorrect = (refl, tt)

two_pieces : 0 < length full_handler.bitfield.inner
unfolding full_handler Map.insert Map.contains_key next_piece_buffer remote_can_seed_piece
two_pieces = omega arith

poll-piece_finished_example :
    (whole : List ℕ) × ((poll tt full_handler).1
      ≡ piece_finished (ok (record { metadata = new_metadata 0 0 5; block_data = whole })))
    × (length whole ≡ 5)
    × Placed whole full.blocks
    × ((poll tt full_handler).0.piece_buffer ≡ none)
    × ((j : ℕ)
        → has_piece j (poll tt full_handler).0
          ≡ (if 0 == j then true else has_piece j full_handler))
poll-piece_finished_example =
    poll-piece_finished tt full_handler full
      (HandlerReach-IsSound (Unit {0}) 0 random second_only 5 5 full_handler reached) full_there
      full_is_full full-IsCorrect two_pieces

-- the piece that the idle handler downloads next
abbrev chosen : PieceBuffer ℕ
chosen = record full { missing_blocks = five ∷ []; blocks = []; peers = 1 ∷ [] }

chosen_lem : next_piece_buffer tt idle_handler ≡ some chosen
unfolding next_piece_buffer idle_handler Map.insert Map.contains_key remote_can_seed_piece
    Buffer.new
chosen_lem = refl

next_piece_buffer-some_example :
    (i : ℕ) × (list_bit_vec.get idle_handler.bitfield.inner i ≡ some false)
    × (is_current (current_piece idle_handler) i ≡ false)
    × EveryCanSeed i idle_handler.peers
    × (chosen ≡ buffer_for idle_handler i (keys idle_handler.peers))
next_piece_buffer-some_example = next_piece_buffer-some tt idle_handler chosen chosen_lem

next_least_common-next_random_example :
    next_least_common_piece tt idle_handler
    ≡ (if any_can_seed idle_handler.peers then next_random_piece tt idle_handler else none)
next_least_common-next_random_example = next_least_common-next_random tt idle_handler

-- a peer that has no piece that is missing here
abbrev stranded : Handler
stranded = record {
  id = 0;
  selection_strategy = rarest;
  piece_buffer = some full;
  pending_seed_blocks = [];
  bitfield = record { inner = true ∷ false ∷ [] };
  piece_length = 5;
  last_piece_length = 5;
  peers = (1, record peer_one { bitfield = some (record { inner = true ∷ false ∷ [] }) }) ∷ [];
  endgame = false;
  finished = false;
}

stranded_lem : next_random_piece tt stranded ≡ none
unfolding next_random_piece remote_can_seed_piece
stranded_lem = refl

stranded_knows :
    get 1 stranded.peers
    ≡ some (record peer_one { bitfield = some (record { inner = true ∷ false ∷ [] }) })
unfolding get
stranded_knows = refl

stranded_seeds :
    remote_can_seed_piece 0
      (record peer_one { bitfield = some (record { inner = true ∷ false ∷ [] }) })
    ≡ true
unfolding remote_can_seed_piece
stranded_seeds = refl

-- peer 1 owes `five`, and another block is missing
abbrev owing : PieceBuffer ℕ
owing = record full {
  missing_blocks = record five { block_offset = 5 } ∷ [];
  pending_blocks = (1, five) ∷ [];
  blocks = [];
  peers = [];
  piece_length = 10;
  total_blocks = 2;
}

abbrev owed : Handler
owed = record stranded { piece_buffer = some owing }

owing_is_open : is_full_piece owing ≡ false
unfolding is_full_piece
owing_is_open = refl

owes_five : get 1 owing.pending_blocks ≡ some five
unfolding get
owes_five = refl

poll-set_choke_on_remote_example :
    (c : PieceBuffer ℕ) × ((poll tt (set_choke_on_remote 1 un_choked owed).0).0.piece_buffer
      ≡ some c)
    × (occurrences five c + hit five five ≡ occurrences five owing)
poll-set_choke_on_remote_example =
    poll-set_choke_on_remote tt 1
      (record peer_one { bitfield = some (record { inner = true ∷ false ∷ [] }) }) owing []
      (record five { block_offset = 5 }) five five owed stranded_knows refl owing_is_open
      stranded_seeds owes_five refl
