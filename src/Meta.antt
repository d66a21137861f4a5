-- ===== src/Meta.antt =====
-- `src/torrent/mod.rs`: what a torrent file says of its content, and the configuration of a torrent
-- that `src/peer/builder.rs` makes of it.
pub mod Lengths
pub mod Create
pub mod Encode
pub mod Depth
pub mod Order
pub mod RoundTrip
pub mod Decode
pub mod Tests
use libp2p_bittorrent_protoc.Base.{
  ℕ, ℤ, ◌+◌, ◌-◌, ◌*◌, ◌%◌, Bool, true, false, not, List, [], ◌∷◌, Option, none, some, Result, ok,
  err, Outcome, done, panic, bind, map, ok_or, and_then, length, ltb, if◌then◌else◌,
}
use libp2p_bittorrent_protoc.Crates.BitVec.{BitVec}
use libp2p_bittorrent_protoc.Hash.{ShaHash}
use mathlib.Core.List.{foldl}
use Prim.Native.String.{String}
use libp2p_bittorrent_protoc.Wire.Message.{BitField}
use libp2p_bittorrent_protoc.Disk.Files.{InfoContent, SubFileInfo, single, multi}
use libp2p_bittorrent_protoc.Peer.Torrent.{
  TorrentState, paused, SeedLeechConfig, seed_only, seed_and_leech,
}
use libp2p_bittorrent_protoc.Peer.Pool.{TorrentConfig}

-- a peer to bootstrap a hash table from
pub record DhtNode : Type 0 where
  pub host : String
  pub port : ℕ

pub record TorrentInfo : Type 0 where
  pub name : String
  pub pieces : List ShaHash
  pub piece_length : ℕ
  pub content : InfoContent

-- `info_hash` is the digest of the hasher that the source keeps.
pub record MetaInfo : Type 0 where
  pub announce : Option String
  pub announce_list : List String
  pub encoding : Option String
  pub comment : Option String
  pub created_by : Option String
  pub creation_date : Option ℤ
  pub httpseeds : List String
  pub webseeds : List String
  pub info : TorrentInfo
  pub nodes : List DhtNode
  pub info_hash : ShaHash

unfoldable pub is_file : InfoContent → Bool
is_file (single size) = true
is_file (multi files) = false

unfoldable pub is_dir : InfoContent → Bool
unfolding is_file
is_dir content = not (is_file content)

abbrev pub is_empty : {A : Type 0} → List A → Bool
is_empty [] = true
is_empty (x ∷ xs) = false

abbrev last : {A : Type 0} → List A → Option A
last [] = none
last (x ∷ []) = some x
last (x ∷ y ∷ ys) = last (y ∷ ys)

abbrev pub sum : List ℕ → ℕ
sum [] = 0
sum (n ∷ ns) = n + sum ns

unfoldable pub content_length : InfoContent → ℕ
content_length (single size) = size
content_length (multi files) = sum (map (λ file. file.length) files)

-- Both subtractions are of numbers without a sign, and panic in a build that checks for overflow.
unfoldable pub last_piece_length : TorrentInfo → Outcome ℕ
unfolding content_length
last_piece_length info =
    if ltb 0 (length info.pieces)
    then (if ltb (content_length info.content) ((length info.pieces - 1) * info.piece_length)
        then panic
        else done (content_length info.content - (length info.pieces - 1) * info.piece_length))
    else panic

-- A remainder by a piece length of 0 panics.
unfoldable pub last_piece_size : TorrentInfo → Outcome ℕ
unfolding content_length
last_piece_size info =
    if ltb 0 info.piece_length
    then done (content_length info.content % info.piece_length)
    else panic

unfoldable pub is_tracker_less : MetaInfo → Bool
is_tracker_less torrent = not (is_empty torrent.nodes)

unfoldable pub file_name : SubFileInfo → Option String
file_name file = last file.paths

-- `join` of paths, and the empty one
unfoldable pub relative_file_path : {F : Type 0} → F → (F → String → F) → SubFileInfo → F
relative_file_path empty join file = foldl join empty file.paths

-- `from` is `PathBuf::from`
unfoldable pub all_files : {F : Type 0} → F → (F → String → F) → (String → F) → TorrentInfo → List F
unfolding relative_file_path
all_files empty join from info = elim info.content [
  | multi files ↦ map (relative_file_path empty join) files
  | single size ↦ from info.name ∷ []
]

pub record TorrentConfigBuilder (V : Type 0) : Type 0 where
  pub state : Option TorrentState
  pub bitfield : Option (BitField V)
  pub info_hash : Option ShaHash
  pub piece_length : Option ℕ
  pub last_piece_length : Option ℕ

-- the field that the message of the error names
pub data Missing : Type 0 where
  no_bitfield no_info_hash no_piece_length no_last_piece_length : Missing

abbrev pub unwrap_or : {A : Type 0} → Option A → A → A
unwrap_or none a = a
unwrap_or (some b) a = b

-- `Result::unwrap`
abbrev pub unwrap : {A E : Type 0} → Result A E → Outcome A
unwrap (ok a) = done a
unwrap (err e) = panic

module _ {V : Type 0} where
  unfoldable pub build : SeedLeechConfig → TorrentConfigBuilder V → Result (TorrentConfig V) Missing
  build seed_leech b = and_then (ok_or b.bitfield no_bitfield) (λ field.
      and_then (ok_or b.info_hash no_info_hash) (λ hash.
        and_then (ok_or b.piece_length no_piece_length) (λ len.
          and_then (ok_or b.last_piece_length no_last_piece_length) (λ last. ok (record {
            info_hash = hash;
            state = unwrap_or b.state paused;
            bitfield = field;
            piece_length = len;
            last_piece_length = last;
            seed_leech = seed_leech;
          })))))

  unfoldable pub into_seed : TorrentConfigBuilder V → Result (TorrentConfig V) Missing
  unfolding build
  into_seed b = build seed_only b

  unfoldable pub into_leech : TorrentConfigBuilder V → Result (TorrentConfig V) Missing
  unfolding build
  into_leech b = build seed_and_leech b

  module _ ⦃v : BitVec V⦄ where
    abbrev pub builder_for : MetaInfo → TorrentState → Bool → ℕ → TorrentConfigBuilder V
    builder_for torrent state owned last = record {
      state = some state;
      bitfield = some (record { inner = v.from_elem (length torrent.info.pieces) owned });
      info_hash = some torrent.info_hash;
      piece_length = some torrent.info.piece_length;
      last_piece_length = some last;
    }

    unfoldable pub new_leech : MetaInfo → TorrentState → Outcome (TorrentConfig V)
    unfolding last_piece_length into_leech
    new_leech torrent state =
        bind (last_piece_length torrent.info)
          (λ last. unwrap (into_leech (builder_for torrent state false last)))

    unfoldable pub new_seed : MetaInfo → TorrentState → Outcome (TorrentConfig V)
    unfolding last_piece_length into_seed
    new_seed torrent state =
        bind (last_piece_length torrent.info)
          (λ last. unwrap (into_seed (builder_for torrent state true last)))
