-- ===== src/Meta/Tests.antt =====
-- The theorem on configurations at a torrent of two files.
pub mod Bencode
pub mod Create
use libp2p_bittorrent_protoc.Base.{
  ℕ, ◌+◌, ◌-◌, ◌*◌, ◌≡◌, refl, Bool, true, false, List, [], ◌∷◌, none, some, done, replicate,
}
use libp2p_bittorrent_protoc.Crates.Instances.{list_bit_vec}
use libp2p_bittorrent_protoc.Disk.Files.{SubFileInfo, multi}
use libp2p_bittorrent_protoc.Hash.{ShaHash}
use libp2p_bittorrent_protoc.Peer.Torrent.{active, seed_only, seed_and_leech}
use libp2p_bittorrent_protoc.Peer.Pool.{TorrentConfig}
use libp2p_bittorrent_protoc.Peer.Tests.{hash_of}
use libp2p_bittorrent_protoc.Meta.{MetaInfo, TorrentInfo, content_length, new_leech, new_seed}
use libp2p_bittorrent_protoc.Meta.Lengths.{new_leech_lem}

abbrev sized : ℕ → SubFileInfo
sized n = record { length = n; paths = "a" ∷ [] }

-- a torrent file that says nothing else
abbrev pub bare : TorrentInfo → ShaHash → MetaInfo
bare info info_hash = record {
  announce = none;
  announce_list = [];
  encoding = none;
  comment = none;
  created_by = none;
  creation_date = none;
  httpseeds = [];
  webseeds = [];
  info = info;
  nodes = [];
  info_hash = info_hash;
}

abbrev two_files : MetaInfo
two_files =
    bare
      (record {
        name = "a";
        pieces = hash_of 1 ∷ hash_of 2 ∷ hash_of 3 ∷ [];
        piece_length = 4;
        content = multi (sized 3 ∷ sized 7 ∷ []);
      })
      (hash_of 4)

abbrev to_leech : TorrentConfig (List Bool)
to_leech = record {
  info_hash = hash_of 4;
  state = active;
  bitfield = record { inner = false ∷ false ∷ false ∷ [] };
  piece_length = 4;
  last_piece_length = 2;
  seed_leech = seed_and_leech;
}

abbrev to_seed : TorrentConfig (List Bool)
to_seed = record to_leech {
  bitfield = record { inner = true ∷ true ∷ true ∷ [] };
  seed_leech = seed_only;
}

leeches : new_leech two_files active ≡ done to_leech
unfolding new_leech
leeches = refl

seeds : new_seed two_files active ≡ done to_seed
unfolding new_seed
seeds = refl
