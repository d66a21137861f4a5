-- ===== src/Meta/Create/Builder.antt =====
-- `TorrentBuilder` of `src/torrent/builder.rs`: its setters, the length of the pieces, and `build`.
use libp2p_bittorrent_protoc.Base.{
  ℕ, ℤ, ◌+◌, ◌*◌, ◌^◌, List, [], ◌∷◌, map, Option, none, some, Result, ok, err, ok_or, and_then,
  map_err, Run, returns, leb, ◌&&◌, if◌then◌else◌,
}
use libp2p_bittorrent_protoc.Base.Vec.{push}
use libp2p_bittorrent_protoc.Crates.Bendy.{Encoder}
use libp2p_bittorrent_protoc.Crates.WalkDir.{FileTree, Hasher, Float}
use libp2p_bittorrent_protoc.Hash.{ShaHash}
use libp2p_bittorrent_protoc.Disk.Files.{InfoContent}
use libp2p_bittorrent_protoc.Meta.{DhtNode, TorrentInfo, MetaInfo, unwrap_or}
use libp2p_bittorrent_protoc.Meta.Encode.{sha1_hash}
use libp2p_bittorrent_protoc.Meta.Create.{
  block_size_min, block_size_max, run_then, is_visible_file, read_content,
}
use Prim.Native.Nat.{max}
use Prim.Native.String.{String}

pub record TorrentBuilder (F : Type 0) : Type 0 where
  pub announce : Option String
  pub announce_list : Option (List String)
  pub webseeds : Option (List String)
  pub httpseeds : Option (List String)
  pub name : Option String
  pub encoding : Option String
  pub comment : Option String
  pub created_by : Option String
  pub creation_date : Option ℤ
  pub content_root : F
  pub piece_length : Option ℕ
  pub nodes : Option (List DhtNode)

-- an element more in a list that may not be there yet
abbrev pub add_to : {A : Type 0} → A → Option (List A) → Option (List A)
add_to a none = some (a ∷ [])
add_to a (some list) = some (push list a)

module _ {F : Type 0} where
  unfoldable pub new : F → TorrentBuilder F
  new file = record {
    announce = none;
    announce_list = none;
    webseeds = none;
    httpseeds = none;
    name = none;
    encoding = none;
    comment = none;
    created_by = none;
    creation_date = none;
    content_root = file;
    piece_length = none;
    nodes = none;
  }

  unfoldable pub with_name : String → TorrentBuilder F → TorrentBuilder F
  with_name name b = record b { name = some name }

  unfoldable pub with_encoding : String → TorrentBuilder F → TorrentBuilder F
  with_encoding encoding b = record b { encoding = some encoding }

  unfoldable pub with_comment : String → TorrentBuilder F → TorrentBuilder F
  with_comment comment b = record b { comment = some comment }

  unfoldable pub with_created_by : String → TorrentBuilder F → TorrentBuilder F
  with_created_by created_by b = record b { created_by = some created_by }

  -- the seconds of the date, which for `creation_now` is the one of the call
  unfoldable pub with_creation_date : ℤ → TorrentBuilder F → TorrentBuilder F
  with_creation_date timestamp b = record b { creation_date = some timestamp }

  unfoldable pub creation_now : ℤ → TorrentBuilder F → TorrentBuilder F
  unfolding with_creation_date
  creation_now now b = with_creation_date now b

  unfoldable pub with_piece_length :
      ℕ → TorrentBuilder F → Result (TorrentBuilder F) (TorrentBuilder F)
  with_piece_length piece_length b =
      if leb block_size_min piece_length && leb piece_length block_size_max
      then ok (record b { piece_length = some piece_length })
      else err b

  unfoldable pub with_announce : String → TorrentBuilder F → TorrentBuilder F
  with_announce announce b = record b { announce = some announce }

  unfoldable pub add_announce_list : String → TorrentBuilder F → TorrentBuilder F
  add_announce_list announce b = record b { announce_list = add_to announce b.announce_list }

  unfoldable pub with_announce_list : List String → TorrentBuilder F → TorrentBuilder F
  with_announce_list announce b = record b { announce_list = some announce }

  unfoldable pub add_webseed : String → TorrentBuilder F → TorrentBuilder F
  add_webseed webseed b = record b { webseeds = add_to webseed b.webseeds }

  unfoldable pub with_webseeds : List String → TorrentBuilder F → TorrentBuilder F
  with_webseeds webseeds b = record b { webseeds = some webseeds }

  unfoldable pub add_httpseed : String → TorrentBuilder F → TorrentBuilder F
  add_httpseed httpseed b = record b { httpseeds = add_to httpseed b.httpseeds }

  unfoldable pub with_httpseeds : List String → TorrentBuilder F → TorrentBuilder F
  with_httpseeds httpseeds b = record b { httpseeds = some httpseeds }

  unfoldable pub add_node : DhtNode → TorrentBuilder F → TorrentBuilder F
  add_node node b = record b { nodes = add_to node b.nodes }

  unfoldable pub with_nodes : List DhtNode → TorrentBuilder F → TorrentBuilder F
  with_nodes nodes b = record b { nodes = some nodes }

module _ {N : Type 0} (f64 : Float N) where
  -- by how much the size is divided before the logarithm; above 80 GiB there is none
  unfoldable pub divisor : ℕ → Option ℕ
  divisor size =
      let two_pow_30 : ℕ = 1073741824 in
      if leb size two_pow_30
      then some 1024
      else if leb size (4 * two_pow_30)
      then some 2048
      else if leb size (6 * two_pow_30)
      then some 3072
      else if leb size (8 * two_pow_30)
      then some 2048
      else if leb size (16 * two_pow_30)
      then some 2048
      else if leb size (32 * two_pow_30)
      then some 4096
      else if leb size (64 * two_pow_30)
      then some 8192
      else if leb size (80 * two_pow_30)
      then some 10000
      else none

  -- the length of the pieces of so many bytes
  unfoldable pub piece_length_for : ℕ → ℕ
  unfolding divisor
  piece_length_for size = elim (divisor size) [
    | none ↦ block_size_max
    | some d ↦
        let pieces = f64.div (f64.from_u64 size) (f64.from_u64 d) in
        max (2 ^ f64.to_usize (f64.max (f64.ceil (f64.log2 pieces)) (f64.from_u64 0))) (16 * 1024)
  ]

  module _ {F D X : Type 0} (fs : FileTree F D X) where
    -- the loop over the walk, with the size so far
    unfoldable pub total_size : List (Result D X) → ℕ → Result ℕ X
    total_size [] size = ok size
    total_size (err x ∷ entries) size = err x
    total_size (ok entry ∷ entries) size =
        and_then (fs.entry_len entry) (λ len. total_size entries (size + len))

    unfoldable pub compute_piece_length : TorrentBuilder F → Result ℕ X
    unfolding total_size is_visible_file piece_length_for
    compute_piece_length b =
        and_then (total_size (fs.walk (is_visible_file fs) b.content_root) 0)
          (λ size. ok (piece_length_for size))

    module _ {S V B E : Type 0} (sha1 : Hasher S) (encoder : Encoder V B E)
        (sha1_from : B → ShaHash) (from_encoding : E → X) where
      -- The name of the root is read also where there is a name.
      unfoldable pub finish : TorrentBuilder F → ℕ → InfoContent → List S → Result MetaInfo X
      unfolding sha1_hash
      finish b piece_length content pieces =
          and_then (ok_or (fs.name_of b.content_root) fs.invalid_input) (λ root.
            let info : TorrentInfo = record {
              name = unwrap_or b.name root;
              pieces = map sha1.digest pieces;
              piece_length = piece_length;
              content = content;
            } in
            and_then (map_err from_encoding (sha1_hash encoder sha1_from info)) (λ info_hash.
              ok (record {
                announce = b.announce;
                announce_list = unwrap_or b.announce_list [];
                encoding = b.encoding;
                comment = b.comment;
                created_by = b.created_by;
                creation_date = b.creation_date;
                httpseeds = unwrap_or b.httpseeds [];
                webseeds = unwrap_or b.webseeds [];
                info = info;
                nodes = unwrap_or b.nodes [];
                info_hash = info_hash;
              })))

      -- The length of the pieces is computed also where it is set.
      unfoldable pub build : TorrentBuilder F → Run (Result MetaInfo X)
      unfolding compute_piece_length
      build b = run_then (returns (compute_piece_length b)) (λ computed.
          let piece_length = unwrap_or b.piece_length computed in
          run_then (read_content fs sha1 b.content_root piece_length)
            (λ (content, pieces). returns (finish b piece_length content pieces)))
