-- ===== src/Meta/Decode/Whole.antt =====
-- The decoding of a whole torrent file: `decode_bencode_object` of `MetaInfo`, in `src/torrent/mod.rs`.
use libp2p_bittorrent_protoc.Base.{
  ℕ, ℤ, List, [], ◌||◌, Option, none, some, Result, ok, ok_or, and_then, map_err, eq_bytes,
  if◌then◌else◌,
}
use libp2p_bittorrent_protoc.Crates.Bendy.{BendyTree, codes}
use libp2p_bittorrent_protoc.Hash.{ShaHash}
use libp2p_bittorrent_protoc.Meta.{DhtNode, TorrentInfo, MetaInfo}
use libp2p_bittorrent_protoc.Meta.Decode.{each, each_pair, decode_node, info_from_bencode}
use Prim.Native.String.{String}

-- The fields that are read so far.
pub record MetaFields : Type 0 where
  pub announce : Option String
  pub announce_list : List String
  pub webseeds : List String
  pub httpseeds : List String
  pub encoding : Option String
  pub comment : Option String
  pub created_by : Option String
  pub creation_date : Option ℤ
  pub info : Option TorrentInfo
  pub info_hash : Option ShaHash
  pub nodes : List DhtNode

abbrev pub no_fields : MetaFields
no_fields = record {
  announce = none;
  announce_list = [];
  webseeds = [];
  httpseeds = [];
  encoding = none;
  comment = none;
  created_by = none;
  creation_date = none;
  info = none;
  info_hash = none;
  nodes = [];
}

-- `sha1` is the digest of the bytes.
module _ {O B E : Type 0} (tree : BendyTree O B E) (from_lossy : List ℕ → String)
    (sha1 : B → ShaHash) where
  -- the text of a field with its name in the error
  abbrev pub decode_text : String → O → Result String E
  decode_text name value = map_err (tree.bendy.context name) (tree.bendy.decode_string value)

  -- a list of texts after those that are there
  unfoldable pub decode_texts : O → List String → Result (List String) E
  unfolding each
  decode_texts value names =
      and_then (tree.try_into_list value) (λ list. each tree.bendy.decode_string list names)

  -- the info with the digest of its bytes; `try_into_dictionary` comes first
  unfoldable pub decode_info_field : O → MetaFields → Result MetaFields E
  unfolding info_from_bencode
  decode_info_field value s = and_then (tree.bendy.try_into_dictionary value) (λ dict.
      and_then (tree.into_raw value) (λ bs.
        and_then (map_err (tree.bendy.context "info") (info_from_bencode tree from_lossy bs))
          (λ info. ok (record s { info_hash = some (sha1 bs); info = some info }))))

  -- one pair of a `MetaInfo`; a field that is not known is skipped
  unfoldable pub meta_pair : List ℕ → O → MetaFields → Result MetaFields E
  unfolding each decode_node decode_texts decode_info_field
  meta_pair key value s =
      if eq_bytes key (codes "announce")
      then and_then (decode_text "announce" value) (λ x. ok (record s { announce = some x }))
      else if eq_bytes key (codes "announce_list")
      then and_then (decode_texts value s.announce_list)
          (λ xs. ok (record s { announce_list = xs }))
      else if eq_bytes key (codes "url-list")
      then and_then (decode_texts value s.webseeds) (λ xs. ok (record s { webseeds = xs }))
      else if eq_bytes key (codes "httpseeds")
      then and_then (decode_texts value s.httpseeds) (λ xs. ok (record s { httpseeds = xs }))
      else if eq_bytes key (codes "nodes")
      then and_then (tree.try_into_list value) (λ list.
        and_then (each (decode_node tree from_lossy) list s.nodes)
          (λ xs. ok (record s { nodes = xs })))
      else if eq_bytes key (codes "comment") || eq_bytes key (codes "comment.utf-8")
      then and_then (decode_text "comment" value) (λ x. ok (record s { comment = some x }))
      else if eq_bytes key (codes "creation date")
      then and_then (map_err (tree.bendy.context "creation date") (tree.decode_i64 value))
          (λ x. ok (record s { creation_date = some x }))
      else if eq_bytes key (codes "encoding")
      then and_then (decode_text "encoding" value) (λ x. ok (record s { encoding = some x }))
      else if eq_bytes key (codes "created by") || eq_bytes key (codes "created by.utf-8")
      then and_then (decode_text "created by" value) (λ x. ok (record s { created_by = some x }))
      else if eq_bytes key (codes "info")
      then decode_info_field value s
      else ok s

  unfoldable pub decode_meta : O → Result MetaInfo E
  unfolding each_pair meta_pair
  decode_meta object = and_then (tree.bendy.try_into_dictionary object) (λ dict.
      and_then (each_pair meta_pair dict no_fields) (λ s.
        and_then (ok_or s.info (tree.bendy.missing_field "info")) (λ info.
          and_then (ok_or s.info_hash (tree.bendy.missing_field "info")) (λ info_hash. ok (record {
            announce = s.announce;
            announce_list = s.announce_list;
            encoding = s.encoding;
            comment = s.comment;
            created_by = s.created_by;
            creation_date = s.creation_date;
            httpseeds = s.httpseeds;
            webseeds = s.webseeds;
            info = info;
            nodes = s.nodes;
            info_hash = info_hash;
          })))))
