-- ===== src/Meta/Encode.antt =====
-- The bencoding of torrent files: `encode` of the types of `src/torrent/mod.rs`. The calls for the
-- parts of a dictionary are made before the one that emits it.
use libp2p_bittorrent_protoc.Base.{
  ℕ, List, [], ◌∷◌, ◌++◌, map, flat_map, Option, none, some, Result, ok, and_then, collect,
}
use libp2p_bittorrent_protoc.Crates.Bendy.{Encoder, codes}
use libp2p_bittorrent_protoc.Disk.Files.{InfoContent, SubFileInfo, single, multi}
use libp2p_bittorrent_protoc.Meta.{DhtNode, TorrentInfo, MetaInfo}
use Prim.Native.String.{String}

-- the `MAX_DEPTH` of `TorrentInfo` and of `MetaInfo`
abbrev pub info_max_depth : ℕ
info_max_depth = 3

abbrev pub meta_max_depth : ℕ
meta_max_depth = 3

module _ {V B E : Type 0} (encoder : Encoder V B E) where
  abbrev pub strings : List String → V
  strings names = encoder.emit_list (map encoder.emit_str names)

  unfoldable pub encode_node : DhtNode → V
  encode_node node =
      encoder.emit_list (encoder.emit_str node.host ∷ encoder.emit_int node.port ∷ [])

  unfoldable pub encode_file : SubFileInfo → Result V E
  encode_file file =
      encoder.emit_dict
        ((codes "length", encoder.emit_int file.length) ∷ (codes "path", strings file.paths) ∷ [])

  -- the pair of the content
  unfoldable pub encode_content : InfoContent → Result (List ℕ × V) E
  unfolding encode_file
  encode_content (single size) = ok (codes "length", encoder.emit_int size)
  encode_content (multi files) =
      and_then (collect encode_file files) (λ vs. ok (codes "files", encoder.emit_list vs))

  -- the pairs after that of the content
  abbrev pub info_rest : TorrentInfo → List (List ℕ × V)
  info_rest info =
      (codes "name", encoder.emit_str info.name)
      ∷ (codes "piece length", encoder.emit_int info.piece_length)
      ∷ (codes "pieces", encoder.emit_bytes (flat_map (λ x. x.hash) info.pieces))
      ∷ []

  unfoldable pub encode_info : TorrentInfo → Result V E
  unfolding encode_content
  encode_info info =
      and_then (encode_content info.content)
        (λ content. encoder.emit_dict (content ∷ info_rest info))

  -- the pair of a field that is there, and of a list that is not empty
  abbrev pub optional : {A : Type 0} → String → (A → V) → Option A → List (List ℕ × V)
  optional name f none = []
  optional name f (some a) = (codes name, f a) ∷ []

  abbrev pub non_empty : {A : Type 0} → String → (A → V) → List A → List (List ℕ × V)
  non_empty name f [] = []
  non_empty name f (x ∷ xs) = (codes name, encoder.emit_list (map f (x ∷ xs))) ∷ []

  -- `created_by` is not encoded.
  unfoldable pub meta_pairs : MetaInfo → V → List (List ℕ × V)
  unfolding encode_node
  meta_pairs m info =
      optional "announce" encoder.emit_str m.announce
      ++ (non_empty "announce list" encoder.emit_str m.announce_list
          ++ (optional "comment" encoder.emit_str m.comment
              ++ (optional "creation date" encoder.emit_i64 m.creation_date
                  ++ (optional "encoding" encoder.emit_str m.encoding
                      ++ (non_empty "httpseeds" encoder.emit_str m.httpseeds
                          ++ (non_empty "nodes" encode_node m.nodes
                              ++ (non_empty "url-list" encoder.emit_str m.webseeds
                                  ++ ((codes "info", info) ∷ []))))))))

  unfoldable pub encode_meta : MetaInfo → Result V E
  unfolding encode_info meta_pairs
  encode_meta m = and_then (encode_info m.info) (λ info. encoder.emit_dict (meta_pairs m info))

  -- `to_bencode` of a `MetaInfo`, as `write_torrent_file` calls it before it writes
  unfoldable pub meta_to_bencode : MetaInfo → Result B E
  unfolding encode_meta
  meta_to_bencode m = and_then (encode_meta m) (encoder.to_bencode meta_max_depth)

  -- `sha1` is the digest of the bytes.
  unfoldable pub sha1_hash : {H : Type 0} → (B → H) → TorrentInfo → Result H E
  unfolding encode_info
  sha1_hash sha1 info =
      and_then (and_then (encode_info info) (encoder.to_bencode info_max_depth))
        (λ bs. ok (sha1 bs))
