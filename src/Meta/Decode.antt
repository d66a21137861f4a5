-- ===== src/Meta/Decode.antt =====
-- The decoding of torrent files: `decode_bencode_object` of the types of `src/torrent/mod.rs`, over the
-- objects of a package. `from_lossy` is `String::from_utf8_lossy`.
pub mod Whole
use libp2p_bittorrent_protoc.Base.{
  ℕ, ℤ, Bool, true, false, collect, length, chunks, List, [], ◌∷◌, ◌||◌, Option, none, some, Result,
  ok, err, ok_or, and_then, map_err, eq_bytes, if◌then◌else◌, take, drop,
}
use libp2p_bittorrent_protoc.Base.Vec.{push}
use libp2p_bittorrent_protoc.Crates.Bendy.{BendyTree, codes}
use libp2p_bittorrent_protoc.Hash.{ShaHash, try_from, sha_hash_len}
use libp2p_bittorrent_protoc.Disk.Files.{InfoContent, SubFileInfo, single, multi}
use libp2p_bittorrent_protoc.Meta.{DhtNode, TorrentInfo, MetaInfo}
use Prim.Native.String.{String}

-- the `EXPECTED_RECURSION_DEPTH` of `TorrentInfo`
abbrev pub info_recursion_depth : ℕ
info_recursion_depth = 3

-- The fields that are read so far.
pub record FileFields : Type 0 where
  pub length : Option ℕ
  pub paths : Option (List String)

pub record InfoFields : Type 0 where
  pub name : Option String
  pub pieces : Option (List ShaHash)
  pub piece_length : Option ℕ
  pub files : Option (List SubFileInfo)
  pub length : Option ℕ

abbrev pub no_info : InfoFields
no_info = record { name = none; pieces = none; piece_length = none; files = none; length = none }

abbrev pub is_some : {A : Type 0} → Option A → Bool
is_some none = false
is_some (some a) = true

-- the content, of a length if there is one
unfoldable pub content_of : Option ℕ → Option (List SubFileInfo) → Option InfoContent
content_of (some n) files = some (single n)
content_of none (some files) = some (multi files)
content_of none none = none

-- `next_object`, and what is left of the list
unfoldable pub next_object :
    {O E : Type 0} → List (Result O E) → Result (Option O × List (Result O E)) E
next_object [] = ok (none, [])
next_object (err e ∷ objects) = err e
next_object (ok object ∷ objects) = ok (some object, objects)

-- `while let Some(object) = list.next_object()?`, with what is pushed so far
unfoldable pub each :
    {O E A : Type 0} → (O → Result A E) → List (Result O E) → List A → Result (List A) E
each f [] out = ok out
each f (err e ∷ objects) out = err e
each f (ok object ∷ objects) out = and_then (f object) (λ a. each f objects (push out a))

-- `while let Some(pair) = dict.next_pair()?`
unfoldable pub each_pair :
    {O E S : Type 0} → (List ℕ → O → S → Result S E) → List (Result (List ℕ × O) E) → S → Result S E
each_pair f [] s = ok s
each_pair f (err e ∷ pairs) s = err e
each_pair f (ok (key, value) ∷ pairs) s = and_then (f key value s) (λ s'. each_pair f pairs s')

module _ {O B E : Type 0} (tree : BendyTree O B E) (from_lossy : List ℕ → String) where
  unfoldable pub decode_node : O → Result DhtNode E
  unfolding next_object
  decode_node object = and_then (tree.try_into_list object) (λ list.
      and_then (next_object list) (λ found.
        and_then (ok_or found.0 (tree.bendy.missing_field "host")) (λ host.
          and_then (tree.bendy.decode_string host) (λ host. and_then (next_object found.1) (λ found.
            and_then (ok_or found.0 (tree.bendy.missing_field "port")) (λ port.
              and_then (tree.decode_u32 port)
                (λ port. ok (record { host = host; port = port }))))))))

  -- one pair of a `SubFileInfo`
  unfoldable pub file_pair : List ℕ → O → FileFields → Result FileFields E
  unfolding each
  file_pair key value s =
      if eq_bytes key (codes "length")
      then and_then (map_err (tree.bendy.context "length") (tree.decode_u64 value))
          (λ n. ok (record s { length = some n }))
      else if eq_bytes key (codes "path")
      then and_then (tree.try_into_list value) (λ list.
        and_then (each tree.bendy.decode_string list [])
          (λ names. ok (record s { paths = some names })))
      else err (tree.bendy.unexpected_field (from_lossy key))

  unfoldable pub decode_file : O → Result SubFileInfo E
  unfolding each_pair file_pair
  decode_file object = and_then (tree.bendy.try_into_dictionary object) (λ dict.
      and_then (each_pair file_pair dict (record { length = none; paths = none })) (λ s.
        and_then (ok_or s.length (tree.bendy.missing_field "length")) (λ n.
          and_then (ok_or s.paths (tree.bendy.missing_field "paths"))
            (λ names. ok (record { length = n; paths = names })))))

  -- one pair of a `TorrentInfo`; a field that is not known is skipped
  unfoldable pub info_pair : List ℕ → O → InfoFields → Result InfoFields E
  unfolding each decode_file try_from
  info_pair key value s =
      if eq_bytes key (codes "name") || eq_bytes key (codes "name.utf-8")
      then and_then (map_err (tree.bendy.context "name") (tree.bendy.decode_string value))
          (λ name. ok (record s { name = some name }))
      else if eq_bytes key (codes "piece length")
      then and_then (map_err (tree.bendy.context "piece length") (tree.decode_u64 value))
          (λ n. ok (record s { piece_length = some n }))
      else if eq_bytes key (codes "pieces")
      then and_then (tree.bendy.try_into_bytes value) (λ bs.
        and_then
          (map_err (λ e. tree.bendy.unexpected_field "malformed pieces chunks")
            (collect try_from (chunks (length bs) sha_hash_len bs)))
          (λ pieces. ok (record s { pieces = some pieces })))
      else if eq_bytes key (codes "files")
      then (if is_some s.length
          then err (tree.bendy.unexpected_field "files")
          else and_then (tree.try_into_list value) (λ list.
            and_then (each decode_file list []) (λ files. ok (record s { files = some files }))))
      else if eq_bytes key (codes "length")
      then (if is_some s.files
          then err (tree.bendy.unexpected_field "length")
          else and_then (map_err (tree.bendy.context "length") (tree.decode_u64 value))
              (λ n. ok (record s { length = some n })))
      else ok s

  unfoldable pub decode_info : O → Result TorrentInfo E
  unfolding each_pair info_pair content_of
  decode_info object = and_then (tree.bendy.try_into_dictionary object) (λ dict.
      and_then (each_pair info_pair dict no_info) (λ s.
        and_then (ok_or s.name (tree.bendy.missing_field "name")) (λ name.
          and_then (ok_or s.piece_length (tree.bendy.missing_field "pieces length")) (λ n.
            and_then (ok_or s.pieces (tree.bendy.missing_field "pieces")) (λ pieces.
              and_then
                (ok_or (content_of s.length s.files) (tree.bendy.missing_field "length or files"))
                (λ content. ok (record {
                  name = name;
                  pieces = pieces;
                  piece_length = n;
                  content = content;
                })))))))

  -- `from_bencode` of a `TorrentInfo`
  unfoldable pub info_from_bencode : B → Result TorrentInfo E
  unfolding decode_info
  info_from_bencode bs = and_then (tree.read_object info_recursion_depth bs) decode_info
