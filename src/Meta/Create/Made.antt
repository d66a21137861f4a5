-- ===== src/Meta/Create/Made.antt =====
-- The torrent that `build` of `src/torrent/builder.rs` makes of one file.
use libp2p_bittorrent_protoc.Base.{
  ℕ, suc, ◌≡◌, ◌∙◌, refl, sym, ap, false, List, [], map, some, ok, returns, length, chunks,
}
use libp2p_bittorrent_protoc.Crates.Bendy.{Encoder}
use libp2p_bittorrent_protoc.Crates.WalkDir.{FileTree, Hasher, Float}
use libp2p_bittorrent_protoc.Hash.{ShaHash}
use libp2p_bittorrent_protoc.Disk.Files.{InfoContent, single}
use libp2p_bittorrent_protoc.Meta.{MetaInfo, TorrentInfo, unwrap_or}
use libp2p_bittorrent_protoc.Meta.Depth.{sha1_hash-single}
use libp2p_bittorrent_protoc.Meta.Encode.{sha1_hash}
use libp2p_bittorrent_protoc.Meta.Create.{file_info_paths}
use libp2p_bittorrent_protoc.Meta.Create.Builder.{
  TorrentBuilder, compute_piece_length, finish, build,
}
use libp2p_bittorrent_protoc.Meta.Create.Whole.{read_content_lem}
use Prim.Native.String.{String}

-- what a torrent says of one file with these bytes
abbrev pub file_torrent : {S : Type 0} → Hasher S → String → ℕ → List ℕ → TorrentInfo
file_torrent sha1 name piece_length bytes = record {
  name = name;
  pieces = map sha1.digest (map sha1.from (chunks (length bytes) piece_length bytes));
  piece_length = piece_length;
  content = single (length bytes);
}

module _ {N F D X S V B E : Type 0} (f64 : Float N) (fs : FileTree F D X) (sha1 : Hasher S)
    (encoder : Encoder V B E) (sha1_from : B → ShaHash) (from_encoding : E → X) where
  finish_lem :
      (b : TorrentBuilder F) (p : ℕ) (content : InfoContent) (pieces : List S) (root : String)
      (info : TorrentInfo) (hash : ShaHash)
      → fs.name_of b.content_root ≡ some root
      → info ≡ record {
        name = unwrap_or b.name root;
        pieces = map sha1.digest pieces;
        piece_length = p;
        content = content;
      }
      → sha1_hash encoder sha1_from info ≡ ok hash
      → (m : MetaInfo) × (finish f64 fs sha1 encoder sha1_from from_encoding b p content pieces
          ≡ ok m)
        × (m.info ≡ info)
        × (m.info_hash ≡ hash)
  unfolding finish
  finish_lem b p content pieces root info hash r e h =
      let digested = rw (e) at h in
      let made : MetaInfo = record {
        announce = b.announce;
        announce_list = unwrap_or b.announce_list [];
        encoding = b.encoding;
        comment = b.comment;
        created_by = b.created_by;
        creation_date = b.creation_date;
        httpseeds = unwrap_or b.httpseeds [];
        webseeds = unwrap_or b.webseeds [];
        info = record {
          name = unwrap_or b.name root;
          pieces = map sha1.digest pieces;
          piece_length = p;
          content = content;
        };
        nodes = unwrap_or b.nodes [];
        info_hash = hash;
      } in
      (made, rw (r, digested) refl, sym e, refl)

  -- The torrent that is made of a file with a name has the name that is set, or else that of the file,
  -- its length and the hashes of its pieces, and is identified by the digest of its own bencode; where
  -- the file is read as it is, and the length of its pieces is computed.
  pub build_lem :
      (b : TorrentBuilder F) (n p : ℕ) (bytes : List ℕ) (names : List String) (root : String)
      → fs.is_dir b.content_root ≡ false
      → file_info_paths fs b.content_root b.content_root ≡ ok names
      → fs.path_len b.content_root ≡ ok (length bytes)
      → fs.open_file b.content_root ≡ ok bytes
      → fs.name_of b.content_root ≡ some root
      → compute_piece_length f64 fs b ≡ ok n
      → unwrap_or b.piece_length n ≡ suc p
      → (m : MetaInfo) × (build f64 fs sha1 encoder sha1_from from_encoding b ≡ returns (ok m))
        × (m.info ≡ file_torrent sha1 (unwrap_or b.name root) (suc p) bytes)
        × ((bs : B) × (m.info_hash ≡ sha1_from bs)
            × (sha1_hash encoder sha1_from m.info ≡ ok (sha1_from bs)))
  unfolding build
  build_lem b n p bytes names root d f l o r c e =
      let info = file_torrent sha1 (unwrap_or b.name root) (suc p) bytes in
      let (bs, h) = sha1_hash-single encoder info (length bytes) sha1_from refl in
      let (m, made, same, digest) =
        finish_lem b (suc p) (single (length bytes)) _ root info (sha1_from bs) r refl h in
      (
        m,
        rw (c, e, read_content_lem fs sha1 b.content_root p bytes names d f l o, made) refl,
        same,
        (bs, digest, ap (sha1_hash encoder sha1_from) same ∙ h),
      )
