-- ===== src/Meta/Create.antt =====
-- `src/torrent/builder.rs`: the making of a torrent file, and the reading of its content.

pub mod Builder
pub mod Blocks
pub mod Pieces
pub mod Whole
pub mod Returns
pub mod Bounds
pub mod Made
use libp2p_bittorrent_protoc.Base.{
  ℕ, ℤ, zero, suc, ◌+◌, ◌-◌, ◌*◌, ◌^◌, Bool, true, false, not, ◌&&◌, List, [], ◌∷◌, ◌++◌, map,
  Option, none, some, Result, ok, err, ok_or, and_then, collect, Run, returns, panics, exhausted,
  ltb, leb, ◌==◌, if◌then◌else◌, length, take, drop,
}
use libp2p_bittorrent_protoc.Base.Vec.{push}
use libp2p_bittorrent_protoc.Crates.Bendy.{Encoder}
use libp2p_bittorrent_protoc.Crates.WalkDir.{FileTree, Hasher, Float}
use libp2p_bittorrent_protoc.Hash.{ShaHash}
use libp2p_bittorrent_protoc.Disk.Files.{InfoContent, SubFileInfo, single, multi}
use libp2p_bittorrent_protoc.Meta.{DhtNode, TorrentInfo, MetaInfo, unwrap_or}
use libp2p_bittorrent_protoc.Meta.Encode.{sha1_hash}
use Prim.Native.String.{String}

abbrev pub block_size_min : ℕ
block_size_min = 16384

abbrev pub block_size_max : ℕ
block_size_max = 16777216

-- a loop or a call that may fail, and what follows it
abbrev pub run_then {ℓ κ} :
    {A : Type ℓ} {B : Type κ} {X : Type 0}
    → Run (Result A X)
    → (A → Run (Result B X))
    → Run (Result B X)
run_then (returns (ok a)) f = f a
run_then (returns (err x)) f = returns (err x)
run_then panics f = panics
run_then exhausted f = exhausted

-- `Read::read_exact` on the bytes of a file that are left: the bytes, and what is left then
abbrev pub read_exact : {X : Type 0} → X → ℕ → List ℕ → Result (List ℕ × List ℕ) X
read_exact eof n file = if leb n (length file) then ok (take n file, drop n file) else err eof

-- the piece that is not whole at the end
abbrev pub with_overlap : {S : Type 0} → List S → Option (ℕ × S) → List S
with_overlap hashes none = hashes
with_overlap hashes (some (n, hash)) = push hashes hash

module _ {F D X : Type 0} (fs : FileTree F D X) where
  unfoldable pub is_hidden : D → Bool
  is_hidden entry = elim (fs.file_name entry) [
    | some (c ∷ name) ↦ c == b'.'
    | some [] ↦ false
    | none ↦ false
  ]

  -- the filter of every walk
  unfoldable pub is_visible_file : D → Bool
  unfolding is_hidden
  is_visible_file entry = not (is_hidden entry) && fs.is_file entry

  unfoldable pub file_info_paths : F → F → Result (List String) X
  file_info_paths content_root path =
      and_then (ok_or (fs.strip_prefix path content_root) fs.invalid_input)
        (λ names. collect (λ name. ok_or name fs.invalid_input) names)

module _ {F D X S : Type 0} (fs : FileTree F D X) (sha1 : Hasher S) where
  -- The loop of `read_file` over the pieces that begin in a file of `length` bytes, with what is left of
  -- it. What remains of a piece at the end is hashed too.
  unfoldable pub read_pieces :
      ℕ → ℕ → ℕ → ℕ → List ℕ → List S → Run (Result (List S × Option (ℕ × S)) X)
  read_pieces zero piece_length size total_read file pieces = exhausted
  read_pieces (suc fuel) piece_length size total_read file pieces =
      let left = size - total_read in
      let whole = read_exact fs.unexpected_eof piece_length file in
      let next : Run (Result (List S × Option (ℕ × S)) X) = elim whole [
        | err x ↦ returns (err x)
        | ok (buf, file') ↦
            read_pieces fuel piece_length size (total_read + piece_length) file'
              (push pieces (sha1.from buf))
      ] in
      if left == 0
      then returns (ok (pieces, none))
      else if ltb left piece_length
      then returns (
          and_then (read_exact fs.unexpected_eof left file)
            (λ (buf, file'). ok (pieces, some (left, sha1.from buf))))
      else next

  -- The pieces of an open file of `size` bytes, after what remained of a piece before it.
  unfoldable pub hash_file :
      ℕ → ℕ → List ℕ → Option (ℕ × S) → Run (Result (List S × Option (ℕ × S)) X)
  unfolding read_pieces
  hash_file piece_length size file none = read_pieces (suc size) piece_length size 0 file []
  hash_file piece_length size file (some (previous_read, hasher)) =
      let left = piece_length - previous_read in
      if ltb piece_length previous_read
      then panics
      else if leb left size
      then run_then (returns (read_exact fs.unexpected_eof left file)) (λ (buf, file').
        read_pieces (suc size) piece_length size left file' (sha1.update hasher buf ∷ []))
      else if not (length file == size)
      then returns (err fs.invalid_data)
      else returns (ok ([], some (previous_read + length file, sha1.update hasher file)))

  -- With a piece length of 0 the capacity of the list of pieces is a division by zero.
  unfoldable pub read_file :
      F → F → ℕ → Option (ℕ × S) → Run (Result (SubFileInfo × (List S × Option (ℕ × S))) X)
  unfolding file_info_paths hash_file
  read_file content_root path piece_length overlap = run_then (returns (fs.path_len path)) (λ size.
      run_then (returns (file_info_paths fs content_root path)) (λ names.
        run_then (returns (fs.open_file path)) (λ file.
          if piece_length == 0
          then panics
          else run_then (hash_file piece_length size file overlap)
              (λ pieces. returns (ok (record { length = size; paths = names }, pieces))))))

  -- the loop of `read_dir`, with the files, the pieces and the overlap so far
  unfoldable pub read_entries :
      F
      → ℕ
      → List (Result D X)
      → List SubFileInfo
      → List S
      → Option (ℕ × S)
      → Run (Result (List SubFileInfo × (List S × Option (ℕ × S))) X)
  unfolding read_file
  read_entries content_root piece_length [] all_files all_hashes overlap =
      returns (ok (all_files, (all_hashes, overlap)))
  read_entries content_root piece_length (err x ∷ entries) all_files all_hashes overlap =
      returns (err x)
  read_entries content_root piece_length (ok entry ∷ entries) all_files all_hashes overlap =
      run_then (read_file content_root (fs.path entry) piece_length overlap)
        (λ (file, (file_hashes, file_overlap)).
          read_entries content_root piece_length entries (push all_files file)
            (all_hashes ++ file_hashes) file_overlap)

  unfoldable pub read_dir : F → ℕ → Run (Result (List SubFileInfo × List S) X)
  unfolding read_entries is_visible_file
  read_dir content_root piece_length =
      run_then
        (read_entries content_root piece_length (fs.walk (is_visible_file fs) content_root) [] []
          none)
        (λ (all_files, (all_hashes, overlap)).
          returns (ok (all_files, with_overlap all_hashes overlap)))

  unfoldable pub read_content : F → ℕ → Run (Result (InfoContent × List S) X)
  unfolding read_dir read_file
  read_content content_root piece_length =
      if fs.is_dir content_root
      then run_then (read_dir content_root piece_length)
          (λ (files, pieces). returns (ok (multi files, pieces)))
      else run_then (read_file content_root content_root piece_length none)
          (λ (info, (pieces, overlap)).
            returns (ok (single info.length, with_overlap pieces overlap)))
