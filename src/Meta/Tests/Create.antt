-- ===== src/Meta/Tests/Create.antt =====
-- The theorems on the making of torrent files at a small tree of files.
use native.Mathlib.Nat.{max-le}
use libp2p_bittorrent_protoc.Base.{
  ℕ, zero, suc, ◌*◌, ◌^◌, ◌≤◌, ◌≡◌, refl, inl, inr, Bool, false, not, List, [], ◌∷◌, ◌++◌, map,
  Option, none, some, Result, ok, Run, returns, arith, leb, ltb, ◌==◌, if◌then◌else◌, Bool-cases,
  length,
}
use libp2p_bittorrent_protoc.Crates.Bendy.Values.{Value, levels, value_encoder}
use libp2p_bittorrent_protoc.Crates.WalkDir.{FileTree, Hasher, Float}
use libp2p_bittorrent_protoc.Disk.Files.{SubFileInfo, multi}
use libp2p_bittorrent_protoc.Peer.Tests.{hash_of}
use libp2p_bittorrent_protoc.Meta.{MetaInfo}
use libp2p_bittorrent_protoc.Meta.Create.{file_info_paths, read_entries, read_content, with_overlap}
use libp2p_bittorrent_protoc.Meta.Create.Builder.{new, finish, build, compute_piece_length}
use libp2p_bittorrent_protoc.Meta.Create.Whole.{lengths, read_entries-chunks, read_content-is_dir}
use libp2p_bittorrent_protoc.Meta.Encode.{sha1_hash}
use libp2p_bittorrent_protoc.Meta.Create.Made.{file_torrent, build_lem}
use libp2p_bittorrent_protoc.Meta.Create.Bounds.{build_returns, build-piece_length}
use libp2p_bittorrent_protoc.Meta.Tests.{two_files}
use Prim.Native.Nat.{max}
use Prim.Native.String.{String}

-- the files 1 and 2 in the directory 0
abbrev content : ℕ → List ℕ
content (suc zero) = 10 ∷ 20 ∷ 30 ∷ []
content (suc (suc zero)) = 40 ∷ 50 ∷ []
content n = []

abbrev below : (ℕ → Bool) → ℕ → List (Result ℕ String)
below p zero = map ok (if p 1 then 1 ∷ 2 ∷ [] else [])
below p n = []

abbrev walk : (ℕ → Bool) → ℕ → List (Result ℕ String)
walk p root = if p root then ok root ∷ below p root else []

walk_refused : (p : ℕ → Bool) (root : ℕ) → p root ≡ false → walk p root ≡ []
walk_refused p root h = rw (h) refl

abbrev tree : FileTree ℕ ℕ String
tree = record {
  walk = walk;
  root_entry = λ f. f;
  file_name = λ f. some (b'f' ∷ []);
  is_file = λ f. not (f == 0);
  path = λ f. f;
  entry_len = λ f. ok (length (content f));
  is_dir = λ f. f == 0;
  path_len = λ f. ok (length (content f));
  open_file = λ f. ok (content f);
  strip_prefix = λ f root. some (some "file" ∷ []);
  name_of = λ f. some "name";
  invalid_input = "invalid input";
  invalid_data = "invalid data";
  unexpected_eof = "unexpected eof";
  walk-refused = walk_refused;
  is_file-root_entry = λ f h. ground (arith, h);
}

-- the bytes that were hashed
abbrev bytes_hashed : Hasher (List ℕ)
bytes_hashed = record {
  from = λ bs. bs;
  update = λ bs more. bs ++ more;
  digest = λ bs. hash_of 1;
  update-from = λ xs ys. refl;
  digest-len = λ bs. refl;
}

-- the least exponent from `k` on whose power of two is as large as a quotient
abbrev exponent : ℕ → ℕ → ℕ → ℕ → ℕ
exponent zero size d k = k
exponent (suc fuel) size d k = if leb size (d * 2 ^ k) then k else exponent fuel size d (suc k)

above : (size d k n : ℕ) → k ≤ n → size ≤ d * 2 ^ n → leb size (d * 2 ^ k) ≡ false → suc k ≤ n
above size d k n h l f = elim (Bool-cases (ltb k n)) [
  | inl y ↦ ground (arith, y)
  | inr y ↦ let same : n ≡ k = ground (arith, y, h) in absurd (ground (arith, rw (same) at l, f))
]

exponent_le : (fuel size d k n : ℕ) → k ≤ n → size ≤ d * 2 ^ n → exponent fuel size d k ≤ n
exponent_le zero size d k n h l = h
exponent_le (suc fuel) size d k n h l = elim (Bool-cases (leb size (d * 2 ^ k))) [
  | inl y ↦ rw (y) h
  | inr y ↦ rw (y) (exponent_le fuel size d (suc k) n (above size d k n h l y) l)
]

-- quotients of numbers
abbrev quotients : Float (ℕ × ℕ)
quotients = record {
  from_u64 = λ n. (n, 1);
  div = λ x y. (x.0, y.0);
  log2 = λ x. (exponent 64 x.0 x.1 0, 1);
  ceil = λ x. x;
  max = λ x y. (max x.0 y.0, 1);
  to_usize = λ x. x.0;
  exponent-le = λ size d k h. max-le (exponent_le 64 size d 0 k (omega arith) h) (omega arith);
}

read_content-is_dir_example : read_content tree bytes_hashed 0 2 ≡ returns (ok (multi [], []))
read_content-is_dir_example = read_content-is_dir tree bytes_hashed 0 2 refl

named : file_info_paths tree 0 1 ≡ ok ("file" ∷ [])
unfolding file_info_paths
named = refl

named_root : file_info_paths tree 1 1 ≡ ok ("file" ∷ [])
unfolding file_info_paths
named_root = refl

named_second : file_info_paths tree 0 2 ≡ ok ("file" ∷ [])
unfolding file_info_paths
named_second = refl

abbrev both_files : List (ℕ × List ℕ)
both_files = (1, content 1) ∷ (2, content 2) ∷ []

-- the second piece lies in both files
read_entries-chunks_example :
    (files : List SubFileInfo) × ((hashes : List (List ℕ)) × ((overlap : Option (ℕ × List ℕ))
        × (read_entries tree bytes_hashed 0 2 (ok 1 ∷ ok 2 ∷ []) [] [] none
            ≡ returns (ok (files, (hashes, overlap))))
        × (with_overlap hashes overlap ≡ (10 ∷ 20 ∷ []) ∷ (30 ∷ 40 ∷ []) ∷ (50 ∷ []) ∷ [])
        × (lengths tree bytes_hashed 0 files ≡ 3 ∷ 2 ∷ [])))
read_entries-chunks_example = read_entries-chunks tree bytes_hashed 0 1 both_files (
  record { names = "file" ∷ []; found = named; size = refl; file = refl },
  (record { names = "file" ∷ []; found = named_second; size = refl; file = refl }, tt),
)

computed : compute_piece_length quotients tree (new 1) ≡ ok 16384
unfolding compute_piece_length new
computed = refl

build_lem_example :
    (m : MetaInfo) × (build quotients tree bytes_hashed value_encoder
        (λ v. hash_of 3)
        (λ e. e)
        (new 1)
      ≡ returns (ok m))
    × (m.info ≡ file_torrent bytes_hashed "name" 16384 (10 ∷ 20 ∷ 30 ∷ []))
    × ((bs : Value) × (m.info_hash ≡ hash_of 3)
        × (sha1_hash value_encoder (λ v. hash_of 3) m.info ≡ ok (hash_of 3)))
unfolding new
build_lem_example =
    build_lem quotients tree bytes_hashed value_encoder (λ v. hash_of 3) (λ e. e) (new 1) 16384
      16383 (content 1) ("file" ∷ []) "name" refl named_root refl refl refl computed refl

build_returns_example :
    (r : Result MetaInfo String) × (build quotients tree bytes_hashed value_encoder
        (λ v. hash_of 3)
        (λ e. e)
        (new 1)
      ≡ returns r)
unfolding new
build_returns_example =
    build_returns quotients tree bytes_hashed value_encoder (λ v. hash_of 3) (λ e. e) (new 1) tt

abbrev torrent_of : Run (Result MetaInfo String) → MetaInfo
torrent_of (returns (ok m)) = m
torrent_of r = two_files

abbrev torrent : MetaInfo
unfolding build new read_content finish levels
torrent =
    torrent_of (build quotients tree bytes_hashed value_encoder (λ v. hash_of 3) (λ e. e) (new 1))

built :
    build quotients tree bytes_hashed value_encoder (λ v. hash_of 3) (λ e. e) (new 1)
    ≡ returns (ok torrent)
unfolding build new torrent read_content finish levels
built = refl

build-piece_length_example :
    (16384 ≤ torrent.info.piece_length) × (torrent.info.piece_length ≤ 16777216)
unfolding new
build-piece_length_example =
    build-piece_length quotients tree bytes_hashed value_encoder (λ v. hash_of 3) (λ e. e) (new 1)
      torrent tt built
