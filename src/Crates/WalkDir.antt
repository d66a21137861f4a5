-- ===== src/Crates/WalkDir.antt =====
-- What the making of torrent files uses of the file system: the `walkdir` package, paths, and files of
-- the standard library. Also the hasher of the `sha1` package and floating point numbers.
use libp2p_bittorrent_protoc.Base.{
  ℕ, ◌*◌, ◌^◌, ◌≤◌, ◌≡◌, Bool, true, false, List, [], ◌++◌, Option, Result, length,
}
use libp2p_bittorrent_protoc.Hash.{ShaHash}
use Prim.Native.String.{String}

-- `F` are paths, `D` entries of a directory and `X` errors. `walk` is the iterator that `filter_entry`
-- gives, up to its end. An open file is its bytes: of the errors of reads only the one at its end is
-- left.
pub record FileTree (F D X : Type 0) : Type 0 where
  pub walk : (D → Bool) → F → List (Result D X)
  pub root_entry : F → D
  pub file_name : D → Option (List ℕ)
  pub is_file : D → Bool
  pub path : D → F
  pub entry_len : D → Result ℕ X
  pub is_dir : F → Bool
  pub path_len : F → Result ℕ X
  pub open_file : F → Result (List ℕ) X
  -- the names of a path below another, those that are not texts as `none`
  pub strip_prefix : F → F → Option (List (Option String))
  pub name_of : F → Option String
  pub invalid_input : X
  pub invalid_data : X
  pub unexpected_eof : X
  -- an entry that the filter refuses is not descended into, and the root is the first
  pub walk-refused : (p : D → Bool) (root : F) → p (root_entry root) ≡ false → walk p root ≡ []
  pub is_file-root_entry : (root : F) → is_dir root ≡ true → is_file (root_entry root) ≡ false

pub record Hasher (S : Type 0) : Type 0 where
  pub from : List ℕ → S
  pub update : S → List ℕ → S
  pub digest : S → ShaHash
  pub update-from : (xs ys : List ℕ) → update (from xs) ys ≡ from (xs ++ ys)
  pub digest-len : (s : S) → length (digest s).hash ≡ 20

-- `f64`. The law is of the logarithm, rounded up, of a quotient.
pub record Float (D : Type 0) : Type 0 where
  pub from_u64 : ℕ → D
  pub div : D → D → D
  pub log2 : D → D
  pub ceil : D → D
  pub max : D → D → D
  pub to_usize : D → ℕ
  pub exponent-le :
      (size d k : ℕ)
      → size ≤ d * 2 ^ k
      → to_usize (max (ceil (log2 (div (from_u64 size) (from_u64 d)))) (from_u64 0)) ≤ k
