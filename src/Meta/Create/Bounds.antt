-- ===== src/Meta/Create/Bounds.antt =====
-- The lengths of the pieces of a torrent that is made, in `src/torrent/builder.rs`, and the end of `build`.
use libp2p_bittorrent_protoc.Base.{
  ℕ, zero, suc, ◌*◌, ◌^◌, ◌≤◌, ◌≡◌, refl, sym, ap, inl, inr, true, ◌&&◌, List, map, Option, none,
  some, Result, ok, err, ok_or, Run, returns, arith, leb, Bool-cases, Option-cases, if◌then◌else◌,
  Result-cases,
}
use libp2p_bittorrent_protoc.Crates.Bendy.{Encoder}
use libp2p_bittorrent_protoc.Crates.WalkDir.{FileTree, Hasher, Float}
use libp2p_bittorrent_protoc.Hash.{ShaHash}
use libp2p_bittorrent_protoc.Disk.Files.{InfoContent}
use libp2p_bittorrent_protoc.Meta.{MetaInfo, TorrentInfo, unwrap_or}
use libp2p_bittorrent_protoc.Meta.Encode.{sha1_hash}
use libp2p_bittorrent_protoc.Meta.Create.{
  run_then, read_content, is_visible_file, block_size_min, block_size_max,
}
use libp2p_bittorrent_protoc.Meta.Create.Builder.{
  TorrentBuilder, divisor, piece_length_for, total_size, compute_piece_length, finish, build,
  with_piece_length,
}
use libp2p_bittorrent_protoc.Meta.Create.Returns.{read_content_returns}
use native.Mathlib.Nat.{le-max_right, max-le, pow-le-pow_right}

leb-true : (m n : ℕ) → leb m n ≡ true → m ≤ n
leb-true m n h = ground arith

pub IsPieceLength : ℕ → Type 0
IsPieceLength n = (16384 ≤ n) × (n ≤ 16777216)

-- a length that is set is one of a piece
abbrev pub IsLengthed : Option ℕ → Type 0
IsLengthed none = Unit {0}
IsLengthed (some n) = IsPieceLength n

module _ {N : Type 0} (f64 : Float N) where
  IsDivisor : ℕ → Option ℕ → Type 0
  IsDivisor size none = Unit {0}
  IsDivisor size (some d) = size ≤ d * 2 ^ 24

  at_most :
      (size n d : ℕ) (next : Option ℕ)
      → n ≤ d * 2 ^ 24
      → IsDivisor size next
      → IsDivisor size (if leb size n then some d else next)
  unfolding IsDivisor
  at_most size n d next h i = elim (Bool-cases (leb size n)) [
    | inl y ↦ rw (y) (omega (arith, h, leb-true size n y))
    | inr y ↦ rw (y) i
  ]

  divisor_lem : (size : ℕ) → IsDivisor size (divisor f64 size)
  unfolding divisor IsDivisor
  divisor_lem size = at_most size 1073741824 1024 _ (omega arith) (
      at_most size 4294967296 2048 _ (omega arith) (
        at_most size 6442450944 3072 _ (omega arith) (
          at_most size 8589934592 2048 _ (omega arith) (
            at_most size 17179869184 2048 _ (omega arith) (
              at_most size 34359738368 4096 _ (omega arith) (
                at_most size 68719476736 8192 _ (omega arith)
                  (at_most size 85899345920 10000 none (omega arith) tt)))))))

  divisor_le : (size d : ℕ) → divisor f64 size ≡ some d → size ≤ d * 2 ^ 24
  unfolding IsDivisor
  divisor_le size d h = rw (h) at (divisor_lem size)

  pub piece_length_for_lem : (size : ℕ) → IsPieceLength (piece_length_for f64 size)
  unfolding piece_length_for IsPieceLength
  piece_length_for_lem size = elim (Option-cases (divisor f64 size)) [
    | inl n ↦ rw (n, piece_length_for) (omega arith, omega arith)
    | inr (d, e) ↦
        rw (e, piece_length_for)
          (
            le-max_right _ (16 * 1024),
            max-le
                (pow-le-pow_right (omega arith) (f64.exponent-le size d 24 (divisor_le size d e)))
                (omega arith),
          )
  ]

  pub with_piece_length-ok :
      {F : Type 0} (n : ℕ) (b b' : TorrentBuilder F)
      → with_piece_length n b ≡ ok b'
      → IsLengthed b'.piece_length
  unfolding with_piece_length IsPieceLength
  with_piece_length-ok n b b' h = elim (Bool-cases (leb block_size_min n && leb n block_size_max)) [
    | inl y ↦ bounded n b b' (rw (y) at h) (ground (arith, y)) (ground (arith, y))
    | inr y ↦ absurd (ground (arith, h, y))
  ]
    where
      length_of : {F : Type 0} → Result (TorrentBuilder F) (TorrentBuilder F) → Option ℕ
      length_of (ok b) = b.piece_length
      length_of (err b) = none

      set : {F : Type 0} → ℕ → TorrentBuilder F → Result (TorrentBuilder F) (TorrentBuilder F)
      set n b = ok (record b { piece_length = some n })

      bounded :
          {F : Type 0} (n : ℕ) (b b' : TorrentBuilder F)
          → set n b ≡ ok b'
          → 16384 ≤ n
          → n ≤ 16777216
          → IsLengthed b'.piece_length
      bounded n b b' h l m = rw (sym (ap length_of h)) (l, m)

  data Ends {X : Type 0} : Run (Result MetaInfo X) → Type 0 where
    failed : (x : X) → Ends (returns (err x))
    passed : (m : MetaInfo) → IsPieceLength m.info.piece_length → Ends (returns (ok m))

  module _ {F D X S V B E : Type 0} (fs : FileTree F D X) (sha1 : Hasher S)
      (encoder : Encoder V B E) (sha1_from : B → ShaHash) (from_encoding : E → X) where
    chosen :
        (b : TorrentBuilder F) (size : ℕ)
        → IsLengthed b.piece_length
        → IsPieceLength (unwrap_or b.piece_length (piece_length_for f64 size))
    chosen b size h = elim (Option-cases b.piece_length) [
      | inl n ↦ rw (n) (piece_length_for_lem size)
      | inr (p, e) ↦ rw (e) (rw (e) at h)
    ]

    finish-Ends :
        (b : TorrentBuilder F) (n : ℕ) (content : InfoContent) (pieces : List S)
        → IsPieceLength n
        → Ends (returns (finish f64 fs sha1 encoder sha1_from from_encoding b n content pieces))
    unfolding finish
    finish-Ends b n content pieces h =
        elim (Result-cases (ok_or (fs.name_of b.content_root) fs.invalid_input)) [
          | inl (x, g) ↦ rw (g) (failed x)
          | inr (root, g) ↦
              let info : TorrentInfo = record {
                name = unwrap_or b.name root;
                pieces = map sha1.digest pieces;
                piece_length = n;
                content = content;
              } in
              elim (Result-cases (sha1_hash encoder sha1_from info)) [
                | inl (x, i) ↦ rw (g, i) (failed (from_encoding x))
                | inr (hash, i) ↦ rw (g, i) (passed _ h)
              ]
        ]

    read-Ends :
        (b : TorrentBuilder F) (n : ℕ)
        → IsPieceLength n
        → Ends (
            run_then (read_content fs sha1 b.content_root n) (λ (content, pieces).
              returns (finish f64 fs sha1 encoder sha1_from from_encoding b n content pieces)))
    unfolding IsPieceLength
    read-Ends b zero h = absurd (omega (arith, h.0))
    read-Ends b (suc p) h =
        let (r, c) = read_content_returns fs sha1 b.content_root p in
        elim (Result-cases r) [
          | inl (x, f) ↦ rw (c, f) (failed x)
          | inr ((content, pieces), f) ↦ rw (c, f) (finish-Ends b (suc p) content pieces h)
        ]

    build-Ends :
        (b : TorrentBuilder F)
        → IsLengthed b.piece_length
        → Ends (build f64 fs sha1 encoder sha1_from from_encoding b)
    unfolding build compute_piece_length
    build-Ends b h =
        elim (Result-cases (total_size f64 fs (fs.walk (is_visible_file fs) b.content_root) 0)) [
          | inl (x, e) ↦ rw (e) (failed x)
          | inr (size, e) ↦
              rw (e) (
                read-Ends b (unwrap_or b.piece_length (piece_length_for f64 size))
                  (chosen b size h))
        ]

    Ends-returns :
        (r : Run (Result MetaInfo X)) → Ends r → (a : Result MetaInfo X) × (r ≡ returns a)
    Ends-returns r (failed x) = (err x, refl)
    Ends-returns r (passed m h) = (ok m, refl)

    -- the length of the pieces, or the least one where no torrent is made
    made : Run (Result MetaInfo X) → ℕ
    made (returns (ok m)) = m.info.piece_length
    made r = 16384

    Ends-made : (r : Run (Result MetaInfo X)) → Ends r → (16384 ≤ made r) × (made r ≤ 16777216)
    unfolding IsPieceLength made
    Ends-made r (failed x) = (omega arith, omega arith)
    Ends-made r (passed m h) = h

    -- The making of a torrent ends, with one or with an error, whatever the files are, where a length of
    -- the pieces that is set is between the bounds.
    pub build_returns :
        (b : TorrentBuilder F)
        → IsLengthed b.piece_length
        → (r : Result MetaInfo X) × (build f64 fs sha1 encoder sha1_from from_encoding b
            ≡ returns r)
    build_returns b h = Ends-returns _ (build-Ends b h)

    -- The pieces of a torrent that is made are between 16 KiB and 16 MiB long, where a length that is set
    -- is.
    pub build-piece_length :
        (b : TorrentBuilder F) (m : MetaInfo)
        → IsLengthed b.piece_length
        → build f64 fs sha1 encoder sha1_from from_encoding b ≡ returns (ok m)
        → (16384 ≤ m.info.piece_length) × (m.info.piece_length ≤ 16777216)
    unfolding made
    build-piece_length b m h e = rw (e) at (Ends-made _ (build-Ends b h))
