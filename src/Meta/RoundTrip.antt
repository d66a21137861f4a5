-- ===== src/Meta/RoundTrip.antt =====
-- The description of a torrent's content, encoded and decoded: `src/torrent/mod.rs`.
pub mod Whole
use libp2p_bittorrent_protoc.Base.{
  ℕ, suc, ◌+◌, ◌≤◌, ◌<◌, ◌^◌, ◌≡◌, ◌∙◌, refl, ap, zero, take_all, chunks-append, inl, inr, List, [],
  ◌∷◌, ◌++◌, map, Option, none, some, Result, ok, err, ok_or, and_then, collect, All, arith,
  Result-cases, append_assoc, append_nil, take-append, drop-append, length-append, length, chunks,
  flat_map, take, drop,
}
use libp2p_bittorrent_protoc.Base.Vec.{push}
use libp2p_bittorrent_protoc.Crates.Bendy.{Encoder, BendyTree, IsReadBack, codes}
use libp2p_bittorrent_protoc.Hash.{ShaHash, try_from}
use libp2p_bittorrent_protoc.Disk.Files.{InfoContent, SubFileInfo, single, multi}
use libp2p_bittorrent_protoc.Meta.{TorrentInfo}
use libp2p_bittorrent_protoc.Meta.Encode.{encode_file, encode_content, info_rest, encode_info}
use libp2p_bittorrent_protoc.Meta.Decode.{
  InfoFields, no_info, content_of, each, each_pair, file_pair, decode_file, info_pair, decode_info,
}
use Prim.Native.String.{String}

-- a digest of the length of one
abbrev pub IsDigest : ShaHash → Type 0
IsDigest x = length x.hash ≡ 20

-- the numbers of a content fit in 64 bits
abbrev pub IsContent : InfoContent → Type 0
IsContent (single size) = size < 2 ^ 64
IsContent (multi files) = All (λ file. file.length < 2 ^ 64) files

pub record IsInfo (info : TorrentInfo) : Type 0 where
  pub pieces : All IsDigest info.pieces
  pub piece_length : info.piece_length < 2 ^ 64
  pub content : IsContent info.content

try_from-chunk : (x : ShaHash) → IsDigest x → try_from x.hash ≡ ok x
unfolding try_from
try_from-chunk x h = ground (arith, take_all 20 x.hash (omega (arith, h)))

pub collect-chunks :
    (xs : List ShaHash) (fuel : ℕ)
    → All IsDigest xs
    → length (flat_map (λ x. x.hash) xs) ≤ fuel
    → collect try_from (chunks fuel 20 (flat_map (λ x. x.hash) xs)) ≡ ok xs
collect-chunks [] zero a h = refl
collect-chunks [] (suc fuel) a h = refl
collect-chunks (x ∷ xs) zero a h =
    absurd (omega (arith, h, a.0, length-append x.hash (flat_map (λ x. x.hash) xs)))
collect-chunks (x ∷ xs) (suc fuel) a h =
    let rest =
      collect-chunks xs fuel a.1
        (omega (arith, h, a.0, length-append x.hash (flat_map (λ x. x.hash) xs))) in
    rw (chunks-append fuel 19 x.hash (flat_map (λ x. x.hash) xs) a.0, try_from-chunk x a.0, rest)
      refl

pub map-map :
    {A B C : Type 0} (f : A → B) (g : B → C) (xs : List A)
    → map g (map f xs) ≡ map (λ x. g (f x)) xs
map-map f g [] = refl
map-map f g (x ∷ xs) = ap (λ ys. g (f x) ∷ ys) (map-map f g xs)

-- a list that is read back one by one
pub each-map :
    {O E A : Type 0} (f : O → Result A E) (h : A → O) (xs out : List A)
    → ((x : A) → f (h x) ≡ ok x)
    → each f (map (λ x. ok (h x)) xs) out ≡ ok (out ++ xs)
unfolding each
each-map f h [] out g = ap ok (append_nil out)
each-map f h (x ∷ xs) out g =
    rw (g x) (each-map f h xs (push out x) g ∙ rw (append_assoc out (x ∷ []) xs) refl)

module _ {V O B E : Type 0} (encoder : Encoder V B E) (tree : BendyTree O B E) (read : V → O)
    (raw : V → B) (law : IsReadBack encoder tree read raw) (from_lossy : List ℕ → String) where
  -- a list of texts that was emitted
  pub texts-map :
      (names out : List String)
      → each tree.bendy.decode_string (map (λ v. ok (read v)) (map encoder.emit_str names)) out
        ≡ ok (out ++ names)
  texts-map names out =
      rw (map-map {C = Result O E} encoder.emit_str (λ v. ok (read v)) names)
        (each-map tree.bendy.decode_string (λ s. read (encoder.emit_str s)) names out law.str)

  decode-encode_file :
      (file : SubFileInfo) (v : V)
      → encode_file encoder file ≡ ok v
      → file.length < 2 ^ 64
      → decode_file tree from_lossy (read v) ≡ ok file
  unfolding encode_file decode_file each_pair file_pair
  decode-encode_file file v h n =
      let pairs : List (List ℕ × V) =
        (codes "length", encoder.emit_int file.length)
        ∷ (codes "path", encoder.emit_list (map encoder.emit_str file.paths))
        ∷ [] in
      rw
        (
          law.dict pairs v h,
          law.u64 file.length n,
          law.list (map encoder.emit_str file.paths),
          texts-map file.paths [],
        )
        refl

  decode-encode_files :
      (files : List SubFileInfo) (vs : List V) (out : List SubFileInfo)
      → collect (encode_file encoder) files ≡ ok vs
      → All (λ file. file.length < 2 ^ 64) files
      → each (decode_file tree from_lossy) (map (λ v. ok (read v)) vs) out ≡ ok (out ++ files)
  unfolding each
  decode-encode_files [] vs out h a =
      let none_left : [] ≡ vs = ground arith in rw (← none_left) (ap ok (append_nil out))
  decode-encode_files (file ∷ files) vs out h a = elim (Result-cases (encode_file encoder file)) [
    | inl (e, k) ↦ absurd (ground arith)
    | inr (w, k) ↦ elim (Result-cases (collect (encode_file encoder) files)) [
      | inl (e, l) ↦ absurd (ground arith)
      | inr (ws, l) ↦
          let all : w ∷ ws ≡ vs = ground arith in
          rw (← all, decode-encode_file file w k a.0)
            (decode-encode_files files ws (push out file) l a.1
              ∙ ap ok (append_assoc out (file ∷ []) files))
    ]
  ]

  abbrev seen : TorrentInfo → InfoFields → InfoFields
  seen info s = record s {
    name = some info.name;
    piece_length = some info.piece_length;
    pieces = some info.pieces;
  }

  read-tail :
      (info : TorrentInfo) (s : InfoFields)
      → IsInfo info
      → each_pair
          (info_pair tree from_lossy)
          (map (λ p. ok (p.0, read p.1)) (info_rest encoder info))
          s
        ≡ ok (seen info s)
  unfolding each_pair info_pair
  read-tail info s i =
      let bs = flat_map (λ x. x.hash) info.pieces in
      rw
        (
          law.str info.name,
          law.u64 info.piece_length i.piece_length,
          law.bytes bs,
          collect-chunks info.pieces (length bs) i.pieces (omega arith),
        )
        refl

  read-content :
      (content : InfoContent) (p : List ℕ × V)
      → encode_content encoder content ≡ ok p
      → IsContent content
      → (s : InfoFields) × (info_pair tree from_lossy p.0 (read p.1) no_info ≡ ok s)
        × (content_of s.length s.files ≡ some content)
  unfolding encode_content info_pair content_of
  read-content (single size) p h c =
      let pair : (codes "length", encoder.emit_int size) ≡ p = ground arith in
      (record no_info { length = some size }, rw (← pair, law.u64 size c) refl, refl)
  read-content (multi files) p h c = elim (Result-cases (collect (encode_file encoder) files)) [
    | inl (e, k) ↦ absurd (ground arith)
    | inr (vs, k) ↦
        let pair : (codes "files", encoder.emit_list vs) ≡ p = ground arith in
        (
          record no_info { files = some files },
          rw (← pair, law.list vs, decode-encode_files files vs [] k c) refl,
          refl,
        )
  ]

  pub info_dictionary :
      (info : TorrentInfo) (v : V)
      → encode_info encoder info ≡ ok v
      → (dict : List (Result (List ℕ × O) E)) × (tree.bendy.try_into_dictionary (read v) ≡ ok dict)
  unfolding encode_info
  info_dictionary info v h = elim (Result-cases (encode_content encoder info.content)) [
    | inl (e, k) ↦ absurd (ground arith)
    | inr (p, k) ↦ (_, law.dict (p ∷ info_rest encoder info) v (ground arith))
  ]

  -- The description of a torrent's content that is encoded is decoded to the same, where its digests are
  -- as long as digests are and its numbers fit in 64 bits.
  pub decode_info-encode_info :
      (info : TorrentInfo) (v : V)
      → encode_info encoder info ≡ ok v
      → IsInfo info
      → decode_info tree from_lossy (read v) ≡ ok info
  unfolding encode_info decode_info each_pair
  decode_info-encode_info info v h i = elim (Result-cases (encode_content encoder info.content)) [
    | inl (e, k) ↦ absurd (ground arith)
    | inr (p, k) ↦
        let emitted : encoder.emit_dict (p ∷ info_rest encoder info) ≡ ok v = ground arith in
        let (s, read_first, content) = read-content info.content p k i.content in
        rw
          (law.dict (p ∷ info_rest encoder info) v emitted, read_first, read-tail info s i, content)
          refl
  ]
