-- ===== src/Meta/Depth.antt =====
-- How deeply the lists and dictionaries of a torrent file are nested: `src/torrent/mod.rs`.
use libp2p_bittorrent_protoc.Base.{
  ℕ, ◌≤◌, ◌<◌, ◌≡◌, ◌≢◌, refl, inl, inr, List, [], ◌∷◌, ◌++◌, map, flat_map, ok, collect, arith,
  Result-cases, IsIn,
}
use libp2p_bittorrent_protoc.Crates.Bendy.{Encoder, codes}
use libp2p_bittorrent_protoc.Disk.Files.{SubFileInfo, single, multi}
use libp2p_bittorrent_protoc.Meta.{MetaInfo, TorrentInfo}
use libp2p_bittorrent_protoc.Meta.Encode.{
  optional, non_empty, encode_node, info_rest, encode_file, encode_content, encode_info, meta_pairs,
  encode_meta, meta_to_bencode, sha1_hash,
}

IsIn-later : {A : Type 0} (x : A) (xs ys : List A) → IsIn x ys → IsIn x (xs ++ ys)
IsIn-later x [] ys h = h
IsIn-later x (y ∷ xs) ys h = inr (IsIn-later x xs ys h)

module _ {V B E : Type 0} (encoder : Encoder V B E) where
  pub depth-single :
      (info : TorrentInfo) (size : ℕ) (v : V)
      → info.content ≡ single size
      → encode_info encoder info ≡ ok v
      → encoder.depth v ≤ 1
  unfolding encode_info encode_content
  depth-single info size v c h =
      let pairs : List (List ℕ × V) =
        (codes "length", encoder.emit_int size) ∷ info_rest encoder info in
      let leaf : encoder.depth (encoder.emit_int size) ≤ 0 =
        omega (arith, encoder.depth-emit_int size) in
      let emitted : encoder.emit_dict pairs ≡ ok v = ground arith in
      encoder.depth-emit_dict_le pairs v 0 emitted (
        leaf,
        (
          omega (arith, encoder.depth-emit_str info.name),
          (
            omega (arith, encoder.depth-emit_int info.piece_length),
            (omega (arith, encoder.depth-emit_bytes (flat_map (λ x. x.hash) info.pieces)), tt),
          ),
        ),
      )

  pub encode_info-single :
      (info : TorrentInfo) (size : ℕ)
      → info.content ≡ single size
      → (v : V) × (encode_info encoder info ≡ ok v)
  unfolding encode_info encode_content
  encode_info-single info size c =
      rw (c) (
        encoder.emit_dict-ok ((codes "length", encoder.emit_int size) ∷ info_rest encoder info)
          refl)

  -- a torrent of one file has a digest
  pub sha1_hash-single :
      {H : Type 0} (info : TorrentInfo) (size : ℕ) (sha1 : B → H)
      → info.content ≡ single size
      → (bs : B) × (sha1_hash encoder sha1 info ≡ ok (sha1 bs))
  unfolding sha1_hash
  sha1_hash-single info size sha1 c =
      let (v, h) = encode_info-single info size c in
      let (bs, w) = encoder.to_bencode-ok 3 v (omega (arith, depth-single info size v c h)) in
      (bs, rw (h, w) refl)

  depth-encode_file :
      (file : SubFileInfo) (v : V) → encode_file encoder file ≡ ok v → 1 < encoder.depth v
  unfolding encode_file
  depth-encode_file file v h =
      let names = encoder.emit_list (map encoder.emit_str file.paths) in
      omega (
        arith,
        encoder.depth-emit_list_pos (map encoder.emit_str file.paths),
        encoder.depth-emit_dict _ names v (codes "path") h (inr (inl refl)),
      )

  depth-encode_info :
      (info : TorrentInfo) (file : SubFileInfo) (files : List SubFileInfo) (v : V)
      → info.content ≡ multi (file ∷ files)
      → encode_info encoder info ≡ ok v
      → 3 < encoder.depth v
  unfolding encode_info encode_content
  depth-encode_info info file files v c h = elim (Result-cases (encode_file encoder file)) [
    | inl (e, k) ↦ absurd (ground arith)
    | inr (w, k) ↦ elim (Result-cases (collect (encode_file encoder) files)) [
      | inl (e, l) ↦ absurd (ground arith)
      | inr (ws, l) ↦
          let found = encoder.emit_list (w ∷ ws) in
          let pairs : List (List ℕ × V) = (codes "files", found) ∷ info_rest encoder info in
          let emitted : encoder.emit_dict pairs ≡ ok v = ground arith in
          omega (
            arith,
            depth-encode_file file w k,
            encoder.depth-emit_list (w ∷ ws) w (inl refl),
            encoder.depth-emit_dict pairs found v (codes "files") emitted (inl refl),
          )
    ]
  ]

  info-meta_pairs :
      (m : MetaInfo) (info : V) → IsIn (codes "info", info) (meta_pairs encoder m info)
  unfolding meta_pairs
  info-meta_pairs m info =
      let last = IsIn-later {A = List ℕ × V} (codes "info", info) in
      last (optional encoder "announce" encoder.emit_str m.announce) _ (
        last (non_empty encoder "announce list" encoder.emit_str m.announce_list) _ (
          last (optional encoder "comment" encoder.emit_str m.comment) _ (
            last (optional encoder "creation date" encoder.emit_i64 m.creation_date) _ (
              last (optional encoder "encoding" encoder.emit_str m.encoding) _ (
                last (non_empty encoder "httpseeds" encoder.emit_str m.httpseeds) _ (
                  last (non_empty encoder "nodes" (encode_node encoder) m.nodes) _ (
                    last (non_empty encoder "url-list" encoder.emit_str m.webseeds)
                      ((codes "info", info) ∷ []) (inl refl))))))))

  depth-encode_meta :
      (m : MetaInfo) (info v : V)
      → encode_info encoder m.info ≡ ok info
      → encode_meta encoder m ≡ ok v
      → encoder.depth info < encoder.depth v
  unfolding encode_meta meta_pairs
  depth-encode_meta m info v h g =
      let emitted : encoder.emit_dict (meta_pairs encoder m info) ≡ ok v = ground arith in
      encoder.depth-emit_dict (meta_pairs encoder m info) info v (codes "info") emitted
        (info-meta_pairs m info)

  -- No torrent file of several files is written, nor is the digest taken that identifies it: the paths
  -- of a file lie deeper than the limits that the encoder is given.
  pub meta_to_bencode-multi :
      {H : Type 0} (m : MetaInfo) (file : SubFileInfo) (files : List SubFileInfo) (bs : B)
      (sha1 : B → H) (hash : H)
      → m.info.content ≡ multi (file ∷ files)
      → (meta_to_bencode encoder m ≢ ok bs) × (sha1_hash encoder sha1 m.info ≢ ok hash)
  unfolding meta_to_bencode sha1_hash encode_meta
  meta_to_bencode-multi m file files bs sha1 hash c =
      elim (Result-cases (encode_info encoder m.info)) [
        | inl (e, k) ↦ (λ h. absurd (ground arith), λ h. absurd (ground arith))
        | inr (info, k) ↦
            let deep = depth-encode_info m.info file files info c k in
            (
              λ h. elim (Result-cases (encode_meta encoder m)) [
                | inl (e, l) ↦ absurd (ground arith)
                | inr (v, l) ↦
                    let written : encoder.to_bencode 3 v ≡ ok bs = ground arith in
                    absurd (
                      omega (
                        arith,
                        deep,
                        depth-encode_meta m info v k l,
                        encoder.to_bencode-deep 3 v bs written,
                      ))
              ],
              λ h. elim (Result-cases (encoder.to_bencode 3 info)) [
                | inl (e, l) ↦ absurd (ground arith)
                | inr (data', l) ↦
                    absurd (omega (arith, deep, encoder.to_bencode-deep 3 info data' l))
              ],
            )
      ]
