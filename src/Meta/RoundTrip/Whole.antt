-- ===== src/Meta/RoundTrip/Whole.antt =====
-- A whole torrent file, encoded and decoded: `src/torrent/mod.rs`.
use libp2p_bittorrent_protoc.Base.{
  inl, inr, ℕ, ℤ, ◌≤◌, ◌≡◌, ◌∙◌, refl, ap, Result-cases, List, [], ◌∷◌, ◌++◌, map, Option, none,
  some, Result, ok, arith, Result-cases,
}
use libp2p_bittorrent_protoc.Crates.Bendy.{Encoder, BendyTree, IsReadBack, codes}
use libp2p_bittorrent_protoc.Hash.{ShaHash}
use libp2p_bittorrent_protoc.Disk.Files.{single}
use libp2p_bittorrent_protoc.Meta.{MetaInfo, TorrentInfo}
use libp2p_bittorrent_protoc.Meta.Encode.{optional, non_empty, encode_info, meta_pairs, encode_meta}
use libp2p_bittorrent_protoc.Meta.Decode.{each_pair, info_from_bencode}
use libp2p_bittorrent_protoc.Meta.Decode.Whole.{
  MetaFields, no_fields, decode_texts, decode_info_field, meta_pair, decode_meta,
}
use libp2p_bittorrent_protoc.Meta.RoundTrip.{
  info_dictionary, IsInfo, texts-map, decode_info-encode_info,
}
use libp2p_bittorrent_protoc.Meta.Depth.{depth-single}
use libp2p_bittorrent_protoc.Meta.Order.{encode_meta-ok}
use Prim.Native.String.{String}

module _ {V O B E : Type 0} (encoder : Encoder V B E) (tree : BendyTree O B E) (read : V → O)
    (raw : V → B) (law : IsReadBack encoder tree read raw) (from_lossy : List ℕ → String)
    (sha1 : B → ShaHash) where
  -- the decoding of pairs that were emitted
  abbrev run : List (List ℕ × V) → MetaFields → Result MetaFields E
  run ps s = each_pair (meta_pair tree from_lossy sha1) (map (λ p. ok (p.0, read p.1)) ps) s

  run-append :
      (ps qs : List (List ℕ × V)) (s s' : MetaFields)
      → run ps s ≡ ok s'
      → run (ps ++ qs) s ≡ run qs s'
  unfolding each_pair
  run-append [] qs s s' h = let unchanged : s ≡ s' = cc h in ap (run qs) unchanged
  run-append (p ∷ ps) qs s s' h =
      elim (Result-cases (meta_pair tree from_lossy sha1 p.0 (read p.1) s)) [
        | inl (e, k) ↦ absurd (ground arith)
        | inr (t, k) ↦
            let later : run ps t ≡ ok s' = ground arith in rw (k) (run-append ps qs t s' later)
      ]

  read-announce :
      (x : Option String) (s : MetaFields)
      → run (optional encoder "announce" encoder.emit_str x) (record s { announce = none })
        ≡ ok (record s { announce = x })
  unfolding each_pair meta_pair
  read-announce none s = refl
  read-announce (some x) s = rw (law.str x) refl

  skip-announce_list :
      (xs : List String) (s : MetaFields)
      → run (non_empty encoder "announce list" encoder.emit_str xs) s ≡ ok s
  unfolding each_pair meta_pair
  skip-announce_list [] s = refl
  skip-announce_list (x ∷ xs) s = refl

  read-comment :
      (x : Option String) (s : MetaFields)
      → run (optional encoder "comment" encoder.emit_str x) (record s { comment = none })
        ≡ ok (record s { comment = x })
  unfolding each_pair meta_pair
  read-comment none s = refl
  read-comment (some x) s = rw (law.str x) refl

  read-creation_date :
      (x : Option ℤ) (s : MetaFields)
      → run
          (optional encoder "creation date" encoder.emit_i64 x)
          (record s { creation_date = none })
        ≡ ok (record s { creation_date = x })
  unfolding each_pair meta_pair
  read-creation_date none s = refl
  read-creation_date (some x) s = rw (law.i64 x) refl

  read-encoding :
      (x : Option String) (s : MetaFields)
      → run (optional encoder "encoding" encoder.emit_str x) (record s { encoding = none })
        ≡ ok (record s { encoding = x })
  unfolding each_pair meta_pair
  read-encoding none s = refl
  read-encoding (some x) s = rw (law.str x) refl

  read-httpseeds :
      (xs : List String) (s : MetaFields)
      → run (non_empty encoder "httpseeds" encoder.emit_str xs) (record s { httpseeds = [] })
        ≡ ok (record s { httpseeds = xs })
  unfolding each_pair meta_pair decode_texts
  read-httpseeds [] s = refl
  read-httpseeds (x ∷ xs) s =
      rw
        (
          law.list (map encoder.emit_str (x ∷ xs)),
          texts-map encoder tree read raw law from_lossy (x ∷ xs) [],
        )
        refl

  read-info :
      (info : TorrentInfo) (v : V) (s : MetaFields)
      → encode_info encoder info ≡ ok v
      → IsInfo info
      → encoder.depth v ≤ 3
      → run ((codes "info", v) ∷ []) s
        ≡ ok (record s { info = some info; info_hash = some (sha1 (raw v)) })
  unfolding each_pair meta_pair decode_info_field info_from_bencode
  read-info info v s h i d =
      let (dict, found) = info_dictionary encoder tree read raw law from_lossy info v h in
      rw
        (
          found,
          law.into_raw v,
          law.read_object 3 v d,
          decode_info-encode_info encoder tree read raw law from_lossy info v h i,
        )
        refl

  pairs_read :
      (m : MetaInfo) (v : V)
      → encode_info encoder m.info ≡ ok v
      → IsInfo m.info
      → encoder.depth v ≤ 3
      → m.nodes ≡ []
      → m.webseeds ≡ []
      → run (meta_pairs encoder m v) no_fields
        ≡ ok (record {
          announce = m.announce;
          announce_list = [];
          webseeds = m.webseeds;
          httpseeds = m.httpseeds;
          encoding = m.encoding;
          comment = m.comment;
          created_by = none;
          creation_date = m.creation_date;
          info = some m.info;
          info_hash = some (sha1 (raw v));
          nodes = m.nodes;
        })
  unfolding meta_pairs
  pairs_read m v h i d n w =
      let s1 = record no_fields { announce = m.announce } in
      let s2 = record s1 { comment = m.comment } in
      let s3 = record s2 { creation_date = m.creation_date } in
      let s4 = record s3 { encoding = m.encoding } in
      let s5 = record s4 { httpseeds = m.httpseeds } in
      rw (n, w)
        (run-append _ _ no_fields s1 (read-announce m.announce no_fields)
          ∙ run-append _ _ s1 s1 (skip-announce_list m.announce_list s1)
          ∙ run-append _ _ s1 s2 (read-comment m.comment s1)
          ∙ run-append _ _ s2 s3 (read-creation_date m.creation_date s2)
          ∙ run-append _ _ s3 s4 (read-encoding m.encoding s3)
          ∙ run-append _ _ s4 s5 (read-httpseeds m.httpseeds s4)
          ∙ read-info m.info v s5 h i d)

  -- A torrent file of one file that is encoded is decoded to the same but for its list of trackers and
  -- its creator, which are lost, and for its digest, which is that of the bytes of its content's
  -- description; where the digests of its pieces are as long as digests are and its numbers fit in 64
  -- bits.
  pub decode_meta-encode_meta :
      (m : MetaInfo) (size : ℕ) (info v : V)
      → m.info.content ≡ single size
      → encode_info encoder m.info ≡ ok info
      → encode_meta encoder m ≡ ok v
      → IsInfo m.info
      → decode_meta tree from_lossy sha1 (read v)
        ≡ ok (record m { announce_list = []; created_by = none; info_hash = sha1 (raw info) })
  unfolding encode_meta decode_meta
  decode_meta-encode_meta m size info v c h g i =
      let (n, w) = encode_meta-ok encoder m v g in
      let emitted : encoder.emit_dict (meta_pairs encoder m info) ≡ ok v = ground arith in
      let shallow : encoder.depth info ≤ 3 =
        omega (arith, depth-single encoder m.info size info c h) in
      rw (law.dict (meta_pairs encoder m info) v emitted, pairs_read m info h i shallow n w) refl
