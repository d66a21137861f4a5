-- ===== src/Meta/Order.antt =====
-- The order in which a torrent file is encoded: `src/torrent/mod.rs`.
pub mod Keys
use libp2p_bittorrent_protoc.Base.{
  inl, inr, ℕ, ◌≡◌, refl, true, List, [], ◌∷◌, ◌++◌, ok, ◌↔◌, arith, Result-cases,
}
use libp2p_bittorrent_protoc.Crates.Bendy.{Encoder, are_sorted, sorted_from, codes}
use libp2p_bittorrent_protoc.Meta.Order.Keys.{
  sorted_later, first_optional, sorted-optional, sorted-non_empty,
}
use libp2p_bittorrent_protoc.Meta.{MetaInfo, DhtNode}
use libp2p_bittorrent_protoc.Meta.Encode.{
  optional, non_empty, encode_node, encode_info, meta_pairs, encode_meta,
}
use Prim.Native.String.{String}

sorted_end :
    {V : Type 0} (ps qs : List (List ℕ × V)) → are_sorted (ps ++ qs) ≡ true → are_sorted qs ≡ true
sorted_end [] qs h = h
sorted_end ((k, v) ∷ ps) qs h = sorted_end ps qs (sorted_later k (ps ++ qs) h)

module _ {V B E : Type 0} (encoder : Encoder V B E) where
  last_pairs :
      (nodes : List DhtNode) (webseeds : List String) (info : V)
      → are_sorted (
          non_empty encoder "nodes" (encode_node encoder) nodes
          ++ (non_empty encoder "url-list" encoder.emit_str webseeds
              ++ ((codes "info", info) ∷ [])))
        ≡ true
      → (nodes ≡ []) × (webseeds ≡ [])
  last_pairs [] [] info h = (refl, refl)
  last_pairs [] (w ∷ ws) info h = absurd (ground arith)
  last_pairs (n ∷ ns) [] info h = absurd (ground arith)
  last_pairs (n ∷ ns) (w ∷ ws) info h = absurd (ground arith)

  sorted_pairs :
      (m : MetaInfo) (info : V)
      → are_sorted (meta_pairs encoder m info) ≡ true
      → (m.nodes ≡ []) × (m.webseeds ≡ [])
  unfolding meta_pairs
  sorted_pairs m info h = last_pairs m.nodes m.webseeds info (
      sorted_end (non_empty encoder "httpseeds" encoder.emit_str m.httpseeds) _ (
        sorted_end (optional encoder "encoding" encoder.emit_str m.encoding) _ (
          sorted_end (optional encoder "creation date" encoder.emit_i64 m.creation_date) _ (
            sorted_end (optional encoder "comment" encoder.emit_str m.comment) _ (
              sorted_end (non_empty encoder "announce list" encoder.emit_str m.announce_list) _
                (sorted_end (optional encoder "announce" encoder.emit_str m.announce) _ h))))))

  pub encode_meta-ok :
      (m : MetaInfo) (v : V) → encode_meta encoder m ≡ ok v → (m.nodes ≡ []) × (m.webseeds ≡ [])
  unfolding encode_meta
  encode_meta-ok m v h = elim (Result-cases (encode_info encoder m.info)) [
    | inl (e, k) ↦ absurd (ground arith)
    | inr (info, k) ↦
        sorted_pairs m info (encoder.emit_dict-sorted (meta_pairs encoder m info) v (ground arith))
  ]

  pairs_sorted :
      (m : MetaInfo) (info : V)
      → m.nodes ≡ []
      → m.webseeds ≡ []
      → are_sorted (meta_pairs encoder m info) ≡ true
  unfolding meta_pairs
  pairs_sorted m info n w =
      rw (n, w)
        (first_optional encoder "announce" encoder.emit_str m.announce _ (
          sorted-non_empty encoder _ "announce list" encoder.emit_str m.announce_list _ refl (
            sorted-optional encoder _ "comment" encoder.emit_str m.comment _ refl (
              sorted-optional encoder _ "creation date" encoder.emit_i64 m.creation_date _ refl (
                sorted-optional encoder _ "encoding" encoder.emit_str m.encoding _ refl (
                  sorted-non_empty encoder _ "httpseeds" encoder.emit_str m.httpseeds _ refl
                    refl))))))

  -- A torrent file whose info is encoded is encoded exactly where it has neither nodes nor web seeds:
  -- these come before the info, and its key is the smaller one.
  pub encode_meta_iff :
      (m : MetaInfo) (info : V)
      → encode_info encoder m.info ≡ ok info
      → ((v : V) × (encode_meta encoder m ≡ ok v)) ↔ ((m.nodes ≡ []) × (m.webseeds ≡ []))
  unfolding encode_meta
  encode_meta_iff m info k = (
    λ (v, h). encode_meta-ok m v h,
    λ (n, w). rw (k) (encoder.emit_dict-ok (meta_pairs encoder m info) (pairs_sorted m info n w)),
  )
