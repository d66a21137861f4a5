-- ===== src/Peer/State/Laws.antt =====
-- What the questions about a peer mean.
use libp2p_bittorrent_protoc.Base.{
  ℕ, zero, suc, ◌+◌, ◌<◌, ◌≤◌, ◌≡◌, ◌↔◌, refl, ap, sym, ◌∙◌, Bool, true, false, List, [], ◌∷◌, some,
  done, arith, length, get_elem?, get_elem?-set_self, get_elem?-set_ne, Option-cases, if◌then◌else◌,
  ◌==◌, inl, inr,
}
use libp2p_bittorrent_protoc.Crates.BitVec.{BitVec}
use libp2p_bittorrent_protoc.Wire.Message.{BitField}
use libp2p_bittorrent_protoc.Peer.State.{
  BitTorrentPeer, any_missing, is_having_missing_pieces_for, has_piece, add_piece,
}

in_bounds : (l : List Bool) (k : ℕ) → k < length l → (b : Bool) × (get_elem? l k ≡ some b)
in_bounds [] k h = absurd (omega arith)
in_bounds (x ∷ l) zero h = (x, refl)
in_bounds (x ∷ l) (suc k) h = in_bounds l k (omega arith)

module _ {V : Type 0} ⦃v : BitVec V⦄ where
  any_missing_sound :
      (i : ℕ) (bits : List Bool) (other : V)
      → any_missing i bits other ≡ done true
      → (j : ℕ) × (get_elem? bits j ≡ some true) × (v.get other (i + j) ≡ some false)
  unfolding any_missing
  any_missing_sound i [] other h = cc
  any_missing_sound i (false ∷ bits) other h =
      let (j, p, q) = any_missing_sound (i + 1) bits other h in
      let e : i + suc j ≡ i + 1 + j = omega arith in (suc j, p, rw e q)
  any_missing_sound i (true ∷ bits) other h = elim (Option-cases (v.get other i)) [
    | inl n ↦ absurd (ground arith)
    | inr (false, f) ↦ let e : i + 0 ≡ i = omega arith in (0, refl, rw e f)
    | inr (true, f) ↦
        let (j, p, q) = any_missing_sound (i + 1) bits other (ground arith) in
        let e : i + suc j ≡ i + 1 + j = omega arith in (suc j, p, rw e q)
  ]

  -- The loop meets no index out of bounds, and stops with `true` at the first bit that differs.
  any_missing_complete :
      (i j : ℕ) (bits : List Bool) (other : V)
      → i + length bits ≤ v.len other
      → get_elem? bits j ≡ some true
      → v.get other (i + j) ≡ some false
      → any_missing i bits other ≡ done true
  unfolding any_missing
  any_missing_complete i j [] other h p q = cc
  any_missing_complete i zero (bit ∷ bits) other h p q =
      let e : i + 0 ≡ i = omega arith in
      let q' : v.get other i ≡ some false = rw e at q in ground arith
  any_missing_complete i (suc j) (bit ∷ bits) other h p q =
      let e : i + suc j ≡ i + 1 + j = omega arith in
      let ih = any_missing_complete (i + 1) j bits other (omega arith) p (rw e at q) in
      let (b, inside) = get_inside other i (omega arith) in ground arith
    where
      get_inside : (w : V) (k : ℕ) → k < v.len w → (b : Bool) × (v.get w k ≡ some b)
      get_inside w k h =
          let (b, e) = in_bounds (v.iter w) k (omega (arith, v.len_lem w)) in (b, v.get_lem w k ∙ e)

pub get-write :
    {V : Type 0} ⦃v : BitVec V⦄ (w : V) (i j : ℕ) (b : Bool)
    → i < v.len w
    → v.get (v.write w i b) j ≡ (if i == j then some b else v.get w j)
get-write ⦃v⦄ w i j b h =
    let first = v.get_lem (v.write w i b) j ∙ ap (λ t. get_elem? t j) (v.iter-write w i b h) in
    ground (
      arith,
      first,
      v.get_lem w j,
      v.len_lem w,
      get_elem?-set_self (v.iter w) i b,
      get_elem?-set_ne (v.iter w) i j b,
    )

module _ {V I : Type 0} ⦃v : BitVec V⦄ where
  -- A peer is worth asking exactly when it has a piece that the other field lacks; the loop over
  -- the bits never indexes out of bounds where the fields are of one length.
  pub is_having_missing_pieces_for_iff :
      (p : BitTorrentPeer V I) (f : BitField V) (other : V)
      → p.bitfield ≡ some f
      → v.len f.inner ≡ v.len other
      → (is_having_missing_pieces_for other p ≡ done true)
        ↔ ((i : ℕ) × (v.get f.inner i ≡ some true) × (v.get other i ≡ some false))
  unfolding is_having_missing_pieces_for
  is_having_missing_pieces_for_iff p f other h l =
      let e : is_having_missing_pieces_for other p ≡ any_missing 0 (v.iter f.inner) other =
        ground arith in
      (
        λ r.
            let (j, a, b) = any_missing_sound 0 (v.iter f.inner) other (sym e ∙ r) in
            let z : 0 + j ≡ j = omega arith in (j, v.get_lem f.inner j ∙ a, rw z at b),
        λ w.
            let z : 0 + w.0 ≡ w.0 = omega arith in
            e
            ∙ any_missing_complete 0 w.0 (v.iter f.inner) other (omega (arith, v.len_lem f.inner))
                (sym (v.get_lem f.inner w.0) ∙ w.1) (rw z w.2),
      )

  -- Setting a piece is read back where the peer's field has it, and no other piece changes.
  pub has_piece-add_piece :
      (i j : ℕ) (p : BitTorrentPeer V I)
      → (add_piece i p).1 ≡ some true
      → has_piece j (add_piece i p).0 ≡ (if i == j then some true else has_piece j p)
  unfolding has_piece add_piece
  has_piece-add_piece i j p h = elim (Option-cases p.bitfield) [
    | inl n ↦ absurd (ground arith)
    | inr (f, n) ↦ ground (arith, get-write f.inner i j true)
  ]
