-- ===== src/Meta/Create/Pieces.antt =====
-- The pieces of a torrent that is made, in `src/torrent/builder.rs`, against its bytes one after the
-- other.
use libp2p_bittorrent_protoc.Base.{
  ℕ, zero, suc, ◌+◌, ◌-◌, ◌≤◌, ◌<◌, ◌≡◌, ◌∙◌, refl, ap, inl, inr, true, false, List, [], ◌∷◌, ◌++◌,
  map, Option, none, some, Result, ok, Run, returns, arith, ltb, leb, Bool-cases, length, take,
  drop, append_nil, append_assoc, length-append, length-drop, take_all, take-drop, length-take,
}
use libp2p_bittorrent_protoc.Base.Vec.{push}
use libp2p_bittorrent_protoc.Crates.WalkDir.{FileTree, Hasher}
use libp2p_bittorrent_protoc.Meta.Create.Blocks.{flat, IsSplit}
use libp2p_bittorrent_protoc.Meta.Create.{read_pieces, hash_file}

module _ {F D X S : Type 0} (fs : FileTree F D X) (sha1 : Hasher S) where
  -- what is remembered of the rest
  abbrev pub kept : List ℕ → Option (ℕ × S)
  kept [] = none
  kept (x ∷ xs) = some (length (x ∷ xs), sha1.from (x ∷ xs))

  abbrev done : Option (ℕ × S) → List S → Run (Result (List S × Option (ℕ × S)) X)
  done rest pieces = returns (ok (pieces, rest))

  read_end :
      (fuel p size total : ℕ) (pieces : List S)
      → total ≡ size
      → read_pieces fs sha1 (suc fuel) (suc p) size total [] pieces ≡ returns (ok (pieces, none))
  unfolding read_pieces
  read_end fuel p size total pieces e = ground arith

  read_rest :
      (fuel p size total x : ℕ) (xs : List ℕ) (pieces : List S)
      → total + suc (length xs) ≡ size
      → length xs < p
      → read_pieces fs sha1 (suc fuel) (suc p) size total (x ∷ xs) pieces
        ≡ returns (ok (pieces, kept (x ∷ xs)))
  unfolding read_pieces
  read_rest fuel p size total x xs pieces e h =
      let left : size - total ≡ suc (length xs) = omega (arith, e) in
      rw (left) (ground (arith, take_all (length xs) xs (omega arith)))

  read_block :
      (fuel p size total : ℕ) (file : List ℕ) (pieces : List S)
      → total + length file ≡ size
      → suc p ≤ length file
      → read_pieces fs sha1 (suc fuel) (suc p) size total file pieces
        ≡ read_pieces fs sha1 fuel
            (suc p)
            size
            (total + suc p)
            (drop (suc p) file)
            (push pieces (sha1.from (take (suc p) file)))
  unfolding read_pieces
  read_block fuel p size total file pieces e h = ground arith

  read_pieces_lem :
      (fuel p size total : ℕ) (file : List ℕ) (pieces : List S)
      → total + length file ≡ size
      → length file < fuel
      → (blocks : List (List ℕ)) × ((rest : List ℕ) × (read_pieces fs sha1 fuel
              (suc p)
              size
              total
              file
              pieces
            ≡ returns (ok (pieces ++ map sha1.from blocks, kept rest)))
          × IsSplit (suc p) file blocks rest)
  read_pieces_lem zero p size total file pieces e h = absurd (omega (arith, h))
  read_pieces_lem (suc fuel) p size total [] pieces e h = (
    [],
    (
      [],
      read_end fuel p size total pieces (omega (arith, e)) ∙ ap (done none) (append_nil pieces),
      record { all = refl; full = tt; short = omega arith },
    ),
  )
  read_pieces_lem (suc fuel) p size total (x ∷ xs) pieces e h =
      elim (Bool-cases (ltb (length xs) p)) [
        | inl y ↦ (
          [],
          (
            x ∷ xs,
            read_rest fuel p size total x xs pieces e (ground arith)
                ∙ ap (done (kept (x ∷ xs))) (append_nil pieces),
            record { all = refl; full = tt; short = ground arith },
          ),
        )
        | inr n ↦
            let long : p ≤ length xs = ground arith in
            let block = take (suc p) (x ∷ xs) in
            let (blocks, (rest, runs, split)) =
              read_pieces_lem fuel p size (total + suc p) (drop p xs)
                (push pieces (sha1.from block)) (omega (arith, e, long, length-drop p xs))
                (omega (arith, h, long, length-drop p xs)) in
            (
              block ∷ blocks,
              (
                rest,
                read_block fuel p size total (x ∷ xs) pieces e (omega (arith, long))
                    ∙ runs
                    ∙ ap (done (kept rest))
                        (append_assoc pieces (sha1.from block ∷ []) (map sha1.from blocks)),
                record {
                  all =
                      append_assoc block (flat blocks) rest
                      ∙ ap (λ l. block ++ l) split.all
                      ∙ take-drop (suc p) (x ∷ xs);
                  full = (length-take (suc p) (x ∷ xs) (omega (arith, long)), split.full);
                  short = split.short;
                },
              ),
            )
      ]

  -- the call that goes on after a piece is completed by `n` bytes
  abbrev after : ℕ → ℕ → List ℕ → S → Run (Result (List S × Option (ℕ × S)) X)
  after p n file hasher =
      read_pieces fs sha1 (suc (length file)) p (length file) n (drop n file) (hasher ∷ [])

  hash_left :
      (p : ℕ) (before file : List ℕ) (hasher : S)
      → length before ≤ p
      → p - length before ≤ length file
      → hash_file fs sha1 p (length file) file (some (length before, hasher))
        ≡ after p (p - length before) file (sha1.update hasher (take (p - length before) file))
  unfolding hash_file
  hash_left p before file hasher e h =
      let fits : ltb p (length before) ≡ false = ground (arith, e) in
      let enough : leb (p - length before) (length file) ≡ true = ground (arith, h) in
      rw (fits, enough) refl

  hash_completes :
      (p b : ℕ) (bs file : List ℕ)
      → length bs < p
      → p - length bs ≤ length file
      → hash_file fs sha1 (suc p) (length file) file (kept (b ∷ bs))
        ≡ after (suc p) (p - length bs) file (sha1.from ((b ∷ bs) ++ take (p - length bs) file))
  hash_completes p b bs file s y =
      let n = p - length bs in
      let left : suc p - suc (length bs) ≡ n = omega arith in
      hash_left (suc p) (b ∷ bs) file (sha1.from (b ∷ bs)) (omega (arith, s)) (omega (arith, y))
      ∙ ap (λ k. after (suc p) k file (sha1.update (sha1.from (b ∷ bs)) (take k file))) left
      ∙ ap (after (suc p) n file) (sha1.update-from (b ∷ bs) (take n file))

  hash_keeps :
      (p b : ℕ) (bs file : List ℕ)
      → length bs < p
      → length file < p - length bs
      → hash_file fs sha1 (suc p) (length file) file (kept (b ∷ bs))
        ≡ returns (ok ([], kept ((b ∷ bs) ++ file)))
  unfolding hash_file
  hash_keeps p b bs file s n =
      rw (← sha1.update-from (b ∷ bs) file, length-append bs file) (ground arith)

  -- the bytes of a file after the rest of those before it
  pub hash_file_lem :
      (p : ℕ) (before file : List ℕ)
      → length before < suc p
      → (blocks : List (List ℕ)) × ((rest : List ℕ) × (hash_file fs sha1
              (suc p)
              (length file)
              file
              (kept before)
            ≡ returns (ok (map sha1.from blocks, kept rest)))
          × IsSplit (suc p) (before ++ file) blocks rest)
  unfolding hash_file
  hash_file_lem p [] file s =
      read_pieces_lem (suc (length file)) p (length file) 0 file [] (omega arith) (omega arith)
  hash_file_lem p (b ∷ bs) file s = elim (Bool-cases (leb (p - length bs) (length file))) [
    | inl y ↦
        let left = p - length bs in
        let block = (b ∷ bs) ++ take left file in
        let enough : left ≤ length file = ground arith in
        let (blocks, (rest, runs, split)) =
          read_pieces_lem (suc (length file)) p (length file) left (drop left file)
            (sha1.from block ∷ []) (omega (arith, enough, length-drop left file))
            (omega (arith, length-drop left file)) in
        (
          block ∷ blocks,
          (
            rest,
            hash_completes p b bs file (omega (arith, s)) enough ∙ runs,
            record {
              all =
                  append_assoc block (flat blocks) rest
                  ∙ ap (λ l. block ++ l) split.all
                  ∙ append_assoc (b ∷ bs) (take left file) (drop left file)
                  ∙ ap (λ l. (b ∷ bs) ++ l) (take-drop left file);
              full = (
                omega (
                  arith,
                  s,
                  length-append (b ∷ bs) (take left file),
                  length-take left file enough,
                ),
                split.full,
              );
              short = split.short;
            },
          ),
        )
    | inr n ↦
        let few : length file < p - length bs = ground arith in
        (
          [],
          (
            (b ∷ bs) ++ file,
            hash_keeps p b bs file (omega (arith, s)) few,
            record {
              all = refl;
              full = tt;
              short = omega (arith, s, length-append (b ∷ bs) file, few);
            },
          ),
        )
  ]
