-- ===== src/Meta/Create/Returns.antt =====
-- The reading of a content returns, in `src/torrent/builder.rs`, whatever the file system does.
use libp2p_bittorrent_protoc.Base.{
  ℕ, zero, suc, ◌+◌, ◌-◌, ◌<◌, ◌==◌, ◌≡◌, refl, inl, inr, false, List, [], ◌∷◌, Option, none, some,
  Result, ok, err, Run, returns, panics, if◌then◌else◌, arith, ltb, leb, Bool-cases, Result-cases,
  length, drop,
}
use libp2p_bittorrent_protoc.Crates.WalkDir.{FileTree, Hasher}
use libp2p_bittorrent_protoc.Disk.Files.{InfoContent, SubFileInfo, single, multi}
use libp2p_bittorrent_protoc.Meta.Create.{
  read_exact, run_then, file_info_paths, is_visible_file, read_pieces, hash_file, read_file,
  read_entries, read_dir, read_content, with_overlap,
}

module _ {F D X S : Type 0} (fs : FileTree F D X) (sha1 : Hasher S) where
  -- what remains of a piece is shorter than one
  abbrev IsShort : ℕ → Option (ℕ × S) → Type 0
  IsShort p none = Unit {0}
  IsShort p (some (n, hasher)) = n < p

  -- a call that returns, an error or a rest that is short
  data Short {A : Type 0} (p : ℕ) (rest : A → Option (ℕ × S)) : Run (Result A X) → Type 0 where
    failed : (x : X) → Short p rest (returns (err x))
    passed : (a : A) → IsShort p (rest a) → Short p rest (returns (ok a))

  Short-returns : {A : Type 0} (p : ℕ) (r : Result A X) → Short p (λ a. none) (returns r)
  Short-returns p (ok a) = passed a tt
  Short-returns p (err x) = failed x

  Short-run_then :
      {A B : Type 0} (p : ℕ) (rest : A → Option (ℕ × S)) (rest' : B → Option (ℕ × S))
      (r : Run (Result A X)) (f : A → Run (Result B X))
      → Short p rest r
      → ((a : A) → IsShort p (rest a) → Short p rest' (f a))
      → Short p rest' (run_then r f)
  Short-run_then p rest rest' r f (failed x) g = failed x
  Short-run_then p rest rest' r f (passed a s) g = g a s

  read_pieces-Short :
      (fuel p size total : ℕ) (file : List ℕ) (pieces : List S)
      → size - total < fuel
      → Short (suc p) (λ x. x.1) (read_pieces fs sha1 fuel (suc p) size total file pieces)
  unfolding read_pieces
  read_pieces-Short zero p size total file pieces h = absurd (omega (arith, h))
  read_pieces-Short (suc fuel) p size total file pieces h = elim (Bool-cases (size - total == 0)) [
    | inl y ↦ rw (y) (passed (pieces, none) tt)
    | inr n ↦ elim (Bool-cases (ltb (size - total) (suc p))) [
      | inl l ↦ elim (Bool-cases (leb (size - total) (length file))) [
        | inl m ↦ rw (n, l, m) (passed _ (ground arith))
        | inr m ↦ rw (n, l, m) (failed fs.unexpected_eof)
      ]
      | inr l ↦ elim (Bool-cases (leb (suc p) (length file))) [
        | inl m ↦
            rw (n, l, m)
              (read_pieces-Short fuel p size (total + suc p) (drop (suc p) file) _ (ground arith))
        | inr m ↦ rw (n, l, m) (failed fs.unexpected_eof)
      ]
    ]
  ]

  -- a last step that only makes a value of another
  Short-last :
      {A B : Type 0} (p : ℕ) (rest : A → Option (ℕ × S)) (g : A → B) (r : Run (Result A X))
      → Short p rest r
      → Short p (λ b. none) (run_then r (λ a. returns (ok (g a))))
  Short-last p rest g r s =
      Short-run_then p rest (λ b. none) r (λ a. returns (ok (g a))) s (λ a t. passed (g a) tt)

  not_empty :
      {A : Type 0} (p : ℕ) (rest : A → Option (ℕ × S)) (r : Run (Result A X))
      → Short (suc p) rest r
      → Short (suc p) rest (if suc p == 0 then panics else r)
  not_empty p rest r s = let positive : (suc p == 0) ≡ false = ground arith in rw (positive) s

  hash_file-Short :
      (p size : ℕ) (file : List ℕ) (overlap : Option (ℕ × S))
      → IsShort (suc p) overlap
      → Short (suc p) (λ x. x.1) (hash_file fs sha1 (suc p) size file overlap)
  unfolding hash_file
  hash_file-Short p size file none s = read_pieces-Short (suc size) p size 0 file [] (omega arith)
  hash_file-Short p size file (some (n, hasher)) s =
      let fits : ltb (suc p) n ≡ false = ground arith in
      elim (Bool-cases (leb (suc p - n) size)) [
        | inl l ↦
            rw (fits, l)
              (Short-run_then (suc p) (λ x. none) (λ x. x.1) _ _
                (Short-returns (suc p) (read_exact fs.unexpected_eof (suc p - n) file))
                (λ x u. read_pieces-Short (suc size) p size (suc p - n) x.1 _ (omega arith)))
        | inr l ↦ elim (Bool-cases (length file == size)) [
          | inl y ↦ rw (fits, l, y) (passed _ (ground arith))
          | inr y ↦ rw (fits, l, y) (failed fs.invalid_data)
        ]
      ]

  read_file-Short :
      (root path : F) (p : ℕ) (overlap : Option (ℕ × S))
      → IsShort (suc p) overlap
      → Short (suc p) (λ x. x.1.1) (read_file fs sha1 root path (suc p) overlap)
  unfolding read_file
  read_file-Short root path p overlap s = elim (Result-cases (fs.path_len path)) [
    | inl (x, e) ↦ rw (e) (failed x)
    | inr (size, l) ↦ elim (Result-cases (file_info_paths fs root path)) [
      | inl (x, e) ↦ rw (l, e) (failed x)
      | inr (names, n) ↦ elim (Result-cases (fs.open_file path)) [
        | inl (x, e) ↦ rw (l, n, e) (failed x)
        | inr (file, o) ↦
            rw (l, n, o)
              (not_empty p (λ x. x.1.1) _
                (Short-run_then (suc p) (λ x. x.1) (λ x. x.1.1) _
                  (λ pieces. returns (ok (record { length = size; paths = names }, pieces)))
                  (hash_file-Short p size file overlap s) (λ x t. passed _ t)))
      ]
    ]
  ]

  read_entries-Short :
      (root : F) (p : ℕ) (entries : List (Result D X)) (files : List SubFileInfo) (hashes : List S)
      (overlap : Option (ℕ × S))
      → IsShort (suc p) overlap
      → Short (suc p) (λ x. x.1.1) (read_entries fs sha1 root (suc p) entries files hashes overlap)
  unfolding read_entries
  read_entries-Short root p [] files hashes overlap s = passed _ s
  read_entries-Short root p (err x ∷ entries) files hashes overlap s = failed x
  read_entries-Short root p (ok entry ∷ entries) files hashes overlap s =
      Short-run_then (suc p) (λ x. x.1.1) (λ x. x.1.1) _ _
        (read_file-Short root (fs.path entry) p overlap s)
        (λ x t. read_entries-Short root p entries _ _ x.1.1 t)

  read_dir-Short : (root : F) (p : ℕ) → Short (suc p) (λ x. none) (read_dir fs sha1 root (suc p))
  unfolding read_dir
  read_dir-Short root p =
      Short-last (suc p) (λ x. x.1.1) (λ x. (x.0, with_overlap x.1.0 x.1.1)) _
        (read_entries-Short root p (fs.walk (is_visible_file fs) root) [] [] none tt)

  read_content-Short :
      (root : F) (p : ℕ) → Short (suc p) (λ x. none) (read_content fs sha1 root (suc p))
  unfolding read_content
  read_content-Short root p = elim (Bool-cases (fs.is_dir root)) [
    | inl d ↦ rw (d) (
        Short-last (suc p) (λ x. none) (λ x. (multi x.0, x.1)) (read_dir fs sha1 root (suc p))
          (read_dir-Short root p))
    | inr d ↦ rw (d) (
        Short-last (suc p) (λ x. x.1.1) (λ x. (single x.0.length, with_overlap x.1.0 x.1.1))
          (read_file fs sha1 root root (suc p) none) (read_file-Short root root p none tt))
  ]

  Short-Returns :
      {A : Type 0} (p : ℕ) (rest : A → Option (ℕ × S)) (r : Run (Result A X))
      → Short p rest r
      → (a : Result A X) × (r ≡ returns a)
  Short-Returns p rest r (failed x) = (err x, refl)
  Short-Returns p rest r (passed a s) = (ok a, refl)

  pub read_content_returns :
      (root : F) (p : ℕ)
      → (r : Result (InfoContent × List S) X) × (read_content fs sha1 root (suc p) ≡ returns r)
  read_content_returns root p = Short-Returns (suc p) (λ x. none) _ (read_content-Short root p)
