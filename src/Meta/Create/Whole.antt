-- ===== src/Meta/Create/Whole.antt =====
-- A directory as one torrent, in `src/torrent/builder.rs`.
use libp2p_bittorrent_protoc.Base.{
  ℕ, suc, ◌<◌, ◌≡◌, ◌∙◌, refl, sym, ap, true, false, List, [], ◌∷◌, ◌++◌, map, flat_map, Option,
  none, Result, ok, returns, All, arith, length, chunks, append_nil, append_assoc, ◌==◌, All-append,
  map-append, flat_map-append,
}
use libp2p_bittorrent_protoc.Base.Vec.{push}
use libp2p_bittorrent_protoc.Crates.WalkDir.{FileTree, Hasher}
use libp2p_bittorrent_protoc.Disk.Files.{SubFileInfo, single, multi}
use libp2p_bittorrent_protoc.Meta.Create.{
  run_then, file_info_paths, is_visible_file, read_file, read_entries, with_overlap, read_dir,
  read_content,
}
use libp2p_bittorrent_protoc.Meta.Create.Blocks.{flat, IsSplit, chunks-IsSplit, last}
use libp2p_bittorrent_protoc.Meta.Create.Pieces.{kept, hash_file_lem}
use Prim.Native.String.{String}

module _ {F D X S : Type 0} (fs : FileTree F D X) (sha1 : Hasher S) (root : F) where
  -- a file of the walk that is read as it is: its length is that of its bytes, and its names are texts
  pub record IsReadable (entry : D) (bytes : List ℕ) : Type 0 where
    pub names : List String
    pub found : file_info_paths fs root (fs.path entry) ≡ ok names
    pub size : fs.path_len (fs.path entry) ≡ ok (length bytes)
    pub file : fs.open_file (fs.path entry) ≡ ok bytes

  abbrev pub walked : List (D × List ℕ) → List (Result D X)
  walked entries = map (λ q. ok q.0) entries

  abbrev pub bytes_of : List (D × List ℕ) → List ℕ
  bytes_of entries = flat_map (λ q. q.1) entries

  abbrev pub lengths : List SubFileInfo → List ℕ
  lengths files = map (λ file. file.length) files

  read_file_lem :
      (p : ℕ) (entry : D) (bytes before : List ℕ)
      → IsReadable entry bytes
      → length before < suc p
      → (names : List String) × ((blocks : List (List ℕ)) × ((rest : List ℕ) × (read_file fs sha1
                root
                (fs.path entry)
                (suc p)
                (kept fs sha1 before)
              ≡ returns (
                  ok (
                    record { length = length bytes; paths = names },
                    (map sha1.from blocks, kept fs sha1 rest),
                  )))
            × IsSplit (suc p) (before ++ bytes) blocks rest))
  unfolding read_file
  read_file_lem p entry bytes before r s =
      let (blocks, (rest, runs, split)) = hash_file_lem fs sha1 p before bytes s in
      let not_empty : (suc p == 0) ≡ false = ground arith in
      (r.names, (blocks, (rest, rw (not_empty, r.size, r.found, r.file, runs) refl, split)))

  read_entry :
      (p : ℕ) (entry : D) (entries : List (Result D X)) (files : List SubFileInfo) (hashes : List S)
      (overlap : Option (ℕ × S)) (file : SubFileInfo) (more : List S × Option (ℕ × S))
      → read_file fs sha1 root (fs.path entry) p overlap ≡ returns (ok (file, more))
      → read_entries fs sha1 root p (ok entry ∷ entries) files hashes overlap
        ≡ read_entries fs sha1 root p entries (push files file) (hashes ++ more.0) more.1
  unfolding read_entries
  read_entry p entry entries files hashes overlap file more h =
      ap
        (λ r.
          run_then r
            (λ x. read_entries fs sha1 root p entries (push files x.0) (hashes ++ x.1.0) x.1.1))
        h

  read_entries_lem :
      (p : ℕ) (entries : List (D × List ℕ)) (files : List SubFileInfo) (hashes : List S)
      (before : List ℕ)
      → All (λ q. IsReadable q.0 q.1) entries
      → length before < suc p
      → (files' : List SubFileInfo) × ((blocks : List (List ℕ)) × ((rest : List ℕ) × (read_entries
                fs sha1 root
                (suc p)
                (walked entries)
                files
                hashes
                (kept fs sha1 before)
              ≡ returns (ok (files', (hashes ++ map sha1.from blocks, kept fs sha1 rest))))
            × IsSplit (suc p) (before ++ bytes_of entries) blocks rest
            × (lengths files' ≡ lengths files ++ map (λ q. length q.1) entries)))
  unfolding read_entries
  read_entries_lem p [] files hashes before a s = (
    files,
    (
      [],
      (
        before,
        ap (λ l. returns (ok (files, (l, kept fs sha1 before)))) (append_nil hashes),
        record { all = append_nil before; full = tt; short = s },
        append_nil (lengths files),
      ),
    ),
  )
  read_entries_lem p ((entry, bytes) ∷ entries) files hashes before a s =
      let (names, (blocks, (rest, runs, split))) = read_file_lem p entry bytes before a.0 s in
      let file : SubFileInfo = record { length = length bytes; paths = names } in
      let (files', (blocks', (rest', runs', split', same))) =
        read_entries_lem p entries (push files file) (hashes ++ map sha1.from blocks) rest a.1
          split.short in
      (
        files',
        (
          blocks ++ blocks',
          (
            rest',
            read_entry (suc p) entry (walked entries) files hashes (kept fs sha1 before) file
                  (map sha1.from blocks, kept fs sha1 rest) runs
                ∙ runs'
                ∙ ap (λ l. returns (ok (files', (l, kept fs sha1 rest'))))
                    (append_assoc hashes (map sha1.from blocks) (map sha1.from blocks')
                      ∙ ap (λ l. hashes ++ l) (sym (map-append sha1.from blocks blocks'))),
            record {
              all =
                  ap (λ l. l ++ rest') (flat_map-append (λ block. block) blocks blocks')
                  ∙ append_assoc (flat blocks) (flat blocks') rest'
                  ∙ ap (λ l. flat blocks ++ l) split'.all
                  ∙ sym (append_assoc (flat blocks) rest (bytes_of entries))
                  ∙ ap (λ l. l ++ bytes_of entries) split.all
                  ∙ append_assoc before bytes (bytes_of entries);
              full =
                  All-append (λ block. length block ≡ suc p) blocks blocks' split.full split'.full;
              short = split'.short;
            },
            same
                ∙ ap (λ l. l ++ map (λ q. length q.1) entries)
                    (map-append (λ x. x.length) files (file ∷ []))
                ∙ append_assoc (lengths files) (length bytes ∷ []) (map (λ q. length q.1) entries),
          ),
        ),
      )

  overlap_hashed :
      (p : ℕ) (whole : List ℕ) (blocks : List (List ℕ)) (rest : List ℕ)
      → IsSplit (suc p) whole blocks rest
      → with_overlap (map sha1.from blocks) (kept fs sha1 rest)
        ≡ map sha1.from (chunks (length whole) (suc p) whole)
  overlap_hashed p whole blocks rest split =
      last_hashed blocks rest
      ∙ ap (map sha1.from) (
          sym (
            chunks-IsSplit p (length whole) blocks rest split.full split.short
              (omega (arith, ap length split.all)))
          ∙ ap (chunks (length whole) (suc p)) split.all)
    where
      last_hashed :
          (blocks : List (List ℕ)) (rest : List ℕ)
          → with_overlap (map sha1.from blocks) (kept fs sha1 rest)
            ≡ map sha1.from (blocks ++ last rest)
      last_hashed blocks [] = ap (map sha1.from) (append_nil blocks)
      last_hashed blocks (x ∷ xs) = sym (map-append sha1.from blocks ((x ∷ xs) ∷ []))

  -- Where the files of a walk are read as they are, the pieces that are hashed for them, with the one
  -- that is not whole at the end, are those of all their bytes one after the other, and each file has
  -- the length of its bytes.
  pub read_entries-chunks :
      (p : ℕ) (entries : List (D × List ℕ))
      → All (λ q. IsReadable q.0 q.1) entries
      → (files : List SubFileInfo) × ((hashes : List S) × ((overlap : Option (ℕ × S))
            × (read_entries fs sha1 root (suc p) (walked entries) [] [] none
                ≡ returns (ok (files, (hashes, overlap))))
            × (with_overlap hashes overlap
                ≡ map sha1.from (chunks (length (bytes_of entries)) (suc p) (bytes_of entries)))
            × (lengths files ≡ map (λ q. length q.1) entries)))
  read_entries-chunks p entries a =
      let (files, (blocks, (rest, runs, split, same))) =
        read_entries_lem p entries [] [] [] a (omega arith) in
      (
        files,
        (
          map sha1.from blocks,
          (kept fs sha1 rest, runs, overlap_hashed p (bytes_of entries) blocks rest split, same),
        ),
      )

  nothing_walked : fs.is_dir root ≡ true → fs.walk (is_visible_file fs) root ≡ []
  unfolding is_visible_file
  nothing_walked h = fs.walk-refused _ root (ground (arith, fs.is_file-root_entry root h))

  read_dir-is_dir :
      (p : ℕ) → fs.is_dir root ≡ true → read_dir fs sha1 root p ≡ returns (ok ([], []))
  unfolding read_dir read_entries
  read_dir-is_dir p h = rw (nothing_walked h) refl

  content_of_dir :
      (p : ℕ)
      → fs.is_dir root ≡ true
      → read_content fs sha1 root p
        ≡ run_then (read_dir fs sha1 root p) (λ x. returns (ok (multi x.0, x.1)))
  unfolding read_content
  content_of_dir p h = rw (h) refl

  -- A directory is given as the content of a torrent without files and without pieces: the filter of the
  -- walk refuses its root, which is no file.
  pub read_content-is_dir :
      (p : ℕ) → fs.is_dir root ≡ true → read_content fs sha1 root p ≡ returns (ok (multi [], []))
  read_content-is_dir p h =
      content_of_dir p h
      ∙ ap (λ r. run_then r (λ x. returns (ok (multi x.0, x.1)))) (read_dir-is_dir p h)

  -- The pieces of a torrent of one file are those of its bytes.
  pub read_content_lem :
      (p : ℕ) (bytes : List ℕ) (names : List String)
      → fs.is_dir root ≡ false
      → file_info_paths fs root root ≡ ok names
      → fs.path_len root ≡ ok (length bytes)
      → fs.open_file root ≡ ok bytes
      → read_content fs sha1 root (suc p)
        ≡ returns (ok (single (length bytes), map sha1.from (chunks (length bytes) (suc p) bytes)))
  unfolding read_content read_file
  read_content_lem p bytes names d n l o =
      let not_empty : (suc p == 0) ≡ false = ground arith in
      let (blocks, (rest, runs, split)) = hash_file_lem fs sha1 p [] bytes (omega arith) in
      rw (d, l, n, o, not_empty, runs, overlap_hashed p bytes blocks rest split) refl
