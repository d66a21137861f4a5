-- ===== src/Disk/Manager/Guards.antt =====
-- What the disk manager guards: no file that is marked busy is given to a job, and only pieces with the
-- right digest are written.
use mathlib.Core.Path.{subst}
use libp2p_bittorrent_protoc.Base.{
  ℕ, zero, suc, ◌+◌, ◌-◌, length-drop, ◌≡◌, ◌≤◌, ◌<◌, ◌⊎◌, refl, sym, ◌∙◌, inl, inr, Bool, true,
  false, ◌&&◌, List, [], ◌∷◌, some, Option-cases, Bool-cases, ok, err, done, panic, Outcome-cases,
  Poll, Poll-cases, arith, All, length, nat_eq, leb, take, drop, ◌==◌,
}
use libp2p_bittorrent_protoc.Base.Map
use libp2p_bittorrent_protoc.Base.Vec.{push}
use libp2p_bittorrent_protoc.Crates.LruCache.{LruCache}
use libp2p_bittorrent_protoc.Hash.{ShaHash}
use libp2p_bittorrent_protoc.Disk.Block.{BlockMetadata, Block}
use libp2p_bittorrent_protoc.Disk.Files.{TorrentFileId, FileEntry, FileWindow, files_for_block}
use libp2p_bittorrent_protoc.Disk.FileSystem.{OpenFile}
use libp2p_bittorrent_protoc.Disk.Finalize.{BlockFile, BlockJob, BlockFileWrite}
use libp2p_bittorrent_protoc.Disk.Transfer.{new_write}
use libp2p_bittorrent_protoc.Disk.Manager.{
  FileState, queued, busy, DiskManager, Acquired, collected, failed, acquire, settle, block_files,
  eq_window, poll_files, knows_piece,
}
use libp2p_bittorrent_protoc.Disk.Manager.Jobs.{poll_create_block_write, fragments, slice}

-- two identifiers of files are the same or not
pub file_id-cases : (a b : TorrentFileId) → (a ≡ b) ⊎ (a ≡ b → ⊥)
file_id-cases a b = elim (Bool-cases (a.torrent == b.torrent)) [
  | inl p ↦ elim (Bool-cases (a.file == b.file)) [
    | inl q ↦ inl (ground arith)
    | inr q ↦ inr (λ h. ground arith)
  ]
  | inr p ↦ inr (λ h. ground arith)
]

All-push : {A : Type 0} (Q : A → Type 0) (xs : List A) (x : A) → All Q xs → Q x → All Q (push xs x)
All-push Q [] x h q = (q, tt)
All-push Q (y ∷ xs) x h q = (h.0, All-push Q xs x h.1 q)

pub All-block_files :
    {F : Type 0} (Q : TorrentFileId → Type 0) (q : List (TorrentFileId × F × FileWindow))
    → All (λ x. Q x.0) q
    → All (λ b. Q b.1.id) (block_files q)
All-block_files Q [] h = tt
All-block_files Q (x ∷ q) h = (h.0, All-block_files Q q h.1)

module _ (F : Type 0) {C : Type 0} ⦃c : LruCache C TorrentFileId (FileState F)⦄ where
  -- the file is not with a job
  abbrev pub IsFree : C → TorrentFileId → Type 0
  IsFree cache id = (w : FileWindow) → c.peek id cache ≡ some (busy w) → ⊥

  -- a file that is with a job is still marked in the cache
  abbrev Keeps : C → C → Type 0
  Keeps before cache =
      (id : TorrentFileId) (w : FileWindow)
      → c.peek id before ≡ some (busy w)
      → c.peek id cache ≡ some (busy w)

  -- taking a free file out of the cache
  Keeps-remove :
      (before cache : C) (id : TorrentFileId)
      → Keeps before cache
      → IsFree cache id
      → Keeps before (c.remove id cache).0
  Keeps-remove before cache id keeps free j w h = elim (file_id-cases id j) [
    | inl e ↦ absurd (free w (subst (λ x. c.peek x cache ≡ some (busy w)) (sym e) (keeps j w h)))
    | inr n ↦ c.peek-remove_other id j cache n ∙ keeps j w h
  ]

  Keeps-IsFree :
      (before cache : C) (id : TorrentFileId)
      → Keeps before cache
      → IsFree cache id
      → IsFree before id
  Keeps-IsFree before cache id keeps free w h = free w (keeps id w h)

module _ {F C S : Type 0} ⦃c : LruCache C TorrentFileId (FileState F)⦄ ⦃o : OpenFile S F⦄ where
  pub acquire-false :
      (files : List (FileEntry × FileWindow)) (cache : C) (fs : S)
      (q q' : List (TorrentFileId × F × FileWindow))
      → (acquire files cache fs q false).2 ≡ collected q' true
      → ⊥
  unfolding acquire
  acquire-false [] cache fs q q' h = ground arith
  acquire-false ((file, window) ∷ files) cache fs q q' h =
      elim (Option-cases (c.remove file.id cache).1) [
        | inl n ↦ elim (Poll-cases (o.poll_open_file fs file).1) [
          | inl z ↦ ground arith
          | inr (ok f, z) ↦ ground (
            arith,
            acquire-false files (c.remove file.id cache).0 (o.poll_open_file fs file).0
                (push q (file.id, f, window)) q',
          )
          | inr (err x, z) ↦ ground arith
        ]
        | inr (FileState.ready f, n) ↦ ground (
          arith,
          acquire-false files (c.remove file.id cache).0 fs (push q (file.id, f, window)) q',
        )
        | inr (queued f w, n) ↦ ground (
          arith,
          acquire-false files (c.remove file.id cache).0 fs (push q (file.id, f, window)) q',
        )
        | inr (busy w, n) ↦ ground (
          arith,
          acquire-false files (c.insert file.id (busy w) (c.remove file.id cache).0) fs q q',
        )
      ]

  -- what the loop has collected, of files that no job has, is of such files
  acquire-IsFree :
      (before cache : C) (files : List (FileEntry × FileWindow)) (fs : S)
      (q q' : List (TorrentFileId × F × FileWindow)) (ar : Bool)
      → Keeps F before cache
      → All (λ x. IsFree F before x.0) q
      → (acquire files cache fs q ar).2 ≡ collected q' true
      → All (λ x. IsFree F before x.0) q'
  unfolding acquire
  acquire-IsFree before cache [] fs q q' ar keeps free h =
      subst (All (λ x. IsFree F before x.0)) (ground arith) free
  acquire-IsFree before cache ((file, window) ∷ files) fs q q' ar keeps free h =
      elim (Option-cases (c.remove file.id cache).1) [
        | inl n ↦
            let absent : IsFree F cache file.id =
              λ w z. ground (arith, c.remove_lem file.id cache) in
            elim (Poll-cases (o.poll_open_file fs file).1) [
              | inl z ↦ absurd (ground arith)
              | inr (ok f, z) ↦
                  acquire-IsFree before (c.remove file.id cache).0 files
                    (o.poll_open_file fs file).0 (push q (file.id, f, window)) q' ar
                    (Keeps-remove F before cache file.id keeps absent)
                    (All-push (λ x. IsFree F before x.0) q (file.id, f, window) free
                      (Keeps-IsFree F before cache file.id keeps absent))
                    (ground arith)
              | inr (err x, z) ↦ absurd (ground arith)
            ]
        | inr (FileState.ready f, n) ↦
            let absent : IsFree F cache file.id =
              λ w z. ground (arith, c.remove_lem file.id cache) in
            acquire-IsFree before (c.remove file.id cache).0 files fs (push q (file.id, f, window))
              q' ar (Keeps-remove F before cache file.id keeps absent)
              (All-push (λ x. IsFree F before x.0) q (file.id, f, window) free
                (Keeps-IsFree F before cache file.id keeps absent))
              (ground arith)
        | inr (queued f v, n) ↦
            let absent : IsFree F cache file.id =
              λ w z. ground (arith, c.remove_lem file.id cache) in
            acquire-IsFree before (c.remove file.id cache).0 files fs (push q (file.id, f, window))
              q' (ar && eq_window window v) (Keeps-remove F before cache file.id keeps absent)
              (All-push (λ x. IsFree F before x.0) q (file.id, f, window) free
                (Keeps-IsFree F before cache file.id keeps absent))
              (ground arith)
        | inr (busy v, n) ↦ absurd (
            acquire-false files (c.insert file.id (busy v) (c.remove file.id cache).0) fs q q'
              (ground arith))
      ]

  settle-IsFree :
      {M : Type 0} (m m' : DiskManager F C S M) (r : C × S × Acquired F)
      (blocks : List (FileWindow × BlockFile F))
      → ((q : List (TorrentFileId × F × FileWindow))
          → r.2 ≡ collected q true
          → All (λ x. IsFree F m.file_cache x.0) q)
      → settle m r ≡ (m', Poll.ready (ok blocks))
      → All (λ b. IsFree F m.file_cache b.1.id) blocks
  unfolding settle
  settle-IsFree m m' (cache, fs, failed) blocks free h = absurd (ground arith)
  settle-IsFree m m' (cache, fs, collected q false) blocks free h = absurd (ground arith)
  settle-IsFree m m' (cache, fs, collected q true) blocks free h =
      subst (All (λ b. IsFree F m.file_cache b.1.id)) (ground arith)
        (All-block_files (IsFree F m.file_cache) q (free q refl))

  -- none of the files that are handed out was marked busy in the cache
  pub poll_files-IsFree :
      {M : Type 0} (id : ℕ) (meta : BlockMetadata) (m m' : DiskManager F C S M)
      (blocks : List (FileWindow × BlockFile F))
      → poll_files id meta m ≡ done (m', Poll.ready (ok blocks))
      → All (λ b. IsFree F m.file_cache b.1.id) blocks
  unfolding poll_files
  poll_files-IsFree id meta m m' blocks h = elim (Option-cases (Map.get id m.torrents)) [
    | inl n ↦ absurd (ground arith)
    | inr ((torrent, info), n) ↦ elim (Outcome-cases (files_for_block meta torrent)) [
      | inl z ↦ absurd (ground arith)
      | inr (err e, z) ↦ absurd (ground arith)
      | inr (ok [], z) ↦ absurd (ground arith)
      | inr (ok (file ∷ files), z) ↦
          settle-IsFree m m' (acquire (file ∷ files) m.file_cache m.file_system [] true) blocks
            (λ q.
              acquire-IsFree m.file_cache m.file_cache (file ∷ files) m.file_system [] q true
                (λ j w x. x) tt)
            (ground arith)
    ]
  ]

  -- A block is made a job to write only where it is a piece of its torrent by its digest.
  pub poll_create_block_write-knows_piece :
      {M : Type 0} (digest : List ℕ → ShaHash) (id : ℕ) (block : Block) (m m' : DiskManager F C S M)
      (job : BlockJob F)
      → poll_create_block_write digest id block m ≡ done (m', Poll.ready (ok job))
      → knows_piece digest id block m ≡ true
  unfolding poll_create_block_write
  poll_create_block_write-knows_piece digest id block m m' job h =
      elim (Bool-cases (knows_piece digest id block m)) [
        | inl y ↦ y
        | inr y ↦ absurd (ground arith)
      ]

length-take : {A : Type 0} (n : ℕ) (xs : List A) → n ≤ length xs → length (take n xs) ≡ n
length-take zero xs h = refl
length-take (suc n) [] h = omega arith
length-take (suc n) (x ∷ xs) h = omega (arith, length-take n xs (omega arith))

slice-length :
    (block s : List ℕ) (from to : ℕ) → slice block from to ≡ done s → length s + from ≡ to
slice-length block s from to h = elim (Bool-cases (leb from to && leb to (length block))) [
  | inl y ↦ ground (arith, length-drop from block, length-take (to - from) (drop from block))
  | inr y ↦ absurd (ground arith)
]

-- A block that lies in two files is never cut right: where both windows hold a byte, the manager
-- panics or cuts a second fragment that is shorter than its window.
pub fragments-two :
    {F : Type 0} (block : List ℕ) (w w' : FileWindow) (f f' : BlockFile F)
    → 0 < w.length
    → 0 < w'.length
    → (fragments block 0 ((w, f) ∷ (w', f') ∷ []) ≡ panic)
      ⊎ ((a b : BlockFileWrite F) × (fragments block 0 ((w, f) ∷ (w', f') ∷ []) ≡ done (a ∷ b ∷ []))
          × (length b.block < w'.length))
unfolding fragments new_write
fragments-two block w w' f f' p q = elim (Outcome-cases (slice block 0 w.length)) [
  | inl z ↦ inl (rw z refl)
  | inr (s, z) ↦ elim (Outcome-cases (slice block (0 + w.length) w'.length)) [
    | inl y ↦ inl (rw (z, y) refl)
    | inr (s', y) ↦ inr (
      new_write f s w,
      new_write f' s' w',
      rw (z, y) refl,
      omega (arith, slice-length block s' (0 + w.length) w'.length y),
    )
  ]
]
